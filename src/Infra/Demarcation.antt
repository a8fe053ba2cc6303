-- ===== src/Infra/Demarcation.antt =====
-- `MethodDemarcation` of Infra/Infra.hpp: a method without arguments, or one whose arguments the
-- caller does not give. What the method does with its object is code of the class.
use peerplays_contract_node.Prelude.{ℕ, Bool, true, false, Result, ok, fail, ill_formed}

pub record MethodDemarcation (O R : Type 0) : Type 0 where
  pub argument_count : ℕ
  pub is_const : Bool
  pub method : O → R

-- `Invoke`. For a const method, `Method` is of a type without the const, which its pointer does not
-- convert to.
unfoldable pub invoke : {O R : Type 0} → MethodDemarcation O R → O → Result R
invoke m o = elim m.is_const [ true ↦ fail ill_formed | false ↦ ok (m.method o) ]
