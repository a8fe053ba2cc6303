-- ===== src/Prelude/Failures.antt =====
-- How a call ends that does not return: a C++ exception, by the class that a handler catches it
-- as, a failed `assert` (the build sets no NDEBUG), a step that C++ leaves undefined, a loop
-- that has not ended within the fuel of its model, or an instantiation that does not compile.
use Prim.Native.Nat.{ℕ}
use mathlib.Core.Bool.{Bool, true, false}

pub data Reason : Type 0 where
  peer_is_on_an_unreachable_fork block_older_than_undo_history fc_assert : Reason
  elsewhere : ℕ → Reason

pub data Failure : Type 0 where
  fc_exception : Reason → Failure
  fc_exception_ptr system_error boost_exception bad_cast range_error out_of_range : Failure
  assert_failed undefined_behaviour out_of_fuel ill_formed : Failure

pub data Result {ℓ} (A : Type ℓ) : Type ℓ where
  ok : A → Result A
  fail : Failure → Result A

-- `assert`, `FC_ASSERT`: go on if the test holds.
abbrev pub require : Bool → Failure → Result (Unit {0})
require true e = ok tt
require false e = fail e

infixl 5 ◌>>=◌ ◌>>◌
abbrev pub ◌>>=◌ {ℓ κ} : {A : Type ℓ} {B : Type κ} → Result A → (A → Result B) → Result B
fail e >>= next = fail e
ok value >>= next = next value

abbrev pub ◌>>◌ {κ} : {B : Type κ} → Result (Unit {0}) → Result B → Result B
check >> rest = check >>= λ _. rest
