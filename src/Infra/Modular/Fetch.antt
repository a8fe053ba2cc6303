-- ===== src/Infra/Modular/Fetch.antt =====
-- The paths of the list of modules lead to the modules.
use peerplays_contract_node.Prelude.{
  ◌≡◌, sym, ◌∙◌, List, [], ◌∷◌, ◌++◌, append_assoc, append-nil, ok, fail, ill_formed, Bool, true,
  false, not, ◌&&◌, ◌||◌, Option, none, some, ◌⊎◌, All, All-append, All-imp,
}
use peerplays_contract_node.Infra.Modular.{
  Getter, Getters, Module, module_of, undefined, defined, Entries, no_entries, api_entry,
  submodule_entry, other_entry, Submodules, no_submodules, submodule, dmarc_for, submodules_in,
  fetch_submodule,
}
use peerplays_contract_node.Infra.Modular.Preorder.{preorder, preorder_entries, preorder_submodules}

-- The getter is demarcated among these submodules, and returns that module.
pub data Has : Submodules → Getter → Module → Type 0 where
  first : {g : Getter} {m : Module} {rest : Submodules} → Has (submodule g m rest) g m
  later :
      {g h : Getter} {m k : Module} {rest : Submodules}
      → Has rest h k
      → Has (submodule g m rest) h k

-- A path of getters from one class to another.
pub data Reaches : Module → List Getter → Module → Type 0 where
  arrived : {m : Module} → Reaches m [] m
  onward :
      {m k n : Module} {g : Getter} {path : List Getter}
      → Has (submodules_in (dmarc_for m)) g k
      → Reaches k path n
      → Reaches m (g ∷ path) n

abbrev FromModule : Module → List Getter → Module × List Getter → Type 0
FromModule m path (n, p) = (q : List Getter) × (p ≡ path ++ q) × Reaches m q n

abbrev FromList : Submodules → List Getter → Module × List Getter → Type 0
FromList ms path (n, p) =
    (g : Getter) × (k : Module) × (q : List Getter) × (p ≡ path ++ g ∷ q)
    × Has ms g k
    × Reaches k q n

mutual
  unfolding preorder submodules_in dmarc_for

  preorder-From : (m : Module) (path : List Getter) → All (FromModule m path) (preorder m path)
  preorder-From (module_of name undefined) path = (([], sym (append-nil path), arrived), tt)
  preorder-From (module_of name (defined entries)) path = (
    ([], sym (append-nil path), arrived),
    All-imp (FromList (submodules_in entries) path)
        (FromModule (module_of name (defined entries)) path) (preorder_entries entries path)
        (λ (n, p) (g, k, q, e, has, reaches). (g ∷ q, e, onward has reaches))
        (entries-From entries path),
  )

  entries-From :
      (es : Entries) (path : List Getter)
      → All (FromList (submodules_in es) path) (preorder_entries es path)
  entries-From no_entries path = tt
  entries-From (api_entry apis rest) path = entries-From rest path
  entries-From (submodule_entry modules rest) path = submodules-From modules path
  entries-From (other_entry tag rest) path = entries-From rest path

  submodules-From :
      (ms : Submodules) (path : List Getter) → All (FromList ms path) (preorder_submodules ms path)
  submodules-From no_submodules path = tt
  submodules-From (submodule g k rest) path =
      All-append (FromList (submodule g k rest) path) (preorder k (path ++ g ∷ []))
        (preorder_submodules rest path)
        (All-imp (FromModule k (path ++ g ∷ [])) (FromList (submodule g k rest) path)
          (preorder k (path ++ g ∷ []))
          (λ (n, p) (q, e, reaches). (g, k, q, e ∙ append_assoc path (g ∷ []) q, first, reaches))
          (preorder-From k (path ++ g ∷ [])))
        (All-imp (FromList rest path) (FromList (submodule g k rest) path)
          (preorder_submodules rest path)
          (λ (n, p) (h, j, q, e, has, reaches). (h, j, q, e, later has, reaches))
          (submodules-From rest path))

-- The method of each getter, on an object of its class, answers an object of the class that it is
-- demarcated with.
abbrev pub Invokes : {O : Type 0} → Getters O → (O → Module → Type 0) → Type 0
Invokes {O} getters IsA =
    (o : O) (m k : Module) (g : Getter)
    → IsA o m
    → Has (submodules_in (dmarc_for m)) g k
    → IsA ((getters.demarcated g).method o) k

-- A copy of an object is of its class.
abbrev pub Copies : {O : Type 0} → Getters O → (O → Module → Type 0) → Type 0
Copies {O} getters IsA =
    (o : O) (m : Module) (g : Getter) (copies : O → O)
    → getters.copy g ≡ some copies
    → IsA o m
    → IsA (copies o) m

abbrev pub is_some : {A : Type 0} → Option A → Bool
is_some none = false
is_some (some a) = true

-- What the compiler asks of a path: no getter is const, all but the last answer references, and
-- the last a pointer, or a reference to an object that can be copied.
abbrev pub is_fetchable : {O : Type 0} → Getters O → List Getter → Bool
is_fetchable getters [] = false
is_fetchable getters (g ∷ []) =
    not (getters.demarcated g).is_const && (getters.answers_pointer g || is_some (getters.copy g))
is_fetchable getters (g ∷ h ∷ path) =
    not (getters.demarcated g).is_const
    && not (getters.answers_pointer g)
    && is_fetchable getters (h ∷ path)

module _ {O : Type 0} (getters : Getters O) (IsA : O → Module → Type 0)
    (typed : Invokes getters IsA) (copied : Copies getters IsA) where
  abbrev Outcome : O → List Getter → Module → Type 0
  Outcome o path n =
      ((found : O) × (is_fetchable getters path ≡ true)
        × (fetch_submodule getters o path ≡ ok found)
        × IsA found n)
      ⊎ ((is_fetchable getters path ≡ false) × (fetch_submodule getters o path ≡ fail ill_formed))

  -- The root's path is empty, and cannot be fetched.
  abbrev pub Fetched : O → Module × List Getter → Type 0
  Fetched root (n, []) = Unit {0}
  Fetched root (n, g ∷ path) = Outcome root (g ∷ path) n
