-- ===== src/P2p/Ends.antt =====
-- Calls that do not run out of fuel, and a database within the bounds that the loops need.
use peerplays_contract_node.Prelude.{
  ℕ, ◌+◌, ◌^◌, ◌≤◌, ◌<◌, ◌≡◌, ◌≢◌, refl, ap, if◌then◌else◌, Bool, true, false, List, length, Result,
  ok, fail, out_of_fuel, ◌>>=◌,
}
use peerplays_contract_node.P2p.Defs.{Hash, Database, back}

-- The call returns what satisfies `P`, or fails for another reason than its fuel.
abbrev pub Ends : {A : Type 0} → (A → Type 0) → Result A → Type 0
Ends P (ok x) = P x
Ends P (fail e) = e ≢ out_of_fuel

abbrev pub Done : {A : Type 0} → A → Type 0
Done x = Unit {0}

pub Ends-bind :
    {A B : Type 0} (P : A → Type 0) (Q : B → Type 0) (r : Result A) (k : A → Result B)
    → Ends P r
    → ((x : A) → P x → Ends Q (k x))
    → Ends Q (r >>= k)
Ends-bind P Q (ok x) k h f = f x h
Ends-bind P Q (fail e) k h f = h

pub Ends-intro : {A : Type 0} (r : Result A) → r ≢ fail out_of_fuel → Ends (λ x. r ≡ ok x) r
Ends-intro (ok x) h = refl
Ends-intro (fail e) h = λ same. h (ap fail same)

pub Ends-elim : {A : Type 0} (P : A → Type 0) (r : Result A) → Ends P r → r ≢ fail out_of_fuel
Ends-elim P (ok x) h = λ same. cc
Ends-elim P (fail e) h = λ same. h cc

pub Ends-imp :
    {A : Type 0} (P Q : A → Type 0) (r : Result A) → ((x : A) → P x → Q x) → Ends P r → Ends Q r
Ends-imp P Q (ok x) f h = f x h
Ends-imp P Q (fail e) f h = h

-- Of a test, with its answer known in each branch.
pub Ends-branch :
    {A : Type 0} (P : A → Type 0) (c : Bool) (x y : Result A)
    → (c ≡ true → Ends P x)
    → (c ≡ false → Ends P y)
    → Ends P (elim c [ true ↦ x | false ↦ y ])
Ends-branch P true x y f g = f refl
Ends-branch P false x y f g = g refl

pub Ends-if :
    {A : Type 0} (P : A → Type 0) (c : Bool) (x y : Result A)
    → (c ≡ true → Ends P x)
    → (c ≡ false → Ends P y)
    → Ends P (if c then x else y)
Ends-if P true x y f g = f refl
Ends-if P false x y f g = g refl

-- No call of the database is a loop of this model, and the numbers of blocks leave room, with
-- `after` added, below the largest of 32 bits.
pub record Bounded (db : Database) (after : ℕ) : Type 0 where
  pub narrow : db.head_block_num + after + 1 < 2 ^ 32
  pub undo : db.last_non_undoable_block_num ≤ db.head_block_num
  pub in_chain : (n : ℕ) (id : Hash) → db.get_block_id_for_num n ≡ ok id → n ≤ db.head_block_num
  pub on_fork :
      (id : Hash) (history : List Hash)
      → db.get_block_ids_on_fork id ≡ ok history
      → db.num_from_id (back history) + length history + after < 2 ^ 32
  pub gets : (n : ℕ) → db.get_block_id_for_num n ≢ fail out_of_fuel
  pub forks : (id : Hash) → db.get_block_ids_on_fork id ≢ fail out_of_fuel
