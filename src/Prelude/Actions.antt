-- ===== src/Prelude/Actions.antt =====
-- Calls that change a state and may throw. The state comes back beside a failure too, since what
-- was written before a throw stays written.
use mathlib.Core.Path.{◌≡◌, refl, sym, ap, subst}
use native.Mathlib.Omega.{arith}
use mathlib.Core.Bool.{Bool, true, false}
use peerplays_contract_node.Prelude.Failures.{Failure, Result, ok, fail}

abbrev pub Action : Type 0 → Type 0 → Type 0
Action S A = S → Result A × S

module _ {S A : Type 0} where
  abbrev pub pure : A → Action S A
  pure a s = (ok a, s)

  abbrev pub throw : Failure → Action S A
  throw e s = (fail e, s)

  abbrev pub gets : (S → A) → Action S A
  gets f s = (ok (f s), s)

infixl 5 ◌>>=◌ ◌>>◌
abbrev pub ◌>>=◌ : {S A B : Type 0} → Action S A → (A → Action S B) → Action S B
◌>>=◌ m f s = let (r, t) = m s in elim r [ ok a ↦ f a t | fail e ↦ throw e t ]

abbrev pub ◌>>◌ : {S B : Type 0} → Action S (Unit {0}) → Action S B → Action S B
m >> k = m >>= λ _. k

abbrev pub modify : {S : Type 0} → (S → S) → Action S (Unit {0})
modify f s = (ok tt, f s)

-- A call that happens only under a test.
abbrev pub when : {S : Type 0} → Bool → Action S (Unit {0}) → Action S (Unit {0})
when true m s = m s
when false m s = (ok tt, s)

abbrev pub require_state : {S : Type 0} → Bool → Failure → Action S (Unit {0})
require_state true e s = (ok tt, s)
require_state false e s = (fail e, s)

-- A sequence that has ended well: so have both its parts.
pub bind-ok :
    {S A B : Type 0} (m : Action S A) (k : A → Action S B) (s : S) (b : B) (t : S)
    → (m >>= k) s ≡ (ok b, t)
    → (a : A) × (u : S) × (m s ≡ (ok a, u)) × (k a u ≡ (ok b, t))
bind-ok {A = A} m k s b t e = go (m s).0 (m s).1 refl
  where
    go :
        (r : Result A) (u : _)
        → m s ≡ (r, u)
        → (a : A) × (u : _) × (m s ≡ (ok a, u)) × (k a u ≡ (ok b, t))
    go (ok a) u f = (a, u, f, ground (arith, e, f))
    go (fail g) u f = absurd (ground (arith, e, f))

-- What holds after the first call, and what the second keeps, holds after both.
pub bind-holds :
    {S A B : Type 0} (P : S → Type 0) (m : Action S A) (k : A → Action S B) (s : S)
    → P (m s).1
    → ((a : A) (t : S) → P t → P (k a t).1)
    → P ((m >>= k) s).1
bind-holds {A = A} P m k s first second = go (m s).0 (m s).1 refl
  where
    go : (r : Result A) (u : _) → m s ≡ (r, u) → P ((m >>= k) s).1
    go (ok a) u e =
        let at_u : (m s).1 ≡ u = ap (λ x. x.1) e in
        let next : ((m >>= k) s).1 ≡ (k a u).1 = ground (arith, e) in
        subst P (sym next) (second a u (subst P at_u first))
    go (fail f) u e =
        let next : ((m >>= k) s).1 ≡ (m s).1 = ground (arith, e) in subst P (sym next) first

-- A relation of the states before and after a call, in sequence.
pub bind-relates :
    {S A B : Type 0} (R : S → S → Type 0)
    → ((s t u : S) → R s t → R t u → R s u)
    → (m : Action S A) (k : A → Action S B) → ((s : S) → R s (m s).1)
    → ((a : A) (s : S) → R s (k a s).1)
    → (s : S) → R s ((m >>= k) s).1
bind-relates R trans m k first second s =
    bind-holds (R s) m k s (first s) (λ a t h. trans s t (k a t).1 h (second a t))
