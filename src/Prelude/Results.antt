-- ===== src/Prelude/Results.antt =====
-- Results of fallible code, and handlers over a state that may fail.
use mathlib.Core.Path.{◌≡◌, refl}
use mathlib.Core.Logic.{◌⊎◌, inl, inr}
use mathlib.Core.Bool.{Bool, true, false}
use mathlib.Core.Option.{Option, none, some}

pub data Outcome {ℓ κ} (E : Type ℓ) (A : Type κ) : Type (ℓ ⊔ κ) where
  ok : A → Outcome E A
  fail : E → Outcome E A

pub Outcome-cases {ℓ κ} :
    {E : Type ℓ} {A : Type κ} (o : Outcome E A) → ((a : A) × (o ≡ ok a)) ⊎ ((e : E) × (o ≡ fail e))
Outcome-cases (ok a) = inl (a, refl)
Outcome-cases (fail e) = inr (e, refl)

-- A handler keeps the state that it leaves behind when it fails.
abbrev pub Action : Type 0 → Type 0 → Type 0 → Type 0
Action S E A = S → Outcome E A × S

module _ {S E : Type 0} where
  infixl 5 ◌>>=◌ ◌>>◌
  abbrev pub ◌>>=◌ : {A B : Type 0} → Action S E A → (A → Action S E B) → Action S E B
  ◌>>=◌ m f s = elim (m s).0 [ ok a ↦ f a (m s).1 | fail e ↦ (fail e, (m s).1) ]

  abbrev pub ◌>>◌ : {A B : Type 0} → Action S E A → Action S E B → Action S E B
  m >> k = m >>= λ _. k

  abbrev pub pure : {A : Type 0} → A → Action S E A
  pure a s = (ok a, s)

  abbrev pub throw : {A : Type 0} → E → Action S E A
  throw e s = (fail e, s)

  -- `v, err := m`, where the code goes on in either case.
  abbrev pub attempt : {A : Type 0} → Action S E A → Action S E (Outcome E A)
  attempt m s = (ok (m s).0, (m s).1)

  -- `_ = m`
  abbrev pub ignore : {A : Type 0} → Action S E A → Action S E (Unit {0})
  ignore m s = (ok tt, (m s).1)

  abbrev pub lift : {A : Type 0} → Outcome E A → Action S E A
  lift o s = (o, s)

abbrev pub relabel : {E A : Type 0} → E → Outcome E A → Outcome E A
relabel e (ok a) = ok a
relabel e (fail e') = fail e

abbrev pub or_error : {E A : Type 0} → E → Option A → Outcome E A
or_error e none = fail e
or_error e (some a) = ok a

abbrev pub test_or : {E : Type 0} → Bool → E → Outcome E (Unit {0})
test_or true e = ok tt
test_or false e = fail e

module _ {S E : Type 0} where
  -- `if err != nil { return e }`
  abbrev pub or_fail : {A : Type 0} → E → Outcome E A → Action S E A
  or_fail e o s = (relabel e o, s)

  -- `if !b { return e }`
  abbrev pub guard : Bool → E → Action S E (Unit {0})
  guard b e s = (test_or b e, s)
