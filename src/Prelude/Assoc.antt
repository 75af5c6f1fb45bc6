-- ===== src/Prelude/Assoc.antt =====
-- Go maps from strings: one row for each key.
use mathlib.Core.Path.{◌≡◌, refl}
use mathlib.Core.Option.{Option, none, some}
use mathlib.Core.List.{List, [], ◌∷◌}
use native.Mathlib.Omega.{arith}
use social_network_micro_ser.Prelude.Tests.{if◌then◌else◌}
use social_network_micro_ser.Prelude.Bytes.{Text, text_eq, text_eq_iff}

unfoldable pub lookup : {A : Type 0} → Text → List (Text × A) → Option A
lookup key [] = none
lookup key ((k, a) ∷ rest) = if text_eq k key then some a else lookup key rest

unfoldable pub put : {A : Type 0} → Text → A → List (Text × A) → List (Text × A)
put key a [] = (key, a) ∷ []
put key a ((k, old) ∷ rest) =
    let more = put key a rest in if text_eq k key then (k, a) ∷ rest else (k, old) ∷ more

pub lookup-put :
    {A : Type 0} (key : Text) (a : A) (rows : List (Text × A)) (j : Text)
    → lookup j (put key a rows) ≡ (if text_eq key j then some a else lookup j rows)
unfolding lookup put
lookup-put key a [] j = refl
lookup-put key a ((k, old) ∷ rest) j =
    ground (arith, lookup-put key a rest j, text_eq_iff k key, text_eq_iff k j, text_eq_iff key j)

unfoldable pub remove_key : {A : Type 0} → Text → List (Text × A) → List (Text × A)
remove_key key [] = []
remove_key key ((k, a) ∷ rest) =
    let more = remove_key key rest in if text_eq k key then more else (k, a) ∷ more

pub lookup-remove_key :
    {A : Type 0} (key : Text) (rows : List (Text × A)) (j : Text)
    → lookup j (remove_key key rows) ≡ (if text_eq key j then none else lookup j rows)
unfolding lookup remove_key
lookup-remove_key key [] j = ground arith
lookup-remove_key key ((k, a) ∷ rest) j =
    ground
      (arith, lookup-remove_key key rest j, text_eq_iff k key, text_eq_iff k j, text_eq_iff key j)
