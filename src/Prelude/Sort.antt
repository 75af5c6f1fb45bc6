-- ===== src/Prelude/Sort.antt =====
-- `sort.SliceStable` of Go, as insertion from the back, and what it promises of a strict weak order.
use Prim.Native.Nat.{◌+◌, ◌≤◌}
use mathlib.Core.Path.{◌≡◌, refl}
use mathlib.Core.Bool.{Bool, true, false, ◌&&◌, not}
use mathlib.Core.List.{List, [], ◌∷◌}
use mathlib.Core.Logic.{inl, inr}
use native.Mathlib.Omega.{arith}
use social_network_micro_ser.Prelude.Tests.{if◌then◌else◌, Bool-cases}
use social_network_micro_ser.Prelude.Counting.{bit, matches, matches-le}

unfoldable pub filter : {R : Type 0} → (R → Bool) → List R → List R
filter p [] = []
filter p (r ∷ rs) = let rest = filter p rs in if p r then r ∷ rest else rest

module _ {R : Type 0} (less : R → R → Bool) where
  unfoldable pub insert : R → List R → List R
  insert x [] = x ∷ []
  insert x (y ∷ ys) = let rest = insert x ys in if less y x then y ∷ rest else x ∷ y ∷ ys

  unfoldable pub stable_sort : List R → List R
  unfolding insert
  stable_sort [] = []
  stable_sort (x ∷ xs) = insert x (stable_sort xs)

  -- No element stands behind one that it is less than.
  unfoldable pub Sorted : List R → Type 0
  Sorted [] = Unit {0}
  Sorted (x ∷ xs) = (matches (λ y. less y x) xs ≡ 0) × Sorted xs

  abbrev pub ties : R → R → Bool
  ties x y = not (less x y) && not (less y x)

  matches-insert :
      (p : R → Bool) (x : R) (ys : List R) → matches p (insert x ys) ≡ bit (p x) + matches p ys
  unfolding matches insert
  matches-insert p x [] = refl
  matches-insert p x (y ∷ ys) = ground (arith, matches-insert p x ys)

  pub matches-stable_sort : (p : R → Bool) (xs : List R) → matches p (stable_sort xs) ≡ matches p xs
  unfolding matches stable_sort
  matches-stable_sort p [] = refl
  matches-stable_sort p (x ∷ xs) =
      omega (arith, matches-insert p x (stable_sort xs), matches-stable_sort p xs)

  module _ (asym : (x y : R) → less x y ≡ true → less y x ≡ false)
      (between : (x y z : R) → less x y ≡ false → less y z ≡ false → less x z ≡ false) where
    behind :
        (x y : R) (ys : List R)
        → less y x ≡ false
        → matches (λ z. less z y) ys ≡ 0
        → matches (λ z. less z x) ys ≡ 0
    behind x y ys h none =
        let all =
          matches-le (λ z. less z x) (λ z. less z y) ys (λ z. ground (arith, between z y x)) in
        omega arith

    insert-Sorted : (x : R) (ys : List R) → Sorted ys → Sorted (insert x ys)
    unfolding Sorted insert matches
    insert-Sorted x [] h = (refl, tt)
    insert-Sorted x (y ∷ ys) (h, hs) = elim (Bool-cases (less y x)) [
      | inl first ↦
          let back = asym y x first in
          let count = matches-insert (λ z. less z y) x ys in
          rw first (ground arith, insert-Sorted x ys hs)
      | inr later ↦ let none = behind x y ys later h in rw later (ground arith, (h, hs))
    ]

    pub stable_sort-Sorted : (xs : List R) → Sorted (stable_sort xs)
    unfolding Sorted stable_sort
    stable_sort-Sorted [] = tt
    stable_sort-Sorted (x ∷ xs) = insert-Sorted x (stable_sort xs) (stable_sort-Sorted xs)

    filter-insert :
        (c x : R) (ys : List R) → filter (ties c) (insert x ys) ≡ filter (ties c) (x ∷ ys)
    unfolding filter insert
    filter-insert c x [] = refl
    filter-insert c x (y ∷ ys) = ground (arith, filter-insert c x ys, between y c x)

    -- Elements that tie keep their order.
    pub filter-stable_sort :
        (c : R) (xs : List R) → filter (ties c) (stable_sort xs) ≡ filter (ties c) xs
    unfolding filter stable_sort
    filter-stable_sort c [] = refl
    filter-stable_sort c (x ∷ xs) =
        ground (arith, filter-insert c x (stable_sort xs), filter-stable_sort c xs)

pub filter_none : {R : Type 0} (p : R → Bool) (rs : List R) → matches p rs ≡ 0 → filter p rs ≡ []
unfolding matches filter
filter_none p [] h = refl
filter_none p (r ∷ rs) h = ground (arith, filter_none p rs)

pub matches-filter :
    {R : Type 0} (p q : R → Bool) (rs : List R) → matches p (filter q rs) ≤ matches p rs
unfolding matches filter
matches-filter p q [] = omega arith
matches-filter p q (r ∷ rs) = ground (arith, matches-filter p q rs)
