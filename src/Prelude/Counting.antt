-- ===== src/Prelude/Counting.antt =====
-- Counting the elements of a list that meet a condition.
use Prim.Native.Nat.{ℕ, ◌+◌, ◌≤◌}
use mathlib.Core.Path.{◌≡◌, refl}
use mathlib.Core.Bool.{Bool, true, false}
use mathlib.Core.List.{List, [], ◌∷◌}
use native.Mathlib.Omega.{arith}

abbrev pub bit : Bool → ℕ
bit true = 1
bit false = 0

-- The number of elements that meet a condition.
unfoldable pub matches : {R : Type 0} → (R → Bool) → List R → ℕ
matches p [] = 0
matches p (r ∷ rs) = bit (p r) + matches p rs

pub matches-le :
    {R : Type 0} (p q : R → Bool) (rs : List R)
    → ((r : R) → bit (p r) ≤ bit (q r))
    → matches p rs ≤ matches q rs
unfolding matches
matches-le p q [] h = omega arith
matches-le p q (r ∷ rs) h = omega (arith, h r, matches-le p q rs h)

pub matches-ext :
    {R : Type 0} (p q : R → Bool) (rs : List R)
    → ((r : R) → p r ≡ q r)
    → matches p rs ≡ matches q rs
unfolding matches
matches-ext p q [] h = refl
matches-ext p q (r ∷ rs) h = rw (h r, matches-ext p q rs h) refl
