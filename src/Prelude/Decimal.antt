-- ===== src/Prelude/Decimal.antt =====
-- `strconv.Itoa` on the naturals, `strconv.Atoi` on digits, and `time.Duration.String` on whole
-- seconds.
use Prim.Native.Nat.{ℕ, zero, suc, ◌+◌, ◌-◌, ◌*◌, ◌/◌, ◌%◌, ◌<◌, ◌≤◌}
use mathlib.Core.Path.{◌≡◌}
use mathlib.Core.Logic.{inl, inr}
use mathlib.Core.Bool.{◌&&◌}
use mathlib.Core.Option.{Option, none, some}
use mathlib.Core.List.{[], ◌∷◌, ◌++◌}
use native.Mathlib.Omega.{arith}
use social_network_micro_ser.Prelude.Tests.{ltb, leb, if◌then◌else◌, Bool-cases}
use social_network_micro_ser.Prelude.Bytes.{Text}

-- The digits of `n` before `rest`; the number itself is fuel enough.
unfoldable pub itoa_before : ℕ → ℕ → Text → Text
itoa_before zero n rest = rest
itoa_before (suc fuel) n rest =
    let more = itoa_before fuel (n / 10) ((48 + n % 10) ∷ rest) in
    if ltb n 10 then (48 + n) ∷ rest else more

unfoldable pub itoa : ℕ → Text
unfolding itoa_before
itoa n = itoa_before (suc n) n []

-- The digits read so far stand for `acc`.
unfoldable pub atoi_after : ℕ → Text → Option ℕ
atoi_after acc [] = some acc
atoi_after acc (c ∷ cs) = if leb 48 c && leb c 57 then atoi_after (acc * 10 + (c - 48)) cs else none

unfoldable pub atoi : Text → Option ℕ
unfolding atoi_after
atoi [] = none
atoi (c ∷ cs) = atoi_after 0 (c ∷ cs)

unfoldable pub duration_string : ℕ → Text
unfolding itoa
duration_string s =
    if ltb s 60
    then itoa s ++ (b's' ∷ [])
    else if ltb s 3600
    then itoa (s / 60) ++ (b'm' ∷ itoa (s % 60) ++ (b's' ∷ []))
    else itoa (s / 3600) ++ (b'h' ∷ itoa (s / 60 % 60) ++ (b'm' ∷ itoa (s % 60) ++ (b's' ∷ [])))

-- Reading the printed digits, and then what follows them.
pub atoi-itoa_before :
    (fuel n : ℕ) (rest : Text)
    → n < fuel
    → atoi_after 0 (itoa_before fuel n rest) ≡ atoi_after n rest
unfolding atoi_after itoa_before
atoi-itoa_before zero n rest h = elim h [ ]
atoi-itoa_before (suc fuel) n rest h =
    ground (arith, atoi-itoa_before fuel (n / 10) ((48 + n % 10) ∷ rest))

-- The printed number starts with a digit.
pub itoa_head :
    (fuel n : ℕ) (rest : Text)
    → n < fuel
    → (c : ℕ) × (cs : Text) × (itoa_before fuel n rest ≡ c ∷ cs) × (48 ≤ c)
unfolding itoa_before
itoa_head zero n rest h = elim h [ ]
itoa_head (suc fuel) n rest h = elim (Bool-cases (ltb n 10)) [
  | inl small ↦ (48 + n, rest, ground arith, omega arith)
  | inr large ↦
      let (c, cs, e, digit) = itoa_head fuel (n / 10) ((48 + n % 10) ∷ rest) (ground arith) in
      (c, cs, ground arith, digit)
]

pub atoi-itoa : (n : ℕ) → atoi (itoa n) ≡ some n
unfolding atoi itoa atoi_after
atoi-itoa n =
    let (c, cs, e, digit) = itoa_head (suc n) n [] (omega arith) in
    let read = atoi-itoa_before (suc n) n [] (omega arith) in ground arith

-- Different numbers are printed differently.
pub itoa_injective : (m n : ℕ) → itoa m ≡ itoa n → m ≡ n
itoa_injective m n h = let e = atoi-itoa m in let f = atoi-itoa n in ground arith
