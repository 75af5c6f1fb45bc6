-- ===== src/Exception/Coverage.antt =====
-- The lookup of error texts in exception/error_code.go, over all the declared codes.
use mathlib.Core.List.{Memᴰ}
use text.Mathlib.Text.{◌==◌ as str_eq}
use text.Mathlib.TextEquality.{eq_iff}
use social_network_micro_ser.Prelude.{
  ℕ, Text, codes, text_eq, Bool, true, false, ◌&&◌, ◌||◌, List, [], ◌∷◌, ◌++◌, ◌≡◌, refl, ◌⊎◌, ◌==◌,
  arith, if◌then◌else◌,
}
use social_network_micro_ser.Exception.{find, has_prefix, map_error}
use social_network_micro_ser.Exception.Code.{ErrorCode}
use social_network_micro_ser.Exception.Codes.{authentication_failed, account_locked, unknown_error}
use social_network_micro_ser.Exception.Declared.{declared}

code_eq : ErrorCode → ErrorCode → Bool
code_eq a b =
    a.code == b.code && str_eq a.message b.message && str_eq a.error b.error && a.status == b.status

code_eq_sound : (a b : ErrorCode) → code_eq a b ≡ true → a ≡ b
unfolding code_eq
code_eq_sound a b h = ground (arith, eq_iff a.message b.message, eq_iff a.error b.error)

all_in {ℓ} : {A : Type ℓ} → (A → Bool) → List A → Bool
all_in p [] = true
all_in p (x ∷ xs) = p x && all_in p xs

all_in_sound {ℓ} :
    {A : Type ℓ} {a : A} {xs : List A} (p : A → Bool) → all_in p xs ≡ true → Memᴰ a xs → p a ≡ true
unfolding all_in
all_in_sound p h (Memᴰ.head e) = rw e (ground arith)
all_in_sound p h (Memᴰ.tail m) = all_in_sound p (ground arith) m

-- The two declared codes whose text is no key of the table.
abbrev is_unmapped : ErrorCode → Bool
is_unmapped e = str_eq e.error "INVALID_CAPTCHA" || str_eq e.error "FAIL_TO_GET_POST"

expected : ErrorCode → ErrorCode × Bool
expected e = if is_unmapped e then (unknown_error, false) else (e, true)

same_flag : Bool → Bool → Bool
same_flag true b = b
same_flag false true = false
same_flag false false = true

result_eq : ErrorCode × Bool → ErrorCode × Bool → Bool
unfolding same_flag
result_eq (a, b) (a', b') = code_eq a a' && same_flag b b'

result_eq_sound : (r s : ErrorCode × Bool) → result_eq r s ≡ true → r ≡ s
unfolding result_eq
result_eq_sound (a, b) (a', b') h = ground (arith, code_eq_sound a a')

finds : ErrorCode → Bool
finds e = result_eq (map_error (codes e.error)) (expected e)

finds_all : all_in finds declared ≡ true
unfolding all_in finds result_eq code_eq expected map_error has_prefix text_eq
finds_all = refl

-- `MapError` takes the `Error` text of a declared code back to that code, and misses exactly
-- the texts INVALID_CAPTCHA and FAIL_TO_GET_POST.
pub map_error-declared :
    (e : ErrorCode)
    → Memᴰ e declared
    → map_error (codes e.error) ≡ (if is_unmapped e then (unknown_error, false) else (e, true))
unfolding finds expected
map_error-declared e m = result_eq_sound _ _ (all_in_sound finds finds_all m)

-- The codes that two declarations share.
abbrev is_shared : ℕ → Bool
is_shared n = n == 2010 || n == 7015

distinct_from : ErrorCode → ErrorCode → Bool
distinct_from a b = if a.code == b.code then code_eq a b || is_shared a.code else true

distinct_all : all_in (λ a. all_in (distinct_from a) declared) declared ≡ true
unfolding all_in distinct_from code_eq
distinct_all = refl

distinct_from_sound :
    (a b : ErrorCode)
    → distinct_from a b ≡ true
    → a.code ≡ b.code
    → (a ≡ b) ⊎ (a.code ≡ 2010) ⊎ (a.code ≡ 7015)
unfolding distinct_from
distinct_from_sound a b h e = ground (arith, code_eq_sound a b)

-- Two declared codes with one number are the same declaration, unless the number is 2010 or 7015.
pub declared-distinct :
    (a b : ErrorCode)
    → Memᴰ a declared
    → Memᴰ b declared
    → a.code ≡ b.code
    → (a ≡ b) ⊎ (a.code ≡ 2010) ⊎ (a.code ≡ 7015)
declared-distinct a b ma mb = distinct_from_sound a b (
    all_in_sound (distinct_from a)
      (all_in_sound (λ c. all_in (distinct_from c) declared) distinct_all ma) mb)

-- An error that starts with one of the two texts of a failed login gets the code of that text,
-- whatever number of attempts or remaining time follows the colon.
pub map_error-login :
    (rest : Text)
    → (map_error (codes "AUTHENTICATION_FAILED:" ++ rest) ≡ (authentication_failed, true))
      × (map_error (codes "ACCOUNT_LOCKED:" ++ rest) ≡ (account_locked, true))
unfolding map_error find has_prefix text_eq
map_error-login rest = (refl, refl)
