-- ===== src/Auth/Notices.antt =====
-- ParseAuthError of auth-service/service/login.go, which no handler calls: the fields that the text of
-- a login error carries. `strconv.Atoi` with its sign and its clamped result out of range; its error is
-- dropped there.
use social_network_micro_ser.Prelude.{
  ℕ, drop, ◌≤◌, Text, codes, text_eq, [], ◌∷◌, Option, none, some, ◌≡◌, refl, arith, length, leb,
  if◌then◌else◌, itoa, atoi, atoi-itoa, itoa_head, suc, duration_string, ℤ, pos, negsuc, sub_ℕ,
  max_int, ◌==◌, ap,
}
use social_network_micro_ser.Exception.{Err, has_prefix}
use social_network_micro_ser.Auth.Tokens.{error_text}
use social_network_micro_ser.Auth.Login.{account_locked_for, attempts_remaining}

-- The map `meta`: nil, empty, or with one entry.
pub data Meta : Type 0 where
  nil_meta : Meta
  no_entry : Meta
  remaining_attempts : ℤ → Meta
  time : Text → Meta

unfoldable pub trim_prefix : Text → Text → Text
unfolding drop
trim_prefix p t = if has_prefix p t then drop (length p) t else t

clamp : Option ℕ → ℤ
clamp none = pos 0
clamp (some n) = if leb n max_int then pos n else pos max_int

clamp_negative : Option ℕ → ℤ
clamp_negative none = pos 0
clamp_negative (some n) = if leb n (suc max_int) then sub_ℕ 0 n else negsuc max_int

unfoldable pub atoi_or_zero : Text → ℤ
unfolding clamp clamp_negative
atoi_or_zero [] = pos 0
atoi_or_zero (c ∷ cs) =
    if c == 45
    then clamp_negative (atoi cs)
    else if c == 43
    then clamp (atoi cs)
    else clamp (atoi (c ∷ cs))

abbrev pub attempts_prefix : Text
attempts_prefix = codes "AUTHENTICATION_FAILED:remainingAttempts="

abbrev pub locked_prefix : Text
locked_prefix = codes "ACCOUNT_LOCKED:time="

unfoldable pub parse_auth_error : Option Err → Text × Meta
unfolding trim_prefix atoi_or_zero
parse_auth_error none = ([], nil_meta)
parse_auth_error (some e) =
    let msg = error_text e in
    if has_prefix attempts_prefix msg
    then (
      codes "AUTHENTICATION_FAILED",
      remaining_attempts (atoi_or_zero (trim_prefix attempts_prefix msg)),
    )
    else if has_prefix locked_prefix msg
    then (codes "ACCOUNT_LOCKED", time (trim_prefix locked_prefix msg))
    else (msg, no_entry)

atoi_itoa : (n : ℕ) → n ≤ max_int → atoi_or_zero (itoa n) ≡ pos n
unfolding atoi_or_zero itoa
atoi_itoa n h =
    let (c, cs, e, digit) = itoa_head (suc n) n [] (omega arith) in
    let read = atoi-itoa n in ground arith

-- What the login puts into its errors is read back: the number of remaining attempts, which is a
-- machine integer, and the time of the lock as it is printed.
parse_auth_error_lem :
    (n d : ℕ)
    → n ≤ max_int
    → (parse_auth_error (some (attempts_remaining n))
        ≡ (codes "AUTHENTICATION_FAILED", remaining_attempts (pos n)))
      × (parse_auth_error (some (account_locked_for d))
          ≡ (codes "ACCOUNT_LOCKED", time (duration_string d)))
unfolding parse_auth_error attempts_remaining account_locked_for has_prefix drop text_eq trim_prefix
    duration_string
parse_auth_error_lem n d h =
    (ap (λ z. (codes "AUTHENTICATION_FAILED", remaining_attempts z)) (atoi_itoa n h), refl)
