-- ===== src/Auth/Keys.antt =====
-- The Redis keys of auth-service/service: each is a prefix and an identifier.
use social_network_micro_ser.Prelude.{Text, codes, text_eq, ◌++◌, ◌≡◌, refl, false}

unfoldable pub login_attempt_key : Text → Text
login_attempt_key account_id = codes "auth:login_attempt:" ++ account_id

unfoldable pub login_lock_key : Text → Text
login_lock_key account_id = codes "auth:lock:" ++ account_id

unfoldable pub suspended_key : Text → Text
suspended_key account_id = codes "auth:suspended:user:" ++ account_id

unfoldable pub reset_verified_key : Text → Text → Text
reset_verified_key email code = codes "auth:reset_verified:" ++ (email ++ (codes ":" ++ code))

unfoldable pub blacklist_key : Text → Text
blacklist_key token = codes "auth:blacklist:" ++ token

unfoldable pub verify_code_key : Text → Text
verify_code_key account_id = codes "verify_code:" ++ account_id

unfoldable pub reset_code_key : Text → Text
reset_code_key account_id = codes "reset_password_code:" ++ account_id

unfoldable pub reset_token_key : Text → Text
reset_token_key code = codes "reset_password_token:" ++ code

unfoldable pub user_info_key : Text → Text
user_info_key user_id = codes "user_info:" ++ user_id

unfoldable pub email_rate_key : Text → Text
email_rate_key client_ip = codes "email_rate_limit:" ++ client_ip

keys : Unit {0}
unfolding login_attempt_key login_lock_key suspended_key reset_verified_key blacklist_key
    verify_code_key reset_code_key reset_token_key user_info_key email_rate_key text_eq
keys = tt

pub attempt-attempt :
    (a b : Text) → text_eq (login_attempt_key a) (login_attempt_key b) ≡ text_eq a b
unfolding keys
attempt-attempt a b = refl

pub attempt-lock : (a b : Text) → text_eq (login_attempt_key a) (login_lock_key b) ≡ false
unfolding keys
attempt-lock a b = refl

pub attempt-suspended : (a b : Text) → text_eq (login_attempt_key a) (suspended_key b) ≡ false
unfolding keys
attempt-suspended a b = refl

pub lock-lock : (a b : Text) → text_eq (login_lock_key a) (login_lock_key b) ≡ text_eq a b
unfolding keys
lock-lock a b = refl

pub lock-attempt : (a b : Text) → text_eq (login_lock_key a) (login_attempt_key b) ≡ false
unfolding keys
lock-attempt a b = refl

pub lock-suspended : (a b : Text) → text_eq (login_lock_key a) (suspended_key b) ≡ false
unfolding keys
lock-suspended a b = refl

pub token-verified :
    (c email code : Text) → text_eq (reset_token_key c) (reset_verified_key email code) ≡ false
unfolding keys
token-verified c email code = refl

pub code-verified :
    (a email code : Text) → text_eq (reset_code_key a) (reset_verified_key email code) ≡ false
unfolding keys
code-verified a email code = refl

pub verified-token :
    (email code c : Text) → text_eq (reset_verified_key email code) (reset_token_key c) ≡ false
unfolding keys
verified-token email code c = refl

pub code-token : (a c : Text) → text_eq (reset_code_key a) (reset_token_key c) ≡ false
unfolding keys
code-token a c = refl

pub token-code : (c a : Text) → text_eq (reset_token_key c) (reset_code_key a) ≡ false
unfolding keys
token-code c a = refl

pub rate-token : (ip c : Text) → text_eq (email_rate_key ip) (reset_token_key c) ≡ false
unfolding keys
rate-token ip c = refl

pub rate-code : (ip a : Text) → text_eq (email_rate_key ip) (reset_code_key a) ≡ false
unfolding keys
rate-code ip a = refl

pub blacklist-verified :
    (t email code : Text) → text_eq (blacklist_key t) (reset_verified_key email code) ≡ false
unfolding keys
blacklist-verified t email code = refl
