-- ===== src/Auth/Grants.antt =====
-- `Login` of login.go: the checks behind its tokens, and sequences of second-factor codes.
use social_network_micro_ser.Prelude.{
  ℕ, Text, Bool, true, false, ◌≡◌, refl, Outcome, ok, fail, arith, List, Bool-cases, ◌⊎◌, [], ◌∷◌,
  Outcome-cases, inl, inr, text_eq_refl,
}
use social_network_micro_ser.Exception.{Err, app}
use social_network_micro_ser.Auth.Env.{Account, Env, World}
use social_network_micro_ser.Auth.Keys.{login_attempt_key, login_lock_key, suspended_key}
use social_network_micro_ser.Auth.Accounts.{find_by_email_and_role}
use social_network_micro_ser.Auth.Tokens.{is_empty}
use social_network_micro_ser.Auth.Login.{
  validate_login, login, login_to, role_name, check_two_factor, process_login_failed,
  process_login_succeeded, invalid_two_factor_code,
}
use social_network_micro_ser.Auth.Attempts.{Try, IsOpen, logins, validate_open}

-- What stands behind a pair of tokens.
pub record Granted (env : Env) (email password code : Text) (is_admin : Bool) (now : ℕ)
    (w : World env) (a : Account) : Type 0 where
  pub found : (find_by_email_and_role env email (role_name is_admin) w).0 ≡ ok a
  pub verified : a.is_verified ≡ true
  pub password_matches : env.compare_password a.password password ≡ true
  pub second_factor :
      (a.is_two_factor_enabled ≡ false) ⊎ (env.validate_totp code a.two_factor_secret now ≡ true)
  pub not_locked :
      (env.has_redis ≡ false) ⊎ (env.redis.exists (login_lock_key a.id) w.cache ≡ ok false)
  pub not_suspended :
      (env.has_redis ≡ false) ⊎ (¬ env.redis.exists (suspended_key a.id) w.cache ≡ ok true)

failed_never_ok :
    (env : Env) (id : Text) (w : World env) → (process_login_failed env id w).0 ≡ ok tt → ⊥
unfolding process_login_failed
failed_never_ok env id w h = ground arith

module _ (env : Env) (email password code : Text) (is_admin : Bool) (now : ℕ) (w : World env)
    (a : Account) where
  login_to_checks :
      (r : Text × Text)
      → (login_to env a password code now w).0 ≡ ok r
      → (env.compare_password a.password password ≡ true)
        × (check_two_factor env a code now ≡ ok tt)
  unfolding login_to
  login_to_checks r h = (ground (arith, failed_never_ok env a.id w), ground arith)

  second_factor_checked :
      check_two_factor env a code now ≡ ok tt
      → (a.is_two_factor_enabled ≡ false) ⊎ (env.validate_totp code a.two_factor_secret now ≡ true)
  unfolding check_two_factor
  second_factor_checked h = elim (Bool-cases a.is_two_factor_enabled) [
    | inl enabled ↦ inr (ground arith)
    | inr disabled ↦ inl disabled
  ]

  is_suspended :
      validate_login env a w ≡ ok tt
      → env.has_redis ≡ true
      → env.redis.exists (suspended_key a.id) w.cache ≡ ok true
      → ⊥
  unfolding validate_login
  is_suspended h on e = ground arith

  is_unlocked :
      validate_login env a w ≡ ok tt
      → env.has_redis ≡ true
      → env.redis.exists (login_lock_key a.id) w.cache ≡ ok false
  unfolding validate_login
  is_unlocked h on = ground arith

  is_verified_checked : validate_login env a w ≡ ok tt → a.is_verified ≡ true
  unfolding validate_login
  is_verified_checked h = ground arith

-- A login that returns tokens found a verified account whose password matches, whose second factor
-- is right where it is enabled, and, where Redis is configured, for which Redis answered that there
-- is no lock and did not answer that it is suspended. Nothing is assumed of how the services answer.
pub login-Granted :
    (env : Env) (email password code : Text) (is_admin : Bool) (now : ℕ) (w : World env)
    (r : Text × Text)
    → (login env email password code is_admin now w).0 ≡ ok r
    → (a : Account) × Granted env email password code is_admin now w a
unfolding login find_by_email_and_role
login-Granted env email password code is_admin now w r h =
    elim (Outcome-cases (find_by_email_and_role env email (role_name is_admin) w).0) [
      | inr (e, missing) ↦ absurd (ground arith)
      | inl (a, found) ↦
          let valid : validate_login env a w ≡ ok tt = ground arith in
          let (password_ok, factor_ok) =
            login_to_checks env email password code is_admin now w a r (ground arith) in
          (
            a,
            record {
              found = found;
              verified = is_verified_checked env email password code is_admin now w a valid;
              password_matches = password_ok;
              second_factor =
                  second_factor_checked env email password code is_admin now w a factor_ok;
              not_locked = elim (Bool-cases env.has_redis) [
                | inl on ↦ inr (is_unlocked env email password code is_admin now w a valid on)
                | inr off ↦ inl off
              ];
              not_suspended = elim (Bool-cases env.has_redis) [
                | inl on ↦ inr (is_suspended env email password code is_admin now w a valid on)
                | inr off ↦ inl off
              ];
            },
          )
    ]

-- The right password every time, with a code that is there and wrong.
abbrev pub AllBadCodes : (env : Env) → Account → List Try → Type 0
AllBadCodes env a [] = Unit {0}
AllBadCodes env a (t ∷ ts) =
    ((env.compare_password a.password t.password ≡ true)
      × (is_empty t.code ≡ false)
      × (env.validate_totp t.code a.two_factor_secret t.now ≡ false))
    × AllBadCodes env a ts

abbrev pub all_invalid : List Try → List (Outcome Err (Text × Text))
all_invalid [] = []
all_invalid (t ∷ ts) = fail (app invalid_two_factor_code) ∷ all_invalid ts

module _ (env : Env) (on : env.has_redis ≡ true) (email : Text) (is_admin : Bool) (a : Account)
    (verified : a.is_verified ≡ true) (enabled : a.is_two_factor_enabled ≡ true) where
  login_bad_code :
      (w : World env) (t : Try)
      → IsOpen env email is_admin a w
      → env.compare_password a.password t.password ≡ true
      → is_empty t.code ≡ false
      → env.validate_totp t.code a.two_factor_secret t.now ≡ false
      → login env email t.password t.code is_admin t.now w
        ≡ (fail (app invalid_two_factor_code), (process_login_succeeded env a.id w).1)
  unfolding login login_to find_by_email_and_role check_two_factor process_login_succeeded
  login_bad_code w t h right there wrong =
      ground (arith, validate_open env on email is_admin a verified w h)

  IsOpen-succeeded :
      (w : World env)
      → IsOpen env email is_admin a w
      → IsOpen env email is_admin a (process_login_succeeded env a.id w).1
  unfolding process_login_succeeded find_by_email_and_role
  IsOpen-succeeded w h =
      let ks = login_attempt_key a.id ∷ login_lock_key a.id ∷ [] in
      let held = λ (j : Text). env.redis.held-del ks w.cache j h.up in
      let up = env.redis.del-Up ks w.cache h.up in
      record {
        found = ground (arith, h.found);
        up = ground arith;
        not_locked = ground (arith, held (login_lock_key a.id), text_eq_refl (login_lock_key a.id));
        not_suspended = ground (arith, held (suspended_key a.id), h.not_suspended);
      }

  -- Wrong codes of the second factor are never counted: with the right password, any number of
  -- them is answered INVALID_2FA_CODE each time, and the account stays open to the next attempt.
  -- Assumed: Redis is configured and up, the account is found and verified, its second factor is
  -- enabled, and it is neither locked nor suspended at the start.
  pub bad_codes_uncounted :
      (ts : List Try) (w : World env)
      → IsOpen env email is_admin a w
      → AllBadCodes env a ts
      → ((logins env email is_admin ts w).0 ≡ all_invalid ts)
        × IsOpen env email is_admin a (logins env email is_admin ts w).1
  unfolding logins
  bad_codes_uncounted [] w h bad = (refl, h)
  bad_codes_uncounted (t ∷ ts) w h bad =
      let e = login_bad_code w t h bad.0.0 bad.0.1 bad.0.2 in
      let w1 = (process_login_succeeded env a.id w).1 in
      let (results, still) = bad_codes_uncounted ts w1 (IsOpen-succeeded w h) bad.1 in
      rw e (cc results, still)
