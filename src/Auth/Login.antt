-- ===== src/Auth/Login.antt =====
-- auth-service/service/login.go: the lock on repeated failures, and the login itself.
use social_network_micro_ser.Prelude.{
  ℕ, ◌-◌, Text, codes, Bool, true, false, not, ◌++◌, Option, none, some, Outcome, ok, fail, ◌>>=◌,
  ◌>>◌, pure, throw, attempt, ignore, or_fail, lift, itoa, duration_string, leb, ◌==◌,
  if◌then◌else◌, [], ◌∷◌,
}
use social_network_micro_ser.Exception.{Err, app, message}
use social_network_micro_ser.Exception.Code.{ErrorCode}
use social_network_micro_ser.Exception.Codes.{
  account_not_found, account_not_verified, authentication_failed,
}
use social_network_micro_ser.Services.Redis.{text}
use social_network_micro_ser.Auth.Env.{Account, Env, World, Handler, cached}
use social_network_micro_ser.Auth.Keys.{login_attempt_key, login_lock_key, suspended_key}
use social_network_micro_ser.Auth.Accounts.{find_by_email_and_role}
use social_network_micro_ser.Auth.Tokens.{is_empty, succeeds, generate_token}

abbrev pub max_login_attempts : ℕ
max_login_attempts = 5

abbrev pub login_lock_ttl : ℕ
login_lock_ttl = 900

abbrev pub login_attempt_ttl : ℕ
login_attempt_ttl = 900

-- `exception.NewAppError` as the login builds it: the status is that of `NewAppError`.
abbrev pub two_factor_required : ErrorCode
two_factor_required = record {
  code = 401;
  message = "2FA_REQUIRED";
  error = "Two-factor authentication is required";
  status = 400;
}

abbrev pub invalid_two_factor_code : ErrorCode
invalid_two_factor_code = record {
  code = 401;
  message = "INVALID_2FA_CODE";
  error = "Invalid 2FA code";
  status = 400;
}

unfoldable pub account_locked_for : ℕ → Err
account_locked_for seconds = message (codes "ACCOUNT_LOCKED:time=" ++ duration_string seconds)

unfoldable pub attempts_remaining : ℕ → Err
attempts_remaining n = message (codes "AUTHENTICATION_FAILED:remainingAttempts=" ++ itoa n)

abbrev pub ttl_or_zero : Outcome Err (Option ℕ) → ℕ
ttl_or_zero (ok (some d)) = d
ttl_or_zero (ok none) = 0
ttl_or_zero (fail e) = 0

abbrev pub role_name : Bool → Text
role_name true = codes "ADMIN"
role_name false = codes "USER"

module _ (env : Env) where
  lockout_time : Text → World env → ℕ
  lockout_time id w =
      if env.has_redis then ttl_or_zero (env.redis.ttl (login_lock_key id) w.cache) else 0

  -- The last test of `validateLogin`, on the answer about the lock.
  check_lock : Text → Outcome Err Bool → World env → Outcome Err (Unit {0})
  unfolding lockout_time
  check_lock id (fail e) w = fail e
  check_lock id (ok true) w = fail (account_locked_for (lockout_time id w))
  check_lock id (ok false) w = ok tt

  unfoldable pub validate_login : Account → World env → Outcome Err (Unit {0})
  unfolding check_lock
  validate_login a w =
      if not a.is_verified
      then fail (app account_not_verified)
      else if not env.has_redis
      then ok tt
      else if succeeds (env.redis.exists (suspended_key a.id) w.cache)
      then fail (message (codes "USER_SUSPENDED"))
      else check_lock a.id (env.redis.exists (login_lock_key a.id) w.cache) w

  -- After the failed attempt with number `n` is counted.
  after_failure : Text → ℕ → Handler env (Unit {0})
  after_failure id n =
      if leb max_login_attempts n
      then (do
        cached env (env.redis.set (login_lock_key id) (text (codes "1")) login_lock_ttl)
        ignore (cached env (env.redis.del (login_attempt_key id ∷ [])))
        throw (account_locked_for login_lock_ttl))
      else throw (attempts_remaining (max_login_attempts - n))

  start_window : Text → ℕ → Handler env (Unit {0})
  start_window id n =
      if n == 1
      then ignore (cached env (env.redis.expire (login_attempt_key id) login_attempt_ttl))
      else pure tt

  -- It always fails: the error is its result.
  unfoldable pub process_login_failed : Text → Handler env (Unit {0})
  unfolding after_failure start_window
  process_login_failed id = if not env.has_redis then throw (app authentication_failed) else (do
    n ← cached env (env.redis.incr (login_attempt_key id))
    start_window id n
    after_failure id n)

  unfoldable pub process_login_succeeded : Text → Handler env (Unit {0})
  process_login_succeeded id =
      if env.has_redis
      then ignore (cached env (env.redis.del (login_attempt_key id ∷ login_lock_key id ∷ [])))
      else pure tt

  unfoldable pub check_two_factor : Account → Text → ℕ → Outcome Err (Unit {0})
  check_two_factor a code now =
      if not a.is_two_factor_enabled
      then ok tt
      else if is_empty code
      then fail (app two_factor_required)
      else if env.validate_totp code a.two_factor_secret now
      then ok tt
      else fail (app invalid_two_factor_code)

  -- From the password check on.
  unfoldable pub login_to : Account → Text → Text → ℕ → Handler env (Text × Text)
  unfolding check_two_factor
  login_to a password code now = do
    (if env.compare_password a.password password then pure tt else process_login_failed a.id)
    process_login_succeeded a.id
    lift (check_two_factor a code now)
    access ← generate_token env a env.cfg.jwt_secret env.cfg.access_token_duration now
    refresh ← generate_token env a env.cfg.jwt_refresh_secret env.cfg.refresh_token_duration now
    pure (access, refresh)

  -- `Login(email, password, twoFactorCode, isAdmin)` at the time `now`.
  unfoldable pub login : Text → Text → Text → Bool → ℕ → Handler env (Text × Text)
  login email password code is_admin now = do
    found ← attempt (find_by_email_and_role env email (role_name is_admin))
    a ← or_fail (app account_not_found) found
    (λ w. (validate_login a w, w))
    login_to a password code now
