-- ===== src/Auth/Reset.antt =====
-- auth-service/service/password.go: the code of a forgotten password, its check, and the change.
use mathlib.Core.Option
use social_network_micro_ser.Prelude.{
  or_error, guard, ℕ, Text, codes, text_eq, Option, none, some, Outcome, ok, fail, ◌>>=◌, ◌>>◌,
  pure, attempt, ignore, or_fail, lift, ◌∷◌, [],
}
use social_network_micro_ser.Exception.{Err, app}
use social_network_micro_ser.Exception.Codes.{
  account_not_found, unknown_error, verification_code_not_found,
  verification_code_not_matched_or_expired, invalid_password,
}
use social_network_micro_ser.Services.Redis.{Value, text}
use social_network_micro_ser.Auth.Env.{Account, Env, Handler, cached, cache_read, emit, mail}
use social_network_micro_ser.Auth.Keys.{reset_code_key, reset_token_key, reset_verified_key}
use social_network_micro_ser.Auth.Accounts.{
  find_by_email, find_by_id, update_password, in_transaction,
}
use social_network_micro_ser.Auth.Mailing.{check_email_rate_limit}
use social_network_micro_ser.Auth.Tokens.{value_text}

module _ (env : Env) where
  need_redis : Handler env (Unit {0})
  need_redis = guard env.has_redis (app unknown_error)

  parsed_code : Text → Handler env Text
  parsed_code code = lift (or_error (app verification_code_not_found) (env.parse_uuid code))

  account_of : Text → Handler env Account
  account_of email = do
    found ← attempt (find_by_email env email)
    or_fail (app account_not_found) found

  -- A new code, under the account and under itself.
  store_code : Text → Text → Handler env Text
  store_code account_id code = do
    ignore (
        cached env
          (env.redis.set (reset_code_key account_id) (text code) env.cfg.password_reset_duration))
    ignore (
        cached env
          (env.redis.set (reset_token_key code) (text account_id) env.cfg.password_reset_duration))
    pure code

  prolong_code : Text → Text → Handler env Text
  prolong_code account_id code = do
    ignore
        (cached env (env.redis.expire (reset_code_key account_id) env.cfg.password_reset_duration))
    ignore (cached env (env.redis.expire (reset_token_key code) env.cfg.password_reset_duration))
    pure code

  current_code : Text → Text → Option Text → Handler env Text
  unfolding store_code prolong_code
  current_code account_id fresh (some code) = prolong_code account_id code
  current_code account_id fresh none = store_code account_id fresh

  abbrev pub parsed : Outcome Err (Option Value) → Option Text
  parsed (ok (some v)) = env.parse_uuid (value_text v)
  parsed (ok none) = none
  parsed (fail e) = none

  -- `ForgotPassword(email, clientIP)`; the address of the page in the mail is left out.
  unfoldable pub forgot_password : Text → Text → Text → Handler env (Unit {0})
  unfolding need_redis account_of current_code
  forgot_password email ip fresh = do
    a ← account_of email
    check_email_rate_limit env ip
    need_redis
    cached_code ← attempt (cache_read env (env.redis.get (reset_code_key a.id)))
    code ← current_code a.id fresh (parsed cached_code)
    emit env (mail email code)

  or_expired : Option Value → Handler env Text
  or_expired value =
      lift (or_error (app verification_code_not_matched_or_expired) (Option.map value_text value))

  unless_equal : Text → Text → Handler env (Unit {0})
  unless_equal s t = guard (text_eq s t) (app verification_code_not_matched_or_expired)

  unfoldable pub verify_reset_password : Text → Text → Handler env (Unit {0})
  unfolding need_redis parsed_code account_of or_expired unless_equal
  verify_reset_password email code_text = do
    code ← parsed_code code_text
    a ← account_of email
    need_redis
    value ← cache_read env (env.redis.get (reset_token_key code))
    account_id ← or_expired value
    unless_equal account_id a.id
    cached env (
        env.redis.set (reset_verified_key email code) (text (codes "1"))
          env.cfg.password_reset_duration)
    ignore (cached env (env.redis.del (reset_token_key code ∷ reset_code_key a.id ∷ [])))

  unfoldable pub update_password_by_code : Text → Text → Text → ℕ → Handler env (Unit {0})
  unfolding need_redis parsed_code account_of
  update_password_by_code email code_text new_password salt = do
    code ← parsed_code code_text
    a ← account_of email
    need_redis
    there ← cache_read env (env.redis.exists (reset_verified_key email code))
    guard there (app verification_code_not_matched_or_expired)
    hashed ← lift (env.hash_password salt new_password)
    in_transaction env (update_password env a.id hashed)
    ignore (cached env (env.redis.del (reset_verified_key email code ∷ [])))

  -- The older call, which needs the code alone.
  unfoldable pub reset_password : Text → Text → ℕ → Handler env (Unit {0})
  unfolding need_redis parsed_code or_expired
  reset_password code_text new_password salt = do
    code ← parsed_code code_text
    need_redis
    value ← cache_read env (env.redis.get (reset_token_key code))
    owner ← or_expired value
    account_id ←
        lift (or_error (app verification_code_not_matched_or_expired) (env.parse_uuid owner))
    hashed ← lift (env.hash_password salt new_password)
    in_transaction env (update_password env account_id hashed)
    ignore (cached env (env.redis.del (reset_token_key code ∷ reset_code_key account_id ∷ [])))

  unfoldable pub change_password : Text → Text → Text → ℕ → Handler env (Unit {0})
  change_password account_id old_password new_password salt = do
    found ← attempt (find_by_id env account_id)
    a ← or_fail (app account_not_found) found
    guard (env.compare_password a.password old_password) (app invalid_password)
    hashed ← lift (env.hash_password salt new_password)
    update_password env account_id hashed
