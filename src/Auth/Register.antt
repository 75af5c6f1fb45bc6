-- ===== src/Auth/Register.antt =====
-- auth-service/service/register.go. A fresh uuid and the salt of a hash are arguments.
use social_network_micro_ser.Prelude.{
  guard, not, ℕ, ◌+◌, Text, codes, text_eq, Bool, true, false, Option, none, some, Outcome, ok,
  fail, ◌>>=◌, ◌>>◌, pure, throw, attempt, ignore, or_fail, lift, if◌then◌else◌, ◌∷◌, [],
}
use social_network_micro_ser.Exception.{Err, app}
use social_network_micro_ser.Exception.Codes.{
  account_not_found, account_already_exists, email_not_verified, account_verified, unknown_error,
  verification_code_not_matched_or_expired,
}
use social_network_micro_ser.Services.Redis.{Value, text}
use social_network_micro_ser.Auth.Env.{
  Account, Env, Handler, cached, cache_read, emit, mail, create_user,
}
use social_network_micro_ser.Auth.Keys.{verify_code_key}
use social_network_micro_ser.Auth.Accounts.{
  find_by_email, create, update_verification_status, in_transaction,
}
use social_network_micro_ser.Auth.Mailing.{check_email_rate_limit}
use social_network_micro_ser.Auth.Tokens.{value_text}

pub record VerifyCode : Type 0 where
  pub code : Text
  pub account_id : Text
  pub verified : Bool
  pub expiry_time : ℕ

pub record Registration : Type 0 where
  pub email : Text
  pub password : Text
  pub given_name : Text
  pub family_name : Text
  pub birthdate : Text
  pub client_ip : Text

-- What the handler draws at random or reads from the clock.
pub record Drawn : Type 0 where
  pub account_id : Text
  pub code : Text
  pub salt : ℕ
  pub now : ℕ

module _ (env : Env) where
  unfoldable pub verify_code : Text → Text → ℕ → VerifyCode
  verify_code code account_id now = record {
    code = code;
    account_id = account_id;
    verified = false;
    expiry_time = now + env.cfg.verify_email_duration;
  }

  unfoldable pub new_account : Registration → Drawn → Text → Account
  new_account r d hashed = record {
    id = d.account_id;
    email = r.email;
    password = hashed;
    role = codes "USER";
    is_verified = false;
    two_factor_secret = [];
    is_two_factor_enabled = false;
    created_at = d.now;
  }

  set_code : Text → Text → Handler env (Unit {0})
  set_code account_id code = ignore (
      cached env
        (env.redis.set (verify_code_key account_id) (text code) env.cfg.verify_email_duration))

  register_new : Registration → Drawn → Handler env VerifyCode
  unfolding verify_code new_account set_code
  register_new r d = do
    check_email_rate_limit env r.client_ip
    hashed ← lift (env.hash_password d.salt r.password)
    in_transaction env (create env (new_account r d hashed) d.now)
    (if env.has_redis then set_code d.account_id d.code else pure tt)
    emit env (mail r.email d.code)
    emit env (create_user d.account_id r.email r.given_name r.family_name r.birthdate)
    pure (verify_code d.code d.account_id d.now)

  register_found : Outcome Err Account → Registration → Drawn → Handler env VerifyCode
  unfolding register_new
  register_found (ok a) r d =
      throw (app (if a.is_verified then account_already_exists else email_not_verified))
  register_found (fail e) r d = register_new r d

  unfoldable pub register : Registration → Drawn → Handler env VerifyCode
  unfolding register_found
  register r d = do found ← attempt (find_by_email env r.email); register_found found r d

  same_text : Text → Option Value → Bool
  same_text code none = false
  same_text code (some v) = text_eq (value_text v) code

  check_code : Text → Option Value → Handler env (Unit {0})
  unfolding same_text
  check_code code value =
      guard (same_text code value) (app verification_code_not_matched_or_expired)

  unverified : Account → Handler env (Unit {0})
  unverified a = guard (not a.is_verified) (app account_verified)

  need_redis : Handler env (Unit {0})
  need_redis = guard env.has_redis (app unknown_error)

  unfoldable pub verify : Text → Text → Handler env (Unit {0})
  unfolding check_code unverified need_redis
  verify email code = do
    found ← attempt (find_by_email env email)
    a ← or_fail (app account_not_found) found
    unverified a
    need_redis
    value ← cache_read env (env.redis.get (verify_code_key a.id))
    check_code code value
    in_transaction env (update_verification_status env a.id true)
    ignore (cached env (env.redis.del (verify_code_key a.id ∷ [])))

  -- The code that the cache holds, if it is one, is kept and its time prolonged.
  renew_code : Text → Text → Option Text → Handler env Text
  unfolding set_code
  renew_code account_id fresh (some code) = do
    ignore
        (cached env (env.redis.expire (verify_code_key account_id) env.cfg.verify_email_duration))
    pure code
  renew_code account_id fresh none = do set_code account_id fresh; pure fresh

  abbrev pub parsed : Outcome Err (Option Value) → Option Text
  parsed (ok (some v)) = env.parse_uuid (value_text v)
  parsed (ok none) = none
  parsed (fail e) = none

  unfoldable pub resend_email : Text → Text → Text → ℕ → Handler env VerifyCode
  unfolding unverified need_redis renew_code verify_code
  resend_email email ip fresh now = do
    found ← attempt (find_by_email env email)
    a ← or_fail (app account_not_found) found
    unverified a
    check_email_rate_limit env ip
    need_redis
    cached_code ← attempt (cache_read env (env.redis.get (verify_code_key a.id)))
    code ← renew_code a.id fresh (parsed cached_code)
    emit env (mail email code)
    pure (verify_code code a.id now)
