-- ===== src/Auth/Mailing.antt =====
-- `checkEmailRateLimit` of auth-service/service/auth_service.go.
pub mod Limit
use social_network_micro_ser.Prelude.{
  ℕ, Text, codes, not, ◌||◌, ◌++◌, Option, none, some, Outcome, ok, fail, ◌>>=◌, ◌>>◌, pure, throw,
  attempt, lift, atoi, leb, ◌==◌, if◌then◌else◌, ◌∷◌,
}
use social_network_micro_ser.Exception.{Err, app, message}
use social_network_micro_ser.Exception.Codes.{too_many_email_requests}
use social_network_micro_ser.Services.Redis.{Value, num, text}
use social_network_micro_ser.Auth.Env.{Env, Handler, cached, cache_read}
use social_network_micro_ser.Auth.Keys.{email_rate_key}
use social_network_micro_ser.Auth.Tokens.{is_empty}

-- `Atoi`'s error; characters that Go would escape are left as they are.
abbrev pub number_or_error : Text → Option ℕ → Outcome Err ℕ
number_or_error t (some n) = ok n
number_or_error t none =
    fail
      (message (codes "strconv.Atoi: parsing " ++ (b'"' ∷ t ++ (b'"' ∷ codes ": invalid syntax"))))

-- `Get(key).Int()`, where a missing key counts 0.
unfoldable pub int_of : Option Value → Outcome Err ℕ
int_of none = ok 0
int_of (some (num n)) = ok n
int_of (some (text t)) = number_or_error t (atoi t)

module _ (env : Env) where
  -- The pipeline runs both commands, and fails with the first error.
  count_mail : Text → ℕ → Handler env (Unit {0})
  count_mail ip count = do
    counted ← attempt (cached env (env.redis.incr (email_rate_key ip)))
    expiring ← attempt (
        if count == 0
        then cached env (env.redis.expire (email_rate_key ip) env.cfg.email_rate_limit_window)
        else pure tt)
    lift counted
    lift expiring

  unfoldable pub check_email_rate_limit : Text → Handler env (Unit {0})
  unfolding count_mail
  check_email_rate_limit ip = if is_empty ip || not env.has_redis then pure tt else (do
    value ← cache_read env (env.redis.get (email_rate_key ip))
    count ← lift (int_of value)
    (if leb env.cfg.email_rate_limit_count count
        then throw (app too_many_email_requests)
        else count_mail ip count))
