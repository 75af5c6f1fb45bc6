-- ===== src/Auth/Tokens.antt =====
-- auth-service/service/token.go, the tokens of login.go, and `ValidateToken` of grpc/server.go.
use social_network_micro_ser.Prelude.{
  or_error, guard, ℕ, ◌+◌, ◌-◌, Text, codes, text_eq, Bool, false, ◌&&◌, ◌||◌, not, Option, none,
  some, Outcome, ok, fail, ◌>>=◌, ◌>>◌, pure, attempt, ignore, or_fail, lift, itoa, leb,
  if◌then◌else◌, [],
}
use social_network_micro_ser.Exception.{Err, app, message}
use social_network_micro_ser.Exception.Codes.{
  unauthorized, invalid_or_expired_refresh_token, account_not_found, invalid_token,
}
use social_network_micro_ser.Services.Redis.{Value, num, text}
use social_network_micro_ser.Auth.Env.{Account, TokenClaims, Env, World, Handler, cached}
use social_network_micro_ser.Auth.Keys.{user_info_key, blacklist_key, suspended_key}
use social_network_micro_ser.Auth.Accounts.{find_by_id}

-- The text that a read of the key returns.
abbrev pub value_text : Value → Text
value_text (num n) = itoa n
value_text (text t) = t

abbrev pub cached_text : Outcome Err (Option Value) → Text
cached_text (ok (some v)) = value_text v
cached_text (ok none) = []
cached_text (fail e) = []

abbrev pub is_empty : Text → Bool
is_empty t = text_eq t []

abbrev pub succeeds : Outcome Err Bool → Bool
succeeds (ok b) = b
succeeds (fail e) = false

abbrev pub error_text : Err → Text
error_text (app e) = codes e.message
error_text (message m) = m

time_left : Option ℕ → ℕ → Option ℕ
time_left none now = none
time_left (some expiry) now = if leb expiry now then none else some (expiry - now)

claims_left : Option TokenClaims → ℕ → Option ℕ
unfolding time_left
claims_left none now = none
claims_left (some claims) now = time_left claims.expires_at now

module _ (env : Env) where
  cached_username : Text → World env → Text
  cached_username user_id w =
      if env.has_redis then cached_text (env.redis.get (user_info_key user_id) w.cache) else []

  remember_username : Text → Text → Handler env (Unit {0})
  remember_username user_id username =
      if env.has_redis
      then ignore (cached env (env.redis.set (user_info_key user_id) (text username) 86400))
      else pure tt

  keep_username : Text → Outcome Err Text → Handler env Text
  unfolding remember_username
  keep_username user_id (fail e) = pure []
  keep_username user_id (ok username) =
      if is_empty username then pure [] else (do remember_username user_id username; pure username)

  ask_username : Option (Text → Outcome Err Text) → Text → Handler env Text
  unfolding keep_username
  ask_username none user_id = pure []
  ask_username (some client) user_id = keep_username user_id (client user_id)

  username_of : Text → Handler env Text
  unfolding cached_username ask_username
  username_of user_id w =
      if is_empty (cached_username user_id w)
      then ask_username env.user_client user_id w
      else (ok (cached_username user_id w), w)

  -- `GenerateToken(userId, email, role, secret, duration)`
  unfoldable pub generate_token : Account → Text → ℕ → ℕ → Handler env Text
  unfolding username_of
  generate_token a secret duration now = do
    username ← username_of a.id
    lift (
        env.sign
          (record {
            user_id = a.id;
            email = a.email;
            role = a.role;
            scope = a.role;
            username = username;
            expires_at = some (now + duration);
            issued_at = now;
            not_before = now;
            subject = a.id;
          })
          secret)

  or_invalid_token : Outcome Err TokenClaims → Outcome Err TokenClaims
  or_invalid_token (ok claims) = ok claims
  or_invalid_token (fail e) = fail (app invalid_token)

  unfoldable pub validate_token : Text → ℕ → Outcome Err TokenClaims
  unfolding or_invalid_token
  validate_token token now = or_invalid_token (env.parse_token token env.cfg.jwt_secret now)

  -- The refresh tokens that `Logout` writes stand under the token itself.
  unfoldable pub refresh_revoked : Text → World env → Bool
  refresh_revoked token w = env.has_redis && succeeds (env.redis.exists token w.cache)

  check_role : Text → Text → Handler env (Unit {0})
  check_role expected role =
      guard (is_empty expected || text_eq role expected) (app invalid_or_expired_refresh_token)

  -- An empty role is no expectation: `RefreshToken` is this handler at the empty role.
  unfoldable pub refresh_token_for_role : Text → Text → ℕ → Handler env Text
  unfolding refresh_revoked check_role
  refresh_token_for_role token expected now w =
      if refresh_revoked token w
      then (fail (app unauthorized), w)
      else (do
        claims ←
            or_fail (app invalid_or_expired_refresh_token)
              (env.parse_token token env.cfg.jwt_refresh_secret now)
        check_role expected claims.role
        id ← lift (or_error (app account_not_found) (env.parse_uuid claims.user_id))
        found ← attempt (find_by_id env id)
        account ← or_fail (app account_not_found) found
        check_role expected account.role
        generate_token account env.cfg.jwt_secret env.cfg.access_token_duration now)
          w

  -- How long the token must be remembered as revoked: the seconds until its own expiry, unless it
  -- is empty, unreadable, without an expiry or expired.
  unfoldable pub revoked_for : Text → ℕ → Option ℕ
  unfolding claims_left
  revoked_for token now =
      if is_empty token || not env.has_redis
      then none
      else claims_left (env.parse_unverified token) now

  unfoldable pub write_revoked : Text → Option ℕ → Handler env (Unit {0})
  write_revoked token none = pure tt
  write_revoked token (some seconds) =
      cached env (env.redis.set (blacklist_key token) (text (codes "revoked")) seconds)

  unfoldable pub blacklist_token : Text → ℕ → Handler env (Unit {0})
  blacklist_token token now = write_revoked token (revoked_for token now)

  unfoldable pub is_token_blacklisted : Text → World env → Bool
  is_token_blacklisted token w =
      not (is_empty token)
      && env.has_redis
      && succeeds (env.redis.exists (blacklist_key token) w.cache)

  unfoldable pub revoke_refresh : Text → ℕ → Handler env (Unit {0})
  unfolding blacklist_token
  revoke_refresh token now = do
    ignore (blacklist_token token now)
    (if env.has_redis
        then ignore (cached env (env.redis.set token (text (codes "blacklisted")) 604800))
        else pure tt)

  -- `Logout(refreshToken, accessToken)`: an empty token is none. It never fails.
  unfoldable pub logout : Text → Text → ℕ → Handler env (Unit {0})
  unfolding revoke_refresh
  logout refresh access now = do
    (if is_empty refresh then pure tt else revoke_refresh refresh now)
    (if is_empty access then pure tt else ignore (blacklist_token access now))

  -- The gRPC `ValidateToken`: who the token speaks for, or why it is refused.
  suspended_reply : TokenClaims → World env → Outcome Text TokenClaims
  suspended_reply claims w =
      if env.has_redis && succeeds (env.redis.exists (suspended_key claims.user_id) w.cache)
      then fail (codes "USER_SUSPENDED")
      else ok claims

  valid_reply : Outcome Err TokenClaims → World env → Outcome Text TokenClaims
  unfolding suspended_reply
  valid_reply (fail e) w = fail (error_text e)
  valid_reply (ok claims) w = suspended_reply claims w

  unfoldable pub validate_token_reply : Text → ℕ → World env → Outcome Text TokenClaims
  unfolding valid_reply
  validate_token_reply token now w =
      if is_token_blacklisted token w
      then fail (codes "TOKEN_REVOKED")
      else valid_reply (validate_token token now) w
