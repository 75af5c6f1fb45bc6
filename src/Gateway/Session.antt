-- ===== src/Gateway/Session.antt =====
-- The gateway in front of auth-service: grpc/server.go as the client of the middleware.
use social_network_micro_ser.Prelude.{
  ℕ, ◌<◌, Text, codes, text_eq, true, false, Bool, ◌||◌, [], ◌∷◌, ◌++◌, some, ◌≡◌, refl, Outcome,
  ok, fail, arith, ◌==◌, ap, ◌∙◌,
}
use social_network_micro_ser.Auth.Env.{TokenClaims, Env, World}
use social_network_micro_ser.Auth.Tokens.{is_empty, logout, validate_token_reply}
use social_network_micro_ser.Auth.Revocation.{logout_ends_access}
use social_network_micro_ser.Gateway.{
  Request, Identity, refused, AuthClient, before_head, split, token_after, token_in, header_token,
  token_of, answer_for, auth_required,
}

unfoldable pub response_of : Outcome Text TokenClaims → Outcome Text Identity
response_of (ok claims) =
    ok (record { user_id = claims.user_id; email = claims.email; role = claims.role })
response_of (fail reason) = fail reason

module _ (env : Env) where
  -- The call reaches the server, whose state is `w`, at the time `now`.
  unfoldable pub client_of : ℕ → World env → AuthClient
  client_of now w token = ok (response_of (validate_token_reply env token now w))

unfoldable pub has_space : Text → Bool
has_space [] = false
has_space (c ∷ cs) = c == 32 || has_space cs

split_lem : (t : Text) → has_space t ≡ false → split t ≡ t ∷ []
unfolding split has_space before_head
split_lem [] h = refl
split_lem (c ∷ cs) h = ground (arith, split_lem cs)

header_token-bearer :
    (t : Text) → has_space t ≡ false → header_token (codes "Bearer" ++ (32 ∷ t)) ≡ t
unfolding header_token split before_head token_in token_after text_eq
header_token-bearer t h = rw (split_lem t h) refl

module _ (env : Env) (on : env.has_redis ≡ true) (now : ℕ) where
  -- After a logout with an access token that has not expired, with or without a refresh token, the
  -- gateway answers every request that carries this token in its header with 401,
  -- INVALID_OR_EXPIRED_TOKEN and TOKEN_REVOKED.
  -- Assumed: Redis is configured and up and keeps the key, the call of the gateway reaches the
  -- auth service, and the access token is not empty, is readable and has no space.
  pub gateway_refuses_logged_out :
      (refresh access : Text) (claims : TokenClaims) (expiry later : ℕ) (w : World env)
      (r : Request)
      → env.redis.Up w.cache
      → is_empty access ≡ false
      → has_space access ≡ false
      → env.parse_unverified access ≡ some claims
      → claims.expires_at ≡ some expiry
      → now < expiry
      → r.authorization ≡ codes "Bearer" ++ (32 ∷ access)
      → auth_required (client_of env later (logout env refresh access now w).1) r
        ≡ refused 401 (codes "INVALID_OR_EXPIRED_TOKEN") (codes "TOKEN_REVOKED")
  unfolding auth_required token_of client_of answer_for response_of
  gateway_refuses_logged_out refresh access claims expiry later w r up known joined reads expires
        alive header =
      let revoked =
        logout_ends_access env on now refresh access claims expiry later w up known reads expires
          alive in
      let token = ap header_token header ∙ header_token-bearer access joined in
      ground (arith, revoked, token)
