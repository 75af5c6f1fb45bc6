-- ===== src/Auth/Revocation.antt =====
-- `Logout` of login.go, and the calls that read its keys.
use mathlib.Core.Path.{subst}
use social_network_micro_ser.Prelude.{
  sym, ℕ, ◌<◌, ◌-◌, Text, codes, true, false, some, ◌≡◌, refl, fail, arith, text_eq_refl, ◌∙◌,
  Option-cases, Bool, inl, inr, Bool-cases,
}
use social_network_micro_ser.Exception.{app}
use social_network_micro_ser.Exception.Codes.{unauthorized}
use social_network_micro_ser.Services.Redis.{Value, text, is_some}
use social_network_micro_ser.Auth.Env.{Env, World, TokenClaims}
use social_network_micro_ser.Auth.Keys.{blacklist_key}
use social_network_micro_ser.Auth.Tokens.{
  is_empty, logout, blacklist_token, revoked_for, write_revoked, revoke_refresh,
  refresh_token_for_role, validate_token_reply, is_token_blacklisted,
}

module _ (env : Env) (on : env.has_redis ≡ true) (now : ℕ) where
  -- Redis stays up, a key that was there is still there, and nothing else changes.
  pub record Kept (w w' : World env) : Type 0 where
    pub up : env.redis.Up w'.cache
    pub held :
        (j : Text)
        → is_some (env.redis.held w.cache j) ≡ true
        → is_some (env.redis.held w'.cache j) ≡ true
    pub db : w'.db ≡ w.db

  Kept-refl : (w : World env) → env.redis.Up w.cache → Kept w w
  Kept-refl w up = record { up = up; held = λ j h. h; db = refl }

  Kept-set :
      (k : Text) (v : Value) (d : ℕ) (w : World env)
      → env.redis.Up w.cache
      → Kept w (record w { cache = (env.redis.set k v d w.cache).1 })
  Kept-set k v d w up = record {
    up = env.redis.set-Up k v d w.cache up;
    held = λ j h. ground (arith, env.redis.held-set k v d w.cache j up);
    db = refl;
  }

  blacklist-Kept :
      (token : Text) (w : World env)
      → env.redis.Up w.cache
      → Kept w (blacklist_token env token now w).1
  unfolding blacklist_token write_revoked
  blacklist-Kept token w up = elim (Option-cases (revoked_for env token now)) [
    | inl e ↦ rw (e, write_revoked) (Kept-refl w up)
    | inr (d, e) ↦
        rw (e, write_revoked) (Kept-set (blacklist_key token) (text (codes "revoked")) d w up)
  ]

  Kept-trans : (w w' w'' : World env) → Kept w w' → Kept w' w'' → Kept w w''
  Kept-trans w w' w'' k l = record {
    up = l.up;
    held = λ j h. l.held j (k.held j h);
    db = l.db ∙ k.db;
  }

  -- The refresh token's own key is there after the first half of a logout.
  revoke_refresh-held :
      (refresh : Text) (w : World env)
      → env.redis.Up w.cache
      → let w' = (revoke_refresh env refresh now w).1 in
        Kept w w' × (is_some (env.redis.held w'.cache refresh) ≡ true)
  unfolding revoke_refresh
  revoke_refresh-held refresh w up =
      let w1 = (blacklist_token env refresh now w).1 in
      let v = text (codes "blacklisted") in
      let k = blacklist-Kept refresh w up in
      let s = Kept-set refresh v 604800 w1 k.up in
      let there = env.redis.held-set refresh v 604800 w1.cache refresh k.up in
      simp on (Kept-trans w w1 _ k s, ground (arith, there, text_eq_refl refresh))

  pub logout-held :
      (refresh access : Text) (w : World env)
      → env.redis.Up w.cache
      → is_empty refresh ≡ false
      → let w' = (logout env refresh access now w).1 in
        Kept w w' × (is_some (env.redis.held w'.cache refresh) ≡ true)
  unfolding logout
  logout-held refresh access w up known =
      let (k, there) = revoke_refresh-held refresh w up in
      let w1 = (revoke_refresh env refresh now w).1 in
      let l = blacklist-Kept access w1 k.up in
      elim (Bool-cases (is_empty access)) [
        | inl e ↦ simp (known, e, on) (simp on at (k), simp on at (there))
        | inr e ↦
            simp (known, e, on)
              (simp on at (Kept-trans w w1 _ k l), simp on at (l.held refresh there))
      ]

  -- After a logout with a refresh token, no refresh with that token succeeds while Redis answers
  -- and keeps the key: it is refused as unauthorised, for every role. Assumed: Redis is configured
  -- and up, and the token is not empty.
  pub logout_ends_refresh :
      (refresh access role : Text) (later : ℕ) (w : World env)
      → env.redis.Up w.cache
      → is_empty refresh ≡ false
      → let w' = (logout env refresh access now w).1 in
        refresh_token_for_role env refresh role later w' ≡ (fail (app unauthorized), w')
  unfolding refresh_token_for_role
  logout_ends_refresh refresh access role later w up known =
      let (k, there) = logout-held refresh access w up known in
      let e = env.redis.exists_up refresh (logout env refresh access now w).1.cache k.up in
      ground arith

  revoked_for_lem :
      (token : Text) (claims : TokenClaims) (expiry : ℕ)
      → is_empty token ≡ false
      → env.parse_unverified token ≡ some claims
      → claims.expires_at ≡ some expiry
      → now < expiry
      → revoked_for env token now ≡ some (expiry - now)
  unfolding revoked_for
  revoked_for_lem token claims expiry known reads expires alive = ground arith

  -- A token that stands revoked is refused.
  revoked_reply :
      (token : Text) (later : ℕ) (w : World env)
      → env.redis.Up w.cache
      → is_empty token ≡ false
      → is_some (env.redis.held w.cache (blacklist_key token)) ≡ true
      → validate_token_reply env token later w ≡ fail (codes "TOKEN_REVOKED")
  unfolding validate_token_reply is_token_blacklisted
  revoked_reply token later w up known there =
      let e = env.redis.exists_up (blacklist_key token) w.cache up in ground arith

  -- The state between the two halves of a logout, by whether the refresh token is empty.
  unfoldable halfway : Bool → Text → World env → World env
  halfway true refresh w = w
  halfway false refresh w = (revoke_refresh env refresh now w).1

  halfway-Up :
      (b : Bool) (refresh : Text) (w : World env)
      → env.redis.Up w.cache
      → env.redis.Up (halfway b refresh w).cache
  unfolding halfway
  halfway-Up true refresh w up = up
  halfway-Up false refresh w up = (revoke_refresh-held refresh w up).0.up

  logout_halves :
      (b : Bool) (refresh access : Text) (w : World env)
      → is_empty refresh ≡ b
      → is_empty access ≡ false
      → (logout env refresh access now w).1
        ≡ (blacklist_token env access now (halfway b refresh w)).1
  unfolding logout halfway revoke_refresh
  logout_halves true refresh access w e known = simp (e, known)
  logout_halves false refresh access w e known = ground arith

  -- After a logout with an access token that has not expired, with or without a refresh token, the
  -- gateway's question about that token is answered TOKEN_REVOKED. Assumed: Redis is configured and
  -- up and keeps the key, and the access token is not empty and is readable.
  pub logout_ends_access :
      (refresh access : Text) (claims : TokenClaims) (expiry later : ℕ) (w : World env)
      → env.redis.Up w.cache
      → is_empty access ≡ false
      → env.parse_unverified access ≡ some claims
      → claims.expires_at ≡ some expiry
      → now < expiry
      → validate_token_reply env access later (logout env refresh access now w).1
        ≡ fail (codes "TOKEN_REVOKED")
  unfolding write_revoked blacklist_token
  logout_ends_access refresh access claims expiry later w up known reads expires alive =
      let w1 = halfway (is_empty refresh) refresh w in
      let key = blacklist_key access in
      let v = text (codes "revoked") in
      let d = expiry - now in
      let up1 = halfway-Up (is_empty refresh) refresh w up in
      let w2 : World env = record w1 { cache = (env.redis.set key v d w1.cache).1 } in
      let half = revoked_for_lem access claims expiry known reads expires alive in
      let e : (blacklist_token env access now w1).1 ≡ w2 = simp half in
      let held = env.redis.held-set key v d w1.cache key up1 in
      subst (λ x. validate_token_reply env access later x ≡ fail (codes "TOKEN_REVOKED"))
        (sym (logout_halves (is_empty refresh) refresh access w refl known ∙ e))
        (revoked_reply access later w2 (env.redis.set-Up key v d w1.cache up1) known
          (ground (arith, held, text_eq_refl key)))
