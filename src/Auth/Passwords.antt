-- ===== src/Auth/Passwords.antt =====
-- The flow of password.go from a verified code to the new password, and who can start it.
use social_network_micro_ser.Prelude.{
  ℕ, Text, codes, text_eq, true, none, some, ◌≡◌, Outcome, ok, fail, arith, [], ◌∷◌, text_eq_refl,
  text_eq_iff, ap, Option-cases, inl, inr,
}
use social_network_micro_ser.Exception.{Err, app}
use social_network_micro_ser.Exception.Codes.{verification_code_not_matched_or_expired}
use social_network_micro_ser.Auth.Tokens.{value_text}
use social_network_micro_ser.Services.Redis.{Value, text, is_some}
use social_network_micro_ser.Services.Database.{update_rows}
use social_network_micro_ser.Auth.Env.{Account, Env, World}
use social_network_micro_ser.Auth.Keys.{reset_code_key, reset_token_key, reset_verified_key}
use social_network_micro_ser.Auth.Keys
use social_network_micro_ser.Auth.Accounts.{has_id, find_by_email, update_password, in_transaction}
use social_network_micro_ser.Auth.Reset.{verify_reset_password, update_password_by_code}

-- The account's password is the new hash, and no other row and no other field changes.
pub record PasswordStored (env : Env) (id hashed : Text) (w : World env)
    (r : Outcome Err (Unit {0}) × World env) : Type 0 where
  pub done : r.0 ≡ ok tt
  pub rows :
      env.database.rows r.1.db
      ≡ update_rows (has_id id) (λ a. record a { password = hashed }) (env.database.rows w.db)

module _ (env : Env) (id hashed : Text) (w : World env) (up : env.database.Up w.db) where
  transaction-PasswordStored :
      PasswordStored env id hashed w (in_transaction env (update_password env id hashed) w)
      × ((in_transaction env (update_password env id hashed) w).1.cache ≡ w.cache)
  unfolding in_transaction update_password
  transaction-PasswordStored =
      let d = env.database in
      let p = has_id id in
      let f = λ (a : Account). record a { password = hashed } in
      let s1 = (d.begin w.db).1 in
      let s2 = (d.update p f s1).1 in
      let e1 = d.begin_up w.db up in
      let u1 = d.begin-Up w.db up in
      let e2 = d.update_up p f s1 u1 in
      let u2 = d.update-Up p f s1 u1 in
      let e3 = d.commit_up s2 u2 in
      let r3 = d.rows-commit s2 u2 in
      let r2 = d.rows-update p f s1 u1 in
      let r1 = ap (update_rows p f) (d.rows-begin w.db up) in
      (record { done = ground arith; rows = ground arith }, ground arith)

module _ (env : Env) (on : env.has_redis ≡ true) (w : World env) (email code_text code : Text)
    (a : Account) (cache_up : env.redis.Up w.cache) (db_up : env.database.Up w.db)
    (parses : env.parse_uuid code_text ≡ some code)
    (found : (find_by_email env email w).0 ≡ ok a) where
  -- Whoever finds the mark of a verified code may set the password, once: the mark is gone after.
  pub update_password_once :
      (new_password hashed : Text) (salt : ℕ)
      → env.hash_password salt new_password ≡ ok hashed
      → is_some (env.redis.held w.cache (reset_verified_key email code)) ≡ true
      → let r = update_password_by_code env email code_text new_password salt w in
        PasswordStored env a.id hashed w r
        × (env.redis.held r.1.cache (reset_verified_key email code) ≡ none)
  unfolding update_password_by_code find_by_email
  update_password_once new_password hashed salt hashes marked =
      let k = reset_verified_key email code in
      let there = env.redis.exists_up k w.cache cache_up in
      let (stored, same) = transaction-PasswordStored env a.id hashed w db_up in
      let gone = env.redis.held-del (k ∷ []) w.cache k cache_up in
      (
        record {
          done = ground (arith, stored.done);
          rows = ground (arith, stored.done, stored.rows);
        },
        ground (arith, stored.done, text_eq_refl k),
      )

  -- A code that is stored for the account is accepted; the mark stands, the code is gone.
  pub record CodeVerified (r : Outcome Err (Unit {0}) × World env) : Type 0 where
    pub done : r.0 ≡ ok tt
    pub up : env.redis.Up r.1.cache
    pub marked : is_some (env.redis.held r.1.cache (reset_verified_key email code)) ≡ true
    pub token_gone : env.redis.held r.1.cache (reset_token_key code) ≡ none
    pub code_gone : env.redis.held r.1.cache (reset_code_key a.id) ≡ none
    pub db : r.1.db ≡ w.db

  pub verify-CodeVerified :
      (v : Value)
      → env.redis.held w.cache (reset_token_key code) ≡ some v
      → value_text v ≡ a.id
      → CodeVerified (verify_reset_password env email code_text w)
  unfolding verify_reset_password find_by_email
  verify-CodeVerified v held owner =
      let m = reset_verified_key email code in
      let k = reset_token_key code in
      let c = reset_code_key a.id in
      let one = text (codes "1") in
      let d = env.cfg.password_reset_duration in
      let e0 = env.redis.get_up k w.cache cache_up in
      let e1 = env.redis.set_up m one d w.cache cache_up in
      let s1 = (env.redis.set m one d w.cache).1 in
      let u1 = env.redis.set-Up m one d w.cache cache_up in
      let h1 = λ (j : Text). env.redis.held-set m one d w.cache j cache_up in
      let e2 = env.redis.del_up (k ∷ c ∷ []) s1 u1 in
      let u2 = env.redis.del-Up (k ∷ c ∷ []) s1 u1 in
      let h2 = λ (j : Text). env.redis.held-del (k ∷ c ∷ []) s1 j u1 in
      let same : text_eq (value_text v) a.id ≡ true = (text_eq_iff (value_text v) a.id).1 owner in
      record {
        done = ground arith;
        up = ground arith;
        marked = ground (
          arith,
          h1 m,
          h2 m,
          text_eq_refl m,
          Keys.token-verified code email code,
          Keys.code-verified a.id email code,
        );
        token_gone = ground (arith, h2 k, text_eq_refl k);
        code_gone = ground (arith, h2 c, text_eq_refl c);
        db = ground arith;
      }

  -- Without a stored code the check fails.
  pub verify_without_code :
      env.redis.held w.cache (reset_token_key code) ≡ none
      → (verify_reset_password env email code_text w).0
        ≡ fail (app verification_code_not_matched_or_expired)
  unfolding verify_reset_password find_by_email
  verify_without_code gone =
      let e0 = env.redis.get_up (reset_token_key code) w.cache cache_up in ground arith

-- `UpdatePassword` succeeds only where Redis is configured and answers that the mark of the email
-- and the code is there, whatever else fails.
pub update_password_needs_mark :
    (env : Env) (w : World env) (email code_text new_password : Text) (salt : ℕ)
    → (update_password_by_code env email code_text new_password salt w).0 ≡ ok tt
    → (env.has_redis ≡ true)
      × ((code : Text) × (env.parse_uuid code_text ≡ some code)
          × (env.redis.exists (reset_verified_key email code) w.cache ≡ ok true))
unfolding update_password_by_code find_by_email
update_password_needs_mark env w email code_text new_password salt h = (
  ground arith,
  elim (Option-cases (env.parse_uuid code_text)) [
    | inl missing ↦ absurd (ground arith)
    | inr (code, parses) ↦ (code, parses, ground arith)
  ],
)
