-- ===== src/Auth/ResetFlow.antt =====
-- password.go over several calls, with `Logout` of login.go between them.
use social_network_micro_ser.Prelude.{
  ℕ, ◌<◌, Text, text_eq, true, false, none, some, ◌≡◌, refl, Outcome, ok, arith, [], ◌∷◌,
  text_eq_refl, ap, ◌∙◌,
}
use social_network_micro_ser.Exception.{Err}
use social_network_micro_ser.Services.Redis.{text, count_of}
use social_network_micro_ser.Auth.Env.{Account, Env, World, mail}
use social_network_micro_ser.Auth.Keys
use social_network_micro_ser.Auth.Keys.{
  reset_code_key, reset_token_key, reset_verified_key, email_rate_key,
}
use social_network_micro_ser.Auth.Accounts.{find_by_email}
use social_network_micro_ser.Auth.Reset.{
  forgot_password, verify_reset_password, update_password_by_code,
}
use social_network_micro_ser.Auth.Mailing.{check_email_rate_limit}
use social_network_micro_ser.Auth.Mailing.Limit.{check-MailCounted}
use social_network_micro_ser.Auth.Tokens.{is_empty, logout}
use social_network_micro_ser.Auth.Revocation.{logout-held}
use social_network_micro_ser.Auth.Passwords.{
  PasswordStored, verify-CodeVerified, update_password_once,
}

known_mark : (email code : Text) → is_empty (reset_verified_key email code) ≡ false
unfolding reset_verified_key text_eq
known_mark email code = refl

module _ (env : Env) (on : env.has_redis ≡ true) (w : World env) (email : Text) (a : Account)
    (cache_up : env.redis.Up w.cache) (db_up : env.database.Up w.db)
    (found : (find_by_email env email w).0 ≡ ok a) where
  -- What a request for a mail leaves: the fresh code, under itself and under the account.
  record CodeSent (fresh : Text) (r : Outcome Err (Unit {0}) × World env) : Type 0 where
    done : r.0 ≡ ok tt
    up : env.redis.Up r.1.cache
    token : env.redis.held r.1.cache (reset_token_key fresh) ≡ some (text a.id)
    db : r.1.db ≡ w.db
    sent : r.1.sent ≡ mail email fresh ∷ w.sent

  forgot-CodeSent :
      (ip fresh : Text) (c : ℕ)
      → 0 < env.cfg.email_rate_limit_window
      → is_empty ip ≡ false
      → env.redis.held w.cache (reset_code_key a.id) ≡ none
      → count_of (env.redis.held w.cache (email_rate_key ip)) ≡ some c
      → c < env.cfg.email_rate_limit_count
      → CodeSent fresh (forgot_password env email ip fresh w)
  unfolding forgot_password find_by_email
  forgot-CodeSent ip fresh c window known no_code counted below =
      let m = check-MailCounted env on window ip known c w cache_up counted below in
      let k = reset_code_key a.id in
      let t = reset_token_key fresh in
      let d = env.cfg.password_reset_duration in
      let w1 = (check_email_rate_limit env ip w).1 in
      let e1 = env.redis.get_up k w1.cache m.up in
      let still : env.redis.held w1.cache k ≡ none =
        ground (arith, m.held k, Keys.rate-code ip a.id) in
      let s2 = (env.redis.set k (text fresh) d w1.cache).1 in
      let u2 = env.redis.set-Up k (text fresh) d w1.cache m.up in
      let u3 = env.redis.set-Up t (text a.id) d s2 u2 in
      let h3 = env.redis.held-set t (text a.id) d s2 t u2 in
      let w3 : World env = record w1 {
        cache = (env.redis.set t (text a.id) d s2).1;
        sent = mail email fresh ∷ w1.sent;
      } in
      let e : forgot_password env email ip fresh w ≡ (ok tt, w3) = ground (arith, m.done) in
      rw e (record {
        done = refl;
        up = u3;
        token = h3 ∙ rw (text_eq_refl t);
        db = m.db;
        sent = ap (◌∷◌ (mail email fresh)) m.sent;
      })

  -- A request for a mail, the code of the mail, and the new password: each step succeeds, the mail
  -- with the fresh code is handed to the sender, and the account's password becomes a hash of the
  -- new one, which compares with it; the code then opens nothing more. Assumed: Redis is configured
  -- and it and the database are up, the account is found, no reset code of it is pending, the
  -- address has mails left in a window that is not empty, the hash succeeds, and the fresh code is a
  -- canonical uuid.
  pub reset_flow :
      (ip fresh new_password hashed : Text) (salt c : ℕ)
      → 0 < env.cfg.email_rate_limit_window
      → is_empty ip ≡ false
      → env.redis.held w.cache (reset_code_key a.id) ≡ none
      → count_of (env.redis.held w.cache (email_rate_key ip)) ≡ some c
      → c < env.cfg.email_rate_limit_count
      → env.parse_uuid fresh ≡ some fresh
      → env.hash_password salt new_password ≡ ok hashed
      → let r1 = forgot_password env email ip fresh w in
        let r2 = verify_reset_password env email fresh r1.1 in
        let r3 = update_password_by_code env email fresh new_password salt r2.1 in
        (r1.0 ≡ ok tt)
        × (r1.1.sent ≡ mail email fresh ∷ w.sent)
        × (r2.0 ≡ ok tt)
        × PasswordStored env a.id hashed w r3
        × (env.compare_password hashed new_password ≡ true)
        × (env.redis.held r3.1.cache (reset_verified_key email fresh) ≡ none)
        × (env.redis.held r2.1.cache (reset_token_key fresh) ≡ none)
  unfolding find_by_email
  reset_flow ip fresh new_password hashed salt c window known no_code counted below canonical
        hashes =
      let w1 = (forgot_password env email ip fresh w).1 in
      let w2 = (verify_reset_password env email fresh w1).1 in
      let m = forgot-CodeSent ip fresh c window known no_code counted below in
      let v =
        verify-CodeVerified env on w1 email fresh fresh a m.up (rw (m.db) db_up) canonical
          (rw (m.db) found) (text a.id) m.token refl in
      let (p, gone) =
        update_password_once env on w2 email fresh fresh a v.up (rw (v.db, m.db) db_up) canonical
          (rw (v.db, m.db) found) new_password hashed salt hashes v.marked in
      (
        m.done,
        m.sent,
        v.done,
        record { done = p.done; rows = ground (arith, p.rows, v.db, m.db) },
        env.compare-hash salt new_password hashed hashes,
        gone,
        v.token_gone,
      )

  -- `Logout` stores any text that comes as a refresh token as a key of Redis. With the text of a
  -- verified reset code as the token, `UpdatePassword` then sets the password of any account that is
  -- found by its email: no mail is read, no code is asked for and no password known. Assumed: Redis
  -- is configured and it and the database are up, and the code parses as a uuid.
  pub logout_opens_reset :
      (code_text code new_password hashed : Text) (salt now : ℕ)
      → env.parse_uuid code_text ≡ some code
      → env.hash_password salt new_password ≡ ok hashed
      → let w1 = (logout env (reset_verified_key email code) [] now w).1 in
        PasswordStored env a.id hashed w
          (update_password_by_code env email code_text new_password salt w1)
  unfolding find_by_email
  logout_opens_reset code_text code new_password hashed salt now parses hashes =
      let m = reset_verified_key email code in
      let (k, there) = logout-held env on now m [] w cache_up (known_mark email code) in
      let (p, gone) =
        update_password_once env on (logout env m [] now w).1 email code_text code a k.up
          (rw (k.db) db_up) parses (rw (k.db) found) new_password hashed salt hashes there in
      record { done = p.done; rows = ground (arith, p.rows, k.db) }
