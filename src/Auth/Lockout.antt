-- ===== src/Auth/Lockout.antt =====
-- The lock of login.go: what repeated failures of an account lead to.
use social_network_micro_ser.Prelude.{
  ℕ, suc, ◌-◌, ◌<◌, Text, codes, true, [], ◌∷◌, none, some, ◌≡◌, fail, arith, text_eq_refl,
}
use social_network_micro_ser.Services.Redis.{num, text, count_of}
use social_network_micro_ser.Auth.Env.{Env, World}
use social_network_micro_ser.Auth.Keys.{
  login_attempt_key, login_lock_key, suspended_key, attempt-lock, attempt-suspended, lock-suspended,
}
use social_network_micro_ser.Auth.Login.{
  process_login_failed, account_locked_for, attempts_remaining, login_lock_ttl, login_attempt_ttl,
}

-- The failures of the account that are counted are `n`.
abbrev pub Counted : (env : Env) → World env → Text → ℕ → Type 0
Counted env w id n = count_of (env.redis.held w.cache (login_attempt_key id)) ≡ some n

-- After one more failure below the limit: it is counted, and the other keys of the account and the
-- database are as they were.
pub record FailureCounted (env : Env) (id : Text) (n : ℕ) (w w' : World env) : Type 0 where
  pub up : env.redis.Up w'.cache
  pub counted : env.redis.held w'.cache (login_attempt_key id) ≡ some (num (suc n))
  pub lock :
      env.redis.held w'.cache (login_lock_key id) ≡ env.redis.held w.cache (login_lock_key id)
  pub suspended :
      env.redis.held w'.cache (suspended_key id) ≡ env.redis.held w.cache (suspended_key id)
  pub db : w'.db ≡ w.db

-- After the failure that reaches the limit.
pub record IsLocked (env : Env) (id : Text) (w w' : World env) : Type 0 where
  pub up : env.redis.Up w'.cache
  pub forgotten : env.redis.held w'.cache (login_attempt_key id) ≡ none
  pub lock : env.redis.held w'.cache (login_lock_key id) ≡ some (text (codes "1"))
  pub left : env.redis.left w'.cache (login_lock_key id) ≡ login_lock_ttl
  pub suspended :
      env.redis.held w'.cache (suspended_key id) ≡ env.redis.held w.cache (suspended_key id)
  pub db : w'.db ≡ w.db

module _ (env : Env) (on : env.has_redis ≡ true) (id : Text) (w : World env) (n : ℕ)
    (up : env.redis.Up w.cache) (counted : Counted env w id n) where
  pub failed_below : n < 4 → (process_login_failed env id w).0 ≡ fail (attempts_remaining (4 - n))
  unfolding process_login_failed
  failed_below h = let e = env.redis.incr_up _ w.cache n up counted in ground arith

  pub below-FailureCounted : n < 4 → FailureCounted env id n w (process_login_failed env id w).1
  unfolding process_login_failed
  below-FailureCounted h =
      let k = login_attempt_key id in
      let s1 = (env.redis.incr k w.cache).1 in
      let e = env.redis.incr_up k w.cache n up counted in
      let u1 = env.redis.incr-Up k w.cache up in
      let h1 = λ (j : Text). env.redis.held-incr k w.cache n j up counted in
      let u2 = env.redis.expire-Up k login_attempt_ttl s1 u1 in
      let h2 = λ (j : Text). env.redis.held-expire k login_attempt_ttl s1 j u1 (omega arith) in
      record {
        up = ground arith;
        counted = ground (arith, h1 k, h2 k, text_eq_refl k);
        lock = ground (arith, h1 (login_lock_key id), h2 (login_lock_key id), attempt-lock id id);
        suspended =
            ground (arith, h1 (suspended_key id), h2 (suspended_key id), attempt-suspended id id);
        db = ground arith;
      }

  pub failed_at :
      n ≡ 4 → (process_login_failed env id w).0 ≡ fail (account_locked_for login_lock_ttl)
  unfolding process_login_failed
  failed_at h =
      let k = login_attempt_key id in
      let s1 = (env.redis.incr k w.cache).1 in
      let e = env.redis.incr_up k w.cache n up counted in
      let u1 = env.redis.incr-Up k w.cache up in
      let e1 = env.redis.set_up (login_lock_key id) (text (codes "1")) login_lock_ttl s1 u1 in
      ground arith

  pub at-IsLocked : n ≡ 4 → IsLocked env id w (process_login_failed env id w).1
  unfolding process_login_failed
  at-IsLocked h =
      let k = login_attempt_key id in
      let l = login_lock_key id in
      let v = text (codes "1") in
      let s1 = (env.redis.incr k w.cache).1 in
      let s2 = (env.redis.set l v login_lock_ttl s1).1 in
      let e = env.redis.incr_up k w.cache n up counted in
      let u1 = env.redis.incr-Up k w.cache up in
      let h1 = λ (j : Text). env.redis.held-incr k w.cache n j up counted in
      let e2 = env.redis.set_up l v login_lock_ttl s1 u1 in
      let u2 = env.redis.set-Up l v login_lock_ttl s1 u1 in
      let h2 = λ (j : Text). env.redis.held-set l v login_lock_ttl s1 j u1 in
      let u3 = env.redis.del-Up (k ∷ []) s2 u2 in
      let h3 = λ (j : Text). env.redis.held-del (k ∷ []) s2 j u2 in
      record {
        up = ground arith;
        forgotten = ground (arith, h3 k, text_eq_refl k);
        lock = ground (arith, h2 l, h3 l, text_eq_refl l, attempt-lock id id);
        left = ground (
          arith,
          env.redis.left-del (k ∷ []) s2 l u2,
          env.redis.left-set l v login_lock_ttl s1 u1,
          attempt-lock id id,
        );
        suspended = ground (
          arith,
          h1 (suspended_key id),
          h2 (suspended_key id),
          h3 (suspended_key id),
          attempt-suspended id id,
          lock-suspended id id,
        );
        db = ground arith;
      }
