-- ===== src/Auth/Attempts.antt =====
-- Sequences of login attempts against login.go.
use social_network_micro_ser.Prelude.{
  ℕ, zero, suc, ◌+◌, ◌-◌, Text, Bool, true, false, List, [], ◌∷◌, none, ◌≡◌, refl, Outcome, ok,
  fail, arith, length, ◌∙◌,
}
use social_network_micro_ser.Exception.{Err}
use social_network_micro_ser.Auth.Env.{Account, Env, World}
use social_network_micro_ser.Auth.Keys.{login_lock_key, suspended_key}
use social_network_micro_ser.Auth.Accounts.{find_by_email_and_role}
use social_network_micro_ser.Auth.Login.{
  process_login_failed, validate_login, login, login_to, account_locked_for, attempts_remaining,
  role_name, login_lock_ttl,
}
use social_network_micro_ser.Auth.Lockout.{
  Counted, FailureCounted, IsLocked, failed_below, below-FailureCounted, failed_at, at-IsLocked,
}

pub record Try : Type 0 where
  pub password : Text
  pub code : Text
  pub now : ℕ

module _ (env : Env) (email : Text) (is_admin : Bool) where
  -- The results of the attempts in their order, and the world after them.
  unfoldable pub logins : List Try → World env → List (Outcome Err (Text × Text)) × World env
  logins [] w = ([], w)
  logins (t ∷ ts) w =
      let r = login env email t.password t.code is_admin t.now w in
      let rest = logins ts r.1 in (r.0 ∷ rest.0, rest.1)

abbrev pub AllWrong : (env : Env) → Account → List Try → Type 0
AllWrong env a [] = Unit {0}
AllWrong env a (t ∷ ts) = (env.compare_password a.password t.password ≡ false) × AllWrong env a ts

-- The query of the login finds the account, and nothing of Redis stands against it.
pub record IsOpen (env : Env) (email : Text) (is_admin : Bool) (a : Account) (w : World env)
    : Type 0 where
  pub found : (find_by_email_and_role env email (role_name is_admin) w).0 ≡ ok a
  pub up : env.redis.Up w.cache
  pub not_locked : env.redis.held w.cache (login_lock_key a.id) ≡ none
  pub not_suspended : env.redis.held w.cache (suspended_key a.id) ≡ none

-- What `k` more failures answer, the last one reaching the limit.
abbrev pub countdown : ℕ → List (Outcome Err (Text × Text))
countdown zero = []
countdown (suc zero) = fail (account_locked_for login_lock_ttl) ∷ []
countdown (suc (suc k)) = fail (attempts_remaining (suc k)) ∷ countdown (suc k)

module _ (env : Env) (on : env.has_redis ≡ true) (email : Text) (is_admin : Bool) (a : Account)
    (verified : a.is_verified ≡ true) where
  pub validate_open :
      (w : World env) → IsOpen env email is_admin a w → validate_login env a w ≡ ok tt
  unfolding validate_login
  validate_open w h =
      let e1 = env.redis.exists_up (suspended_key a.id) w.cache h.up in
      let e2 = env.redis.exists_up (login_lock_key a.id) w.cache h.up in ground arith

  login_wrong :
      (w : World env) (t : Try) (e : Err)
      → IsOpen env email is_admin a w
      → env.compare_password a.password t.password ≡ false
      → (process_login_failed env a.id w).0 ≡ fail e
      → login env email t.password t.code is_admin t.now w
        ≡ (fail e, (process_login_failed env a.id w).1)
  unfolding login login_to find_by_email_and_role
  login_wrong w t e h wrong failed = ground (arith, validate_open w h)

  login_locked :
      (w w' : World env) (t : Try)
      → IsOpen env email is_admin a w
      → IsLocked env a.id w w'
      → (login env email t.password t.code is_admin t.now w').0
        ≡ fail (account_locked_for login_lock_ttl)
  unfolding login find_by_email_and_role validate_login
  login_locked w w' t h l =
      let e1 = env.redis.exists_up (suspended_key a.id) w'.cache l.up in
      let e2 = env.redis.exists_up (login_lock_key a.id) w'.cache l.up in
      let e3 = env.redis.ttl_up (login_lock_key a.id) w'.cache l.up in
      ground (arith, e3 (ground arith) (ground arith))

  IsOpen-counted :
      (n : ℕ) (w w' : World env)
      → IsOpen env email is_admin a w
      → FailureCounted env a.id n w w'
      → IsOpen env email is_admin a w'
  unfolding find_by_email_and_role
  IsOpen-counted n w w' h c = record {
    found = ground arith;
    up = c.up;
    not_locked = c.lock ∙ h.not_locked;
    not_suspended = c.suspended ∙ h.not_suspended;
  }

  IsLocked-counted :
      (n : ℕ) (w w' w'' : World env)
      → FailureCounted env a.id n w w'
      → IsLocked env a.id w' w''
      → IsLocked env a.id w w''
  IsLocked-counted n w w' w'' c l = record {
    up = l.up;
    forgotten = l.forgotten;
    lock = l.lock;
    left = l.left;
    suspended = l.suspended ∙ c.suspended;
    db = l.db ∙ c.db;
  }

  logins-countdown :
      (ts : List Try) (k n : ℕ) (w : World env)
      → length ts ≡ suc k
      → k + n ≡ 4
      → IsOpen env email is_admin a w
      → Counted env w a.id n
      → AllWrong env a ts
      → ((logins env email is_admin ts w).0 ≡ countdown (suc k))
        × IsLocked env a.id w (logins env email is_admin ts w).1
  unfolding logins
  logins-countdown [] k n w len sum h c wrong = absurd (omega arith)
  logins-countdown (t ∷ []) zero n w len sum h c wrong =
      let e = login_wrong w t _ h wrong.0 (failed_at env on a.id w n h.up c (omega arith)) in
      rw e (refl, at-IsLocked env on a.id w n h.up c (omega arith))
  logins-countdown (t ∷ []) (suc k) n w len sum h c wrong = absurd (omega arith)
  logins-countdown (t ∷ t' ∷ ts) zero n w len sum h c wrong = absurd (omega arith)
  logins-countdown (t ∷ t' ∷ ts) (suc k) n w len sum h c wrong =
      let e = login_wrong w t _ h wrong.0 (failed_below env on a.id w n h.up c (omega arith)) in
      let w1 = (process_login_failed env a.id w).1 in
      let f = below-FailureCounted env on a.id w n h.up c (omega arith) in
      let more =
        logins-countdown (t' ∷ ts) k (suc n) w1 (omega arith) (omega arith)
          (IsOpen-counted n w w1 h f) (ground (arith, f.counted)) wrong.1 in
      let left : 4 - n ≡ suc k = omega arith in
      rw e (cc (more.0, left), IsLocked-counted n w w1 _ f more.1)

  -- Five wrong passwords in a row, with no failure counted before them and no key expiring in
  -- between, answer 4, 3, 2 and 1 remaining attempts and then a lock of 900 seconds; after that
  -- every login of the account, with whatever password, is refused with that lock. Assumed: Redis is configured and up, the
  -- account is found and verified, and it is neither locked nor suspended at the start.
  pub login_lockout :
      (ts : List Try) (t : Try) (w : World env)
      → length ts ≡ 5
      → IsOpen env email is_admin a w
      → Counted env w a.id 0
      → AllWrong env a ts
      → ((logins env email is_admin ts w).0 ≡ countdown 5)
        × ((login env email t.password t.code is_admin t.now (logins env email is_admin ts w).1).0
            ≡ fail (account_locked_for login_lock_ttl))
  login_lockout ts t w len h c wrong =
      let (results, locked) = logins-countdown ts 4 0 w len (omega arith) h c wrong in
      (results, login_locked w _ t h locked)
