-- ===== src/Auth/Mailing/Limit.antt =====
-- Sequences of checks with `checkEmailRateLimit` of auth-service/service/auth_service.go.
use Prim.Native.Nat.{min}
use social_network_micro_ser.Prelude.{
  ℕ, zero, suc, ◌-◌, ◌<◌, ◌≤◌, Text, text_eq, true, false, List, [], ◌∷◌, Option, none, some, ◌≡◌,
  Outcome, ok, fail, arith, text_eq_refl, inl, inr, if◌then◌else◌, leb, Bool-cases,
}
use social_network_micro_ser.Exception.{Err, app}
use social_network_micro_ser.Exception.Codes.{too_many_email_requests}
use social_network_micro_ser.Services.Redis.{Value, num, count_of}
use social_network_micro_ser.Auth.Env.{Env, World}
use social_network_micro_ser.Auth.Keys.{email_rate_key}
use social_network_micro_ser.Auth.Mailing.{check_email_rate_limit, int_of}
use social_network_micro_ser.Auth.Tokens.{is_empty}

module _ (env : Env) (ip : Text) where
  -- The checks of one address in a row, as they come while the window lasts.
  unfoldable pub checks : ℕ → World env → List (Outcome Err (Unit {0}))
  checks zero w = []
  checks (suc n) w = let r = check_email_rate_limit env ip w in r.0 ∷ checks n r.1

-- The number of mails let through.
abbrev pub passed : List (Outcome Err (Unit {0})) → ℕ
passed [] = 0
passed (ok _ ∷ rs) = suc (passed rs)
passed (fail e ∷ rs) = passed rs

module _ (env : Env) (on : env.has_redis ≡ true) (window : 0 < env.cfg.email_rate_limit_window)
    (ip : Text) (known : is_empty ip ≡ false) where
  -- A mail that is counted: the counter of the address rises, and nothing else changes.
  pub record MailCounted (c : ℕ) (w : World env) (r : Outcome Err (Unit {0}) × World env)
      : Type 0 where
    pub done : r.0 ≡ ok tt
    pub up : env.redis.Up r.1.cache
    pub held :
        (j : Text)
        → env.redis.held r.1.cache j
          ≡ (if text_eq (email_rate_key ip) j then some (num (suc c)) else env.redis.held w.cache j)
    pub db : r.1.db ≡ w.db
    pub sent : r.1.sent ≡ w.sent

  int_of_count : (o : Option Value) (c : ℕ) → count_of o ≡ some c → int_of o ≡ ok c
  unfolding int_of
  int_of_count o c h = ground arith

  pub check-MailCounted :
      (c : ℕ) (w : World env)
      → env.redis.Up w.cache
      → count_of (env.redis.held w.cache (email_rate_key ip)) ≡ some c
      → c < env.cfg.email_rate_limit_count
      → MailCounted c w (check_email_rate_limit env ip w)
  unfolding check_email_rate_limit
  check-MailCounted c w up counted below =
      let k = email_rate_key ip in
      let d = env.cfg.email_rate_limit_window in
      let e0 = env.redis.get_up k w.cache up in
      let i = int_of_count (env.redis.held w.cache k) c counted in
      let e1 = env.redis.incr_up k w.cache c up counted in
      let s1 = (env.redis.incr k w.cache).1 in
      let u1 = env.redis.incr-Up k w.cache up in
      let e2 = env.redis.expire_up k d s1 u1 in
      let u2 = env.redis.expire-Up k d s1 u1 in
      record {
        done = ground arith;
        up = ground arith;
        held = λ j. ground (
          arith,
          env.redis.held-incr k w.cache c j up counted,
          env.redis.held-expire k d s1 j u1 window,
        );
        db = ground arith;
        sent = ground arith;
      }

  pub check_refused :
      (c : ℕ) (w : World env)
      → env.redis.Up w.cache
      → count_of (env.redis.held w.cache (email_rate_key ip)) ≡ some c
      → env.cfg.email_rate_limit_count ≤ c
      → check_email_rate_limit env ip w ≡ (fail (app too_many_email_requests), w)
  unfolding check_email_rate_limit
  check_refused c w up counted full =
      let e0 = env.redis.get_up (email_rate_key ip) w.cache up in
      let i = int_of_count (env.redis.held w.cache (email_rate_key ip)) c counted in ground arith

  passed-checks_from :
      (n c : ℕ) (w : World env)
      → env.redis.Up w.cache
      → count_of (env.redis.held w.cache (email_rate_key ip)) ≡ some c
      → passed (checks env ip n w) ≡ min n (env.cfg.email_rate_limit_count - c)
  unfolding checks
  passed-checks_from zero c w up counted = omega arith
  passed-checks_from (suc n) c w up counted =
      elim (Bool-cases (leb env.cfg.email_rate_limit_count c)) [
        | inl full ↦
            let e = check_refused c w up counted (ground arith) in
            rw e (ground (arith, passed-checks_from n c w up counted))
        | inr room ↦
            let m = check-MailCounted c w up counted (ground arith) in
            let k = email_rate_key ip in
            let next =
              passed-checks_from n (suc c) (check_email_rate_limit env ip w).1 m.up
                (ground (arith, m.held k, text_eq_refl k)) in
            rw m.done (ground (arith, next))
      ]

  -- Of `n` checks of one address in a window, the first ones pass, as many as the configured limit
  -- and no more. Assumed: Redis is configured and up, the window is not empty, the address is
  -- known, and no mail is counted for it yet.
  pub passed-checks :
      (n : ℕ) (w : World env)
      → env.redis.Up w.cache
      → env.redis.held w.cache (email_rate_key ip) ≡ none
      → passed (checks env ip n w) ≡ min n env.cfg.email_rate_limit_count
  passed-checks n w up fresh = ground (arith, passed-checks_from n 0 w up (ground arith))
