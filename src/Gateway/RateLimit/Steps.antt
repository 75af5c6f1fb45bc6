-- ===== src/Gateway/RateLimit/Steps.antt =====
-- One request before the rate limit: whether it passes, and what it leaves in the window of its own key
-- and in those of others.
use social_network_micro_ser.Prelude.{
  ℕ, text_eq, suc, ◌+◌, ◌-◌, ◌*◌, ◌/◌, ◌≤◌, ◌<◌, Bool, true, false, not, ◌&&◌, List, [], ◌∷◌, some,
  ◌≡◌, refl, arith, ok, ltb, length, lookup, matches-le, bit, Bool-cases, inl, inr, ◌∙◌, ap,
}
use social_network_micro_ser.Services.Windows.{Table, text_at, run_commands}
use social_network_micro_ser.Gateway.RateLimit.{
  Request, Answer, passed, refused, Env, World, rate_key, ban_key, millis, pipeline, limited,
  counted, rate_limiter, ban, alert, is_local, identifier_of, cooldown_key, ban_millis,
  cooldown_millis,
}
use social_network_micro_ser.Gateway.RateLimit.Recovery.{QuietSince}
use social_network_micro_ser.Gateway.RateLimit.Quiet.{later, entries_of}
use social_network_micro_ser.Gateway.RateLimit.Stamps.{
  Before, HasSeen-same, lookup-run_commands, HasSeen, left_by, step_replies, seen_after,
}

abbrev pub is_passed : Answer → Bool
is_passed (passed headers) = true
is_passed (refused status text headers) = false

module _ (env : Env) (limit window : ℕ) (r : Request) where
  -- The ban and the alert leave the sorted sets as they are.
  ban_sets :
      (b : Bool) (now : ℕ) (w : World env)
      → env.windows.Up w.store
      → env.windows.Up (ban env limit window b r now w).store
        × ((env.windows.view (ban env limit window b r now w).store).sets
            ≡ (env.windows.view w.store).sets)
  unfolding ban
  ban_sets false now w up = (up, refl)
  ban_sets true now w up = (
    env.windows.set-Up (millis now) (ban_key r) ban_millis w.store up,
    ap (λ t. t.sets) (env.windows.view-set (millis now) (ban_key r) ban_millis w.store up),
  )

  alert_sets :
      (b : Bool) (now count : ℕ) (w : World env)
      → env.windows.Up w.store
      → (env.windows.view (alert env limit window r now count b w).store).sets
        ≡ (env.windows.view w.store).sets
  unfolding alert
  alert_sets b now count w up =
      let e = env.windows.view-setnx (millis now) (cooldown_key r) cooldown_millis w.store up in
      ground arith

  limited_sets :
      (now count : ℕ) (w : World env)
      → env.windows.Up w.store
      → (env.windows.view (limited env limit window r now count w).1.store).sets
        ≡ (env.windows.view w.store).sets
  unfolding limited
  limited_sets now count w up =
      let b = ltb (limit * 3 / 2) count && not (is_local (identifier_of r)) in
      let w1 = ban env limit window b r now w in
      let (up1, e1) = ban_sets b now w up in let e2 = alert_sets b now count w1 up1 in ground arith

  -- The answer to a request that finds the requests at `ts` in its window.
  answer_to :
      (m now : ℕ) (ts : List ℕ) (w : World env)
      → env.has_redis ≡ true
      → env.windows.Up w.store
      → HasSeen window r m ts (env.windows.view w.store)
      → Before m now ts
      → m ≤ millis now
      → millis now < m + window
      → let s = (env.windows.exec (millis now) (pipeline window r now) w.store).1 in
        rate_limiter env limit window r now w
        ≡ counted env limit window
            (ok (
              bit (text_at (millis now) (ban_key r) (env.windows.view w.store))
              ∷ 0
              ∷ 0
              ∷ suc (length ts)
              ∷ 0
              ∷ []))
            r
            now
            (record w { store = s })
  unfolding rate_limiter
  answer_to m now ts w on up seen before low high =
      let e = env.windows.exec_up (millis now) (pipeline window r now) w.store up in
      let (said, left) =
        step_replies window r m now ts (env.windows.view w.store) seen before low high in
      ground arith

  counted_sets :
      (banned now count : ℕ) (w : World env)
      → env.windows.Up w.store
      → (env.windows.view
          (counted env limit window (ok (banned ∷ 0 ∷ 0 ∷ count ∷ 0 ∷ [])) r now w).1.store).sets
        ≡ (env.windows.view w.store).sets
  unfolding counted
  counted_sets banned now count w up =
      let kept = limited_sets now count w up in
      elim (Bool-cases (ltb 0 banned)) [ inl banned' ↦ rw banned' refl | inr free ↦ rw free kept ]

  counted_passes :
      (banned now count : ℕ) (w : World env)
      → bit (
            is_passed
              (counted env limit window (ok (banned ∷ 0 ∷ 0 ∷ suc count ∷ 0 ∷ [])) r now w).0)
          + (limit - suc count)
        ≤ limit - count
  unfolding counted limited
  counted_passes banned now count w = ground arith

  -- One request: whether it passes, and what later ones find.
  pub step :
      (m now : ℕ) (ts : List ℕ) (w : World env)
      → env.has_redis ≡ true
      → env.windows.Up w.store
      → HasSeen window r m ts (env.windows.view w.store)
      → Before m now ts
      → m ≤ millis now
      → millis now < m + window
      → let after = rate_limiter env limit window r now w in
        (bit (is_passed after.0) + (limit - suc (length ts)) ≤ limit - length ts)
        × HasSeen window r m (now ∷ ts) (env.windows.view after.1.store)
  step m now ts w on up seen before low high =
      let commands = pipeline window r now in
      let t = env.windows.view w.store in
      let s = (env.windows.exec (millis now) commands w.store).1 in
      let banned = bit (text_at (millis now) (ban_key r) t) in
      let view = env.windows.view-exec (millis now) commands w.store up in
      let (said, left) = step_replies window r m now ts t seen before low high in
      let w1 : World env = record w { store = s } in
      let answer = answer_to m now ts w on up seen before low high in
      let kept =
        counted_sets banned now (suc (length ts)) w1
          (env.windows.exec-Up (millis now) commands w.store up) in
      let w2 =
        (counted env limit window (ok (banned ∷ 0 ∷ 0 ∷ suc (length ts) ∷ 0 ∷ [])) r now w1).1 in
      let found : lookup (rate_key r) (env.windows.view w2.store).sets
          ≡ some (left_by window r now ts) =
        ap (lookup (rate_key r)) (kept ∙ ap (λ u. u.sets) view) ∙ left in
      rw answer (
        counted_passes banned now (length ts) w1,
        seen_after window r m now ts (env.windows.view w2.store) before low found,
      )

  pub still_quiet :
      (m0 m1 : ℕ) (w : World env)
      → m0 ≤ m1
      → QuietSince env limit window m0 w
      → QuietSince env limit window m1 w
  still_quiet m0 m1 w h q =
      let t = env.windows.view w.store in
      record {
        up = q.up;
        quiet = record {
          scores = λ key.
              let es = entries_of (lookup key t.sets) in
              let fewer = matches-le (later m1) (later m0) es (λ e. ground arith) in
              omega (arith, q.quiet.scores key);
          texts = λ key. omega (arith, q.quiet.texts key);
        };
      }

  -- The answer to a request, whatever is in its window.
  answer_any :
      (now : ℕ) (w : World env)
      → env.has_redis ≡ true
      → env.windows.Up w.store
      → let commands = pipeline window r now in
        rate_limiter env limit window r now w
        ≡ counted env limit window
            (ok (run_commands (millis now) commands (env.windows.view w.store)).0)
            r
            now
            (record w { store = (env.windows.exec (millis now) commands w.store).1 })
  unfolding rate_limiter
  answer_any now w on up =
      let e = env.windows.exec_up (millis now) (pipeline window r now) w.store up in ground arith

  all_replies :
      (now : ℕ) (t : Table)
      → (n : ℕ) × ((run_commands (millis now) (pipeline window r now) t).0
          ≡ bit (text_at (millis now) (ban_key r) t) ∷ 0 ∷ 0 ∷ n ∷ 0 ∷ [])
  unfolding run_commands pipeline
  all_replies now t = (_, refl)

  any_sets :
      (now : ℕ) (w : World env)
      → env.has_redis ≡ true
      → env.windows.Up w.store
      → (env.windows.view (rate_limiter env limit window r now w).1.store).sets
        ≡ (run_commands (millis now) (pipeline window r now) (env.windows.view w.store)).1.sets
  any_sets now w on up =
      let commands = pipeline window r now in
      let t = env.windows.view w.store in
      let w1 : World env = record w {
        store = (env.windows.exec (millis now) commands w.store).1;
      } in
      let (n, said) = all_replies now t in
      let kept =
        counted_sets (bit (text_at (millis now) (ban_key r) t)) now n w1
          (env.windows.exec-Up (millis now) commands w.store up) in
      let view = env.windows.view-exec (millis now) commands w.store up in
      rw (answer_any now w on up, said) (kept ∙ ap (λ u. u.sets) view)

  -- A request with another key leaves the window of this one as it is.
  pub other_step :
      (other : Request) (m now : ℕ) (ts : List ℕ) (w : World env)
      → env.has_redis ≡ true
      → env.windows.Up w.store
      → HasSeen window other m ts (env.windows.view w.store)
      → text_eq (rate_key r) (rate_key other) ≡ false
      → HasSeen window other m ts (env.windows.view (rate_limiter env limit window r now w).1.store)
  other_step other m now ts w on up seen apart =
      let t = env.windows.view w.store in
      let after = env.windows.view (rate_limiter env limit window r now w).1.store in
      let same = lookup-run_commands window now r (rate_key other) t apart in
      HasSeen-same window m ts other other t after
        (ap (lookup (rate_key other)) (any_sets now w on up) ∙ same) seen
