-- ===== src/Gateway/RateLimit/Recovery.antt =====
-- That the rate limit forgets.
use social_network_micro_ser.Prelude.{
  ℕ, ◌+◌, ◌-◌, ◌*◌, ◌/◌, ◌≤◌, Text, Bool, true, false, not, ◌&&◌, List, [], ◌∷◌, some, ◌≡◌, arith,
  Outcome, ok, fail, if◌then◌else◌, ltb, pos, ◌-ℤ◌, itoa, Bool-cases, inl, inr,
}
use social_network_micro_ser.Exception.{Err}
use social_network_micro_ser.Services.Windows.{Table, text_at, add_text, run_commands}
use social_network_micro_ser.Gateway.RateLimit.{
  Request, passed, Env, World, rate_key, ban_key, cooldown_key, millis, ban_millis, cooldown_millis,
  pipeline, limited, counted, rate_limiter, ban, alert, is_local, identifier_of,
}
use social_network_micro_ser.Gateway.RateLimit.Quiet.{
  IsQuiet, add_text-IsQuiet, pipeline-IsQuiet, first_count,
}

module _ (env : Env) (limit window : ℕ) where
  -- Redis answers every command, and its table is quiet since `m`.
  pub record QuietSince (m : ℕ) (w : World env) : Type 0 where
    pub up : env.windows.Up w.store
    pub quiet : IsQuiet m (env.windows.view w.store)

  ban-QuietSince :
      (m now : ℕ) (b : Bool) (r : Request) (w : World env)
      → millis now ≤ m
      → QuietSince m w
      → QuietSince m (ban env limit window b r now w)
  unfolding ban
  ban-QuietSince m now false r w h q = q
  ban-QuietSince m now true r w h q = record {
    up = env.windows.set-Up (millis now) (ban_key r) ban_millis w.store q.up;
    quiet = rw (env.windows.view-set (millis now) (ban_key r) ban_millis w.store q.up) (
        add_text-IsQuiet m (millis now + ban_millis) (ban_key r) (env.windows.view w.store)
          (omega arith) q.quiet);
  }

  cooled :
      (m now : ℕ) (key : Text) (b : Bool) (t : Table)
      → now ≤ m
      → IsQuiet m t
      → IsQuiet m (if b then t else add_text (now + cooldown_millis) key t)
  cooled m now key true t h q = q
  cooled m now key false t h q = add_text-IsQuiet m (now + cooldown_millis) key t (omega arith) q

  alert-QuietSince :
      (m now count : ℕ) (b : Bool) (r : Request) (w : World env)
      → millis now ≤ m
      → QuietSince m w
      → QuietSince m (alert env limit window r now count b w)
  unfolding alert
  alert-QuietSince m now count b r w h q =
      let key = cooldown_key r in
      let view = env.windows.view-setnx (millis now) key cooldown_millis w.store q.up in
      let t = env.windows.view w.store in
      elim (Bool-cases env.has_slack) [
        | inr off ↦ rw off q
        | inl on ↦ rw on (record {
          up = env.windows.setnx-Up (millis now) key cooldown_millis w.store q.up;
          quiet = rw view (cooled m (millis now) key (text_at (millis now) key t) t h q.quiet);
        })
      ]

  limited-QuietSince :
      (m now count : ℕ) (r : Request) (w : World env)
      → millis now ≤ m
      → QuietSince m w
      → QuietSince m (limited env limit window r now count w).1
  unfolding limited
  limited-QuietSince m now count r w h q =
      let b = ltb (limit * 3 / 2) count && not (is_local (identifier_of r)) in
      elim (Bool-cases (ltb limit count)) [
        | inr inside ↦ rw inside q
        | inl beyond ↦ rw beyond (
            alert-QuietSince m now count b r (ban env limit window b r now w) h
              (ban-QuietSince m now b r w h q))
      ]

  counted-QuietSince :
      (m now : ℕ) (replies : Outcome Err (List ℕ)) (r : Request) (w : World env)
      → millis now ≤ m
      → QuietSince m w
      → QuietSince m (counted env limit window replies r now w).1
  unfolding counted
  counted-QuietSince m now (fail e) r w h q = q
  counted-QuietSince m now (ok []) r w h q = q
  counted-QuietSince m now (ok (a ∷ [])) r w h q = q
  counted-QuietSince m now (ok (a ∷ b ∷ [])) r w h q = q
  counted-QuietSince m now (ok (a ∷ b ∷ c ∷ [])) r w h q = q
  counted-QuietSince m now (ok (a ∷ b ∷ c ∷ count ∷ replies)) r w h q =
      elim (Bool-cases (ltb 0 a)) [
        | inl banned ↦ rw banned q
        | inr free ↦ rw free (limited-QuietSince m now count r w h q)
      ]

  pub rate_limiter-QuietSince :
      (m now : ℕ) (r : Request) (w : World env)
      → millis now ≤ m
      → QuietSince m w
      → QuietSince m (rate_limiter env limit window r now w).1
  unfolding rate_limiter pipeline run_commands
  rate_limiter-QuietSince m now r w h q =
      let commands = pipeline window r now in
      let (replies, s) = env.windows.exec (millis now) commands w.store in
      let low = pos (millis now) -ℤ pos window in
      let after : QuietSince m (record w { store = s }) = record {
        up = env.windows.exec-Up (millis now) commands w.store q.up;
        quiet = rw (env.windows.view-exec (millis now) commands w.store q.up) (
            pipeline-IsQuiet m (millis now) (rate_key r) low (itoa now) window
              (env.windows.view w.store) h q.quiet);
      } in
      elim (Bool-cases env.has_redis) [
        | inr off ↦ rw off q
        | inl on ↦ rw on (counted-QuietSince m now replies r (record w { store = s }) h after)
      ]

  -- The requests one after the other, each at its time.
  unfoldable pub requests : List (Request × ℕ) → World env → World env
  requests [] w = w
  requests ((r, now) ∷ rs) w = requests rs (rate_limiter env limit window r now w).1

  abbrev pub AllBy : ℕ → List (Request × ℕ) → Type 0
  AllBy m [] = Unit {0}
  AllBy m ((r, now) ∷ rs) = (millis now ≤ m) × AllBy m rs

  requests-QuietSince :
      (m : ℕ) (rs : List (Request × ℕ)) (w : World env)
      → AllBy m rs
      → QuietSince m w
      → QuietSince m (requests rs w)
  unfolding requests
  requests-QuietSince m [] w h q = q
  requests-QuietSince m ((r, now) ∷ rs) w (h, hs) q =
      requests-QuietSince m rs (rate_limiter env limit window r now w).1 hs
        (rate_limiter-QuietSince m now r w h q)

  -- Whatever requests came until a time, from whatever clients and with whatever answers, a request
  -- that comes both a window and the time of a ban later passes, as the first of its window. Assumed:
  -- Redis is configured and answers, and was quiet at the start; the limit is at least one.
  pub passes_again :
      (m now : ℕ) (rs : List (Request × ℕ)) (r : Request) (w : World env)
      → env.has_redis ≡ true
      → AllBy m rs
      → QuietSince m w
      → 1 ≤ limit
      → m + window ≤ millis now
      → m + ban_millis ≤ millis now
      → (rate_limiter env limit window r now (requests rs w)).0 ≡ passed (some (limit, limit - 1))
  unfolding rate_limiter pipeline counted limited
  passes_again m now rs r w on by q positive silent free =
      let w1 = requests rs w in
      let q1 = requests-QuietSince m rs w by q in
      let t = env.windows.view w1.store in
      let replies = env.windows.exec_up (millis now) (pipeline window r now) w1.store q1.up in
      let fresh =
        first_count m (millis now) (ban_key r) (rate_key r) (itoa now) window t q1.quiet silent
          free in
      ground arith
