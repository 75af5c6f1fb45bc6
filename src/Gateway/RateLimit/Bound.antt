-- ===== src/Gateway/RateLimit/Bound.antt =====
-- How many requests of a client to one route the rate limit lets pass in a window.
use social_network_micro_ser.Prelude.{
  ℕ, text_eq, text_eq_iff, sym, ◌+◌, ◌-◌, ◌≤◌, ◌<◌, true, ◌&&◌, List, [], ◌∷◌, ◌≡◌, arith, length,
  lookup, bit, Bool-cases, inl, inr, ap,
}
use social_network_micro_ser.Services.Windows.{set_at}
use social_network_micro_ser.Gateway.RateLimit.{Request, Env, World, rate_key, millis, rate_limiter}
use social_network_micro_ser.Gateway.RateLimit.Recovery.{QuietSince, rate_limiter-QuietSince}
use social_network_micro_ser.Gateway.RateLimit.Quiet.{live-later, emptied}
use social_network_micro_ser.Gateway.RateLimit.Stamps.{Before, Before-later, HasSeen-same, HasSeen}
use social_network_micro_ser.Gateway.RateLimit.Steps.{is_passed, step, other_step, still_quiet}

-- Rising times, all in the window that starts at `m`.
abbrev Ahead : ℕ → List (Request × ℕ) → Type 0
Ahead now [] = Unit {0}
Ahead now ((r, next) ∷ rs) = now < next

abbrev pub InWindow : ℕ → ℕ → List (Request × ℕ) → Type 0
InWindow window m [] = Unit {0}
InWindow window m ((r, now) ∷ rs) =
    (m ≤ millis now) × (millis now < m + window) × Ahead now rs × InWindow window m rs

abbrev Fits : ℕ → List ℕ → List (Request × ℕ) → Type 0
Fits m ts [] = Unit {0}
Fits m ts ((r, now) ∷ rs) = Before m now ts

next-Fits :
    (m now : ℕ) (ts : List ℕ) (rs : List (Request × ℕ))
    → Before m now ts
    → m ≤ millis now
    → Ahead now rs
    → Fits m (now ∷ ts) rs
next-Fits m now ts [] before low ahead = tt
next-Fits m now ts ((r, next) ∷ rs) before low ahead = (ahead, low, before)

same-Fits :
    (m now : ℕ) (ts : List ℕ) (rs : List (Request × ℕ))
    → Before m now ts
    → Ahead now rs
    → Fits m ts rs
same-Fits m now ts [] before ahead = tt
same-Fits m now ts ((r, next) ∷ rs) before ahead = Before-later m now next ts (omega arith) before

no-Fits : (m : ℕ) (rs : List (Request × ℕ)) → Fits m [] rs
no-Fits m [] = tt
no-Fits m ((r, now) ∷ rs) = tt

module _ (env : Env) (limit window : ℕ) (r : Request) where
  -- How many of the requests that share the key of `r` pass, of those at these times.
  unfoldable pub passes : List (Request × ℕ) → World env → ℕ
  passes [] w = 0
  passes ((q, now) ∷ rs) w =
      let (answer, w1) = rate_limiter env limit window q now w in
      bit (text_eq (rate_key q) (rate_key r) && is_passed answer) + passes rs w1

  passes_bound :
      (m m0 : ℕ) (ts : List ℕ) (rs : List (Request × ℕ)) (w : World env)
      → env.has_redis ≡ true
      → QuietSince env limit window m0 w
      → m + window ≤ m0
      → HasSeen window r m ts (env.windows.view w.store)
      → Fits m ts rs
      → InWindow window m rs
      → passes rs w ≤ limit - length ts
  unfolding passes
  passes_bound m m0 ts [] w on q late seen fits inside = omega arith
  passes_bound m m0 ts ((p, now) ∷ rs) w on q late seen fits (low, high, ahead, inside) =
      let w1 = (rate_limiter env limit window p now w).1 in
      let q1 = rate_limiter-QuietSince env limit window m0 now p w (omega arith) q in
      let t = env.windows.view w.store in
      let t1 = env.windows.view w1.store in
      elim (Bool-cases (text_eq (rate_key p) (rate_key r))) [
        | inl same ↦
            let e = (text_eq_iff (rate_key p) (rate_key r)).0 same in
            let here = HasSeen-same window m ts r p t t (ap (λ k. lookup k t.sets) e) seen in
            let (one, seen1) = step env limit window p m now ts w on q.up here fits low high in
            let seen2 =
              HasSeen-same window m (now ∷ ts) p r t1 t1 (ap (λ k. lookup k t1.sets) (sym e))
                seen1 in
            let rest =
              passes_bound m m0 (now ∷ ts) rs w1 on q1 late seen2
                (next-Fits m now ts rs fits low ahead) inside in
            rw same (omega arith)
        | inr apart ↦
            let seen1 = other_step env limit window p r m now ts w on q.up seen apart in
            let rest =
              passes_bound m m0 ts rs w1 on q1 late seen1 (same-Fits m now ts rs fits ahead)
                inside in
            rw apart (omega arith)
      ]

  -- Whatever requests come in a window, from whatever clients, no more of those of one client to one
  -- route pass than the limit says. Assumed: no two requests come at the same nanosecond, Redis is
  -- configured and answers, and was quiet for a window before.
  pub passes_lem :
      (m m0 : ℕ) (rs : List (Request × ℕ)) (w : World env)
      → env.has_redis ≡ true
      → QuietSince env limit window m0 w
      → m0 + window ≤ m
      → InWindow window m rs
      → passes rs w ≤ limit
  passes_lem m m0 rs w on q silent inside =
      let key = rate_key r in
      let t = env.windows.view w.store in
      let none_seen : HasSeen window r m [] t = λ now before low high.
        emptied m0 (millis now) window (set_at (millis now) key t).entries
          (live-later m0 (millis now) (lookup key t.sets) (q.quiet.scores key)) (omega arith) in
      let quiet = still_quiet env limit window r m0 (m + window) w (omega arith) q in
      let bound =
        passes_bound m (m + window) [] rs w on quiet (omega arith) none_seen (no-Fits m rs)
          inside in
      omega arith
