-- ===== src/Gateway/RateLimit.antt =====
-- api-gateway/middleware/rate_limit.go. The time of a request is in nanoseconds, the window in
-- milliseconds; scores are exact floats. The message to Slack is an event.
pub mod Quiet
pub mod Recovery
pub mod Stamps
pub mod Steps
pub mod Bound
mod Samples
use social_network_micro_ser.Prelude.{
  ℕ, suc, ◌+◌, ◌-◌, ◌*◌, ◌/◌, Text, codes, text_eq, Bool, true, false, not, ◌&&◌, ◌||◌, List, [],
  ◌∷◌, ◌++◌, Option, none, some, Outcome, ok, fail, if◌then◌else◌, ltb, leb, ℤ, pos, ◌-ℤ◌, itoa,
}
use social_network_micro_ser.Exception.{Err}
use social_network_micro_ser.Services.Windows.{
  Windows, Command, exists, zremrangebyscore, zadd, zcard, expire,
}

-- What the middleware reads of a request.
pub record Request : Type 0 where
  pub user_id : Text
  pub client_ip : Text
  pub full_path : Text
  pub method : Text

-- A request that passes has the headers X-RateLimit-Limit and X-RateLimit-Remaining, or none where
-- nothing was counted; a refused one has a status and a message, and the headers where it was counted.
pub data Answer : Type 0 where
  passed : Option (ℕ × ℕ) → Answer
  refused : ℕ → Text → Option (ℕ × ℕ) → Answer

pub record Alert : Type 0 where
  pub identifier : Text
  pub method : Text
  pub path : Text
  pub count : ℕ
  pub limit : ℕ
  pub is_ban : Bool

pub record Env : Type 1 where
  pub has_redis : Bool
  pub windows : Windows
  -- SLACK_WEBHOOK_URL is set
  pub has_slack : Bool

pub record World (env : Env) : Type 0 where
  pub store : env.windows.Store
  pub alerts : List Alert

unfoldable pub identifier_of : Request → Text
identifier_of r = if text_eq r.user_id [] then r.client_ip else r.user_id

unfoldable pub rate_key : Request → Text
unfolding identifier_of
rate_key r = codes "rate_limit:" ++ r.full_path ++ codes ":" ++ identifier_of r

unfoldable pub ban_key : Request → Text
unfolding identifier_of
ban_key r = codes "rate_limit_ban:" ++ identifier_of r

unfoldable pub cooldown_key : Request → Text
unfolding identifier_of
cooldown_key r = codes "slack_alert:rate_limit:" ++ r.full_path ++ codes ":" ++ identifier_of r

unfoldable pub is_local : Text → Bool
is_local id =
    text_eq id (codes "127.0.0.1") || text_eq id (codes "::1") || text_eq id (codes "localhost")

abbrev pub millis : ℕ → ℕ
millis ns = ns / 1000000

abbrev pub ban_millis : ℕ
ban_millis = 300000

abbrev pub cooldown_millis : ℕ
cooldown_millis = 180000

unfoldable pub pipeline : ℕ → Request → ℕ → List Command
unfolding rate_key ban_key
pipeline window r now =
    exists (ban_key r)
    ∷ zremrangebyscore (rate_key r) (pos (millis now) -ℤ pos window)
    ∷ zadd (rate_key r) (millis now) (itoa now)
    ∷ zcard (rate_key r)
    ∷ expire (rate_key r) window
    ∷ []

module _ (env : Env) (limit window : ℕ) where
  unfoldable pub ban : Bool → Request → ℕ → World env → World env
  ban is_ban r now w =
      if is_ban
      then record w { store = env.windows.set (millis now) (ban_key r) ban_millis w.store }
      else w

  unfoldable pub alert : Request → ℕ → ℕ → Bool → World env → World env
  unfolding cooldown_key
  alert r now count is_ban w =
      let (first, s) = env.windows.setnx (millis now) (cooldown_key r) cooldown_millis w.store in
      let sent : Alert = record {
        identifier = identifier_of r;
        method = r.method;
        path = r.full_path;
        count = count;
        limit = limit;
        is_ban = is_ban;
      } in
      if env.has_slack
      then record w { store = s; alerts = if first then sent ∷ w.alerts else w.alerts }
      else w

  -- From the count on.
  unfoldable pub limited : Request → ℕ → ℕ → World env → Answer × World env
  unfolding ban alert is_local
  limited r now count w =
      let is_ban = ltb (limit * 3 / 2) count && not (is_local (identifier_of r)) in
      let headers = some (limit, limit - count) in
      if ltb limit count
      then (
        refused 429 (codes "TOO_MANY_REQUESTS") headers,
        alert r now count is_ban (ban is_ban r now w),
      )
      else (passed headers, w)

  -- The replies of the pipeline in their order.
  unfoldable pub counted : Outcome Err (List ℕ) → Request → ℕ → World env → Answer × World env
  unfolding limited
  counted (ok (banned ∷ removed ∷ added ∷ count ∷ replies)) r now w =
      if ltb 0 banned
      then (refused 403 (codes "IP_TEMPORARILY_BANNED_DUE_TO_SPAM") none, w)
      else limited r now count w
  counted _ r now w = (passed none, w)

  unfoldable pub rate_limiter : Request → ℕ → World env → Answer × World env
  unfolding counted pipeline
  rate_limiter r now w =
      let (replies, s) = env.windows.exec (millis now) (pipeline window r now) w.store in
      if env.has_redis then counted replies r now (record w { store = s }) else (passed none, w)
