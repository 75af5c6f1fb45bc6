-- ===== src/Chat/Presence.antt =====
-- Who is online: RegisterClient, UnregisterClient and the counters of Redis, in
-- chat-service/service/chat_service.go. A connection is a number. The locks are left out, since each of
-- the two calls holds one while it changes the maps; what is sent to the partners of a user, in a
-- goroutine, is an event.
pub mod Counting
pub mod Sessions
use social_network_micro_ser.Prelude.{
  ℕ, Text, codes, text_eq, Bool, true, false, not, ◌||◌, List, [], ◌∷◌, ◌++◌, Option, none, some,
  Outcome, ok, fail, if◌then◌else◌, ◌==◌, lookup, put, remove_key, ℤ, pos, ltb_ℤ, negsuc,
}
use social_network_micro_ser.Prelude.Sort.{filter}
use social_network_micro_ser.Exception.{Err}
use social_network_micro_ser.Services.Counters.{Counters}

pub data Event : Type 0 where
  status_broadcast : Text → Bool → Event
  closed : ℕ → Event

pub record Env : Type 1 where
  pub has_redis : Bool
  pub redis : Counters

-- `connections` and `activeChats` of the service, the counters, and the events with the last first.
pub record World (env : Env) : Type 0 where
  pub connections : List (Text × List ℕ)
  pub active_chats : List (Text × Text)
  pub counters : env.redis.Store
  pub events : List Event

abbrev pub counter_key : Text → Text
counter_key user = codes "user_online_counter:" ++ user

abbrev pub online_count_key : Text
online_count_key = codes "online_user_count"

abbrev pub last_online_key : Text → Text
last_online_key user = codes "last_online:" ++ user

abbrev pub has_conn : ℕ → List ℕ → Bool
has_conn c [] = false
has_conn c (d ∷ ds) = d == c || has_conn c ds

abbrev pub add_conn : ℕ → List ℕ → List ℕ
add_conn c cs = if has_conn c cs then cs else c ∷ cs

abbrev pub drop_conn : ℕ → List ℕ → List ℕ
drop_conn c cs = filter (λ d. not (d == c)) cs

abbrev pub conns_or_none : Option (List ℕ) → List ℕ
conns_or_none none = []
conns_or_none (some cs) = cs

abbrev pub has_no_conn : List ℕ → Bool
has_no_conn [] = true
has_no_conn (c ∷ cs) = false

abbrev pub is_one : ℤ → Bool
is_one (pos n) = n == 1
is_one (negsuc n) = false

abbrev pub is_zero : ℤ → Bool
is_zero (pos n) = n == 0
is_zero (negsuc n) = false

module _ (env : Env) where
  abbrev pub broadcast_online_status : Text → Bool → World env → World env
  broadcast_online_status user online w = record w {
    events = status_broadcast user online ∷ w.events;
  }

  abbrev pub with_counters : env.redis.Store → World env → World env
  with_counters s w = record w { counters = s }

  count_in : Outcome Err ℤ → Text → World env → World env
  count_in (fail e) user w = broadcast_online_status user true w
  count_in (ok n) user w =
      if is_one n
      then broadcast_online_status user true
          (with_counters (env.redis.incr online_count_key w.counters).1 w)
      else w

  unfoldable pub handle_redis_online : Text → World env → World env
  unfolding count_in
  handle_redis_online user w =
      let (answer, s) = env.redis.incr (counter_key user) w.counters in
      if env.has_redis
      then count_in answer user (with_counters s w)
      else broadcast_online_status user true w

  -- The keys that the last connection of a user changes.
  abbrev pub leave : Text → Text → env.redis.Store → env.redis.Store
  leave user now s =
      env.redis.set (last_online_key user) now
        (env.redis.decr online_count_key (env.redis.del (counter_key user) s)).1

  count_out : Outcome Err ℤ → Text → Text → World env → World env
  count_out (fail e) user now w = broadcast_online_status user false w
  count_out (ok n) user now w =
      if ltb_ℤ n (pos 0)
      then broadcast_online_status user false
          (with_counters (env.redis.del (counter_key user) w.counters) w)
      else if is_zero n
      then broadcast_online_status user false (with_counters (leave user now w.counters) w)
      else w

  unfoldable pub handle_redis_offline : Text → Text → World env → World env
  unfolding count_out
  handle_redis_offline user now w =
      let (answer, s) = env.redis.decr (counter_key user) w.counters in
      if env.has_redis
      then count_out answer user now (with_counters s w)
      else broadcast_online_status user false w

  unfoldable pub register_client : Text → ℕ → World env → World env
  unfolding handle_redis_online
  register_client user conn w =
      let conns = add_conn conn (conns_or_none (lookup user w.connections)) in
      handle_redis_online user (record w { connections = put user conns w.connections })

  -- What is left of the connections of a user after one is closed.
  abbrev pub closing : ℕ → List ℕ → World env → World env
  closing conn cs w = if has_conn conn cs then record w { events = closed conn ∷ w.events } else w

  close_conn : Option (List ℕ) → Text → ℕ → Text → World env → World env
  unfolding handle_redis_offline
  close_conn none user conn now w = w
  close_conn (some cs) user conn now w =
      let rest = drop_conn conn cs in
      let w1 = closing conn cs w in
      if has_no_conn rest
      then handle_redis_offline user now (record w1 {
        connections = remove_key user w1.connections;
        active_chats = remove_key user w1.active_chats;
      })
      else record w1 { connections = put user rest w1.connections }

  -- `now` is the text of the time.
  unfoldable pub unregister_client : Text → ℕ → Text → World env → World env
  unfolding close_conn
  unregister_client user conn now w = close_conn (lookup user w.connections) user conn now w
