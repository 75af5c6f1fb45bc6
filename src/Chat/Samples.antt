-- ===== src/Chat/Samples.antt =====
-- The theorems on chat-service at concrete states.
use social_network_micro_ser.Prelude.{
  codes, true, [], ◌∷◌, none, ◌≡◌, refl, lookup, pos, text_eq, ◌+ℤ◌, ◌-ℤ◌, put, remove_key,
}
use social_network_micro_ser.Prelude.Sort.{filter}
use social_network_micro_ser.Services.Counters.{count_map}
use social_network_micro_ser.Chat.Presence
use social_network_micro_ser.Chat.Presence.{register_client, unregister_client}
use social_network_micro_ser.Chat.Presence.Counting.{counter}
use social_network_micro_ser.Chat.Presence.Sessions.{session, registers, unregisters, counter_left}

abbrev presence_env : Presence.Env
presence_env = record { has_redis = true; redis = count_map }

abbrev nobody_here : Presence.World presence_env
nobody_here = record { connections = []; active_chats = []; counters = λ k. pos 0; events = [] }

all_closed :
    lookup
      (codes "ann")
      (session presence_env
        (codes "ann")
        (codes "9")
        (1 ∷ 2 ∷ [])
        (2 ∷ 1 ∷ [])
        nobody_here).connections
    ≡ none
unfolding registers unregisters register_client unregister_client lookup text_eq ◌+ℤ◌ ◌-ℤ◌ put
    filter remove_key
all_closed = refl

counter_left_example :
    counter presence_env
      (codes "ann")
      (session presence_env (codes "ann") (codes "9") (1 ∷ 2 ∷ []) (2 ∷ 1 ∷ []) nobody_here)
    ≡ pos 1
unfolding lookup
counter_left_example =
    counter_left presence_env (codes "ann") refl 1 (2 ∷ []) (2 ∷ 1 ∷ []) (codes "9") nobody_here tt
      refl refl all_closed
