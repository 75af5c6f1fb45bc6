-- ===== src/Social/Examples.antt =====
-- The theorems of user-service at a small concrete world: two users and lists of rows.
use social_network_micro_ser.Prelude.{
  ◌<◌, ◌≤◌, Text, codes, text_eq, true, false, [], ◌∷◌, ◌≡◌, refl, ok, fail, arith, ◌⊎◌,
}
use social_network_micro_ser.Exception.{app}
use social_network_micro_ser.Exception.Codes.{accept_request_failed}
use social_network_micro_ser.Services.RedisTable.{table_server}
use social_network_micro_ser.Services.Relation.{list_relation, matches}
use social_network_micro_ser.Social.Env.{
  UserEntity, FriendEntity, FriendRequestEntity, UserBlockEntity, Env, World,
}
use social_network_micro_ser.Social.Repository.{friend_edge, request_edge, block_edge}
use social_network_micro_ser.Social.Service.{accept_friend_request}
use social_network_micro_ser.Social.Calls.{call_accept, call_send, call_block, runs}
use social_network_micro_ser.Social.Mutual.{IsMutual, friendships}
use social_network_micro_ser.Social.Symmetry.{runs-IsMutual}
use social_network_micro_ser.Social.Effects.{IsUp, Known}
use social_network_micro_ser.Social.Accepting.{
  friend_count_of, accept_within_limit, accept_befriends,
}

abbrev pub sample_env : Env
sample_env = record {
  limits = record {
    max_friend_count = 100;
    max_block_count = 100;
    max_sent_request_count = 100;
    max_received_request_count = 100;
  };
  has_redis = true;
  redis = table_server;
  users = list_relation UserEntity (λ r e. text_eq e.id r.id);
  friends = list_relation FriendEntity (λ r e. friend_edge r.user_id r.friend_id e);
  requests = list_relation FriendRequestEntity (λ r e. request_edge r.sender_id r.receiver_id e);
  blocks = list_relation UserBlockEntity (λ r e. block_edge r.blocker_id r.blocked_id e);
}

abbrev pub ann : UserEntity
ann = record { id = codes "a"; email = codes "a@x"; username = codes "ann" }

abbrev pub bob : UserEntity
bob = record { id = codes "b"; email = codes "b@x"; username = codes "bob" }

abbrev pub sample_world : World sample_env
sample_world = record {
  users = ann ∷ bob ∷ [];
  friends = [];
  requests = [];
  blocks = [];
  cache = [];
}

sample-IsMutual : IsMutual sample_env sample_world
unfolding matches
sample-IsMutual = record { up = tt; both_ways = λ x y. refl; once = λ x y. omega arith }

sample-IsUp : IsUp sample_env sample_world
sample-IsUp = record { friends = tt; requests = tt; blocks = tt }

sample-Known : Known sample_env (codes "a") (codes "bob") ann bob sample_world
unfolding text_eq
sample-Known = record { caller = refl; own_id = refl; other = refl }

runs-IsMutual_example : IsMutual sample_env (
    runs sample_env
      (call_send (codes "a") (codes "bob")
        ∷ call_accept (codes "b") (codes "ann")
        ∷ call_block (codes "a") (codes "bob")
        ∷ [])
      sample_world)
runs-IsMutual_example =
    runs-IsMutual sample_env (λ r e. refl)
      (call_send (codes "a") (codes "bob")
        ∷ call_accept (codes "b") (codes "ann")
        ∷ call_block (codes "a") (codes "bob")
        ∷ [])
      sample_world sample-IsMutual

accept_within_limit_example :
    ((x : Text)
      → friend_count_of sample_env x
          (accept_friend_request sample_env (codes "a") (codes "bob") sample_world).1
        ≤ 100)
    × (((false ≡ true)
          × (accept_friend_request sample_env (codes "a") (codes "bob") sample_world
              ≡ (fail (app accept_request_failed), sample_world)))
        ⊎ ((false ≡ false)
            × ((accept_friend_request sample_env (codes "a") (codes "bob") sample_world).0
                ≡ ok tt)))
unfolding matches
accept_within_limit_example =
    accept_within_limit sample_env (λ r e. refl) (codes "a") (codes "bob") ann bob sample_world
      sample-IsUp sample-Known (λ x. omega arith)

accept_befriends_example :
    let r = accept_friend_request sample_env (codes "a") (codes "bob") sample_world in
    (r.0 ≡ ok tt)
    × (0 < friendships sample_env (codes "a") (codes "b") r.1)
    × (0 < friendships sample_env (codes "b") (codes "a") r.1)
    × (matches (request_edge (codes "b") (codes "a")) (sample_env.requests.rows r.1.requests) ≡ 0)
unfolding matches
accept_befriends_example =
    accept_befriends sample_env (λ r e. refl) (codes "a") (codes "bob") ann bob sample_world
      sample-IsUp sample-Known (omega arith) (omega arith)
