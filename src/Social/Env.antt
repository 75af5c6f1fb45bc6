-- ===== src/Social/Env.antt =====
-- The rows of user-service/model/sql_model.go, what user-service/model/model.go makes of them, and
-- the tables and the cache that the handlers read and change.
use social_network_micro_ser.Prelude.{ℕ, Text, Bool, Action}
use social_network_micro_ser.Exception.{Err}
use social_network_micro_ser.Services.Redis.{Redis}
use social_network_micro_ser.Services.Relation.{Relation}

-- The columns of the users that the relations read.
pub record UserEntity : Type 0 where
  pub id : Text
  pub email : Text
  pub username : Text

-- A friendship, from the user to the friend.
pub record FriendEntity : Type 0 where
  pub user_id : Text
  pub friend_id : Text

pub record FriendRequestEntity : Type 0 where
  pub sender_id : Text
  pub receiver_id : Text
  pub status : Text

pub record UserBlockEntity : Type 0 where
  pub blocker_id : Text
  pub blocked_id : Text

-- `"OUT"`, `"IN"`, `"NONE"`, and the empty text of a profile that the user looks at itself.
pub data RequestState : Type 0 where
  outgoing : RequestState
  incoming : RequestState
  no_request : RequestState
  not_asked : RequestState

-- `"BLOCKING"`, `"BLOCKED"` and the empty text.
pub data BlockState : Type 0 where
  blocking : BlockState
  blocked : BlockState
  not_blocked : BlockState

-- The profile as one user shows it to another, less the columns that it only copies from the row.
pub record Profile : Type 0 where
  pub id : Text
  pub username : Text
  pub is_friend : Bool
  pub request : RequestState
  pub block_status : BlockState
  pub mutual_friends_count : ℕ
  pub friend_count : ℕ
  pub block_count : ℕ
  pub request_sent_count : ℕ
  pub request_received_count : ℕ

-- The limits that the runtime configuration gives.
pub record Limits : Type 0 where
  pub max_friend_count : ℕ
  pub max_block_count : ℕ
  pub max_sent_request_count : ℕ
  pub max_received_request_count : ℕ

pub record Env : Type 1 where
  pub limits : Limits
  pub has_redis : Bool
  pub redis : Redis
  pub users : Relation UserEntity
  pub friends : Relation FriendEntity
  pub requests : Relation FriendRequestEntity
  pub blocks : Relation UserBlockEntity

pub record World (env : Env) : Type 0 where
  pub users : env.users.Store
  pub friends : env.friends.Store
  pub requests : env.requests.Store
  pub blocks : env.blocks.Store
  pub cache : env.redis.Store

module _ (env : Env) where
  abbrev pub Handler : Type 0 → Type 0
  Handler A = Action (World env) Err A

  abbrev pub in_friends : {A : Type 0} → Action env.friends.Store Err A → Handler A
  in_friends f w = ((f w.friends).0, record w { friends = (f w.friends).1 })

  abbrev pub in_requests : {A : Type 0} → Action env.requests.Store Err A → Handler A
  in_requests f w = ((f w.requests).0, record w { requests = (f w.requests).1 })

  abbrev pub in_blocks : {A : Type 0} → Action env.blocks.Store Err A → Handler A
  in_blocks f w = ((f w.blocks).0, record w { blocks = (f w.blocks).1 })

  abbrev pub in_cache : {A : Type 0} → Action env.redis.Store Err A → Handler A
  in_cache f w = ((f w.cache).0, record w { cache = (f w.cache).1 })
