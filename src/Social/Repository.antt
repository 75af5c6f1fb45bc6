-- ===== src/Social/Repository.antt =====
-- user-service/repository/sql_user_repository.go: profiles and the relations between users. The
-- helpers that would write to Neo4j are empty in the source.
use social_network_micro_ser.Prelude.{
  ℕ, List, [], ◌∷◌, map, length, zero, suc, Text, codes, text_eq, Bool, true, false, not, ◌&&◌,
  ◌||◌, Option, none, some, Outcome, ok, fail, ◌>>=◌, ◌>>◌, ignore, attempt, or_fail, guard, lift,
  if◌then◌else◌,
}
use social_network_micro_ser.Exception.{Err, app}
use social_network_micro_ser.Exception.Codes.{
  user_not_found, can_not_make_self_request, send_friend_request_failed,
}
use social_network_micro_ser.Services.Redis.{member}
use social_network_micro_ser.Social.Env.{
  UserEntity, FriendEntity, FriendRequestEntity, UserBlockEntity, RequestState, outgoing, incoming,
  no_request, not_asked, BlockState, blocking, blocked, not_blocked, Profile, Env, World, Handler,
  in_friends, in_requests, in_blocks,
}

-- `id = ? OR username = ?`
abbrev pub is_named : Text → UserEntity → Bool
is_named name u = text_eq u.id name || text_eq u.username name

abbrev pub friend_edge : Text → Text → FriendEntity → Bool
friend_edge a b e = text_eq e.user_id a && text_eq e.friend_id b

abbrev pub friends_between : Text → Text → FriendEntity → Bool
friends_between a b e = friend_edge a b e || friend_edge b a e

abbrev pub request_edge : Text → Text → FriendRequestEntity → Bool
request_edge a b e = text_eq e.sender_id a && text_eq e.receiver_id b

abbrev pub requests_between : Text → Text → FriendRequestEntity → Bool
requests_between a b e = request_edge a b e || request_edge b a e

abbrev pub block_edge : Text → Text → UserBlockEntity → Bool
block_edge a b e = text_eq e.blocker_id a && text_eq e.blocked_id b

abbrev pub blocks_between : Text → Text → UserBlockEntity → Bool
blocks_between a b e = block_edge a b e || block_edge b a e

abbrev pub pending : Text
pending = codes "PENDING"

abbrev pub or_missing : Outcome Err (Option UserEntity) → Outcome Err UserEntity
or_missing (ok (some u)) = ok u
or_missing (ok none) = fail (app user_not_found)
or_missing (fail e) = fail e

-- `Count` leaves the counter at 0 when it fails.
abbrev pub count_or_zero : Outcome Err ℕ → ℕ
count_or_zero (ok n) = n
count_or_zero (fail e) = 0

abbrev pub is_positive : ℕ → Bool
is_positive zero = false
is_positive (suc n) = true

abbrev pub request_state : Text → Outcome Err (Option FriendRequestEntity) → RequestState
request_state current (ok (some r)) = if text_eq r.sender_id current then outgoing else incoming
request_state current (ok none) = no_request
request_state current (fail e) = no_request

abbrev pub block_state : Text → Outcome Err (Option UserBlockEntity) → BlockState
block_state current (ok (some b)) = if text_eq b.blocker_id current then blocking else blocked
block_state current (ok none) = not_blocked
block_state current (fail e) = not_blocked

-- `Pluck("friend_id")` leaves the list empty when it fails.
abbrev pub ids_or_none : Outcome Err (List FriendEntity) → List Text
ids_or_none (ok es) = map (λ e. e.friend_id) es
ids_or_none (fail e) = []

-- The texts of the second list that are in the first one.
unfoldable pub intersect_strings : List Text → List Text → List Text
intersect_strings a [] = []
intersect_strings a (item ∷ b) =
    let rest = intersect_strings a b in if member item a then item ∷ rest else rest

module _ (env : Env) where
  -- What the profile says about the two users.
  are_friends : Text → Text → World env → Bool
  are_friends current id w =
      is_positive (count_or_zero (env.friends.count (friends_between current id) w.friends))

  -- A profile that a user looks at itself, or that nobody in particular looks at.
  is_own : Text → Text → Bool
  is_own current id = text_eq current (codes "") || text_eq current id

  friend_ids : Text → World env → List Text
  friend_ids id w = ids_or_none (env.friends.find_all (λ e. text_eq e.user_id id) w.friends)

  count_mutual_friends : Text → Text → World env → ℕ
  unfolding friend_ids
  count_mutual_friends a b w = length (intersect_strings (friend_ids a w) (friend_ids b w))

  unfoldable pub profile_of : UserEntity → Text → World env → Profile
  unfolding are_friends is_own count_mutual_friends
  profile_of u current w = record {
    id = u.id;
    username = u.username;
    is_friend = if is_own current u.id then false else are_friends current u.id w;
    request =
        if is_own current u.id
        then not_asked
        else request_state current (env.requests.first (requests_between current u.id) w.requests);
    block_status =
        if is_own current u.id
        then not_blocked
        else block_state current (env.blocks.first (blocks_between current u.id) w.blocks);
    mutual_friends_count = if is_own current u.id then 0 else count_mutual_friends current u.id w;
    friend_count = count_or_zero (env.friends.count (λ e. text_eq e.user_id u.id) w.friends);
    block_count = count_or_zero (env.blocks.count (λ e. text_eq e.blocker_id u.id) w.blocks);
    request_sent_count =
        count_or_zero (
          env.requests.count (λ e. text_eq e.sender_id u.id && text_eq e.status pending)
            w.requests);
    request_received_count = count_or_zero (
        env.requests.count (λ e. text_eq e.receiver_id u.id && text_eq e.status pending)
          w.requests);
  }

  unfoldable pub find_profile : Text → Text → Handler env Profile
  unfolding profile_of
  find_profile name current w =
      let found = or_missing (env.users.first (is_named name) w.users) in
      (lift found >>= λ u. λ w. (ok (profile_of u current w), w)) w

  -- Any error of the query is a missing user here.
  abbrev pub or_not_found : Outcome Err (Option UserEntity) → Outcome Err UserEntity
  or_not_found (ok (some u)) = ok u
  or_not_found (ok none) = fail (app user_not_found)
  or_not_found (fail e) = fail (app user_not_found)

  unfoldable pub target_user : Text → Handler env UserEntity
  target_user name w = (or_not_found (env.users.first (is_named name) w.users), w)

  unfoldable pub delete_friendship : Text → Text → Handler env (Unit {0})
  unfolding target_user
  delete_friendship current target = do
    u ← target_user target
    ignore (in_friends env (env.friends.remove (friends_between current u.id)))

  unfoldable pub insert_block : Text → Text → Handler env (Unit {0})
  unfolding target_user
  insert_block current target = do
    u ← target_user target
    ignore (delete_friendship current target)
    ignore (in_requests env (env.requests.remove (requests_between current u.id)))
    ignore (in_blocks env (env.blocks.create (record { blocker_id = current; blocked_id = u.id })))

  unfoldable pub delete_block : Text → Text → Handler env (Unit {0})
  unfolding target_user
  delete_block current target = do
    u ← target_user target
    ignore (in_blocks env (env.blocks.remove (block_edge current u.id)))

  -- The count of received requests and its limit, which the source takes and does not use, are
  -- left out.
  unfoldable pub insert_request : Text → Text → Handler env (Unit {0})
  unfolding target_user
  insert_request current target_id = do
    guard (not (text_eq current target_id)) (app can_not_make_self_request)
    u ← target_user target_id
    stored ← attempt (
        in_requests env (
          env.requests.create
            (record { sender_id = current; receiver_id = u.id; status = pending })))
    or_fail (app send_friend_request_failed) stored

  unfoldable pub insert_friendship : Text → Text → Handler env (Unit {0})
  unfolding target_user
  insert_friendship current target = do
    u ← target_user target
    ignore (in_requests env (env.requests.remove (request_edge u.id current)))
    ignore (in_friends env (env.friends.create (record { user_id = current; friend_id = u.id })))
    ignore (in_friends env (env.friends.create (record { user_id = u.id; friend_id = current })))

  unfoldable pub delete_request : Text → Text → Handler env (Unit {0})
  unfolding target_user
  delete_request current target = do
    u ← target_user target
    ignore (in_requests env (env.requests.remove (requests_between current u.id)))
