-- ===== src/Social/Service.antt =====
-- user-service/service/friend.go: the handlers that change the relations between users, with their
-- limits and the cache of suggestions.
use social_network_micro_ser.Prelude.{
  ◌+◌, Text, codes, text_eq, not, ◌&&◌, ◌||◌, ◌++◌, [], ◌∷◌, Outcome, ok, fail, ◌>>=◌, ◌>>◌, pure,
  attempt, ignore, guard, if◌then◌else◌, leb,
}
use social_network_micro_ser.Exception.{Err, app}
use social_network_micro_ser.Exception.Codes.{
  block_limit_reached, add_friend_request_sent_limit_reached, can_not_make_self_request,
  accept_request_failed,
}
use social_network_micro_ser.Social.Env.{Profile, Env, Handler, in_cache}
use social_network_micro_ser.Social.Repository.{
  find_profile, delete_friendship, insert_block, delete_block, insert_request, insert_friendship,
  delete_request,
}

abbrev pub suggested_key : Text → Text
suggested_key user_id = codes "user:suggested_friends:" ++ user_id

module _ (env : Env) where
  unfoldable pub clear_suggested : Text → Handler env (Unit {0})
  clear_suggested user_id =
      if not env.has_redis || text_eq user_id []
      then pure tt
      else ignore (in_cache env (env.redis.del (suggested_key user_id ∷ [])))

  unfoldable pub clear_found : Outcome Err Profile → Handler env (Unit {0})
  unfolding clear_suggested
  clear_found (ok p) = clear_suggested p.id
  clear_found (fail e) = pure tt

  unfoldable pub clear_by_username : Text → Handler env (Unit {0})
  unfolding clear_found
  clear_by_username name =
      if not env.has_redis || text_eq name []
      then pure tt
      else (do found ← attempt (find_profile env name []); clear_found found)

  unfoldable pub clear_both : Text → Text → Handler env (Unit {0})
  unfolding clear_suggested clear_by_username
  clear_both current target = do clear_suggested current; clear_by_username target

  unfoldable pub unfriend : Text → Text → Handler env (Unit {0})
  unfolding clear_both
  unfriend current target = do delete_friendship env current target; clear_both current target

  -- The handlers from the point on at which the profiles are known.
  unfoldable pub block_as : Text → Text → Profile → Handler env (Unit {0})
  block_as current target user = do
    guard (leb (user.block_count + 1) env.limits.max_block_count) (app block_limit_reached)
    insert_block env current target
    clear_both current target

  unfoldable pub block : Text → Text → Handler env (Unit {0})
  block current target = do user ← find_profile env current current; block_as current target user

  unfoldable pub unblock : Text → Text → Handler env (Unit {0})
  unfolding clear_both
  unblock current target = do delete_block env current target; clear_both current target

  unfoldable pub send_to : Text → Profile → Handler env (Unit {0})
  send_to current target = do
    guard (not (text_eq current target.id)) (app can_not_make_self_request)
    insert_request env current target.id
    clear_suggested current
    clear_suggested target.id

  unfoldable pub send_as : Text → Text → Profile → Handler env (Unit {0})
  send_as current target_name user = do
    guard (leb (user.request_sent_count + 1) env.limits.max_sent_request_count)
        (app add_friend_request_sent_limit_reached)
    target ← find_profile env target_name current
    send_to current target

  unfoldable pub send_friend_request : Text → Text → Handler env (Unit {0})
  send_friend_request current target_name = do
    user ← find_profile env current current
    send_as current target_name user

  unfoldable pub accept_from : Text → Text → Profile → Profile → Handler env (Unit {0})
  accept_from current target_name user target = do
    guard
        (leb (user.friend_count + 1) env.limits.max_friend_count
          && leb (target.friend_count + 1) env.limits.max_friend_count)
        (app accept_request_failed)
    insert_friendship env current target_name
    clear_both current target_name

  unfoldable pub accept_as : Text → Text → Profile → Handler env (Unit {0})
  accept_as current target_name user = do
    target ← find_profile env target_name current
    accept_from current target_name user target

  unfoldable pub accept_friend_request : Text → Text → Handler env (Unit {0})
  accept_friend_request current target_name = do
    user ← find_profile env current current
    accept_as current target_name user

  unfoldable pub delete_friend_request : Text → Text → Handler env (Unit {0})
  unfolding clear_both
  delete_friend_request current target = do
    delete_request env current target
    clear_both current target
