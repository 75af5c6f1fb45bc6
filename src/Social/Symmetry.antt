-- ===== src/Social/Symmetry.antt =====
-- The directions of the rows in the table of friends, under the handlers of
-- user-service/service/friend.go.
use social_network_micro_ser.Prelude.{
  Text, not, ◌&&◌, List, [], ◌∷◌, ◌≡◌, arith, text_eq, Kept, bind-Kept, then-Kept, guard-Kept,
  ◌>>=◌, leb, ◌>>◌, ◌+◌,
}
use social_network_micro_ser.Exception.{app}
use social_network_micro_ser.Exception.Codes.{
  block_limit_reached, add_friend_request_sent_limit_reached, can_not_make_self_request,
  accept_request_failed,
}
use social_network_micro_ser.Social.Env.{Profile, FriendEntity, Env, World}
use social_network_micro_ser.Social.Repository.{
  friend_edge, target_user, find_profile, delete_friendship, insert_block, delete_block,
  insert_request, insert_friendship, delete_request,
}
use social_network_micro_ser.Social.Service.{
  clear_suggested, clear_both, unfriend, block, block_as, send_to, send_as, accept_from, accept_as,
  unblock, send_friend_request, accept_friend_request, delete_friend_request,
}
use social_network_micro_ser.Social.Calls.{
  Call, call_unfriend, call_block, call_unblock, call_send, call_accept, call_delete, run, runs,
  clear_both-SameTables, clear_suggested-SameTables,
}
use social_network_micro_ser.Social.Mutual.{IsMutual, remove-IsMutual, link-IsMutual}

module _ (env : Env)
    (index : (r e : FriendEntity)
      → env.friends.same_key r e ≡ friend_edge r.user_id r.friend_id e) where
  delete_friendship-IsMutual : (c t : Text) → Kept (IsMutual env) (delete_friendship env c t)
  unfolding delete_friendship target_user
  delete_friendship-IsMutual c t =
      bind-Kept (IsMutual env) (target_user env t) _ (λ w m. m)
        (λ u. remove-IsMutual env index c u.id)

  insert_friendship-IsMutual : (c t : Text) → Kept (IsMutual env) (insert_friendship env c t)
  unfolding insert_friendship target_user
  insert_friendship-IsMutual c t =
      bind-Kept (IsMutual env) (target_user env t) _ (λ w m. m)
        (λ u w m.
          link-IsMutual env index c u.id _
            (record { up = m.up; both_ways = m.both_ways; once = m.once }))

  insert_block-IsMutual : (c t : Text) → Kept (IsMutual env) (insert_block env c t)
  unfolding insert_block target_user
  insert_block-IsMutual c t =
      bind-Kept (IsMutual env) (target_user env t) _ (λ w m. m)
        (λ u w m.
          let k = delete_friendship-IsMutual c t w m in
          record { up = k.up; both_ways = k.both_ways; once = k.once })

  same-IsMutual : (w w' : World env) → w'.friends ≡ w.friends → (IsMutual env) w → (IsMutual env) w'
  same-IsMutual w w' e m = record {
    up = rw e m.up;
    both_ways = λ x y. rw e (m.both_ways x y);
    once = λ x y. rw e (m.once x y);
  }

  clear_both-IsMutual : (c t : Text) → Kept (IsMutual env) (clear_both env c t)
  clear_both-IsMutual c t w m =
      same-IsMutual w (clear_both env c t w).1 (clear_both-SameTables env c t w).friends m

  clear_suggested-IsMutual : (id : Text) → Kept (IsMutual env) (clear_suggested env id)
  clear_suggested-IsMutual id w m =
      same-IsMutual w (clear_suggested env id w).1 (clear_suggested-SameTables env id w).friends m

  find_profile-IsMutual : (name c : Text) → Kept (IsMutual env) (find_profile env name c)
  unfolding find_profile
  find_profile-IsMutual name c w m = same-IsMutual w (find_profile env name c w).1 (ground arith) m

  delete_block-IsMutual : (c t : Text) → Kept (IsMutual env) (delete_block env c t)
  unfolding delete_block target_user
  delete_block-IsMutual c t w m = same-IsMutual w (delete_block env c t w).1 (ground arith) m

  insert_request-IsMutual : (c t : Text) → Kept (IsMutual env) (insert_request env c t)
  unfolding insert_request target_user
  insert_request-IsMutual c t w m = same-IsMutual w (insert_request env c t w).1 (ground arith) m

  delete_request-IsMutual : (c t : Text) → Kept (IsMutual env) (delete_request env c t)
  unfolding delete_request target_user
  delete_request-IsMutual c t w m = same-IsMutual w (delete_request env c t w).1 (ground arith) m

  unfriend-IsMutual : (c t : Text) → Kept (IsMutual env) (unfriend env c t)
  unfolding unfriend
  unfriend-IsMutual c t =
      then-Kept (IsMutual env) (delete_friendship env c t) (clear_both env c t)
        (delete_friendship-IsMutual c t) (clear_both-IsMutual c t)

  block-IsMutual : (c t : Text) → Kept (IsMutual env) (block env c t)
  unfolding block block_as
  block-IsMutual c t =
      bind-Kept (IsMutual env) (find_profile env c c) (block_as env c t) (find_profile-IsMutual c c)
        (λ user.
          guard-Kept (IsMutual env) (leb (user.block_count + 1) env.limits.max_block_count)
            (app block_limit_reached) (insert_block env c t >> clear_both env c t)
            (then-Kept (IsMutual env) (insert_block env c t) (clear_both env c t)
              (insert_block-IsMutual c t) (clear_both-IsMutual c t)))

  unblock-IsMutual : (c t : Text) → Kept (IsMutual env) (unblock env c t)
  unfolding unblock
  unblock-IsMutual c t =
      then-Kept (IsMutual env) (delete_block env c t) (clear_both env c t)
        (delete_block-IsMutual c t) (clear_both-IsMutual c t)

  send_to-IsMutual : (c : Text) (target : Profile) → Kept (IsMutual env) (send_to env c target)
  unfolding send_to
  send_to-IsMutual c target =
      let ends = clear_suggested env c >> clear_suggested env target.id in
      guard-Kept (IsMutual env) (not (text_eq c target.id)) (app can_not_make_self_request)
        (insert_request env c target.id >> ends)
        (then-Kept (IsMutual env) (insert_request env c target.id) ends
          (insert_request-IsMutual c target.id)
          (then-Kept (IsMutual env) (clear_suggested env c) (clear_suggested env target.id)
            (clear_suggested-IsMutual c) (clear_suggested-IsMutual target.id)))

  send-IsMutual : (c t : Text) → Kept (IsMutual env) (send_friend_request env c t)
  unfolding send_friend_request send_as
  send-IsMutual c t =
      bind-Kept (IsMutual env) (find_profile env c c) (send_as env c t) (find_profile-IsMutual c c)
        (λ user.
          guard-Kept (IsMutual env)
            (leb (user.request_sent_count + 1) env.limits.max_sent_request_count)
            (app add_friend_request_sent_limit_reached) (find_profile env t c >>= send_to env c)
            (bind-Kept (IsMutual env) (find_profile env t c) (send_to env c)
              (find_profile-IsMutual t c) (send_to-IsMutual c)))

  accept_from-IsMutual :
      (c t : Text) (user target : Profile) → Kept (IsMutual env) (accept_from env c t user target)
  unfolding accept_from
  accept_from-IsMutual c t user target =
      guard-Kept (IsMutual env)
        (leb (user.friend_count + 1) env.limits.max_friend_count
          && leb (target.friend_count + 1) env.limits.max_friend_count)
        (app accept_request_failed) (insert_friendship env c t >> clear_both env c t)
        (then-Kept (IsMutual env) (insert_friendship env c t) (clear_both env c t)
          (insert_friendship-IsMutual c t) (clear_both-IsMutual c t))

  accept-IsMutual : (c t : Text) → Kept (IsMutual env) (accept_friend_request env c t)
  unfolding accept_friend_request accept_as
  accept-IsMutual c t =
      bind-Kept (IsMutual env) (find_profile env c c) (accept_as env c t)
        (find_profile-IsMutual c c)
        (λ user.
          bind-Kept (IsMutual env) (find_profile env t c) (accept_from env c t user)
            (find_profile-IsMutual t c) (accept_from-IsMutual c t user))

  delete-IsMutual : (c t : Text) → Kept (IsMutual env) (delete_friend_request env c t)
  unfolding delete_friend_request
  delete-IsMutual c t =
      then-Kept (IsMutual env) (delete_request env c t) (clear_both env c t)
        (delete_request-IsMutual c t) (clear_both-IsMutual c t)

  run-IsMutual : (call : Call) → Kept (IsMutual env) (run env call)
  unfolding run
  run-IsMutual (call_unfriend c t) = unfriend-IsMutual c t
  run-IsMutual (call_block c t) = block-IsMutual c t
  run-IsMutual (call_unblock c t) = unblock-IsMutual c t
  run-IsMutual (call_send c t) = send-IsMutual c t
  run-IsMutual (call_accept c t) = accept-IsMutual c t
  run-IsMutual (call_delete c t) = delete-IsMutual c t

  -- After any sequence of calls that change the relations between users, whichever of them are
  -- refused, the table of friends holds every friendship in both directions and at most once.
  -- Assumed: it does so at the start, each of its statements succeeds, and its unique index is the
  -- pair of the two ids. The other tables and Redis may fail.
  pub runs-IsMutual :
      (calls : List Call) (w : World env) → (IsMutual env) w → (IsMutual env) (runs env calls w)
  unfolding runs
  runs-IsMutual [] w m = m
  runs-IsMutual (call ∷ calls) w m = runs-IsMutual calls (run env call w).1 (run-IsMutual call w m)
