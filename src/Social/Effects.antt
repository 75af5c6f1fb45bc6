-- ===== src/Social/Effects.antt =====
-- What a block of user-service/service/friend.go leaves between two users.
use social_network_micro_ser.Prelude.{
  ◌<◌, Text, text_eq, text_eq_refl, some, ◌≡◌, refl, ok, arith, ◌∙◌, ap,
}
use social_network_micro_ser.Services.Relation.{matches, matches-deleted, matches-ext}
use social_network_micro_ser.Social.Env.{UserEntity, UserBlockEntity, Env, World}
use social_network_micro_ser.Social.Repository.{
  is_named, friends_between, requests_between, block_edge, find_profile, profile_of, target_user,
  insert_block, delete_friendship,
}
use social_network_micro_ser.Social.Service.{
  clear_both, clear_suggested, clear_by_username, clear_found, block, block_as,
}
use social_network_micro_ser.Social.Calls.{clear_both-SameTables}

pub clear_both_ok : (env : Env) (c t : Text) (w : World env) → (clear_both env c t w).0 ≡ ok tt
unfolding clear_both clear_by_username clear_found clear_suggested
clear_both_ok env c t w = ground arith

-- The tables answer.
pub record IsUp (env : Env) (w : World env) : Type 0 where
  pub friends : env.friends.Up w.friends
  pub requests : env.requests.Up w.requests
  pub blocks : env.blocks.Up w.blocks

-- The caller is known by its own id, and the name of the other user finds that user.
pub record Known (env : Env) (c t : Text) (me u : UserEntity) (w : World env) : Type 0 where
  pub caller : env.users.first (is_named c) w.users ≡ ok (some me)
  pub own_id : me.id ≡ c
  pub other : env.users.first (is_named t) w.users ≡ ok (some u)

module _ (env : Env) (c t : Text) (me u : UserEntity) (w : World env) (up : IsUp env w)
    (known : Known env c t me u w) where
  -- What stands between the two users after a block.
  pub record IsCut (w' : World env) : Type 0 where
    pub friends : matches (friends_between c u.id) (env.friends.rows w'.friends) ≡ 0
    pub requests : matches (requests_between c u.id) (env.requests.rows w'.requests) ≡ 0
    pub blocks : 0 < matches (block_edge c u.id) (env.blocks.rows w'.blocks)

  insert_block-IsCut :
      ((r e : UserBlockEntity) → env.blocks.same_key r e ≡ block_edge r.blocker_id r.blocked_id e)
      → ((insert_block env c t w).0 ≡ ok tt) × IsCut (insert_block env c t w).1
  unfolding insert_block delete_friendship target_user
  insert_block-IsCut index =
      let b : UserBlockEntity = record { blocker_id = c; blocked_id = u.id } in
      let other = known.other in
      let f = env.friends.rows-remove (friends_between c u.id) w.friends up.friends in
      let f0 = matches-deleted (friends_between c u.id) (env.friends.rows w.friends) in
      let q = env.requests.rows-remove (requests_between c u.id) w.requests up.requests in
      let q0 = matches-deleted (requests_between c u.id) (env.requests.rows w.requests) in
      let m = env.blocks.matches-create (block_edge c u.id) b w.blocks up.blocks in
      let i =
        matches-ext (env.blocks.same_key b) (block_edge c u.id) (env.blocks.rows w.blocks)
          (index b) in
      let w3 : World env = record w {
        friends = (env.friends.remove (friends_between c u.id) w.friends).1;
        requests = (env.requests.remove (requests_between c u.id) w.requests).1;
        blocks = (env.blocks.create b w.blocks).1;
      } in
      let e : insert_block env c t w ≡ (ok tt, w3) = ground arith in
      rw e (
        refl,
        record {
          friends = ap (matches (friends_between c u.id)) f ∙ f0;
          requests = ap (matches (requests_between c u.id)) q ∙ q0;
          blocks = ground (arith, m, i, text_eq_refl c, text_eq_refl u.id);
        },
      )

  -- A block succeeds below the limit; then the two users are no friends, no request is open between
  -- them in either direction, and the block is in the table. Assumed: the tables answer, both users
  -- are found, and the unique index of the blocks is the pair of the two ids.
  pub block-IsCut :
      ((r e : UserBlockEntity) → env.blocks.same_key r e ≡ block_edge r.blocker_id r.blocked_id e)
      → matches (λ e. text_eq e.blocker_id c) (env.blocks.rows w.blocks)
        < env.limits.max_block_count
      → ((block env c t w).0 ≡ ok tt) × IsCut (block env c t w).1
  unfolding block block_as find_profile profile_of
  block-IsCut index below =
      let (done, cut) = insert_block-IsCut index in
      let w3 = (insert_block env c t w).1 in
      let count = env.blocks.count_up (λ e. text_eq e.blocker_id me.id) w.blocks up.blocks in
      let k = clear_both-SameTables env c t w3 in
      let cleared = clear_both_ok env c t w3 in
      let e : block env c t w ≡ (ok tt, (clear_both env c t w3).1) =
        ground (arith, known.caller, known.own_id) in
      rw e (
        refl,
        record {
          friends = rw (k.friends) cut.friends;
          requests = rw (k.requests) cut.requests;
          blocks = rw (k.blocks) cut.blocks;
        },
      )
