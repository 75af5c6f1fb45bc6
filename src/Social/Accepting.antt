-- ===== src/Social/Accepting.antt =====
-- What accepting a friend request does to the friends, in user-service/service/friend.go.
use social_network_micro_ser.Prelude.{
  ℕ, Bool, true, false, ◌+◌, ◌<◌, ◌≤◌, Text, text_eq, text_eq_iff, text_eq_refl, ◌≡◌, refl, ok,
  fail, arith, ◌∙◌, ◌==◌, if◌then◌else◌, ◌||◌, ap, ◌⊎◌, inl, inr, leb, Bool-cases,
}
use social_network_micro_ser.Exception.{app}
use social_network_micro_ser.Exception.Codes.{accept_request_failed}
use social_network_micro_ser.Services.Relation.{bit, matches, matches-deleted, matches-ext}
use social_network_micro_ser.Social.Env.{UserEntity, FriendEntity, Env, World}
use social_network_micro_ser.Social.Repository.{
  friend_edge, request_edge, find_profile, profile_of, target_user, insert_friendship,
}
use social_network_micro_ser.Social.Service.{
  clear_both, accept_friend_request, accept_as, accept_from,
}
use social_network_micro_ser.Social.Mutual.{edge_of, friendships, friendships-create}
use social_network_micro_ser.Social.Calls.{clear_both-SameTables}
use social_network_micro_ser.Social.Effects.{IsUp, Known, clear_both_ok}

-- The friends of a user.
abbrev pub friend_count_of : (env : Env) → Text → World env → ℕ
friend_count_of env x w = matches (λ e. text_eq e.user_id x) (env.friends.rows w.friends)

module _ (env : Env)
    (index : (r e : FriendEntity) → env.friends.same_key r e ≡ friend_edge r.user_id r.friend_id e)
    (c t : Text) (me u : UserEntity) (w : World env) (up : IsUp env w)
    (known : Known env c t me u w) where
  -- The friends after the two rows of a friendship are written.
  linked : World env
  linked = record w {
    requests = (env.requests.remove (request_edge u.id c) w.requests).1;
    friends =
        (env.friends.create (edge_of u.id c) (env.friends.create (edge_of c u.id) w.friends).1).1;
  }

  insert_friendship_lem : insert_friendship env c t w ≡ (ok tt, linked)
  unfolding insert_friendship target_user linked
  insert_friendship_lem = let other = known.other in ground arith

  accept_full :
      (env.limits.max_friend_count ≤ friend_count_of env c w)
        ⊎ (env.limits.max_friend_count ≤ friend_count_of env u.id w)
      → accept_friend_request env c t w ≡ (fail (app accept_request_failed), w)
  unfolding accept_friend_request accept_as accept_from find_profile profile_of
  accept_full full =
      let mine = env.friends.count_up (λ e. text_eq e.user_id me.id) w.friends up.friends in
      let theirs = env.friends.count_up (λ e. text_eq e.user_id u.id) w.friends up.friends in
      ground (arith, known.caller, known.other, known.own_id)

  accept_below :
      friend_count_of env c w < env.limits.max_friend_count
      → friend_count_of env u.id w < env.limits.max_friend_count
      → accept_friend_request env c t w ≡ (ok tt, (clear_both env c t linked).1)
  unfolding accept_friend_request accept_as accept_from find_profile profile_of
  accept_below mine_below theirs_below =
      let mine = env.friends.count_up (λ e. text_eq e.user_id me.id) w.friends up.friends in
      let theirs = env.friends.count_up (λ e. text_eq e.user_id u.id) w.friends up.friends in
      let linked_both = insert_friendship_lem in
      let cleared = clear_both_ok env c t linked in
      ground (arith, known.caller, known.other, known.own_id)

  -- Which of the two answers the limit asks for, and what comes with it.
  abbrev at_limit : Bool
  at_limit =
      leb env.limits.max_friend_count (friend_count_of env c w)
      || leb env.limits.max_friend_count (friend_count_of env u.id w)

  count-create :
      (a b x : Text) (s : env.friends.Store)
      → env.friends.Up s
      → matches (λ e. text_eq e.user_id x) (env.friends.rows (env.friends.create (edge_of a b) s).1)
        ≡ (if matches (friend_edge a b) (env.friends.rows s) == 0
            then bit (text_eq a x) + matches (λ e. text_eq e.user_id x) (env.friends.rows s)
            else matches (λ e. text_eq e.user_id x) (env.friends.rows s))
  count-create a b x s u =
      let e =
        matches-ext (env.friends.same_key (edge_of a b)) (friend_edge a b) (env.friends.rows s)
          (index (edge_of a b)) in
      env.friends.matches-create (λ e. text_eq e.user_id x) (edge_of a b) s u ∙ rw e refl

  count_linked :
      (x : Text)
      → friend_count_of env x linked ≤ bit (text_eq c x || text_eq u.id x) + friend_count_of env x w
  unfolding linked
  count_linked x =
      let s1 = (env.friends.create (edge_of c u.id) w.friends).1 in
      let u1 = env.friends.create-Up (edge_of c u.id) w.friends up.friends in
      let first = count-create c u.id x w.friends up.friends in
      let second = count-create u.id c x s1 u1 in
      let edge = friendships-create env index c u.id u.id c w.friends up.friends in
      ground (
        arith,
        first,
        second,
        edge,
        text_eq_iff c x,
        text_eq_iff u.id x,
        text_eq_iff c u.id,
        text_eq_iff u.id c,
      )

  count_room :
      (x : Text)
      → friend_count_of env x w ≤ env.limits.max_friend_count
      → friend_count_of env c w < env.limits.max_friend_count
      → friend_count_of env u.id w < env.limits.max_friend_count
      → friend_count_of env x linked ≤ env.limits.max_friend_count
  count_room x within mine theirs =
      let same = λ (y : Text) (e : y ≡ x). ap (λ z. friend_count_of env z w) e in
      let bound = count_linked x in
      elim (Bool-cases (text_eq c x)) [
        | inl e ↦ let eq = same c ((text_eq_iff c x).0 e) in ground arith
        | inr ne ↦ elim (Bool-cases (text_eq u.id x)) [
          | inl e ↦ let eq = same u.id ((text_eq_iff u.id x).0 e) in ground arith
          | inr ne' ↦ ground arith
        ]
      ]

  -- Accepting never takes anybody over the limit of friends: at the limit of either user it answers
  -- ACCEPT_REQUEST_FAILED and changes nothing, and below both limits it succeeds. Assumed: nobody is
  -- over the limit before, the tables answer, both users are found, and the unique index of the
  -- friends is the pair of the two ids.
  pub accept_within_limit :
      ((x : Text) → friend_count_of env x w ≤ env.limits.max_friend_count)
      → ((x : Text)
          → friend_count_of env x (accept_friend_request env c t w).1 ≤ env.limits.max_friend_count)
        × (((at_limit ≡ true)
              × (accept_friend_request env c t w ≡ (fail (app accept_request_failed), w)))
            ⊎ ((at_limit ≡ false) × ((accept_friend_request env c t w).0 ≡ ok tt)))
  accept_within_limit within = elim (Bool-cases at_limit) [
    | inl full ↦ let e = accept_full (ground arith) in rw e (within, inl (full, refl))
    | inr room ↦
        let e = accept_below (ground arith) (ground arith) in
        let k = clear_both-SameTables env c t linked in
        rw e (
          λ x. rw (k.friends) (count_room x (within x) (ground arith) (ground arith)),
          inr (room, refl),
        )
  ]

  -- Accepting below the limits makes the two users friends in both directions, whether or not a
  -- request was ever sent: nothing is assumed of the table of requests but that it answers. A
  -- request of the other user is gone afterwards. Assumed: the tables answer, both users are found,
  -- and the unique index of the friends is the pair of the two ids.
  pub accept_befriends :
      friend_count_of env c w < env.limits.max_friend_count
      → friend_count_of env u.id w < env.limits.max_friend_count
      → let r = accept_friend_request env c t w in
        (r.0 ≡ ok tt)
        × (0 < friendships env c u.id r.1)
        × (0 < friendships env u.id c r.1)
        × (matches (request_edge u.id c) (env.requests.rows r.1.requests) ≡ 0)
  unfolding linked
  accept_befriends mine theirs =
      let e = accept_below mine theirs in
      let k = clear_both-SameTables env c t linked in
      let s1 = (env.friends.create (edge_of c u.id) w.friends).1 in
      let u1 = env.friends.create-Up (edge_of c u.id) w.friends up.friends in
      let first = λ (x y : Text). friendships-create env index c u.id x y w.friends up.friends in
      let second = λ (x y : Text). friendships-create env index u.id c x y s1 u1 in
      let q = env.requests.rows-remove (request_edge u.id c) w.requests up.requests in
      let q0 = matches-deleted (request_edge u.id c) (env.requests.rows w.requests) in
      rw e (
        refl,
        rw (k.friends)
            (ground (arith, first c u.id, second c u.id, text_eq_refl c, text_eq_refl u.id)),
        rw (k.friends)
            (ground (arith, first c u.id, second u.id c, text_eq_refl c, text_eq_refl u.id)),
        rw (k.requests) (ap (matches (request_edge u.id c)) q ∙ q0),
      )
