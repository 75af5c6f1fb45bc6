-- ===== src/Social/Mutual.antt =====
-- The directions of the rows in the table of friends, under its statements in
-- user-service/repository/sql_user_repository.go.
use social_network_micro_ser.Prelude.{
  ℕ, ◌≤◌, Text, List, [], ◌∷◌, ◌≡◌, refl, arith, ◌==◌, text_eq_iff, if◌then◌else◌, Kept, ◌∙◌, ◌+◌,
}
use social_network_micro_ser.Services.Relation.{bit, matches, matches-ext, delete_rows}
use social_network_micro_ser.Social.Env.{FriendEntity, Env, World, in_friends}
use social_network_micro_ser.Social.Repository.{friend_edge, friends_between}

abbrev pub edge_of : Text → Text → FriendEntity
edge_of a b = record { user_id = a; friend_id = b }

-- Deleting the friendships between two users leaves the others.
matches-delete_rows :
    (x y a b : Text) (rs : List FriendEntity)
    → matches (friend_edge x y) (delete_rows (friends_between a b) rs)
      ≡ (if friends_between a b (edge_of x y) then 0 else matches (friend_edge x y) rs)
unfolding matches delete_rows
matches-delete_rows x y a b [] = ground arith
matches-delete_rows x y a b (e ∷ rs) =
    ground
      (arith, matches-delete_rows x y a b rs, text_eq_iff e.user_id x, text_eq_iff e.friend_id y)

module _ (env : Env) where
  abbrev pub friendships : Text → Text → World env → ℕ
  friendships a b w = matches (friend_edge a b) (env.friends.rows w.friends)

  -- The table answers, and holds each friendship in both directions and at most once.
  pub record IsMutual (w : World env) : Type 0 where
    pub up : env.friends.Up w.friends
    pub both_ways : (a b : Text) → friendships a b w ≡ friendships b a w
    pub once : (a b : Text) → friendships a b w ≤ 1

module _ (env : Env)
    (index : (r e : FriendEntity)
      → env.friends.same_key r e ≡ friend_edge r.user_id r.friend_id e) where
  pub remove-IsMutual :
      (a b : Text) → Kept (IsMutual env) (in_friends env (env.friends.remove (friends_between a b)))
  remove-IsMutual a b w m =
      let e = env.friends.rows-remove (friends_between a b) w.friends m.up in
      let left = λ (x y : Text). matches-delete_rows x y a b (env.friends.rows w.friends) in
      record {
        up = env.friends.remove-Up (friends_between a b) w.friends m.up;
        both_ways = λ x y. rw e (ground (arith, left x y, left y x, m.both_ways x y));
        once = λ x y. rw e (ground (arith, left x y, m.once x y));
      }

  pub friendships-create :
      (a b x y : Text) (s : env.friends.Store)
      → env.friends.Up s
      → matches (friend_edge x y) (env.friends.rows (env.friends.create (edge_of a b) s).1) ≡ (
          if matches (friend_edge a b) (env.friends.rows s) == 0
          then bit (friend_edge x y (edge_of a b)) + matches (friend_edge x y) (env.friends.rows s)
          else matches (friend_edge x y) (env.friends.rows s))
  friendships-create a b x y s up =
      let e =
        matches-ext (env.friends.same_key (edge_of a b)) (friend_edge a b) (env.friends.rows s)
          (index (edge_of a b)) in
      env.friends.matches-create (friend_edge x y) (edge_of a b) s up ∙ rw e refl

  pub link-IsMutual :
      (a b : Text) (w : World env)
      → IsMutual env w
      → IsMutual env (record w {
        friends =
            (env.friends.create (edge_of b a) (env.friends.create (edge_of a b) w.friends).1).1;
      })
  link-IsMutual a b w m =
      let s1 = (env.friends.create (edge_of a b) w.friends).1 in
      let u1 = env.friends.create-Up (edge_of a b) w.friends m.up in
      let first = λ (x y : Text). friendships-create a b x y w.friends m.up in
      let second = λ (x y : Text). friendships-create b a x y s1 u1 in
      record {
        up = env.friends.create-Up (edge_of b a) s1 u1;
        both_ways = λ x y. ground (
          arith,
          first x y,
          first y x,
          first b a,
          second x y,
          second y x,
          m.both_ways x y,
          m.both_ways a b,
          text_eq_iff a x,
          text_eq_iff a y,
          text_eq_iff b x,
          text_eq_iff b y,
          text_eq_iff a b,
          text_eq_iff b a,
        );
        once = λ x y. ground (
          arith,
          first x y,
          first b a,
          second x y,
          m.once x y,
          m.both_ways a b,
          text_eq_iff a x,
          text_eq_iff a y,
          text_eq_iff b x,
          text_eq_iff b y,
          text_eq_iff a b,
          text_eq_iff b a,
        );
      }
