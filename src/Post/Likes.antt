-- ===== src/Post/Likes.antt =====
-- The likes of a post and the counter in its row, in post-service/repository/sql_post_repository.go.
use social_network_micro_ser.Prelude.{
  ℕ, ◌+◌, ◌≤◌, Text, text_eq, text_eq_iff, Bool, not, ◌&&◌, List, [], ◌∷◌, ◌≡◌, refl, arith,
  if◌then◌else◌, ◌==◌, ltb, matches, matches-le, matches-ext, Bool-cases, Option-cases, ◌||◌, inl,
  inr,
}
use social_network_micro_ser.Services.Database.{first_of_rows, update_rows}
use social_network_micro_ser.Services.Relation.{delete_rows, delete_rows-matches}
use social_network_micro_ser.Services.Sql.{insert_row}
use social_network_micro_ser.Post.Entities.{PostEntity, LikeEntity, Env, World}
use social_network_micro_ser.Post.Rows.{
  post_named, liked_by, more_likes, fewer_likes, like_row, unlike_row, delete_row,
}
use social_network_micro_ser.Post.Posts.{emit, like_post, unlike_post, delete_post}

matches-update_rows :
    {R : Type 0} (q p : R → Bool) (f : R → R) (rs : List R)
    → matches q (update_rows p f rs) ≡ matches (λ r. q (if p r then f r else r)) rs
unfolding matches
matches-update_rows q p f [] = refl
matches-update_rows q p f (r ∷ rs) = ground (arith, matches-update_rows q p f rs)

unfoldable pub likes_of : Text → List LikeEntity → ℕ
likes_of id ls = matches (λ l. text_eq l.target_id id) ls

abbrev pub is_miscounted : List LikeEntity → PostEntity → Bool
is_miscounted ls p = not (p.like_count == likes_of p.id ls)

-- Every post counts its likes, and nobody likes a post twice.
pub record IsCounted (posts : List PostEntity) (likes : List LikeEntity) : Type 0 where
  pub counted : matches (is_miscounted likes) posts ≡ 0
  pub once : (id user : Text) → matches (liked_by id user) likes ≤ 1

likes_of-deleted :
    (id user t : Text) (ls : List LikeEntity)
    → likes_of t (delete_rows (liked_by id user) ls)
        + (if text_eq id t then matches (liked_by id user) ls else 0)
      ≡ likes_of t ls
unfolding likes_of matches delete_rows
likes_of-deleted id user t [] = ground arith
likes_of-deleted id user t (l ∷ ls) =
    ground (arith, likes_of-deleted id user t ls, text_eq_iff l.target_id id)

liked-IsCounted :
    (id user : Text) (posts : List PostEntity) (likes : List LikeEntity)
    → IsCounted posts likes
    → matches (liked_by id user) likes ≡ 0
    → IsCounted
        (update_rows (post_named id) more_likes posts)
        (record { target_id = id; user_id = user } ∷ likes)
unfolding likes_of matches
liked-IsCounted id user posts likes h new =
    let likes' = record { target_id = id; user_id = user } ∷ likes in
    let miscounted =
      λ (p : PostEntity). is_miscounted likes' (if post_named id p then more_likes p else p) in
    let all = matches-update_rows (is_miscounted likes') (post_named id) more_likes posts in
    let less =
      matches-le miscounted (is_miscounted likes) posts
        (λ p. ground (arith, text_eq_iff p.id id, text_eq_iff id p.id)) in
    record {
      counted = omega (arith, h.counted);
      once = λ t u. ground (arith, text_eq_iff id t, text_eq_iff user u, h.once t u);
    }

unliked-IsCounted :
    (id user : Text) (posts : List PostEntity) (likes : List LikeEntity)
    → IsCounted posts likes
    → matches (liked_by id user) likes ≡ 1
    → IsCounted
        (update_rows (λ p. post_named id p && ltb 0 p.like_count) fewer_likes posts)
        (delete_rows (liked_by id user) likes)
unliked-IsCounted id user posts likes h there =
    let likes' = delete_rows (liked_by id user) likes in
    let named = λ (p : PostEntity). post_named id p && ltb 0 p.like_count in
    let all = matches-update_rows (is_miscounted likes') named fewer_likes posts in
    let miscounted =
      λ (p : PostEntity). is_miscounted likes' (if named p then fewer_likes p else p) in
    let less = matches-le miscounted (is_miscounted likes) posts (λ p.
      ground
        (arith, text_eq_iff p.id id, text_eq_iff id p.id, likes_of-deleted id user p.id likes)) in
    record {
      counted = omega (arith, h.counted);
      once = λ t u.
          omega (arith, h.once t u, delete_rows-matches (liked_by id user) (liked_by t u) likes);
    }

delete_none : {R : Type 0} (p : R → Bool) (rs : List R) → matches p rs ≡ 0 → delete_rows p rs ≡ rs
unfolding matches delete_rows
delete_none p [] h = refl
delete_none p (r ∷ rs) h = ground (arith, delete_none p rs)

-- The tables answer every statement, and their keys are those of model/sql_model.go.
pub record Ready (env : Env) (w : World env) : Type 0 where
  pub posts_up : env.posts.Up w.post_rows
  pub likes_up : env.likes.Up w.like_rows
  pub unique : (l k : LikeEntity) → env.likes.same_key l k ≡ liked_by l.target_id l.user_id k

pub data Call : Type 0 where
  like : Text → Text → Call
  unlike : Text → Text → Call
  delete : Text → Text → Bool → Call

unfoldable pub run_call : (env : Env) → Call → World env → World env
run_call env (like user id) w = (like_post env user id w).1
run_call env (unlike user id) w = (unlike_post env user id w).1
run_call env (delete id current is_admin) w = (delete_post env id current is_admin w).1

unfoldable pub run_calls : (env : Env) → List Call → World env → World env
unfolding run_call
run_calls env [] w = w
run_calls env (c ∷ cs) w = run_calls env cs (run_call env c w)

module _ (env : Env) where
  pub record LikesKept (w : World env) : Type 0 where
    pub ready : Ready env w
    pub counted : IsCounted (env.posts.rows w.post_rows) (env.likes.rows w.like_rows)

  kept_by :
      (w w1 : World env)
      → Ready env w
      → env.posts.Up w1.post_rows
      → env.likes.Up w1.like_rows
      → IsCounted (env.posts.rows w1.post_rows) (env.likes.rows w1.like_rows)
      → LikesKept w1
  kept_by w w1 ready posts_up likes_up counted = record {
    ready = record { posts_up = posts_up; likes_up = likes_up; unique = ready.unique };
    counted = counted;
  }

  same_rows :
      (w w1 : World env)
      → LikesKept w
      → w1.post_rows ≡ w.post_rows
      → w1.like_rows ≡ w.like_rows
      → LikesKept w1
  same_rows w w1 h e f =
      kept_by w w1 h.ready (rw e h.ready.posts_up) (rw f h.ready.likes_up) (rw (e, f) h.counted)

  like_post-LikesKept :
      (user id : Text) (w : World env) → LikesKept w → LikesKept (like_post env user id w).1
  unfolding like_post like_row emit
  like_post-LikesKept user id w h =
      let likes = env.likes.rows w.like_rows in
      let posts = env.posts.rows w.post_rows in
      let w1 = (like_post env user id w).1 in
      let row : LikeEntity = record { target_id = id; user_id = user } in
      let count = env.likes.count_up (liked_by id user) w.like_rows h.ready.likes_up in
      elim (Bool-cases (matches (liked_by id user) likes == 0)) [
        | inr old ↦ same_rows w w1 h (ground arith) (ground arith)
        | inl new ↦
            let e : w1.post_rows ≡ (env.posts.update (post_named id) more_likes w.post_rows).1 =
              ground arith in
            let f : w1.like_rows ≡ (env.likes.create row w.like_rows).1 = ground arith in
            let posts1 =
              env.posts.rows-update (post_named id) more_likes w.post_rows h.ready.posts_up in
            let likes1 = env.likes.rows-create row w.like_rows h.ready.likes_up in
            let keys =
              matches-ext (env.likes.same_key row) (liked_by id user) likes (h.ready.unique row) in
            let fresh : matches (liked_by id user) likes ≡ 0 = ground arith in
            let inserted : insert_row env.likes.same_key row likes ≡ row ∷ likes = ground arith in
            let counted = liked-IsCounted id user posts likes h.counted fresh in
            kept_by w w1 h.ready
              (rw e (env.posts.update-Up (post_named id) more_likes w.post_rows h.ready.posts_up))
              (rw f (env.likes.create-Up row w.like_rows h.ready.likes_up))
              (rw (e, f, posts1, likes1, inserted) counted)
      ]

  unlike_post-LikesKept :
      (user id : Text) (w : World env) → LikesKept w → LikesKept (unlike_post env user id w).1
  unfolding unlike_post unlike_row matches
  unlike_post-LikesKept user id w h =
      let likes = env.likes.rows w.like_rows in
      let posts = env.posts.rows w.post_rows in
      let w1 = (unlike_post env user id w).1 in
      let named = λ (p : PostEntity). post_named id p && ltb 0 p.like_count in
      let removed = env.likes.remove_up (liked_by id user) w.like_rows h.ready.likes_up in
      let likes1 = env.likes.rows-remove (liked_by id user) w.like_rows h.ready.likes_up in
      let f : w1.like_rows ≡ (env.likes.remove (liked_by id user) w.like_rows).1 = ground arith in
      elim (Bool-cases (matches (liked_by id user) likes == 0)) [
        | inl free ↦
            let e : w1.post_rows ≡ w.post_rows = ground arith in
            let zero : matches (liked_by id user) likes ≡ 0 = ground arith in
            let same = delete_none (liked_by id user) likes zero in
            kept_by w w1 h.ready (rw e h.ready.posts_up)
              (rw f (env.likes.remove-Up (liked_by id user) w.like_rows h.ready.likes_up))
              (rw (e, f, likes1, same) h.counted)
        | inr taken ↦
            let e : w1.post_rows ≡ (env.posts.update named fewer_likes w.post_rows).1 =
              ground arith in
            let posts1 = env.posts.rows-update named fewer_likes w.post_rows h.ready.posts_up in
            let one : matches (liked_by id user) likes ≡ 1 =
              ground (arith, h.counted.once id user) in
            kept_by w w1 h.ready
              (rw e (env.posts.update-Up named fewer_likes w.post_rows h.ready.posts_up))
              (rw f (env.likes.remove-Up (liked_by id user) w.like_rows h.ready.likes_up))
              (rw (e, f, posts1, likes1) (unliked-IsCounted id user posts likes h.counted one))
      ]

  delete_post-LikesKept :
      (id current : Text) (is_admin : Bool) (w : World env)
      → LikesKept w
      → LikesKept (delete_post env id current is_admin w).1
  unfolding delete_post delete_row emit
  delete_post-LikesKept id current is_admin w h =
      let posts = env.posts.rows w.post_rows in
      let likes = env.likes.rows w.like_rows in
      let w1 = (delete_post env id current is_admin w).1 in
      let mine = λ (p : PostEntity). post_named id p && (is_admin || text_eq p.user_id current) in
      let found = env.posts.first_up mine w.post_rows h.ready.posts_up in
      elim (Option-cases (first_of_rows mine posts)) [
        | inl missing ↦ same_rows w w1 h (ground arith) (ground arith)
        | inr (p, there) ↦
            let e : w1.post_rows ≡ (env.posts.remove (post_named p.id) w.post_rows).1 =
              ground arith in
            let f : w1.like_rows ≡ w.like_rows = ground arith in
            let posts1 = env.posts.rows-remove (post_named p.id) w.post_rows h.ready.posts_up in
            let fewer = delete_rows-matches (post_named p.id) (is_miscounted likes) posts in
            let counted : IsCounted (delete_rows (post_named p.id) posts) likes = record {
              counted = omega (arith, h.counted.counted);
              once = h.counted.once;
            } in
            kept_by w w1 h.ready
              (rw e (env.posts.remove-Up (post_named p.id) w.post_rows h.ready.posts_up))
              (rw f h.ready.likes_up) (rw (e, f, posts1) counted)
      ]

  -- However the users like and unlike the posts, and whatever posts are deleted in between, each row of
  -- a post counts the likes of the post, and nobody likes a post twice. Assumed: it is so at the start,
  -- the tables answer, and the likes have the unique key of the model.
  pub run_calls-LikesKept :
      (cs : List Call) (w : World env) → LikesKept w → LikesKept (run_calls env cs w)
  unfolding run_calls
  run_calls-LikesKept [] w h = h
  run_calls-LikesKept (like user id ∷ cs) w h =
      run_calls-LikesKept cs (like_post env user id w).1 (like_post-LikesKept user id w h)
  run_calls-LikesKept (unlike user id ∷ cs) w h =
      run_calls-LikesKept cs (unlike_post env user id w).1 (unlike_post-LikesKept user id w h)
  run_calls-LikesKept (delete id current is_admin ∷ cs) w h =
      run_calls-LikesKept cs (delete_post env id current is_admin w).1
        (delete_post-LikesKept id current is_admin w h)
