-- ===== src/Post/Rows.antt =====
-- post-service/repository/sql_post_repository.go, under the names of the source with _row or _rows
-- where the service has the same name. The copy of the rows in Neo4j is left out: it is written behind
-- the answer and read by the feed only. An error that the source drops is dropped here.
use social_network_micro_ser.Prelude.{
  ℕ, suc, ◌-◌, Text, codes, text_eq, Bool, true, not, ◌&&◌, ◌||◌, List, [], ◌++◌, Option, none,
  some, Outcome, ok, fail, ◌>>=◌, ◌>>◌, pure, attempt, ignore, if◌then◌else◌, ◌==◌, ltb,
}
use social_network_micro_ser.Prelude.Sort.{filter}
use social_network_micro_ser.Exception.{Err, message}
use social_network_micro_ser.Services.Redis.{member}
use social_network_micro_ser.Post.Entities.{
  PostEntity, CommentEntity, LikeEntity, Post, Env, World, Handler,
}

abbrev pub post_named : Text → PostEntity → Bool
post_named id p = text_eq p.id id

abbrev pub post_of : Text → Text → PostEntity → Bool
post_of id author p = text_eq p.id id && text_eq p.user_id author

abbrev pub comment_named : Text → CommentEntity → Bool
comment_named id c = text_eq c.id id

abbrev pub liked_by : Text → Text → LikeEntity → Bool
liked_by target user l = text_eq l.target_id target && text_eq l.user_id user

abbrev pub count_or_zero : Outcome Err ℕ → ℕ
count_or_zero (ok n) = n
count_or_zero (fail e) = 0

abbrev pub more_likes : PostEntity → PostEntity
more_likes p = record p { like_count = suc p.like_count }

abbrev pub fewer_likes : PostEntity → PostEntity
fewer_likes p = record p { like_count = p.like_count - 1 }

abbrev pub more_comments : PostEntity → PostEntity
more_comments p = record p { comment_count = suc p.comment_count }

abbrev pub found_or : Text → Outcome Err (Option PostEntity) → Outcome Err PostEntity
found_or missing (ok (some p)) = ok p
found_or missing (ok none) = fail (message missing)
found_or missing (fail e) = fail e

-- Any error is the same here.
abbrev pub found_or_any {ℓ} : {R : Type ℓ} → Text → Outcome Err (Option R) → Outcome Err R
found_or_any missing (ok (some r)) = ok r
found_or_any missing (ok none) = fail (message missing)
found_or_any missing (fail e) = fail (message missing)

-- The author of a post that was read, or the empty text of a row that was not.
abbrev pub author_or_empty : Outcome Err (Option PostEntity) → Text
author_or_empty (ok (some p)) = p.user_id
author_or_empty (ok none) = []
author_or_empty (fail e) = []

module _ (env : Env) where
  abbrev pub in_posts :
      {A : Type 0} → (env.posts.Store → A × env.posts.Store) → World env → A × World env
  in_posts f w = let (a, s) = f w.post_rows in (a, record w { post_rows = s })

  abbrev pub in_likes :
      {A : Type 0} → (env.likes.Store → A × env.likes.Store) → World env → A × World env
  in_likes f w = let (a, s) = f w.like_rows in (a, record w { like_rows = s })

  abbrev pub in_comments :
      {A : Type 0} → (env.comments.Store → A × env.comments.Store) → World env → A × World env
  in_comments f w = let (a, s) = f w.comment_rows in (a, record w { comment_rows = s })

  abbrev pub in_comment_likes :
      {A : Type 0}
      → (env.comment_likes.Store → A × env.comment_likes.Store)
      → World env
      → A × World env
  in_comment_likes f w =
      let (a, s) = f w.comment_like_rows in (a, record w { comment_like_rows = s })

  unfoldable pub create_row : PostEntity → Handler env (Unit {0})
  create_row p = in_posts (env.posts.create p)

  unfoldable pub share_row : PostEntity → Text → Handler env (Unit {0})
  share_row p original = do
    in_posts (env.posts.create p)
    ignore (
        in_posts (
          env.posts.update (post_named original)
            (λ q. record q { share_count = suc q.share_count })))

  unfoldable pub entity_to_model : PostEntity → Text → World env → Post
  entity_to_model p viewer w = record {
    id = p.id;
    author_id = p.user_id;
    content = p.content;
    privacy = p.privacy;
    like_count = p.like_count;
    comment_count = p.comment_count;
    share_count = p.share_count;
    created_at = p.created_at;
    liked =
        not (text_eq viewer [])
        && ltb 0 (count_or_zero (env.likes.count (liked_by p.id viewer) w.like_rows));
    files = p.files;
  }

  -- `GetPost` of the repository.
  unfoldable pub post_row : Text → Text → Handler env Post
  unfolding entity_to_model
  post_row id viewer w = (
    elim (found_or (codes "post not found") (env.posts.first (post_named id) w.post_rows)) [
      | ok p ↦ ok (entity_to_model p viewer w)
      | fail e ↦ fail e
    ],
    w,
  )

  unfoldable pub update_privacy_row : Text → Text → Text → Handler env (Unit {0})
  update_privacy_row current id privacy =
      in_posts (env.posts.update (post_of id current) (λ p. record p { privacy = privacy }))

  -- The update of an optional content, and then of the files.
  unfoldable pub changed_content : Option Text → PostEntity → PostEntity
  changed_content none p = p
  changed_content (some content) p = record p { content = content }

  unfoldable pub changed_files : List Text → List Text → PostEntity → PostEntity
  changed_files new old p = record p { files = filter (λ f. not (member f old)) p.files ++ new }

  -- Returns the deleted files and the author.
  unfoldable pub update_content_row :
      Text → Text → Option Text → List Text → List Text → Handler env (List Text × Text)
  unfolding changed_content changed_files
  update_content_row current id content new old = do
    p ← (λ w. (
      found_or_any (codes "post not found or unauthorized")
          (env.posts.first (post_of id current) w.post_rows),
      w,
    ))
    ignore (in_posts (env.posts.update (post_named p.id) (changed_content content)))
    ignore (in_posts (env.posts.update (post_named id) (changed_files new old)))
    pure (old, p.user_id)

  like_missing : Text → Text → Handler env (Unit {0})
  like_missing user id = do
    ignore (in_likes (env.likes.create (record { target_id = id; user_id = user })))
    ignore (in_posts (env.posts.update (post_named id) more_likes))

  author_of : Text → Handler env Text
  author_of id w = (ok (author_or_empty (env.posts.first (post_named id) w.post_rows)), w)

  -- `LikePost` of the repository returns the author.
  unfoldable pub like_row : Text → Text → Handler env Text
  unfolding like_missing author_of
  like_row user id w =
      (do
        (if count_or_zero (env.likes.count (liked_by id user) w.like_rows) == 0
            then like_missing user id
            else pure tt)
        author_of id)
        w

  count_down : Outcome Err ℕ → Text → Handler env (Unit {0})
  count_down removed id =
      if ltb 0 (count_or_zero removed)
      then ignore
          (in_posts (env.posts.update (λ p. post_named id p && ltb 0 p.like_count) fewer_likes))
      else pure tt

  unfoldable pub unlike_row : Text → Text → Handler env Text
  unfolding count_down author_of
  unlike_row user id = do
    removed ← attempt (in_likes (env.likes.remove (liked_by id user)))
    count_down removed id
    author_of id

  -- Returns the author and the files of the deleted post.
  unfoldable pub delete_row : Text → Text → Bool → Handler env (Text × List Text)
  delete_row id current is_admin = do
    p ← (λ w. (
      found_or_any (codes "post not found or unauthorized") (
          env.posts.first (λ p. post_named id p && (is_admin || text_eq p.user_id current))
            w.post_rows),
      w,
    ))
    ignore (in_posts (env.posts.remove (post_named p.id)))
    pure (p.user_id, p.files)

  -- These three do not look at the relations between users.
  unfoldable pub validate_block_by_ids : Text → Text → Outcome Err (Unit {0})
  validate_block_by_ids user target = ok tt

  unfoldable pub is_friend_by_ids : Text → Text → Outcome Err Bool
  is_friend_by_ids user target = ok true
