-- ===== src/Post/CommentRows.antt =====
-- The comments in post-service/repository/sql_post_repository.go, named as the posts are.
use social_network_micro_ser.Prelude.{
  suc, ◌-◌, Text, codes, text_eq, not, ◌&&◌, List, [], ◌∷◌, Option, none, some, ok, fail, ◌>>=◌,
  ◌>>◌, pure, attempt, ignore, if◌then◌else◌, ◌==◌, ltb,
}
use social_network_micro_ser.Post.Entities.{CommentEntity, Comment, Env, World, Handler}
use social_network_micro_ser.Post.Rows.{
  post_named, comment_named, liked_by, count_or_zero, more_comments, found_or_any, in_posts,
  in_comments, in_comment_likes,
}

abbrev pub comment_files : Option Text → List Text
comment_files none = []
comment_files (some f) = if text_eq f [] then [] else f ∷ []

module _ (env : Env) where
  unfoldable pub comment_row : CommentEntity → Handler env (Unit {0})
  comment_row c = do
    in_comments env (env.comments.create c)
    ignore (in_posts env (env.posts.update (post_named c.post_id) more_comments))

  unfoldable pub reply_row : CommentEntity → Handler env (Unit {0})
  reply_row c = do
    in_comments env (env.comments.create c)
    ignore (
        in_comments env (
          env.comments.update (comment_named c.parent_id)
            (λ o. record o { reply_count = suc o.reply_count })))
    ignore (in_posts env (env.posts.update (post_named c.post_id) more_comments))

  unfoldable pub comment_entity_to_model : CommentEntity → Text → World env → Comment
  comment_entity_to_model c viewer w = record {
    id = c.id;
    post_id = c.post_id;
    author_id = c.user_id;
    content = c.content;
    like_count = c.like_count;
    created_at = c.created_at;
    liked =
        not (text_eq viewer [])
        && ltb 0
            (count_or_zero (env.comment_likes.count (liked_by c.id viewer) w.comment_like_rows));
    original_comment_id = [];
    files = comment_files c.file_id;
  }

  -- `GetCommentByID` of the repository.
  unfoldable pub comment_by_id : Text → Text → Handler env Comment
  unfolding comment_entity_to_model
  comment_by_id id viewer w = (
    elim (found_or_any (codes "comment not found")
        (env.comments.first (comment_named id) w.comment_rows)) [
          | ok c ↦ ok (comment_entity_to_model c viewer w)
          | fail e ↦ fail e
        ],
    w,
  )

  unfoldable pub update_comment_row : Text → Text → Text → Handler env (Unit {0})
  update_comment_row current id content = in_comments env (
      env.comments.update (λ c. comment_named id c && text_eq c.user_id current)
        (λ c. record c { content = content }))

  unfoldable pub delete_comment_row : Text → Handler env (List Text)
  delete_comment_row id = do
    c ← (λ w. (
      found_or_any (codes "comment not found")
          (env.comments.first (comment_named id) w.comment_rows),
      w,
    ))
    ignore (in_comments env (env.comments.remove (comment_named c.id)))
    ignore (
        in_posts env (
          env.posts.update (λ p. post_named c.post_id p && ltb 0 p.comment_count)
            (λ p. record p { comment_count = p.comment_count - 1 })))
    pure []

  like_missing_comment : Text → Text → Handler env (Unit {0})
  like_missing_comment user id = do
    ignore (
        in_comment_likes env (env.comment_likes.create (record { target_id = id; user_id = user })))
    ignore (
        in_comments env (
          env.comments.update (comment_named id) (λ c. record c { like_count = suc c.like_count })))

  unfoldable pub like_comment_row : Text → Text → Handler env (Unit {0})
  unfolding like_missing_comment
  like_comment_row user id w =
      (if count_or_zero (env.comment_likes.count (liked_by id user) w.comment_like_rows) == 0
          then like_missing_comment user id
          else pure tt)
        w

  unfoldable pub unlike_comment_row : Text → Text → Handler env (Unit {0})
  unlike_comment_row user id = do
    removed ← attempt (in_comment_likes env (env.comment_likes.remove (liked_by id user)))
    if ltb 0 (count_or_zero removed)
        then ignore (
            in_comments env (
              env.comments.update (λ c. comment_named id c && ltb 0 c.like_count)
                (λ c. record c { like_count = c.like_count - 1 })))
        else pure tt
