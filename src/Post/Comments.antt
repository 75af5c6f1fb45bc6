-- ===== src/Post/Comments.antt =====
-- post-service/service/comment.go: the handlers of comments over the SQL repository.
use social_network_micro_ser.Prelude.{
  ℕ, Text, codes, text_eq, Bool, true, not, ◌&&◌, ◌||◌, [], Option, none, some, Outcome, ok, fail,
  ◌>>=◌, ◌>>◌, lift, guard, if◌then◌else◌, length, pos, ltb_ℤ,
}
use social_network_micro_ser.Exception.{Err, message}
use social_network_micro_ser.Post.Report.{trim_space}
use social_network_micro_ser.Post.Entities.{
  CommentEntity, Comment, interacted, notified, friends_notified, files_deleted, Env, Handler,
}
use social_network_micro_ser.Post.Rows.{validate_block_by_ids}
use social_network_micro_ser.Post.CommentRows.{
  comment_files, comment_row, reply_row, comment_by_id, update_comment_row, delete_comment_row,
  like_comment_row, unlike_comment_row,
}
use social_network_micro_ser.Post.Posts.{is_empty, emit, request_moderation, get_post}

abbrev pub lacks_attachment : Option Text → Bool
lacks_attachment none = true
lacks_attachment (some f) = is_empty (trim_space f)

unfoldable pub new_comment : Text → Text → Text → Text → Text → Option Text → ℕ → CommentEntity
new_comment id post author parent content file now = record {
  id = id;
  post_id = post;
  user_id = author;
  parent_id = parent;
  content = content;
  file_id = file;
  like_count = 0;
  reply_count = 0;
  created_at = now;
}

module _ (env : Env) where
  unfoldable pub validate_comment_content : Text → Option Text → Outcome Err (Unit {0})
  validate_comment_content content file =
      if is_empty (trim_space content) && lacks_attachment file
      then fail (message (codes "COMMENT_CONTENT_AND_ATTACH_FILE_BOTH_EMPTY"))
      else if ltb_ℤ env.max_comment_content_length (pos (length content))
      then fail (message (codes "INVALID_COMMENT_CONTENT_LENGTH"))
      else ok tt

  unfoldable pub comment : Text → Text → Text → Option Text → Text → ℕ → Handler env Comment
  unfolding validate_comment_content
  comment author post content file fresh now =
      let text = trim_space content in
      do
        lift (validate_comment_content text file)
        p ← get_post env post author
        comment_row env (new_comment fresh post author [] text file now)
        emit env env.has_keywords (interacted post author (codes "COMMENT_SCORE"))
        emit env (env.has_notification && not (text_eq author p.author_id))
            (notified (codes "COMMENT") author p.author_id fresh)
        request_moderation env (codes "COMMENT") fresh author text (comment_files file)
        comment_by_id env fresh author

  unfoldable pub reply_comment : Text → Text → Text → Option Text → Text → ℕ → Handler env Comment
  unfolding validate_comment_content
  reply_comment author original content file fresh now =
      let text = trim_space content in
      do
        lift (validate_comment_content text file)
        o ← comment_by_id env original author
        guard (is_empty o.original_comment_id) (message (codes "CAN_NOT_REPLY_REPLIED_COMMENT"))
        p ← get_post env o.post_id author
        lift (validate_block_by_ids env p.author_id author)
        reply_row env (new_comment fresh o.post_id author original text file now)
        emit env env.has_keywords (interacted o.post_id author (codes "COMMENT_SCORE"))
        emit env (env.has_notification && not (text_eq author p.author_id))
            (notified (codes "COMMENT") author p.author_id fresh)
        emit env (env.has_notification && not (text_eq author o.author_id))
            (notified (codes "REPLY_COMMENT") author o.author_id fresh)
        request_moderation env (codes "COMMENT") fresh author text (comment_files file)
        comment_by_id env fresh author

  unfoldable pub like_comment : Text → Text → Handler env (Unit {0})
  like_comment user id = do
    like_comment_row env user id
    emit env env.has_notification (friends_notified (codes "LIKE_COMMENT") user id)

  unfoldable pub unlike_comment : Text → Text → Handler env (Unit {0})
  unlike_comment user id = unlike_comment_row env user id

  unfoldable pub update_comment_content : Text → Text → Text → Handler env Comment
  update_comment_content current id content = do
    update_comment_row env current id content
    comment_by_id env id current

  unfoldable pub delete_comment : Text → Text → Bool → Handler env (Unit {0})
  delete_comment current id is_admin = do
    c ← comment_by_id env id current
    p ← get_post env c.post_id current
    files ← delete_comment_row env id
    emit env (not (is_empty files) && env.has_files) (files_deleted files)
    emit env
        ((is_admin || text_eq p.author_id current)
          && not (text_eq c.author_id current)
          && env.has_notification)
        (notified (codes "DELETE_COMMENT") current c.author_id id)
