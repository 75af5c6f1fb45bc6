-- ===== src/Post/Access.antt =====
-- Who sees and who deletes what in post-service, with the SQL repository.
use social_network_micro_ser.Prelude.{
  Text, codes, text_eq, Bool, true, false, not, ◌&&◌, ◌||◌, List, ◌∷◌, some, ◌≡◌, arith, ok, fail,
  if◌then◌else◌, matches,
}
use social_network_micro_ser.Exception.{message}
use social_network_micro_ser.Services.Database.{first_of_rows}
use social_network_micro_ser.Services.Relation.{matches-deleted}
use social_network_micro_ser.Post.Report.{trim_space}
use social_network_micro_ser.Post.Entities.{
  PostEntity, CommentEntity, Env, World, review_requested, keywords_extracted, files_deleted,
  public, friend,
}
use social_network_micro_ser.Post.Rows.{
  post_named, post_of, comment_named, post_row, entity_to_model, update_content_row,
  validate_block_by_ids, is_friend_by_ids,
}
use social_network_micro_ser.Post.CommentRows.{
  comment_by_id, delete_comment_row, comment_entity_to_model,
}
use social_network_micro_ser.Post.Posts.{
  is_empty, emit, get_post, validate_view_post, update_content, request_moderation,
}
use social_network_micro_ser.Post.Comments.{delete_comment}

-- The author, anybody for a public post, and any user for a post for friends.
abbrev pub can_see : PostEntity → Text → Bool
can_see p viewer =
    text_eq p.user_id viewer
    || text_eq p.privacy public
    || (text_eq p.privacy friend && not (is_empty viewer))

module _ (env : Env) (w : World env) (p : PostEntity) (posts_up : env.posts.Up w.post_rows)
    (found : first_of_rows (post_named p.id) (env.posts.rows w.post_rows) ≡ some p) where
  -- A post is answered to its author, to everybody where it is public, and to every user where it is
  -- for friends, whether they are friends of the author or blocked by it; anybody else is refused as
  -- unauthorised. Assumed: the table answers and has the post.
  pub get_post_lem :
      (viewer : Text)
      → (get_post env p.id viewer w).0 ≡ (
          if can_see p viewer
          then ok (entity_to_model env p viewer w)
          else fail (message (codes "UNAUTHORIZED")))
  unfolding get_post validate_view_post post_row entity_to_model validate_block_by_ids
      is_friend_by_ids text_eq
  get_post_lem viewer =
      let row = env.posts.first_up (post_named p.id) w.post_rows posts_up in ground arith

  get_post_comments :
      (id viewer : Text) → (get_post env id viewer w).1.comment_rows ≡ w.comment_rows
  unfolding get_post post_row emit
  get_post_comments id viewer = ground arith

  -- Whoever may see a post deletes any comment on it, whoever wrote the comment or the post, and the
  -- comment is gone. Assumed: both tables answer and have the comment and its post.
  pub delete_comment_lem :
      (c : CommentEntity) (current : Text) (is_admin : Bool)
      → env.comments.Up w.comment_rows
      → first_of_rows (comment_named c.id) (env.comments.rows w.comment_rows) ≡ some c
      → c.post_id ≡ p.id
      → can_see p current ≡ true
      → let r = delete_comment env current c.id is_admin w in
        (r.0 ≡ ok tt) × (matches (comment_named c.id) (env.comments.rows r.1.comment_rows) ≡ 0)
  unfolding delete_comment delete_comment_row comment_by_id emit comment_entity_to_model
  delete_comment_lem c current is_admin up there on_post visible =
      let row = env.posts.first_up (post_named p.id) w.post_rows posts_up in
      let comment = env.comments.first_up (comment_named c.id) w.comment_rows up in
      let gone = env.comments.rows-remove (comment_named c.id) w.comment_rows up in
      let none_left = matches-deleted (comment_named c.id) (env.comments.rows w.comment_rows) in
      let seen = get_post_lem current in
      let kept = get_post_comments p.id current in (ground arith, ground arith)

  -- After its author gives a post a new content, the moderation is asked about the identity of the
  -- author in place of the content, and so is the keyword service. Assumed: the table answers and has
  -- the post, both services are there, and the identity is no white space.
  pub update_content_lem :
      (content : Text) (new old : List Text)
      → env.has_moderation ≡ true
      → env.has_keywords ≡ true
      → is_empty (trim_space p.user_id) ≡ false
      → first_of_rows (post_of p.id p.user_id) (env.posts.rows w.post_rows) ≡ some p
      → let r = update_content env p.user_id p.id (some content) new old w in
        (r.0 ≡ ok tt)
        × (r.1.events
            ≡ review_requested (codes "POST") p.id p.user_id p.user_id new
              ∷ keywords_extracted p.id p.user_id
              ∷ (if not (is_empty old) && env.has_files
                  then files_deleted old ∷ w.events
                  else w.events))
  unfolding update_content update_content_row emit request_moderation
  update_content_lem content new old moderated keyed author mine =
      let row = env.posts.first_up (post_of p.id p.user_id) w.post_rows posts_up in
      (ground arith, ground arith)
