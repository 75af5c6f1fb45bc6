-- ===== src/Post/Posts.antt =====
-- post-service/service/post.go and the validation of service/post_service.go: the handlers of posts
-- over the SQL repository. Authors and addresses of files are put into an answer afterwards; they are
-- left out, and so are the readings of several posts at once but for the news feed. A handler takes
-- the identity that it draws and the time. What runs beside the answer stands among the events.
use social_network_micro_ser.Prelude.{
  ℕ, Text, codes, text_eq, Bool, true, false, not, ◌&&◌, ◌||◌, List, [], ◌∷◌, Option, none, some,
  Outcome, ok, fail, ◌>>=◌, ◌>>◌, pure, lift, guard, if◌then◌else◌, length, ℤ, pos, ltb_ℤ,
}
use social_network_micro_ser.Prelude.Sort.{filter}
use social_network_micro_ser.Exception.{Err, message}
use social_network_micro_ser.Post.Report.{trim_space}
use social_network_micro_ser.Post.Entities.{
  PostEntity, Post, Event, interacted, post_published, privacy_published, keywords_extracted,
  notified, friends_notified, review_requested, files_deleted, Env, Handler, public, friend,
  private,
}
use social_network_micro_ser.Post.Rows.{
  create_row, share_row, post_row, update_privacy_row, update_content_row, like_row, unlike_row,
  delete_row, validate_block_by_ids, is_friend_by_ids,
}

abbrev pub is_empty : {A : Type 0} → List A → Bool
is_empty [] = true
is_empty (x ∷ xs) = false

unfoldable pub is_valid_post_privacy : Text → Bool
is_valid_post_privacy p = text_eq p public || text_eq p friend || text_eq p private

abbrev pub or_public : Text → Text
or_public p = if text_eq p [] then public else p

-- A limit of the page; the two values come from the runtime configuration.
unfoldable pub normalize_limit : ℤ → ℤ → ℤ → ℤ
normalize_limit default_limit max_limit limit =
    let default = if ltb_ℤ (pos 0) default_limit then default_limit else pos 20 in
    let max = if ltb_ℤ (pos 0) max_limit then max_limit else pos 100 in
    if not (ltb_ℤ (pos 0) limit) || ltb_ℤ max limit then default else limit

unfoldable pub new_post : Text → Text → Text → Text → Text → List Text → ℕ → PostEntity
new_post id author content privacy original files now = record {
  id = id;
  user_id = author;
  content = content;
  privacy = privacy;
  like_count = 0;
  comment_count = 0;
  share_count = 0;
  original_id = original;
  created_at = now;
  files = files;
}

module _ (env : Env) where
  unfoldable pub emit : Bool → Event → Handler env (Unit {0})
  emit b e w = (ok tt, if b then record w { events = e ∷ w.events } else w)

  unfoldable pub request_moderation : Text → Text → Text → Text → List Text → Handler env (Unit {0})
  unfolding emit
  request_moderation target_type id author content media =
      emit (env.has_moderation && not (is_empty (trim_space content)))
        (review_requested target_type id author content media)

  unfoldable pub validate_post_request : Text → List Text → Outcome Err (Unit {0})
  validate_post_request content files =
      if is_empty (trim_space content) && is_empty files
      then fail (message (codes "POST_CONTENT_AND_ATTACH_FILES_BOTH_EMPTY"))
      else if ltb_ℤ env.max_post_content_length (pos (length content))
      then fail (message (codes "INVALID_POST_CONTENT_LENGTH"))
      else if ltb_ℤ env.max_post_attach_files (pos (length files))
      then fail (message (codes "INVALID_NUMBER_OF_POST_ATTACHMENTS"))
      else ok tt

  view_refused : {A : Type 0} → Outcome Err A
  view_refused = fail (message (codes "UNAUTHORIZED"))

  friends_only : Outcome Err Bool → Outcome Err (Unit {0})
  unfolding view_refused
  friends_only (fail e) = fail e
  friends_only (ok true) = ok tt
  friends_only (ok false) = view_refused

  unfoldable pub validate_view_post : Post → Text → Outcome Err (Unit {0})
  unfolding view_refused friends_only
  validate_view_post p viewer =
      if text_eq p.author_id viewer
      then ok tt
      else if text_eq p.privacy public
      then (if is_empty viewer then ok tt else validate_block_by_ids env viewer p.author_id)
      else if text_eq p.privacy friend
      then (if is_empty viewer
          then view_refused
          else friends_only (is_friend_by_ids env viewer p.author_id))
      else view_refused

  unfoldable pub create_post : Text → Text → Text → List Text → Text → ℕ → Handler env Post
  unfolding request_moderation validate_post_request
  create_post author content privacy files fresh now =
      let text = trim_space content in
      let kept = filter (λ f. not (is_empty f)) files in
      let shown = or_public privacy in
      do
        lift (validate_post_request text kept)
        guard (is_valid_post_privacy shown) (message (codes "INVALID_POST_PRIVACY"))
        create_row env (new_post fresh author text shown [] kept now)
        emit env.has_keywords (post_published fresh author text shown kept)
        emit env.has_notification (friends_notified (codes "POST") author fresh)
        request_moderation (codes "POST") fresh author text kept
        pure (record {
          id = fresh;
          author_id = author;
          content = text;
          privacy = shown;
          like_count = 0;
          comment_count = 0;
          share_count = 0;
          created_at = now;
          liked = false;
          files = kept;
        })

  unfoldable pub get_post : Text → Text → Handler env Post
  unfolding emit validate_view_post
  get_post id viewer = do
    p ← post_row env id viewer
    lift (validate_view_post p viewer)
    emit (not (is_empty viewer) && env.has_keywords) (interacted id viewer (codes "GET_SCORE"))
    pure p

  unfoldable pub share_post : Text → Text → Text → Text → Text → ℕ → Handler env Post
  unfolding get_post
  share_post author original content privacy fresh now =
      let text = trim_space content in
      let shown = or_public privacy in
      do
        guard (is_empty text || not (ltb_ℤ env.max_post_content_length (pos (length text))))
            (message (codes "INVALID_POST_CONTENT_LENGTH"))
        guard (is_valid_post_privacy shown) (message (codes "INVALID_POST_PRIVACY"))
        p ← get_post original author
        guard (text_eq p.privacy public) (message (codes "ONLY_PUBLIC_POST_CAN_BE_SHARED"))
        lift (validate_block_by_ids env author p.author_id)
        share_row env (new_post fresh author text shown original [] now) original
        emit env.has_keywords (interacted original author (codes "SHARE_SCORE"))
        emit env.has_keywords (post_published fresh author text shown [])
        emit env.has_notification (notified (codes "SHARE") author p.author_id fresh)
        emit env.has_notification (friends_notified (codes "POST") author fresh)
        get_post fresh author

  unfoldable pub update_privacy : Text → Text → Text → Handler env (Unit {0})
  unfolding emit
  update_privacy current id privacy = do
    guard (is_valid_post_privacy privacy) (message (codes "INVALID_POST_PRIVACY"))
    update_privacy_row env current id privacy
    emit env.has_keywords (privacy_published id current privacy)

  review_update : Option Text → Text → Text → Text → List Text → Handler env (Unit {0})
  unfolding request_moderation
  review_update none id current final new = pure tt
  review_update (some content) id current final new =
      request_moderation (codes "POST") id current final new

  unfoldable pub update_content :
      Text → Text → Option Text → List Text → List Text → Handler env (Unit {0})
  unfolding emit review_update
  update_content current id content new old = do
    r ← update_content_row env current id content new old
    emit (not (is_empty r.0) && env.has_files) (files_deleted r.0)
    emit env.has_keywords (keywords_extracted id r.1)
    review_update content id current r.1 new

  unfoldable pub like_post : Text → Text → Handler env (Unit {0})
  unfolding emit
  like_post user id = do
    author ← like_row env user id
    emit env.has_keywords (interacted id user (codes "LIKE_SCORE"))
    emit (env.has_notification && not (text_eq user author))
        (notified (codes "LIKE_POST") user author id)

  unfoldable pub unlike_post : Text → Text → Handler env (Unit {0})
  unlike_post user id = do unlike_row env user id; pure tt

  unfoldable pub delete_post : Text → Text → Bool → Handler env (Unit {0})
  unfolding emit
  delete_post id current is_admin = do
    r ← delete_row env id current is_admin
    emit (not (is_empty r.1) && env.has_files) (files_deleted r.1)
    emit (is_admin && env.has_notification && not (text_eq r.0 current))
        (notified (codes "DELETE_POST") current r.0 id)
