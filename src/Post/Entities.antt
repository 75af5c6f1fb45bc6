-- ===== src/Post/Entities.antt =====
-- The data of post-service: the rows of model/sql_model.go, Post and Comment of model/model.go, and
-- the state and the collaborators of PostService in service/post_service.go. A post is shown without
-- the profile of its author and the original of a share, and a message to Kafka without its shortened
-- text and its source; a file stands for its row in post_media.
use social_network_micro_ser.Prelude.{ℕ, Text, codes, Bool, List, Option, Action, ℤ}
use social_network_micro_ser.Exception.{Err}
use social_network_micro_ser.Services.Sql.{Sql}

pub record PostEntity : Type 0 where
  pub id : Text
  pub user_id : Text
  pub content : Text
  pub privacy : Text
  pub like_count : ℕ
  pub comment_count : ℕ
  pub share_count : ℕ
  pub original_id : Text
  pub created_at : ℕ
  pub files : List Text

pub record CommentEntity : Type 0 where
  pub id : Text
  pub post_id : Text
  pub user_id : Text
  pub parent_id : Text
  pub content : Text
  pub file_id : Option Text
  pub like_count : ℕ
  pub reply_count : ℕ
  pub created_at : ℕ

-- A like of a post or of a comment.
pub record LikeEntity : Type 0 where
  pub target_id : Text
  pub user_id : Text

pub record Post : Type 0 where
  pub id : Text
  pub author_id : Text
  pub content : Text
  pub privacy : Text
  pub like_count : ℕ
  pub comment_count : ℕ
  pub share_count : ℕ
  pub created_at : ℕ
  pub liked : Bool
  pub files : List Text

pub record Comment : Type 0 where
  pub id : Text
  pub post_id : Text
  pub author_id : Text
  pub content : Text
  pub like_count : ℕ
  pub created_at : ℕ
  pub liked : Bool
  pub original_comment_id : Text
  pub files : List Text

-- What leaves the service: what the keyword service, the notifications, the file service and the
-- moderation are told.
pub data Event : Type 0 where
  interacted : Text → Text → Text → Event
  post_published : Text → Text → Text → Text → List Text → Event
  privacy_published : Text → Text → Text → Event
  keywords_extracted : Text → Text → Event
  notified : Text → Text → Text → Text → Event
  friends_notified : Text → Text → Text → Event
  review_requested : Text → Text → Text → Text → List Text → Event
  files_deleted : List Text → Event

pub record Env : Type 1 where
  pub posts : Sql PostEntity
  pub likes : Sql LikeEntity
  pub comments : Sql CommentEntity
  pub comment_likes : Sql LikeEntity
  pub has_keywords : Bool
  pub has_notification : Bool
  pub has_files : Bool
  pub has_moderation : Bool
  -- the limits that the runtime configuration gives
  pub max_post_content_length : ℤ
  pub max_post_attach_files : ℤ
  pub max_comment_content_length : ℤ

-- The events with the last one first.
pub record World (env : Env) : Type 0 where
  pub post_rows : env.posts.Store
  pub like_rows : env.likes.Store
  pub comment_rows : env.comments.Store
  pub comment_like_rows : env.comment_likes.Store
  pub events : List Event

abbrev pub Handler : Env → Type 0 → Type 0
Handler env A = Action (World env) Err A

abbrev pub public : Text
public = codes "PUBLIC"

abbrev pub friend : Text
friend = codes "FRIEND"

abbrev pub private : Text
private = codes "PRIVATE"
