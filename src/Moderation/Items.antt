-- ===== src/Moderation/Items.antt =====
-- The data of admin-service's moderation: admin-service/model/moderation.go, the completed event of
-- internal/moderation/moderation.go, and the state of AdminService with its two repositories. A float
-- is its bits, a time that is zero is 0, and the JSON of the categories is the list that it stands for.
use social_network_micro_ser.Prelude.{ℕ, Text, codes, text_eq, Bool, ◌||◌, List, Outcome, ◌++◌}
use social_network_micro_ser.Exception.{Err}
use social_network_micro_ser.Services.Upserts.{Upserts}
use social_network_micro_ser.Post.Report.{to_upper}

pub record QueueItem : Type 0 where
  pub id : Text
  pub target_type : Text
  pub target_id : Text
  pub author_id : Text
  pub status : Text
  pub verdict : Text
  pub categories : List Text
  pub confidence : ℕ
  pub reason : Text
  pub report_count : ℕ
  pub created_at : ℕ
  pub updated_at : ℕ

pub record AuditLog : Type 0 where
  pub id : Text
  pub actor_id : Text
  pub action : Text
  pub target_type : Text
  pub target_id : Text
  pub reason : Text
  pub created_at : ℕ

pub record ReportRecord : Type 0 where
  pub id : Text
  pub target_type : Text
  pub target_id : Text
  pub reporter_id : Text
  pub reason : Text
  pub created_at : ℕ

pub record CompletedEvent : Type 0 where
  pub target_type : Text
  pub target_id : Text
  pub author_id : Text
  pub verdict : Text
  pub categories : List Text
  pub confidence : ℕ
  pub reason : Text
  pub action : Text

-- `moderationStore`; the audits with the last one first.
pub record Memory : Type 0 where
  pub items : List (Text × QueueItem)
  pub audits : List AuditLog
  pub reports : List (Text × List Text)

-- What the repository of posts and users was told to do.
pub data Deed : Type 0 where
  post_deleted : Text → Deed
  suspended_user : Text → ℕ → Deed

pub record Env : Type 1 where
  pub has_repo : Bool
  pub queue : Upserts QueueItem
  pub reports : Upserts ReportRecord
  pub audits : Upserts AuditLog
  -- what the repository of posts and users answers
  pub delete_post : Text → Outcome Err (Unit {0})
  pub suspend_user : Text → ℕ → Outcome Err (Unit {0})

pub record World (env : Env) : Type 0 where
  pub memory : Memory
  pub queued : env.queue.Store
  pub reported : env.reports.Store
  pub audited : env.audits.Store
  pub deeds : List Deed

abbrev pub pending : Text
pending = codes "pending"

abbrev pub approved : Text
approved = codes "approved"

abbrev pub hidden : Text
hidden = codes "hidden"

abbrev pub deleted : Text
deleted = codes "deleted"

abbrev pub author_suspended : Text
author_suspended = codes "author_suspended"

abbrev pub auto_hide : Text
auto_hide = codes "auto_hide"

abbrev pub needs_review : Text
needs_review = codes "needs_review"

abbrev pub post_target : Text
post_target = codes "POST"

unfoldable pub is_valid_verdict : Text → Bool
is_valid_verdict v =
    text_eq v (codes "safe") || text_eq v needs_review || text_eq v (codes "violation")

unfoldable pub moderation_item_id : Text → Text → Text
moderation_item_id target_type target_id = to_upper target_type ++ codes ":" ++ target_id
