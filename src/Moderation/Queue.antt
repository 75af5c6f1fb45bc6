-- ===== src/Moderation/Queue.antt =====
-- admin-service/service/moderation.go: the queue of the moderators, in PostgreSQL where there is a
-- repository and in memory otherwise or when a statement fails. The repository of posts and users is
-- there. A handler takes the time and the identity that it draws; the lock makes it one step.
-- ListModerationQueue, which only reads, is not here.
use social_network_micro_ser.Prelude.{
  ℕ, Text, codes, text_eq, Bool, not, ◌&&◌, ◌++◌, List, [], ◌∷◌, Option, none, some, Outcome, ok,
  fail, if◌then◌else◌, length, lookup, put,
}
use social_network_micro_ser.Exception.{Err}
use social_network_micro_ser.Services.Redis.{member}
use social_network_micro_ser.Post.Report.{ReportedEvent, is_valid_target_type}
use social_network_micro_ser.Moderation.{normalize_categories}
use social_network_micro_ser.Moderation.Items.{
  QueueItem, AuditLog, CompletedEvent, post_deleted, Env, World, pending, hidden, auto_hide,
  needs_review, post_target, is_valid_verdict, moderation_item_id,
}
use social_network_micro_ser.Moderation.Repository.{
  upsert_queue_item, record_report, get_queue_item, store_audit,
}

unfoldable pub verdict_status : Text → Text
verdict_status action = if text_eq action auto_hide then hidden else pending

-- The item that is made for a verdict.
unfoldable pub completed_item : CompletedEvent → ℕ → QueueItem
unfolding verdict_status
completed_item e now = record {
  id = moderation_item_id e.target_type e.target_id;
  target_type = e.target_type;
  target_id = e.target_id;
  author_id = e.author_id;
  status = verdict_status e.action;
  verdict = e.verdict;
  categories = normalize_categories e.categories;
  confidence = e.confidence;
  reason = e.reason;
  report_count = 0;
  created_at = now;
  updated_at = now;
}

-- The stored item after a verdict, if there was one.
unfoldable pub stored_verdict : QueueItem → Option QueueItem → QueueItem
stored_verdict new none = new
stored_verdict new (some old) = record old {
  status = new.status;
  author_id = if text_eq new.author_id [] then old.author_id else new.author_id;
  verdict = new.verdict;
  categories = new.categories;
  confidence = new.confidence;
  reason = new.reason;
  updated_at = new.updated_at;
}

-- The item that a report makes where there is none.
unfoldable pub reported_item : ReportedEvent → ℕ → QueueItem
reported_item e now = record {
  id = moderation_item_id e.target_type e.target_id;
  target_type = e.target_type;
  target_id = e.target_id;
  author_id = [];
  status = pending;
  verdict = needs_review;
  categories = [];
  confidence = 0;
  reason = [];
  report_count = 0;
  created_at = now;
  updated_at = 0;
}

abbrev pub item_or : QueueItem → Option QueueItem → QueueItem
item_or new none = new
item_or new (some old) = old

abbrev pub found_item : Outcome Err (Option QueueItem) → Option QueueItem
found_item (ok found) = found
found_item (fail err) = none

abbrev pub text_or : Text → Text → Text
text_or default t = if text_eq t [] then default else t

abbrev pub report_reason : Text → Text
report_reason reason = codes "User report: " ++ reason

abbrev pub reporters_or_none : Option (List Text) → List Text
reporters_or_none none = []
reporters_or_none (some rs) = rs

abbrev pub add_reporter : Text → List Text → List Text
add_reporter who rs = if member who rs then rs else who ∷ rs

unfoldable pub is_complete_verdict : CompletedEvent → Bool
is_complete_verdict e =
    is_valid_target_type e.target_type && is_valid_verdict e.verdict && not (text_eq e.target_id [])

unfoldable pub is_complete_report : ReportedEvent → Bool
is_complete_report e =
    is_valid_target_type e.target_type
    && not (text_eq e.target_id [])
    && not (text_eq e.reporter_id [])

unfoldable pub counted_item : ReportedEvent → ℕ → ℕ → Option QueueItem → QueueItem
counted_item e now count found =
    let old = item_or (reported_item e now) found in
    record old {
      status = text_or pending old.status;
      verdict = text_or needs_review old.verdict;
      reason = report_reason e.reason;
      report_count = count;
      updated_at = now;
    }

module _ (env : Env) where
  keep_audit : AuditLog → World env → World env
  keep_audit audit w = record w { memory = record w.memory { audits = audit ∷ w.memory.audits } }

  unfoldable pub record_audit : Text → Text → Text → Text → Text → ℕ → Text → World env → World env
  unfolding keep_audit
  record_audit actor action target_type target_id reason now fresh w =
      let audit : AuditLog = record {
        id = fresh;
        actor_id = actor;
        action = action;
        target_type = target_type;
        target_id = target_id;
        reason = reason;
        created_at = now;
      } in
      let stored = store_audit env audit now fresh w in
      if env.has_repo
      then elim stored.0 [ ok _ ↦ stored.1 | fail err ↦ keep_audit audit stored.1 ]
      else keep_audit audit w

  -- A post that is deleted is one.
  unfoldable pub delete_target : Text → Text → World env → Outcome Err (Unit {0}) × World env
  delete_target target_type target_id w =
      if text_eq target_type post_target
      then elim (env.delete_post target_id) [
        | ok _ ↦ (ok tt, record w { deeds = post_deleted target_id ∷ w.deeds })
        | fail err ↦ (fail err, w)
      ]
      else (ok tt, w)

  unfoldable pub put_item : Text → QueueItem → World env → World env
  put_item id item w = record w { memory = record w.memory { items = put id item w.memory.items } }

  -- From the lock on.
  upsert_in_memory : CompletedEvent → ℕ → Text → World env → World env
  unfolding put_item stored_verdict keep_audit
  upsert_in_memory e now fresh w =
      let new = completed_item e now in
      let after = put_item new.id (stored_verdict new (lookup new.id w.memory.items)) w in
      let audit : AuditLog = record {
        id = fresh;
        actor_id = [];
        action = auto_hide;
        target_type = e.target_type;
        target_id = e.target_id;
        reason = e.reason;
        created_at = now;
      } in
      if text_eq e.action auto_hide then keep_audit audit after else after

  upsert_verdict : CompletedEvent → ℕ → Text → World env → World env
  unfolding upsert_in_memory record_audit
  upsert_verdict e now fresh w =
      let stored = upsert_queue_item env (completed_item e now) now w in
      let audited =
        record_audit [] auto_hide e.target_type e.target_id e.reason now fresh stored.1 in
      if env.has_repo
      then elim stored.0 [
        | ok _ ↦ if text_eq e.action auto_hide then audited else stored.1
        | fail err ↦ upsert_in_memory e now fresh stored.1
      ]
      else upsert_in_memory e now fresh w

  unfoldable pub upsert_moderation_result : CompletedEvent → ℕ → Text → World env → World env
  unfolding upsert_verdict
  upsert_moderation_result e now fresh w =
      let hiding = (delete_target e.target_type e.target_id w).1 in
      if not (is_complete_verdict e)
      then w
      else if text_eq e.verdict (codes "safe")
      then record_audit [] (codes "none") e.target_type e.target_id e.reason now fresh w
      else upsert_verdict e now fresh (if text_eq e.action auto_hide then hiding else w)

  report_in_memory : ReportedEvent → ℕ → World env → ℕ × World env
  unfolding put_item
  report_in_memory e now w =
      let new = reported_item e now in
      let old = item_or new (lookup new.id w.memory.items) in
      let reporters =
        add_reporter e.reporter_id (reporters_or_none (lookup new.id w.memory.reports)) in
      let after = record w {
        memory = record w.memory { reports = put new.id reporters w.memory.reports };
      } in
      (
        length reporters,
        put_item new.id
            (record old {
              report_count = length reporters;
              reason = if text_eq e.reason [] then old.reason else report_reason e.reason;
              updated_at = now;
            })
            after,
      )

  -- The item of the queue with the report in it.
  report_in_queue : Outcome Err ℕ → ReportedEvent → ℕ → World env → ℕ × World env
  unfolding report_in_memory counted_item
  report_in_queue (fail err) e now w = report_in_memory e now w
  report_in_queue (ok count) e now w =
      let found = get_queue_item env (moderation_item_id e.target_type e.target_id) w in
      (count, (upsert_queue_item env (counted_item e now count (found_item found)) now w).1)

  -- `RecordReport` of the service.
  unfoldable pub take_report : ReportedEvent → ℕ → Text → World env → ℕ × World env
  unfolding report_in_queue
  take_report e now fresh w =
      let counted = record_report env e now fresh w in
      if not (is_complete_report e)
      then (0, w)
      else if env.has_repo
      then report_in_queue counted.0 e now counted.1
      else report_in_memory e now w
