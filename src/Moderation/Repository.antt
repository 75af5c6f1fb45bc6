-- ===== src/Moderation/Repository.antt =====
-- admin-service/repository/moderation_repository.go. Its methods but ListQueue, whose condition is a
-- pattern on the JSON of the categories.
use social_network_micro_ser.Prelude.{
  ℕ, Text, text_eq, Bool, ◌&&◌, [], Option, none, some, Outcome, ok, fail, if◌then◌else◌, ◌==◌, leb,
}
use social_network_micro_ser.Exception.{Err}
use social_network_micro_ser.Post.Report.{ReportedEvent}
use social_network_micro_ser.Moderation.Items.{QueueItem, AuditLog, ReportRecord, Env, World}

abbrev pub or_now : ℕ → ℕ → ℕ
or_now at now = if at == 0 then now else at

abbrev pub same_item : QueueItem → QueueItem → Bool
same_item new old = text_eq old.id new.id

abbrev pub with_id : Text → QueueItem → Bool
with_id id item = text_eq item.id id

abbrev pub same_report : ReportRecord → ReportRecord → Bool
same_report new old =
    text_eq old.target_type new.target_type
    && text_eq old.target_id new.target_id
    && text_eq old.reporter_id new.reporter_id

abbrev pub about_target : Text → Text → ReportRecord → Bool
about_target target_type target_id r =
    text_eq r.target_type target_type && text_eq r.target_id target_id

-- The assignments of the conflict clause; the first time of the old row stays.
unfoldable pub updated_item : QueueItem → QueueItem → QueueItem
updated_item new old = record new {
  author_id = if text_eq new.author_id [] then old.author_id else new.author_id;
  report_count =
      if leb new.report_count old.report_count then old.report_count else new.report_count;
  created_at = old.created_at;
}

module _ (env : Env) where
  unfoldable pub upsert_queue_item : QueueItem → ℕ → World env → Outcome Err (Unit {0}) × World env
  upsert_queue_item item now w =
      let row = record item {
        created_at = or_now item.created_at now;
        updated_at = or_now item.updated_at now;
      } in
      let (answer, queued) = env.queue.upsert same_item updated_item row w.queued in
      (answer, record w { queued = queued })

  counted_reports : Outcome Err (Unit {0}) → ReportedEvent → World env → Outcome Err ℕ × World env
  counted_reports (fail err) e w = (fail err, w)
  counted_reports (ok _) e w =
      (env.reports.count (about_target e.target_type e.target_id) w.reported, w)

  unfoldable pub record_report : ReportedEvent → ℕ → Text → World env → Outcome Err ℕ × World env
  unfolding counted_reports
  record_report e now fresh w =
      let row : ReportRecord = record {
        id = fresh;
        target_type = e.target_type;
        target_id = e.target_id;
        reporter_id = e.reporter_id;
        reason = e.reason;
        created_at = or_now e.occurred_at now;
      } in
      let (answer, reported) = env.reports.upsert same_report (λ new old. old) row w.reported in
      counted_reports answer e (record w { reported = reported })

  unfoldable pub get_queue_item : Text → World env → Outcome Err (Option QueueItem)
  get_queue_item id w = env.queue.first (with_id id) w.queued

  saved_status :
      Outcome Err (Option QueueItem)
      → Text
      → ℕ
      → World env
      → Outcome Err (Option QueueItem) × World env
  saved_status (fail err) status now w = (fail err, w)
  saved_status (ok none) status now w = (ok none, w)
  saved_status (ok (some item)) status now w =
      let row = record item { status = status; updated_at = now } in
      let (answer, queued) = env.queue.upsert same_item (λ new old. new) row w.queued in
      (elim answer [ ok _ ↦ ok (some row) | fail err ↦ fail err ], record w { queued = queued })

  unfoldable pub update_queue_status :
      Text → Text → ℕ → World env → Outcome Err (Option QueueItem) × World env
  unfolding get_queue_item saved_status
  update_queue_status id status now w = saved_status (get_queue_item id w) status now w

  unfoldable pub store_audit : AuditLog → ℕ → Text → World env → Outcome Err (Unit {0}) × World env
  store_audit audit now fresh w =
      let row = record audit {
        id = if text_eq audit.id [] then fresh else audit.id;
        created_at = or_now audit.created_at now;
      } in
      let (answer, audited) = env.audits.create row w.audited in
      (answer, record w { audited = audited })
