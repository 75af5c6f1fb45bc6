-- ===== src/Moderation/Stored.antt =====
-- The statuses that the moderation shows where it keeps its items in the database.
use social_network_micro_ser.Prelude.{
  ℕ, Text, codes, text_eq, text_eq_iff, true, false, List, [], Option, none, some, if◌then◌else◌,
  ◌≡◌, refl, arith, ok, matches, Option-cases, inl, inr,
}
use social_network_micro_ser.Services.Database.{first_of_rows}
use social_network_micro_ser.Services.Upserts.{merged, first-upsert_rows}
use social_network_micro_ser.Services.Relation.{first-matches}
use social_network_micro_ser.Post.Report.{ReportedEvent}
use social_network_micro_ser.Moderation.Items.{
  QueueItem, ReportRecord, CompletedEvent, Env, World, pending, moderation_item_id, auto_hide,
}
use social_network_micro_ser.Moderation.Repository.{
  with_id, update_queue_status, updated_item, same_item,
}
use social_network_micro_ser.Moderation.Repository.{
  store_audit, upsert_queue_item, or_now, record_report, get_queue_item, same_report, about_target,
}
use social_network_micro_ser.Moderation.Queue.{
  text_or, upsert_moderation_result, take_report, record_audit, delete_target, completed_item,
  counted_item, reported_item,
}
use social_network_micro_ser.Moderation.Actions.{
  update_item, update_moderation_status, audited, save_in_queue, Apply,
}
use social_network_micro_ser.Moderation.Status.{Harmless, shown_verdict}
use social_network_micro_ser.Moderation.Calls.{
  completed, reported, status_of, status_at, status_after, replaced, at_id, some_or, found_in,
  some_or,
}

-- The database answers every statement on the queue and the reports.
pub record Ready (env : Env) (w : World env) : Type 0 where
  pub queue_up : env.queue.Up w.queued
  pub reports_up : env.reports.Up w.reported

merged_status :
    (row : QueueItem) (old : Option QueueItem) → (merged updated_item row old).status ≡ row.status
unfolding updated_item
merged_status row none = refl
merged_status row (some old) = refl

kept_id : (row x : QueueItem) → (updated_item row x).id ≡ row.id
unfolding updated_item
kept_id row x = refl

-- A report keeps the identity of the item and its status, and opens an item that is not there.
counted_item_lem :
    (e : ReportedEvent) (now count : ℕ) (rs : List QueueItem)
    → let id = moderation_item_id e.target_type e.target_id in
      let old = first_of_rows (with_id id) rs in
      ((counted_item e now count old).id ≡ id)
      × (some (text_or pending (counted_item e now count old).status)
          ≡ some_or pending (status_of old))
unfolding counted_item reported_item text_eq
counted_item_lem e now count rs =
    let id = moderation_item_id e.target_type e.target_id in
    elim (Option-cases (first_of_rows (with_id id) rs)) [
      | inl missing ↦ rw missing (refl, refl)
      | inr (x, found) ↦
          let (same, there) = first-matches (with_id id) rs x found in
          rw found ((text_eq_iff x.id id).0 same, ground arith)
    ]

-- In the repository.
module _ (env : Env) (on : env.has_repo ≡ true) where
  audit_queue :
      (actor action target_type target_id reason fresh : Text) (now : ℕ) (w : World env)
      → let w1 = record_audit env actor action target_type target_id reason now fresh w in
        (w1.queued ≡ w.queued) × (w1.reported ≡ w.reported)
  unfolding record_audit store_audit
  audit_queue actor action target_type target_id reason fresh now w = (ground arith, ground arith)

  target_queue :
      (target_type target_id : Text) (w : World env)
      → let w1 = (delete_target env target_type target_id w).1 in
        (w1.queued ≡ w.queued) × (w1.reported ≡ w.reported)
  unfolding delete_target
  target_queue target_type target_id w = (ground arith, ground arith)

  -- A row that is written is found by its identity, and nothing else has changed.
  upserted :
      (item : QueueItem) (now : ℕ) (w : World env)
      → Ready env w
      → let r = upsert_queue_item env item now w in
        (r.0 ≡ ok tt)
        × Ready env r.1
        × ((j : Text)
            → status_at env r.1 j
              ≡ at_id item.id j (some (text_or pending item.status)) (status_at env w j))
  unfolding upsert_queue_item status_at found_in
  upserted item now w ready =
      let row = record item {
        created_at = or_now item.created_at now;
        updated_at = or_now item.updated_at now;
      } in
      let e = env.queue.upsert_up same_item updated_item row w.queued ready.queue_up in
      let up = env.queue.upsert-Up same_item updated_item row w.queued ready.queue_up in
      let rows = env.queue.rows-upsert same_item updated_item row w.queued ready.queue_up in
      (
        ground arith,
        record { queue_up = ground arith; reports_up = ground arith },
        λ j.
            let found =
              first-upsert_rows (λ i. i.id) updated_item row (env.queue.rows w.queued) j
                (kept_id row) in
            let same =
              merged_status row
                (first_of_rows (λ i. text_eq i.id row.id) (env.queue.rows w.queued)) in
            ground arith,
      )

  pub completed_in_queue :
      (e : CompletedEvent) (now : ℕ) (fresh : Text) (w : World env)
      → Ready env w
      → let w1 = upsert_moderation_result env e now fresh w in
        Ready env w1
        × ((j : Text)
            → status_at env w1 j ≡ status_after (completed e now fresh) j (status_at env w j))
  unfolding status_after upsert_moderation_result completed_item status_at found_in
  completed_in_queue e now fresh w ready =
      let new = completed_item e now in
      let hiding = (delete_target env e.target_type e.target_id w).1 in
      let kept = target_queue e.target_type e.target_id w in
      let w0 = if text_eq e.action auto_hide then hiding else w in
      let ready0 : Ready env w0 = record { queue_up = ground arith; reports_up = ground arith } in
      let (answer, ready1, shown) = upserted new now w0 ready0 in
      let w1 = (upsert_queue_item env new now w0).1 in
      let safe = audit_queue [] (codes "none") e.target_type e.target_id e.reason fresh now w in
      let hidden = audit_queue [] auto_hide e.target_type e.target_id e.reason fresh now w1 in
      (
        record { queue_up = ground arith; reports_up = ground arith },
        λ j. let before = shown j in let verdict = shown_verdict e.action in ground arith,
      )

  pub reported_in_queue :
      (e : ReportedEvent) (now : ℕ) (fresh : Text) (w : World env)
      → Ready env w
      → let w1 = (take_report env e now fresh w).1 in
        Ready env w1
        × ((j : Text)
            → status_at env w1 j ≡ status_after (reported e now fresh) j (status_at env w j))
  unfolding status_after take_report record_report status_at found_in get_queue_item
  reported_in_queue e now fresh w ready =
      let row : ReportRecord = record {
        id = fresh;
        target_type = e.target_type;
        target_id = e.target_id;
        reporter_id = e.reporter_id;
        reason = e.reason;
        created_at = or_now e.occurred_at now;
      } in
      let id = moderation_item_id e.target_type e.target_id in
      let keep = λ (new old : ReportRecord). old in
      let written = env.reports.upsert_up same_report keep row w.reported ready.reports_up in
      let up = env.reports.upsert-Up same_report keep row w.reported ready.reports_up in
      let w1 = (record_report env e now fresh w).1 in
      let counted =
        env.reports.count_up (about_target e.target_type e.target_id) w1.reported (ground arith) in
      let found = env.queue.first_up (with_id id) w.queued ready.queue_up in
      let old = first_of_rows (with_id id) (env.queue.rows w.queued) in
      let count = matches (about_target e.target_type e.target_id) (env.reports.rows w1.reported) in
      let ready1 : Ready env w1 = record { queue_up = ground arith; reports_up = ground arith } in
      let (answer, ready2, shown) = upserted (counted_item e now count old) now w1 ready1 in
      (
        record { queue_up = ground arith; reports_up = ground arith },
        λ j.
            let before = shown j in
            let item = counted_item_lem e now count (env.queue.rows w.queued) in
            let same = text_eq_iff id j in ground arith,
      )

  pub updated_in_queue :
      (id actor action status reason fresh : Text) (now : ℕ) (apply : Apply env) (w : World env)
      → Harmless env apply
      → text_eq status [] ≡ false
      → Ready env w
      → let w1 = (update_moderation_status env id actor action status reason apply now fresh w).1 in
        Ready env w1
        × ((j : Text)
            → status_at env w1 j
              ≡ at_id id j (replaced status (status_at env w j)) (status_at env w j))
  unfolding update_moderation_status update_item save_in_queue audited update_queue_status
      get_queue_item status_at found_in replaced
  updated_in_queue id actor action status reason fresh now apply w harmless shown ready =
      let found = env.queue.first_up (with_id id) w.queued ready.queue_up in
      elim (Option-cases (first_of_rows (with_id id) (env.queue.rows w.queued))) [
        | inl missing ↦ (
          record { queue_up = ground arith; reports_up = ground arith },
          λ j. ground (arith, text_eq_iff id j),
        )
        | inr (item, there) ↦
            let (e, m, q, r) = harmless item w in
            let w1 = (apply item w).1 in
            let new = record item { status = status; updated_at = now } in
            let replace = λ (new old : QueueItem). new in
            let found1 = env.queue.first_up (with_id id) w1.queued (ground arith) in
            let saved = env.queue.upsert_up same_item replace new w1.queued (ground arith) in
            let up = env.queue.upsert-Up same_item replace new w1.queued (ground arith) in
            let rows = env.queue.rows-upsert same_item replace new w1.queued (ground arith) in
            let w2 = (save_in_queue env id status now item w1).1 in
            let noted =
              audit_queue actor action item.target_type item.target_id reason fresh now w2 in
            let (same, one) = first-matches (with_id id) (env.queue.rows w.queued) item there in
            (
              record { queue_up = ground arith; reports_up = ground arith },
              λ j.
                  let put =
                    first-upsert_rows (λ i. i.id) replace new (env.queue.rows w.queued) j
                      (λ x. refl) in
                  let here = text_eq_iff item.id id in
                  let there' = text_eq_iff id j in ground arith,
            )
      ]
