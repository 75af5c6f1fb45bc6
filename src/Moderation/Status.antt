-- ===== src/Moderation/Status.antt =====
-- The statuses that the moderation shows where it keeps its items in memory.
use social_network_micro_ser.Prelude.{
  ℕ, Text, codes, text_eq, text_eq_iff, false, [], Option, none, some, if◌then◌else◌, ◌≡◌, refl,
  arith, ok, length, lookup, lookup-put, Option-cases, inl, inr,
}
use social_network_micro_ser.Post.Report.{ReportedEvent}
use social_network_micro_ser.Moderation.Items.{QueueItem, CompletedEvent, Env, World, pending}
use social_network_micro_ser.Moderation.Queue.{
  verdict_status, text_or, upsert_moderation_result, take_report, record_audit, delete_target,
  completed_item, stored_verdict, put_item, reported_item, item_or, add_reporter, report_reason,
  reporters_or_none,
}
use social_network_micro_ser.Moderation.Actions.{
  suspend_author, update_item, update_moderation_status, save_in_memory, audited, Apply,
}
use social_network_micro_ser.Moderation.Calls.{
  completed, reported, status_at, status_after, replaced, at_id, found_in,
}

pub stored_status :
    (new : QueueItem) (old : Option QueueItem) → (stored_verdict new old).status ≡ new.status
unfolding stored_verdict
stored_status new none = refl
stored_status new (some old) = refl

pub shown_verdict :
    (action : Text) → text_or pending (verdict_status action) ≡ verdict_status action
unfolding verdict_status text_eq
shown_verdict action = ground arith

-- What is done with an item succeeds, and the queue is as it was.
abbrev pub Harmless : (env : Env) → Apply env → Type 0
Harmless env apply =
    (item : QueueItem) (w : World env)
    → ((apply item w).0 ≡ ok tt)
      × ((apply item w).1.memory ≡ w.memory)
      × ((apply item w).1.queued ≡ w.queued)
      × ((apply item w).1.reported ≡ w.reported)

pub nothing-Harmless : (env : Env) → Harmless env (λ item. λ w. (ok tt, w))
nothing-Harmless env item w = (refl, refl, refl, refl)

pub target-Harmless :
    (env : Env)
    → ((id : Text) → env.delete_post id ≡ ok tt)
    → Harmless env (λ item. delete_target env item.target_type item.target_id)
unfolding delete_target
target-Harmless env deletes item w =
    let e = deletes item.target_id in (ground arith, ground arith, ground arith, ground arith)

pub author-Harmless :
    (env : Env)
    → ((id : Text) (d : ℕ) → env.suspend_user id d ≡ ok tt)
    → (d : ℕ) → Harmless env (λ item. suspend_author env d item.author_id)
unfolding suspend_author
author-Harmless env suspends d item w =
    let e = suspends item.author_id d in (ground arith, ground arith, ground arith, ground arith)

-- In memory, where there is no repository.
module _ (env : Env) (off : env.has_repo ≡ false) where
  audit_items :
      (actor action target_type target_id reason fresh : Text) (now : ℕ) (w : World env)
      → (record_audit env actor action target_type target_id reason now fresh w).memory.items
        ≡ w.memory.items
  unfolding record_audit
  audit_items actor action target_type target_id reason fresh now w = ground arith

  target_items :
      (target_type target_id : Text) (w : World env)
      → (delete_target env target_type target_id w).1.memory ≡ w.memory
  unfolding delete_target
  target_items target_type target_id w = ground arith

  pub completed_in_memory :
      (e : CompletedEvent) (now : ℕ) (fresh : Text) (w : World env) (j : Text)
      → status_at env (upsert_moderation_result env e now fresh w) j
        ≡ status_after (completed e now fresh) j (status_at env w j)
  unfolding status_at status_after upsert_moderation_result completed_item stored_verdict
      verdict_status found_in
  completed_in_memory e now fresh w j =
      let new = completed_item e now in
      ground (
        arith,
        audit_items [] (codes "none") e.target_type e.target_id e.reason fresh now w,
        target_items e.target_type e.target_id w,
        stored_status new (lookup new.id w.memory.items),
        shown_verdict e.action,
        lookup-put new.id (stored_verdict new (lookup new.id w.memory.items)) w.memory.items j,
      )

  pub reported_in_memory :
      (e : ReportedEvent) (now : ℕ) (fresh : Text) (w : World env) (j : Text)
      → status_at env (take_report env e now fresh w).1 j
        ≡ status_after (reported e now fresh) j (status_at env w j)
  unfolding status_at status_after take_report found_in reported_item text_eq
  reported_in_memory e now fresh w j =
      let new = reported_item e now in
      let old = item_or new (lookup new.id w.memory.items) in
      let count =
        length (add_reporter e.reporter_id (reporters_or_none (lookup new.id w.memory.reports))) in
      let item = record old {
        report_count = count;
        reason = if text_eq e.reason [] then old.reason else report_reason e.reason;
        updated_at = now;
      } in
      ground (arith, lookup-put new.id item w.memory.items j, text_eq_iff new.id j)

  pub updated_in_memory :
      (id actor action status reason fresh : Text) (now : ℕ) (apply : Apply env) (w : World env)
      (j : Text)
      → Harmless env apply
      → text_eq status [] ≡ false
      → status_at env
          (update_moderation_status env id actor action status reason apply now fresh w).1
          j
        ≡ at_id id j (replaced status (status_at env w j)) (status_at env w j)
  unfolding status_at found_in update_moderation_status replaced update_item save_in_memory audited
      put_item
  updated_in_memory id actor action status reason fresh now apply w j harmless shown =
      elim (Option-cases (lookup id w.memory.items)) [
        | inl missing ↦ ground (arith, text_eq_iff id j)
        | inr (item, found) ↦
            let (e, m, q, r) = harmless item w in
            let new = record item { status = status; updated_at = now } in
            let after = (save_in_memory env id status now item (apply item w).1).1 in
            ground (
              arith,
              text_eq_iff id j,
              lookup-put id new w.memory.items j,
              audit_items actor action item.target_type item.target_id reason fresh now after,
            )
      ]
