-- ===== src/Moderation/Failures.antt =====
-- What the moderation does when a statement or a call of another repository fails.
use social_network_micro_ser.Prelude.{
  ℕ, Text, codes, text_eq, text_eq_refl, true, false, none, some, ◌≡◌, arith, ok, fail, lookup,
  lookup-put, if◌then◌else◌,
}
use social_network_micro_ser.Exception.{Err}
use social_network_micro_ser.Moderation.Items.{
  QueueItem, CompletedEvent, Env, World, moderation_item_id, post_target, auto_hide,
}
use social_network_micro_ser.Moderation.Repository.{upsert_queue_item, get_queue_item}
use social_network_micro_ser.Moderation.Queue.{
  upsert_moderation_result, is_complete_verdict, completed_item, stored_verdict, delete_target,
  is_complete_verdict,
}
use social_network_micro_ser.Moderation.Actions.{
  update_item, update_moderation_status, hide_moderation_item, delete_moderation_item,
  approve_moderation_item, Apply,
}
use social_network_micro_ser.Moderation.Calls.{found_in}

module _ (env : Env) (err : Err) (item : QueueItem) (w : World env)
    (reads : env.has_repo ≡ true → get_queue_item env item.id w ≡ ok (found_in env w item.id))
    (found : found_in env w item.id ≡ some item) where
  failed_apply :
      (actor action status reason fresh : Text) (now : ℕ) (apply : Apply env)
      → apply item w ≡ (fail err, w)
      → update_moderation_status env item.id actor action status reason apply now fresh w
        ≡ (fail err, w)
  unfolding update_moderation_status update_item found_in
  failed_apply actor action status reason fresh now apply h = ground (arith, reads)

  -- Where a post cannot be deleted, hiding or deleting its item answers that error and changes
  -- nothing: no status and no audit. Assumed: the service finds the item where it looks for it.
  pub failed_delete :
      (actor reason fresh : Text) (now : ℕ)
      → item.target_type ≡ post_target
      → env.delete_post item.target_id ≡ fail err
      → (hide_moderation_item env item.id actor reason now fresh w ≡ (fail err, w))
        × (delete_moderation_item env item.id actor reason now fresh w ≡ (fail err, w))
  unfolding hide_moderation_item delete_moderation_item delete_target
  failed_delete actor reason fresh now post fails =
      let apply = λ (i : QueueItem). delete_target env i.target_type i.target_id in
      let e : apply item w ≡ (fail err, w) = ground (arith, text_eq_refl post_target) in
      (
        failed_apply actor (codes "admin_hide") (codes "hidden") reason fresh now apply e,
        failed_apply actor (codes "admin_delete") (codes "deleted") reason fresh now apply e,
      )

-- An unsafe verdict, hidden at once or not, that the database does not take is kept in memory, and
-- while the database has no such item, approving it succeeds and changes nothing. Assumed: the verdict
-- is complete.
pub fallback_unseen :
    (env : Env) (e : CompletedEvent) (now : ℕ) (fresh : Text) (err : Err) (w w1 : World env)
    → env.has_repo ≡ true
    → is_complete_verdict e ≡ true
    → text_eq e.verdict (codes "safe") ≡ false
    → upsert_queue_item env (completed_item e now) now (
        if text_eq e.action auto_hide then (delete_target env e.target_type e.target_id w).1 else w)
      ≡ (fail err, w1)
    → get_queue_item env
        (moderation_item_id e.target_type e.target_id)
        (upsert_moderation_result env e now fresh w)
      ≡ ok none
    → let w2 = upsert_moderation_result env e now fresh w in
      let id = moderation_item_id e.target_type e.target_id in
      (lookup id w2.memory.items
        ≡ some (stored_verdict (completed_item e now) (lookup id w1.memory.items)))
      × ((actor reason fresh' : Text) (now' : ℕ)
          → approve_moderation_item env id actor reason now' fresh' w2 ≡ (ok tt, w2))
unfolding upsert_moderation_result approve_moderation_item update_moderation_status update_item
    completed_item
fallback_unseen env e now fresh err w w1 on complete unsafe refused missing =
    let new = completed_item e now in
    let id = new.id in
    let kept = lookup-put id (stored_verdict new (lookup id w1.memory.items)) w1.memory.items id in
    let same = text_eq_refl id in (ground arith, λ actor reason fresh' now'. ground arith)
