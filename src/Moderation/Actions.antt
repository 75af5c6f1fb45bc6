-- ===== src/Moderation/Actions.antt =====
-- The actions of an administrator in admin-service/service/moderation.go. An item of the memory is
-- written back when its status is changed.
use social_network_micro_ser.Prelude.{
  ℕ, Text, codes, text_eq, [], ◌∷◌, Option, none, some, Action, ◌>>=◌, ◌>>◌, pure, Outcome, ok,
  fail, if◌then◌else◌, lookup,
}
use social_network_micro_ser.Exception.{Err}
use social_network_micro_ser.Moderation.Items.{
  QueueItem, suspended_user, Env, World, approved, hidden, deleted, author_suspended,
}
use social_network_micro_ser.Moderation.Repository.{get_queue_item, update_queue_status}
use social_network_micro_ser.Moderation.Queue.{record_audit, delete_target, put_item}

module _ (env : Env) where
  unfoldable pub suspend_author : ℕ → Text → World env → Outcome Err (Unit {0}) × World env
  suspend_author duration author w =
      if text_eq author [] then (ok tt, w) else elim (env.suspend_user author duration) [
        | ok _ ↦ (ok tt, record w { deeds = suspended_user author duration ∷ w.deeds })
        | fail err ↦ (fail err, w)
      ]

  -- What an administrator does with an item, before its status is changed.
  abbrev pub Apply : Type 0
  Apply = QueueItem → Action (World env) Err (Unit {0})

  unfoldable pub audited :
      Text → Text → QueueItem → Text → ℕ → Text → Action (World env) Err (Unit {0})
  unfolding record_audit
  audited actor action item reason now fresh w =
      (ok tt, record_audit env actor action item.target_type item.target_id reason now fresh w)

  -- From the item that was read on, with the write of its status.
  unfoldable pub update_item :
      Apply
      → (QueueItem → Action (World env) Err (Unit {0}))
      → Text
      → Text
      → Text
      → ℕ
      → Text
      → Option QueueItem
      → Action (World env) Err (Unit {0})
  unfolding audited
  update_item apply save actor action reason now fresh none = pure tt
  update_item apply save actor action reason now fresh (some item) = do
    apply item
    save item
    audited actor action item reason now fresh

  unfoldable pub save_in_queue : Text → Text → ℕ → QueueItem → Action (World env) Err (Unit {0})
  save_in_queue id status now item w =
      let saved = update_queue_status env id status now w in
      (elim saved.0 [ ok _ ↦ ok tt | fail err ↦ fail err ], saved.1)

  unfoldable pub save_in_memory : Text → Text → ℕ → QueueItem → Action (World env) Err (Unit {0})
  unfolding put_item
  save_in_memory id status now item w =
      (ok tt, put_item env id (record item { status = status; updated_at = now }) w)

  unfoldable pub update_moderation_status :
      Text → Text → Text → Text → Text → Apply → ℕ → Text → Action (World env) Err (Unit {0})
  unfolding update_item save_in_queue save_in_memory
  update_moderation_status id actor action status reason apply now fresh w =
      if env.has_repo
      then (do
        found ← (λ w. (get_queue_item env id w, w))
        update_item apply (save_in_queue id status now) actor action reason now fresh found)
          w
      else update_item apply (save_in_memory id status now) actor action reason now fresh
          (lookup id w.memory.items) w

  unfoldable pub approve_moderation_item :
      Text → Text → Text → ℕ → Text → Action (World env) Err (Unit {0})
  unfolding update_moderation_status
  approve_moderation_item id actor reason now fresh =
      update_moderation_status id actor (codes "admin_approve") approved reason (λ item. pure tt)
        now fresh

  unfoldable pub hide_moderation_item :
      Text → Text → Text → ℕ → Text → Action (World env) Err (Unit {0})
  unfolding update_moderation_status
  hide_moderation_item id actor reason now fresh =
      update_moderation_status id actor (codes "admin_hide") hidden reason
        (λ item. delete_target env item.target_type item.target_id) now fresh

  unfoldable pub delete_moderation_item :
      Text → Text → Text → ℕ → Text → Action (World env) Err (Unit {0})
  unfolding update_moderation_status
  delete_moderation_item id actor reason now fresh =
      update_moderation_status id actor (codes "admin_delete") deleted reason
        (λ item. delete_target env item.target_type item.target_id) now fresh

  unfoldable pub suspend_moderation_author :
      Text → Text → Text → ℕ → ℕ → Text → Action (World env) Err (Unit {0})
  unfolding update_moderation_status
  suspend_moderation_author id actor reason duration now fresh =
      update_moderation_status id actor (codes "suspend_author") author_suspended reason
        (λ item. suspend_author duration item.author_id) now fresh
