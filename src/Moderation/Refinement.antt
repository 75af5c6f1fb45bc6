-- ===== src/Moderation/Refinement.antt =====
-- The moderation against its abstract view, the status of each item.
use social_network_micro_ser.Prelude.{
  ℕ, Text, codes, true, false, List, [], ◌∷◌, ◌≡◌, refl, ok, Bool-cases, inl, inr, ◌∙◌, ap, text_eq,
}
use social_network_micro_ser.Moderation.Items.{
  Env, World, approved, hidden, deleted, author_suspended,
}
use social_network_micro_ser.Moderation.Queue.{delete_target}
use social_network_micro_ser.Moderation.Actions.{
  suspend_author, approve_moderation_item, hide_moderation_item, delete_moderation_item,
  suspend_moderation_author,
}
use social_network_micro_ser.Moderation.Calls.{
  Call, completed, reported, approve, hide, delete, suspend, run_call, run_calls, status_at,
  status_after, statuses_after,
}
use social_network_micro_ser.Moderation.Status.{
  nothing-Harmless, target-Harmless, author-Harmless, completed_in_memory, reported_in_memory,
  updated_in_memory,
}
use social_network_micro_ser.Moderation.Stored.{
  Ready, completed_in_queue, reported_in_queue, updated_in_queue,
}

module _ (env : Env) (deletes : (id : Text) → env.delete_post id ≡ ok tt)
    (suspends : (id : Text) (d : ℕ) → env.suspend_user id d ≡ ok tt) where
  call_in_memory :
      (off : env.has_repo ≡ false) (c : Call) (w : World env) (j : Text)
      → status_at env (run_call env c w) j ≡ status_after c j (status_at env w j)
  unfolding run_call status_after approve_moderation_item hide_moderation_item
      delete_moderation_item suspend_moderation_author text_eq
  call_in_memory off (completed e now fresh) w j = completed_in_memory env off e now fresh w j
  call_in_memory off (reported e now fresh) w j = reported_in_memory env off e now fresh w j
  call_in_memory off (approve id actor reason now fresh) w j =
      updated_in_memory env off id actor (codes "admin_approve") approved reason fresh now
        (λ item w. (ok tt, w)) w j (nothing-Harmless env) refl
  call_in_memory off (hide id actor reason now fresh) w j =
      updated_in_memory env off id actor (codes "admin_hide") hidden reason fresh now
        (λ item. delete_target env item.target_type item.target_id) w j
        (target-Harmless env deletes) refl
  call_in_memory off (delete id actor reason now fresh) w j =
      updated_in_memory env off id actor (codes "admin_delete") deleted reason fresh now
        (λ item. delete_target env item.target_type item.target_id) w j
        (target-Harmless env deletes) refl
  call_in_memory off (suspend id actor reason duration now fresh) w j =
      updated_in_memory env off id actor (codes "suspend_author") author_suspended reason fresh now
        (λ item. suspend_author env duration item.author_id) w j
        (author-Harmless env suspends duration) refl

  call_in_queue :
      (on : env.has_repo ≡ true) (c : Call) (w : World env)
      → Ready env w
      → Ready env (run_call env c w)
        × ((j : Text) → status_at env (run_call env c w) j ≡ status_after c j (status_at env w j))
  unfolding run_call status_after approve_moderation_item hide_moderation_item
      delete_moderation_item suspend_moderation_author text_eq
  call_in_queue on (completed e now fresh) w ready = completed_in_queue env on e now fresh w ready
  call_in_queue on (reported e now fresh) w ready = reported_in_queue env on e now fresh w ready
  call_in_queue on (approve id actor reason now fresh) w ready =
      updated_in_queue env on id actor (codes "admin_approve") approved reason fresh now
        (λ item w. (ok tt, w)) w (nothing-Harmless env) refl ready
  call_in_queue on (hide id actor reason now fresh) w ready =
      updated_in_queue env on id actor (codes "admin_hide") hidden reason fresh now
        (λ item. delete_target env item.target_type item.target_id) w (target-Harmless env deletes)
        refl ready
  call_in_queue on (delete id actor reason now fresh) w ready =
      updated_in_queue env on id actor (codes "admin_delete") deleted reason fresh now
        (λ item. delete_target env item.target_type item.target_id) w (target-Harmless env deletes)
        refl ready
  call_in_queue on (suspend id actor reason duration now fresh) w ready =
      updated_in_queue env on id actor (codes "suspend_author") author_suspended reason fresh now
        (λ item. suspend_author env duration item.author_id) w
        (author-Harmless env suspends duration) refl ready

  in_memory :
      (off : env.has_repo ≡ false) (cs : List Call) (w : World env) (j : Text)
      → status_at env (run_calls env cs w) j ≡ statuses_after cs j (status_at env w j)
  unfolding run_calls statuses_after
  in_memory off [] w j = refl
  in_memory off (c ∷ cs) w j =
      in_memory off cs (run_call env c w) j ∙ ap (statuses_after cs j) (call_in_memory off c w j)

  in_queue :
      (on : env.has_repo ≡ true) (cs : List Call) (w : World env) (j : Text)
      → Ready env w
      → status_at env (run_calls env cs w) j ≡ statuses_after cs j (status_at env w j)
  unfolding run_calls statuses_after
  in_queue on [] w j ready = refl
  in_queue on (c ∷ cs) w j ready =
      let (ready1, e) = call_in_queue on c w ready in
      in_queue on cs (run_call env c w) j ready1 ∙ ap (statuses_after cs j) (e j)

  -- Whatever calls come in whatever order, the status that the service shows of an item is the one
  -- that the calls alone give it, in memory and in the database alike: an unsafe verdict sets it to
  -- hidden or pending, a report opens an item that is not there as pending, and an administrator
  -- replaces the status of one that is. Assumed: posts are deleted and authors suspended without an
  -- error, and the database answers where there is one.
  pub run_calls_status :
      (cs : List Call) (w : World env) (j : Text)
      → (env.has_repo ≡ true → Ready env w)
      → status_at env (run_calls env cs w) j ≡ statuses_after cs j (status_at env w j)
  run_calls_status cs w j ready = elim (Bool-cases env.has_repo) [
    | inl on ↦ in_queue on cs w j (ready on)
    | inr off ↦ in_memory off cs w j
  ]
