-- ===== src/Moderation/Calls.antt =====
-- Sequences of calls of the moderation, and the status that each item has by them alone.
use social_network_micro_ser.Prelude.{
  ℕ, Text, codes, text_eq, not, ◌&&◌, List, [], ◌∷◌, Option, none, some, if◌then◌else◌, lookup,
}
use social_network_micro_ser.Services.Database.{first_of_rows}
use social_network_micro_ser.Post.Report.{ReportedEvent}
use social_network_micro_ser.Moderation.Items.{
  QueueItem, CompletedEvent, Env, World, pending, approved, hidden, deleted, author_suspended,
  moderation_item_id,
}
use social_network_micro_ser.Moderation.Repository.{with_id}
use social_network_micro_ser.Moderation.Queue.{
  verdict_status, text_or, is_complete_verdict, is_complete_report, upsert_moderation_result,
  take_report,
}
use social_network_micro_ser.Moderation.Actions.{
  approve_moderation_item, hide_moderation_item, delete_moderation_item, suspend_moderation_author,
}

pub data Call : Type 0 where
  completed : CompletedEvent → ℕ → Text → Call
  reported : ReportedEvent → ℕ → Text → Call
  approve : Text → Text → Text → ℕ → Text → Call
  hide : Text → Text → Text → ℕ → Text → Call
  delete : Text → Text → Text → ℕ → Text → Call
  suspend : Text → Text → Text → ℕ → ℕ → Text → Call

-- An empty status is pending.
abbrev pub status_of : Option QueueItem → Option Text
status_of none = none
status_of (some item) = some (text_or pending item.status)

module _ (env : Env) where
  unfoldable pub run_call : Call → World env → World env
  run_call (completed e now fresh) w = upsert_moderation_result env e now fresh w
  run_call (reported e now fresh) w = (take_report env e now fresh w).1
  run_call (approve id actor reason now fresh) w =
      (approve_moderation_item env id actor reason now fresh w).1
  run_call (hide id actor reason now fresh) w =
      (hide_moderation_item env id actor reason now fresh w).1
  run_call (delete id actor reason now fresh) w =
      (delete_moderation_item env id actor reason now fresh w).1
  run_call (suspend id actor reason duration now fresh) w =
      (suspend_moderation_author env id actor reason duration now fresh w).1

  unfoldable pub run_calls : List Call → World env → World env
  run_calls [] w = w
  run_calls (c ∷ cs) w = run_calls cs (run_call c w)

  -- Where the service looks for an item.
  unfoldable pub found_in : World env → Text → Option QueueItem
  found_in w id =
      if env.has_repo
      then first_of_rows (with_id id) (env.queue.rows w.queued)
      else lookup id w.memory.items

  unfoldable pub status_at : World env → Text → Option Text
  unfolding found_in
  status_at w id = status_of (found_in w id)

-- A status that is there is replaced.
unfoldable pub replaced : Text → Option Text → Option Text
replaced status none = none
replaced status (some old) = some status

abbrev pub at_id : Text → Text → Option Text → Option Text → Option Text
at_id id j new old = if text_eq id j then new else old

abbrev pub some_or : Text → Option Text → Option Text
some_or default none = some default
some_or default (some t) = some t

-- The status of the item `j` after a call: an unsafe verdict sets it, a report opens an item that is
-- not there, and an administrator replaces it.
unfoldable pub status_after : Call → Text → Option Text → Option Text
unfolding replaced
status_after (completed e now fresh) j s =
    if is_complete_verdict e && not (text_eq e.verdict (codes "safe"))
    then at_id (moderation_item_id e.target_type e.target_id) j (some (verdict_status e.action)) s
    else s
status_after (reported e now fresh) j s =
    if is_complete_report e
    then at_id (moderation_item_id e.target_type e.target_id) j (some_or pending s) s
    else s
status_after (approve id actor reason now fresh) j s = at_id id j (replaced approved s) s
status_after (hide id actor reason now fresh) j s = at_id id j (replaced hidden s) s
status_after (delete id actor reason now fresh) j s = at_id id j (replaced deleted s) s
status_after (suspend id actor reason duration now fresh) j s =
    at_id id j (replaced author_suspended s) s

unfoldable pub statuses_after : List Call → Text → Option Text → Option Text
unfolding status_after
statuses_after [] j s = s
statuses_after (c ∷ cs) j s = statuses_after cs j (status_after c j s)
