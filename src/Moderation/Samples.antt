-- ===== src/Moderation/Samples.antt =====
-- The theorems on the moderation queue at concrete worlds: lists of rows for the tables, one of which
-- takes no rows.
use social_network_micro_ser.Prelude.{
  ℕ, Text, codes, text_eq, true, false, [], ◌∷◌, some, ◌≡◌, refl, Outcome, ok, fail, lookup, List,
  matches,
}
use social_network_micro_ser.Exception.{Err, message}
use social_network_micro_ser.Services.Database.{first_of_rows}
use social_network_micro_ser.Services.Upserts.{Upserts, list_upserts}
use social_network_micro_ser.Post.Report.{is_valid_target_type, to_upper}
use social_network_micro_ser.Moderation.Items.{
  QueueItem, ReportRecord, AuditLog, CompletedEvent, Env, World, moderation_item_id,
  is_valid_verdict,
}
use social_network_micro_ser.Moderation.Repository.{get_queue_item, upsert_queue_item}
use social_network_micro_ser.Moderation.Queue.{
  upsert_moderation_result, completed_item, is_complete_verdict,
}
use social_network_micro_ser.Moderation.Actions.{
  approve_moderation_item, hide_moderation_item, delete_moderation_item,
}
use social_network_micro_ser.Moderation.Calls.{
  completed, approve, run_calls, status_at, statuses_after, status_after, found_in, replaced,
}
use social_network_micro_ser.Moderation.Refinement.{run_calls_status}
use social_network_micro_ser.Moderation.Failures.{failed_delete, fallback_unseen}

abbrev violation : CompletedEvent
violation = record {
  target_type = codes "POST";
  target_id = codes "p";
  author_id = codes "u";
  verdict = codes "violation";
  categories = codes "SPAM" ∷ [];
  confidence = 0;
  reason = codes "r";
  action = codes "queue";
}

abbrev queue_env : Upserts QueueItem → Outcome Err (Unit {0}) → Env
queue_env queue answer = record {
  has_repo = true;
  queue = queue;
  reports = list_upserts ReportRecord;
  audits = list_upserts AuditLog;
  delete_post = λ id. answer;
  suspend_user = λ id d. answer;
}

abbrev sample_env : Env
sample_env = queue_env (list_upserts QueueItem) (ok tt)

abbrev empty_world : World sample_env
empty_world = record {
  memory = record { items = []; audits = []; reports = [] };
  queued = [];
  reported = [];
  audited = [];
  deeds = [];
}

run_calls_status_example :
    status_at sample_env
      (run_calls sample_env
        (completed violation 1 (codes "a")
          ∷ approve (codes "POST:p") (codes "m") [] 2 (codes "b")
          ∷ [])
        empty_world)
      (codes "POST:p")
    ≡ some (codes "approved")
unfolding statuses_after status_after text_eq status_at found_in replaced is_complete_verdict
    moderation_item_id is_valid_target_type is_valid_verdict to_upper
run_calls_status_example =
    run_calls_status sample_env (λ id. refl) (λ id d. refl)
      (completed violation 1 (codes "a")
        ∷ approve (codes "POST:p") (codes "m") [] 2 (codes "b")
        ∷ [])
      empty_world (codes "POST:p") (λ on. record { queue_up = tt; reports_up = tt })

abbrev failing_env : Env
failing_env = queue_env (list_upserts QueueItem) (fail (message (codes "down")))

abbrev queued_item : QueueItem
queued_item = completed_item violation 1

abbrev queued_world : World failing_env
queued_world = record {
  memory = record { items = []; audits = []; reports = [] };
  queued = queued_item ∷ [];
  reported = [];
  audited = [];
  deeds = [];
}

failed_delete_example :
    (hide_moderation_item failing_env (codes "POST:p") (codes "m") [] 2 (codes "b") queued_world
      ≡ (fail (message (codes "down")), queued_world))
    × (delete_moderation_item failing_env (codes "POST:p") (codes "m") [] 2 (codes "b") queued_world
        ≡ (fail (message (codes "down")), queued_world))
unfolding completed_item moderation_item_id to_upper get_queue_item found_in text_eq
failed_delete_example =
    failed_delete failing_env (message (codes "down")) queued_item queued_world (λ on. refl) refl
      (codes "m") [] (codes "b") 2 refl refl

abbrev refusing_queue : Upserts QueueItem
refusing_queue = record {
  Store = List QueueItem;
  rows = λ s. s;
  Up = λ s. true ≡ false;
  first = λ p s. ok (first_of_rows p s);
  count = λ p s. ok (matches p s);
  upsert = λ conflicts resolve r s. (fail (message (codes "full")), s);
  create = λ r s. (fail (message (codes "full")), s);
  first_up = λ p s u. refl;
  count_up = λ p s u. refl;
  upsert_up = λ conflicts resolve r s u. cc;
  upsert-Up = λ conflicts resolve r s u. u;
  rows-upsert = λ conflicts resolve r s u. cc;
}

abbrev full_env : Env
full_env = queue_env refusing_queue (ok tt)

abbrev full_world : World full_env
full_world = record {
  memory = record { items = []; audits = []; reports = [] };
  queued = [];
  reported = [];
  audited = [];
  deeds = [];
}

fallback_unseen_example :
    let w = upsert_moderation_result full_env violation 1 (codes "a") full_world in
    (lookup (codes "POST:p") w.memory.items ≡ some queued_item)
    × ((actor reason fresh : Text) (now : ℕ)
        → approve_moderation_item full_env (codes "POST:p") actor reason now fresh w ≡ (ok tt, w))
unfolding completed_item is_complete_verdict is_valid_target_type text_eq is_valid_verdict
    upsert_queue_item get_queue_item upsert_moderation_result moderation_item_id lookup to_upper
fallback_unseen_example =
    fallback_unseen full_env violation 1 (codes "a") (message (codes "full")) full_world full_world
      refl refl refl refl refl
