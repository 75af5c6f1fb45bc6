-- ===== src/Post/Report.antt =====
-- post-service/service/report.go, with the events of internal/moderation/moderation.go. The lock of
-- the source makes the reading and writing of the reports one step. White space and letters are
-- those of ASCII.
use social_network_micro_ser.Prelude.{
  ℕ, ◌-◌, Text, codes, text_eq, Bool, true, false, not, ◌&&◌, ◌||◌, ◌++◌, List, [], ◌∷◌, Option,
  none, some, Outcome, ok, fail, if◌then◌else◌, length, leb, ◌==◌, map,
}
use social_network_micro_ser.Exception.{Err, message}

pub record ReportedEvent : Type 0 where
  pub target_type : Text
  pub target_id : Text
  pub reporter_id : Text
  pub reason : Text
  pub occurred_at : ℕ

pub record RequestEvent : Type 0 where
  pub target_type : Text
  pub target_id : Text
  pub content : Text
  pub source : Text
  pub priority : Text
  pub occurred_at : ℕ

-- What the publisher sends.
pub data Event : Type 0 where
  reported : ReportedEvent → Event
  review : RequestEvent → Event

-- A Go map: one row for each key.
abbrev pub Reporters : Type 0
Reporters = List (Text × ReportedEvent)

abbrev pub Reports : Type 0
Reports = List (Text × Reporters)

pub record World : Type 0 where
  pub reports : Reports
  pub published : List Event

-- `Report` of the publisher, if there is one: what Kafka answers to the event.
abbrev pub Publisher : Type 0
Publisher = Option (ReportedEvent → Outcome Err (Unit {0}))

-- The three results of the call.
pub record Answer : Type 0 where
  pub count : ℕ
  pub threshold_reached : Bool
  pub error : Option Err

abbrev pub report_threshold : ℕ
report_threshold = 3

abbrev pub is_space : ℕ → Bool
is_space c = c == 32 || (leb 9 c && leb c 13)

unfoldable pub trim_left : Text → Text
trim_left [] = []
trim_left (c ∷ cs) = let rest = trim_left cs in if is_space c then rest else c ∷ cs

unfoldable pub trim_right : Text → Text
trim_right [] = []
trim_right (c ∷ cs) =
    let rest = trim_right cs in if is_space c && text_eq rest [] then [] else c ∷ rest

unfoldable pub trim_space : Text → Text
unfolding trim_left trim_right
trim_space t = trim_right (trim_left t)

unfoldable pub to_upper : Text → Text
to_upper t = map (λ c. if leb 97 c && leb c 122 then c - 32 else c) t

unfoldable pub is_valid_target_type : Text → Bool
is_valid_target_type t = text_eq t (codes "POST") || text_eq t (codes "COMMENT")

unfoldable pub report_key : ReportedEvent → Text
report_key e = e.target_type ++ (58 ∷ e.target_id)

unfoldable pub reporters_of : Text → Reports → Reporters
reporters_of key [] = []
reporters_of key ((k, rs) ∷ rest) = if text_eq k key then rs else reporters_of key rest

unfoldable pub set_reporters : Text → Reporters → Reports → Reports
set_reporters key rs [] = (key, rs) ∷ []
set_reporters key rs ((k, old) ∷ rest) =
    let more = set_reporters key rs rest in
    if text_eq k key then (k, rs) ∷ rest else (k, old) ∷ more

unfoldable pub has_reported : Text → Reporters → Bool
has_reported who [] = false
has_reported who ((r, e) ∷ rs) = text_eq r who || has_reported who rs

unfoldable pub review_of : ReportedEvent → RequestEvent
review_of e = record {
  target_type = e.target_type;
  target_id = e.target_id;
  content = e.reason;
  source = codes "report_threshold";
  priority = codes "high";
  occurred_at = e.occurred_at;
}

-- From the unlocking on.
review_if : Bool → ReportedEvent → List Event → List Event
review_if true e es = review (review_of e) ∷ es
review_if false e es = es

publish_answer : Outcome Err (Unit {0}) → ReportedEvent → ℕ → World → Answer × World
unfolding review_if
publish_answer (fail err) e count w =
    (record { count = count; threshold_reached = count == report_threshold; error = some err }, w)
publish_answer (ok _) e count w = (
  record { count = count; threshold_reached = count == report_threshold; error = none },
  record w { published = review_if (count == report_threshold) e (reported e ∷ w.published) },
)

publish : Publisher → ReportedEvent → ℕ → World → Answer × World
unfolding publish_answer
publish none e count w =
    (record { count = count; threshold_reached = count == report_threshold; error = none }, w)
publish (some report) e count w = publish_answer (report e) e count w

add_report : Publisher → ReportedEvent → World → Answer × World
unfolding publish
add_report publisher e w =
    let key = report_key e in
    let old = reporters_of key w.reports in
    if has_reported e.reporter_id old
    then (
      record {
        count = length old;
        threshold_reached = false;
        error = some (message (codes "DUPLICATE_REPORT"));
      },
      w,
    )
    else publish publisher e (length ((e.reporter_id, e) ∷ old))
        (record w { reports = set_reporters key ((e.reporter_id, e) ∷ old) w.reports })

unfoldable pub event_of : Text → Text → Text → Text → ℕ → ReportedEvent
event_of target_type target_id reporter_id reason now = record {
  target_type = to_upper (trim_space target_type);
  target_id = trim_space target_id;
  reporter_id = trim_space reporter_id;
  reason = trim_space reason;
  occurred_at = now;
}

unfoldable pub is_complete : ReportedEvent → Bool
is_complete e =
    is_valid_target_type e.target_type
    && not (text_eq e.target_id [])
    && not (text_eq e.reporter_id [])
    && not (text_eq e.reason [])

unfoldable pub submit_event : Publisher → ReportedEvent → World → Answer × World
unfolding add_report is_complete
submit_event publisher e w = if is_complete e then add_report publisher e w else (
  record { count = 0; threshold_reached = false; error = some (message (codes "INVALID_REPORT")) },
  w,
)

-- `SubmitReport(targetType, targetID, reporterID, reason)` at the time `now`.
unfoldable pub submit_report : Publisher → Text → Text → Text → Text → ℕ → World → Answer × World
unfolding event_of submit_event
submit_report publisher target_type target_id reporter_id reason now w =
    submit_event publisher (event_of target_type target_id reporter_id reason now) w
