-- ===== src/Post/Reviews.antt =====
-- Sequences of reports, and the reviews that they request.
use social_network_micro_ser.Prelude.{
  ℕ, ◌+◌, Text, text_eq, text_eq_iff, text_eq_refl, true, false, List, [], ◌∷◌, some, ◌≡◌, refl,
  Outcome, ok, arith, ◌&&◌, ◌||◌, suc, map, ap, ◌∙◌, length, leb, if◌then◌else◌, ◌++◌, codes,
}
use social_network_micro_ser.Exception.{Err, message}
use social_network_micro_ser.Services.Redis.{member}
use social_network_micro_ser.Services.Relation.{bit}
use social_network_micro_ser.Post.Report.{
  ReportedEvent, Event, reported, review, Reporters, Reports, World, Publisher, report_key,
  reporters_of, set_reporters, has_reported, review_of, submit_event, is_complete,
}

pub reporters_of-set_reporters :
    (key : Text) (rs : Reporters) (reports : Reports) (j : Text)
    → reporters_of j (set_reporters key rs reports)
      ≡ (if text_eq key j then rs else reporters_of j reports)
unfolding reporters_of set_reporters
reporters_of-set_reporters key rs [] j = refl
reporters_of-set_reporters key rs ((k, old) ∷ rest) j = ground (
  arith,
  reporters_of-set_reporters key rs rest j,
  text_eq_iff k key,
  text_eq_iff k j,
  text_eq_iff key j,
)

-- The reviews that were requested for a target.
unfoldable pub reviews_of : Text → List Event → ℕ
reviews_of key [] = 0
reviews_of key (reported e ∷ es) = reviews_of key es
reviews_of key (review r ∷ es) =
    bit (text_eq (r.target_type ++ (58 ∷ r.target_id)) key) + reviews_of key es

module _ (publisher : Publisher) where
  -- The reports one after the other, whatever each of them answers.
  unfoldable pub submits : List ReportedEvent → World → World
  submits [] w = w
  submits (e ∷ es) w = submits es (submit_event publisher e w).1

-- A target has one review exactly if it has three reporters or more.
unfoldable IsReviewed : World → Type 0
IsReviewed w =
    (key : Text) → reviews_of key w.published ≡ bit (leb 3 (length (reporters_of key w.reports)))

-- How many different texts are in the list that are not among those that were seen.
unfoldable pub new_among : List Text → List Text → ℕ
new_among seen [] = 0
new_among seen (x ∷ xs) =
    let again = new_among seen xs in
    let more = new_among (x ∷ seen) xs in if member x seen then again else suc more

-- The users of the complete reports on a target, one for each report.
unfoldable pub complainants : Text → List ReportedEvent → List Text
complainants key [] = []
complainants key (e ∷ es) =
    let rest = complainants key es in
    if is_complete e && text_eq (report_key e) key then e.reporter_id ∷ rest else rest

abbrev pub nothing_reported : World
nothing_reported = record { reports = []; published = [] }

abbrev names : Reporters → List Text
names rs = map (λ r. r.0) rs

has_reported_lem : (who : Text) (rs : Reporters) → has_reported who rs ≡ member who (names rs)
unfolding has_reported
has_reported_lem who [] = refl
has_reported_lem who ((r, e) ∷ rs) = ap (λ b. text_eq r who || b) (has_reported_lem who rs)

module _ (publisher : Publisher) where
  -- One row for each different user of the complete reports on a target.
  length-reporters_of :
      (key : Text) (es : List ReportedEvent) (w : World)
      → length (reporters_of key (submits publisher es w).reports)
        ≡ length (reporters_of key w.reports)
          + new_among (names (reporters_of key w.reports)) (complainants key es)
  unfolding submits new_among complainants submit_event
  length-reporters_of key [] w = omega arith
  length-reporters_of key (e ∷ es) w =
      let k = report_key e in
      let old = reporters_of k w.reports in
      let set = reporters_of-set_reporters k ((e.reporter_id, e) ∷ old) w.reports key in
      let rest = length-reporters_of key es (submit_event publisher e w).1 in
      ground (arith, set, rest, text_eq_iff k key, has_reported_lem e.reporter_id old)

module _ (report : ReportedEvent → Outcome Err (Unit {0}))
    (sends : (e : ReportedEvent) → report e ≡ ok tt) where
  submit_event-IsReviewed :
      (e : ReportedEvent) (w : World) → IsReviewed w → IsReviewed (submit_event (some report) e w).1
  unfolding IsReviewed submit_event reviews_of review_of report_key
  submit_event-IsReviewed e w h key =
      let k = report_key e in
      let old = reporters_of k w.reports in
      let set = reporters_of-set_reporters k ((e.reporter_id, e) ∷ old) w.reports key in
      ground (arith, set, sends e, h key, text_eq_iff k key)

  submits-IsReviewed :
      (es : List ReportedEvent) (w : World) → IsReviewed w → IsReviewed (submits (some report) es w)
  unfolding submits
  submits-IsReviewed [] w h = h
  submits-IsReviewed (e ∷ es) w h =
      submits-IsReviewed es (submit_event (some report) e w).1 (submit_event-IsReviewed e w h)

  -- From a start without reports, and whatever is reported, in whatever order and with whatever
  -- answers, a target has exactly one review once three different users have filed a complete report
  -- on it, and none before. Assumed: the publisher is there and sends every report.
  pub reviews_of-submits :
      (key : Text) (es : List ReportedEvent)
      → reviews_of key (submits (some report) es nothing_reported).published
        ≡ bit (leb 3 (new_among [] (complainants key es)))
  unfolding IsReviewed reviews_of reporters_of
  reviews_of-submits key es =
      let start : IsReviewed nothing_reported = λ j. refl in
      submits-IsReviewed es nothing_reported start key
      ∙ ap (λ n. bit (leb 3 n))
          (omega (arith, length-reporters_of (some report) key es nothing_reported))

module _ (publisher : Publisher) where
  reported_after :
      (e : ReportedEvent) (w : World)
      → is_complete e ≡ true
      → has_reported e.reporter_id
          (reporters_of (report_key e) (submit_event publisher e w).1.reports)
        ≡ true
  unfolding submit_event has_reported
  reported_after e w complete =
      let k = report_key e in
      let old = reporters_of k w.reports in
      let set = reporters_of-set_reporters k ((e.reporter_id, e) ∷ old) w.reports k in
      ground (arith, set, text_eq_refl k, text_eq_refl e.reporter_id)

  still_reported :
      (key who : Text) (e : ReportedEvent) (w : World)
      → has_reported who (reporters_of key w.reports) ≡ true
      → has_reported who (reporters_of key (submit_event publisher e w).1.reports) ≡ true
  unfolding submit_event has_reported
  still_reported key who e w h =
      let k = report_key e in
      let old = reporters_of k w.reports in
      let set = reporters_of-set_reporters k ((e.reporter_id, e) ∷ old) w.reports key in
      ground (arith, set, text_eq_iff k key)

  submits_reported :
      (key who : Text) (es : List ReportedEvent) (w : World)
      → has_reported who (reporters_of key w.reports) ≡ true
      → has_reported who (reporters_of key (submits publisher es w).reports) ≡ true
  unfolding submits
  submits_reported key who [] w h = h
  submits_reported key who (e ∷ es) w h =
      submits_reported key who es (submit_event publisher e w).1 (still_reported key who e w h)

  -- After a complete report, and whatever is reported in between, another complete report of the
  -- same user on the same target is answered DUPLICATE_REPORT with the number of reporters, and
  -- changes nothing, whether the publisher sends the events or not.
  pub reported_twice :
      (e e' : ReportedEvent) (es : List ReportedEvent) (w : World)
      → is_complete e ≡ true
      → is_complete e' ≡ true
      → report_key e' ≡ report_key e
      → e'.reporter_id ≡ e.reporter_id
      → let w1 = submits publisher es (submit_event publisher e w).1 in
        submit_event publisher e' w1 ≡ (
          record {
            count = length (reporters_of (report_key e) w1.reports);
            threshold_reached = false;
            error = some (message (codes "DUPLICATE_REPORT"));
          },
          w1,
        )
  unfolding submit_event
  reported_twice e e' es w complete complete' same who =
      let w1 = submits publisher es (submit_event publisher e w).1 in
      let there =
        submits_reported (report_key e) e.reporter_id es (submit_event publisher e w).1
          (reported_after e w complete) in
      ground (arith, there)
