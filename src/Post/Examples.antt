-- ===== src/Post/Examples.antt =====
-- The theorems on reports at concrete reports of one post.
use social_network_micro_ser.Prelude.{
  Text, codes, some, List, [], ◌∷◌, ◌≡◌, refl, ok, take, text_eq,
}
use social_network_micro_ser.Post.Report.{
  ReportedEvent, report_key, is_complete, is_valid_target_type,
}
use social_network_micro_ser.Post.Reviews.{
  submits, reviews_of-submits, reviews_of, new_among, complainants, nothing_reported,
}

abbrev report_by : Text → ReportedEvent
report_by who = record {
  target_type = codes "POST";
  target_id = codes "p1";
  reporter_id = who;
  reason = codes "spam";
  occurred_at = 5;
}

-- The second report of one user does not count.
abbrev four_reports : List ReportedEvent
four_reports =
    report_by (codes "a")
    ∷ report_by (codes "b")
    ∷ report_by (codes "b")
    ∷ report_by (codes "c")
    ∷ []

two_users : new_among [] (complainants (codes "POST:p1") (take 3 four_reports)) ≡ 2
unfolding new_among complainants text_eq report_key is_complete is_valid_target_type take
two_users = refl

reviews_of-submits_example :
    reviews_of
      (codes "POST:p1")
      (submits (some (λ e. ok tt)) four_reports nothing_reported).published
    ≡ 1
unfolding new_among complainants text_eq report_key is_complete is_valid_target_type
reviews_of-submits_example =
    reviews_of-submits (λ e. ok tt) (λ e. refl) (codes "POST:p1") four_reports
