-- ===== src/Post/Feed/Examples.antt =====
-- The theorems of the news feed at concrete candidates.
use social_network_micro_ser.Prelude.{
  ℕ, codes, true, false, List, [], ◌∷◌, ◌++◌, some, ◌≡◌, refl, ◌*◌, pos, take, drop, matches,
  text_eq, Text, quot_ℤ, wrap, ◌+ℤ◌, ◌-ℤ◌, ◌*ℤ◌,
}
use social_network_micro_ser.Post.Feed.{
  Post, NewsfeedCandidate, default_score_weights, rank_newsfeed_candidates, hour,
  score_newsfeed_candidate, recency_of, relation_of, age_of,
}
use social_network_micro_ser.Post.Feed.Ranked.{IsRanking, rank_newsfeed_candidates-IsRanking}
use social_network_micro_ser.Post.Feed.Paging.{
  posts_from_ranked, posts_from_ranked-append, whole_feed, feed_once,
}

abbrev post_at : Text → ℕ → Post
post_at id at = record {
  id = id;
  created_at = at;
  like_count = pos 3;
  comment_count = pos 1;
  share_count = pos 0;
  is_ad = false;
  content = codes "hello";
}

abbrev candidate_of : Post → NewsfeedCandidate
candidate_of p = record {
  post = some p;
  view_forward = pos 1;
  view_backward = pos 0;
  loaded_times = pos 1;
  keyword_score = pos 0;
  is_friend = true;
  is_second_degree_or_requested = false;
  is_own_post = false;
}

abbrev three_candidates : List NewsfeedCandidate
three_candidates =
    candidate_of (post_at (codes "a") 0)
    ∷ candidate_of (post_at (codes "b") (2 * hour))
    ∷ candidate_of (post_at (codes "a") 0)
    ∷ []

abbrev one_ad : List Post
one_ad = record (post_at (codes "ad") 0) { is_ad = true } ∷ []

score_of_friend :
    (score_newsfeed_candidate
      (candidate_of (post_at (codes "a") 0))
      (3 * hour)
      default_score_weights).total
    ≡ pos 301
unfolding score_newsfeed_candidate recency_of relation_of age_of wrap quot_ℤ ◌+ℤ◌ ◌-ℤ◌ ◌*ℤ◌
score_of_friend = refl

rank_newsfeed_candidates-IsRanking_example :
    IsRanking
      (3 * hour)
      default_score_weights
      three_candidates
      (rank_newsfeed_candidates three_candidates (3 * hour) default_score_weights)
rank_newsfeed_candidates-IsRanking_example =
    rank_newsfeed_candidates-IsRanking (3 * hour) default_score_weights three_candidates

posts_from_ranked-append_example :
    (posts_from_ranked three_candidates (pos 0) (pos 2)
      ≡ posts_from_ranked three_candidates (pos 0) (pos 1)
        ++ posts_from_ranked three_candidates (pos 1) (pos 1))
    × (posts_from_ranked three_candidates (pos 0) (pos 1) ≡ take 1 (whole_feed three_candidates))
unfolding drop
posts_from_ranked-append_example = posts_from_ranked-append three_candidates (pos 0) 1 1

feed_once_example :
    matches
      (λ p. text_eq p.id (codes "a"))
      (whole_feed (rank_newsfeed_candidates three_candidates (3 * hour) default_score_weights))
    ≡ 1
unfolding text_eq matches
feed_once_example = feed_once three_candidates default_score_weights (3 * hour) (codes "a")
