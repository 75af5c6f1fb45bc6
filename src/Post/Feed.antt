-- ===== src/Post/Feed.antt =====
-- post-service/service/newsfeed_scorer.go, with the ranking and the paging of the news feed in
-- post-service/service/post.go. Times are whole nanoseconds, `int` is a machine integer that wraps
-- around, and the floats of Hours and Minutes are exact, since they are truncated at once. A post has
-- the fields that the feed reads, with its other ones abstract.
pub mod Ranked
pub mod Paging
pub mod Ads
mod Examples
use social_network_micro_ser.Prelude.{
  ℕ, zero, suc, ◌+◌, ◌-◌, ◌%◌, Text, codes, text_eq, Bool, true, false, not, ◌&&◌, ◌||◌, List, [],
  ◌∷◌, ◌++◌, Option, none, some, if◌then◌else◌, ◌==◌, leb, ltb, length, ℤ, pos, negsuc, ◌+ℤ◌, ◌-ℤ◌,
  ◌*ℤ◌, ltb_ℤ, quot_ℤ, wrap, pos_part,
}
use social_network_micro_ser.Prelude.Sort.{stable_sort}
use social_network_micro_ser.Services.Redis.{member}

pub record Post : Type 0 where
  pub id : Text
  pub created_at : ℕ
  pub like_count : ℤ
  pub comment_count : ℤ
  pub share_count : ℤ
  pub is_ad : Bool
  pub content : Text

-- `none` is a candidate without a post.
pub record NewsfeedCandidate : Type 0 where
  pub post : Option Post
  pub view_forward : ℤ
  pub view_backward : ℤ
  pub loaded_times : ℤ
  pub keyword_score : ℤ
  pub is_friend : Bool
  pub is_second_degree_or_requested : Bool
  pub is_own_post : Bool

pub record ScoreWeights : Type 0 where
  pub friend_relationship : ℤ
  pub second_degree_or_requested : ℤ
  pub forward : ℤ
  pub backward : ℤ
  pub like : ℤ
  pub comment : ℤ
  pub share : ℤ
  pub loaded_penalty : ℤ

pub record ScoreBreakdown : Type 0 where
  pub recency : ℤ
  pub relationship : ℤ
  pub engagement : ℤ
  pub loaded : ℤ
  pub keyword : ℤ
  pub total : ℤ

abbrev pub default_score_weights : ScoreWeights
default_score_weights = record {
  friend_relationship = pos 100;
  second_degree_or_requested = pos 50;
  forward = pos 2;
  backward = pos 1;
  like = pos 2;
  comment = pos 3;
  share = pos 5;
  loaded_penalty = negsuc 19;
}

abbrev pub hour : ℕ
hour = 3600000000000

abbrev pub minute : ℕ
minute = 60000000000

unfoldable pub age_of : Post → ℕ → ℤ
age_of p now = pos now -ℤ pos p.created_at

unfoldable pub recency_of : ℤ → ℤ
recency_of age =
    if ltb_ℤ age (pos 86400000000000) then wrap (pos 240 -ℤ quot_ℤ age hour *ℤ pos 10) else pos 0

unfoldable pub freshness : ℤ → ℤ
freshness age =
    if ltb_ℤ age (pos 7200000000000) then quot_ℤ (pos 7200000000000 -ℤ age) minute else pos 0

unfoldable pub relation_of : NewsfeedCandidate → ℤ → ScoreWeights → ℤ
relation_of c age weights =
    if c.is_own_post
    then wrap (weights.friend_relationship +ℤ freshness age)
    else if c.is_friend
    then weights.friend_relationship
    else if c.is_second_degree_or_requested
    then weights.second_degree_or_requested
    else pos 0

-- Sums and products of machine integers are wrapped once, at the end.
score_post : NewsfeedCandidate → Post → ℕ → ScoreWeights → ScoreBreakdown
score_post c p now weights =
    let recent = recency_of (age_of p now) in
    let related = wrap (
      relation_of c (age_of p now) weights
      +ℤ c.view_forward *ℤ weights.forward
      +ℤ c.view_backward *ℤ weights.backward) in
    let engaged = wrap (
      p.like_count *ℤ weights.like
      +ℤ p.comment_count *ℤ weights.comment
      +ℤ p.share_count *ℤ weights.share) in
    let penalty = wrap (c.loaded_times *ℤ weights.loaded_penalty) in
    record {
      recency = recent;
      relationship = related;
      engagement = engaged;
      loaded = penalty;
      keyword = c.keyword_score;
      total = wrap (recent +ℤ related +ℤ engaged +ℤ penalty +ℤ c.keyword_score);
    }

abbrev pub no_score : ScoreBreakdown
no_score = record {
  recency = pos 0;
  relationship = pos 0;
  engagement = pos 0;
  loaded = pos 0;
  keyword = pos 0;
  total = pos 0;
}

score_with : Option Post → NewsfeedCandidate → ℕ → ScoreWeights → ScoreBreakdown
unfolding score_post
score_with none c now weights = no_score
score_with (some p) c now weights = score_post c p now weights

unfoldable pub score_newsfeed_candidate : NewsfeedCandidate → ℕ → ScoreWeights → ScoreBreakdown
unfolding score_with
score_newsfeed_candidate c now weights = score_with c.post c now weights

-- The order among candidates of one score.
unfoldable pub newer : Option Post → Option Post → Bool
newer none q = false
newer (some p) none = true
newer (some p) (some q) = ltb q.created_at p.created_at

-- The comparison of the sort, with the scores that stand in the map.
unfoldable pub ranks_before : ℕ → ScoreWeights → NewsfeedCandidate → NewsfeedCandidate → Bool
ranks_before now weights c d =
    let left = (score_newsfeed_candidate c now weights).total in
    let right = (score_newsfeed_candidate d now weights).total in
    ltb_ℤ right left || (not (ltb_ℤ left right) && newer c.post d.post)

unfoldable pub rank_newsfeed_candidates :
    List NewsfeedCandidate → ℕ → ScoreWeights → List NewsfeedCandidate
rank_newsfeed_candidates cs now weights = stable_sort (ranks_before now weights) cs
