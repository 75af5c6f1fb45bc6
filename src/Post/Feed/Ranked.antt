-- ===== src/Post/Feed/Ranked.antt =====
-- What the ranking of the news feed promises.
use social_network_micro_ser.Prelude.{
  ℕ, [], ◌∷◌, ◌≤◌, ℤ, ◌<ℤ◌, ltb_ℤ, pos, negsuc, ◌⊎◌, inl, inr, ap, Bool-cases, Bool, true, false,
  List, Option, none, some, ◌≡◌, arith, matches,
}
use social_network_micro_ser.Prelude.Sort.{
  filter, ties, Sorted, stable_sort, matches-stable_sort, stable_sort-Sorted, filter-stable_sort,
}
use social_network_micro_ser.Post.Feed.{
  Post, NewsfeedCandidate, ScoreWeights, score_newsfeed_candidate, newer, ranks_before,
  rank_newsfeed_candidates,
}

newer_asym : (p q : Option Post) → newer p q ≡ true → newer q p ≡ false
unfolding newer
newer_asym none q h = cc
newer_asym (some p) none h = ground arith
newer_asym (some p) (some q) h = ground arith

newer_between : (p q r : Option Post) → newer p q ≡ false → newer q r ≡ false → newer p r ≡ false
unfolding newer
newer_between none q r h k = ground arith
newer_between (some p) none r h k = cc
newer_between (some p) (some q) none h k = cc
newer_between (some p) (some q) (some r) h k = ground arith

-- The first post is not the older one, and none that is missing stands before one that is there.
abbrev IsNoOlder : Option Post → Option Post → Type 0
IsNoOlder (some p) (some q) = q.created_at ≤ p.created_at
IsNoOlder (some p) none = Unit {0}
IsNoOlder none (some q) = ⊥
IsNoOlder none none = Unit {0}

equal_ℤ : (a b : ℤ) → ltb_ℤ b a ≡ false → ltb_ℤ a b ≡ false → a ≡ b
equal_ℤ (pos m) (pos n) h k = ap pos (ground arith)
equal_ℤ (pos m) (negsuc n) h k = ground arith
equal_ℤ (negsuc m) (pos n) h k = ground arith
equal_ℤ (negsuc m) (negsuc n) h k = ap negsuc (ground arith)

no_newer : (p q : Option Post) → newer q p ≡ false → IsNoOlder p q
unfolding newer
no_newer none none h = tt
no_newer none (some q) h = cc
no_newer (some p) none h = tt
no_newer (some p) (some q) h = ground arith

abbrev score_of : ℕ → ScoreWeights → NewsfeedCandidate → ℤ
score_of now weights c = (score_newsfeed_candidate c now weights).total

-- The first candidate has the higher score, or the same score and a post that is not older.
abbrev IsBefore : ℕ → ScoreWeights → NewsfeedCandidate → NewsfeedCandidate → Type 0
IsBefore now weights c d =
    (score_of now weights d <ℤ score_of now weights c)
    ⊎ ((score_of now weights c ≡ score_of now weights d) × IsNoOlder c.post d.post)

abbrev AreBehind : ℕ → ScoreWeights → NewsfeedCandidate → List NewsfeedCandidate → Type 0
AreBehind now weights c [] = Unit {0}
AreBehind now weights c (d ∷ ds) = IsBefore now weights c d × AreBehind now weights c ds

-- Every candidate stands before all that come after it.
unfoldable pub IsOrdered : ℕ → ScoreWeights → List NewsfeedCandidate → Type 0
IsOrdered now weights [] = Unit {0}
IsOrdered now weights (c ∷ cs) = AreBehind now weights c cs × IsOrdered now weights cs

-- The candidates in their new order: the same ones, ordered by their score and then by their age, and
-- those that tie in the order that they had.
pub record IsRanking (now : ℕ) (weights : ScoreWeights) (cs ranked : List NewsfeedCandidate)
    : Type 0 where
  pub same : (p : NewsfeedCandidate → Bool) → matches p ranked ≡ matches p cs
  pub sorted : IsOrdered now weights ranked
  pub stable :
      (c : NewsfeedCandidate)
      → filter (ties (ranks_before now weights) c) ranked
        ≡ filter (ties (ranks_before now weights) c) cs

module _ (now : ℕ) (weights : ScoreWeights) where
  ranks_before_asym :
      (c d : NewsfeedCandidate)
      → ranks_before now weights c d ≡ true
      → ranks_before now weights d c ≡ false
  unfolding ranks_before
  ranks_before_asym c d h = ground (arith, newer_asym c.post d.post)

  ranks_before_between :
      (c d e : NewsfeedCandidate)
      → ranks_before now weights c d ≡ false
      → ranks_before now weights d e ≡ false
      → ranks_before now weights c e ≡ false
  unfolding ranks_before
  ranks_before_between c d e h k = ground (arith, newer_between c.post d.post e.post)

  ranks_before_lem :
      (c d : NewsfeedCandidate) → ranks_before now weights d c ≡ false → IsBefore now weights c d
  unfolding ranks_before
  ranks_before_lem c d h =
      elim (Bool-cases (ltb_ℤ (score_of now weights d) (score_of now weights c))) [
        | inl below ↦ inl (ground arith)
        | inr same ↦ inr (
          equal_ℤ (score_of now weights c) (score_of now weights d) same (ground arith),
          no_newer c.post d.post (ground arith),
        )
      ]

  Sorted-AreBehind :
      (c : NewsfeedCandidate) (ds : List NewsfeedCandidate)
      → matches (λ d. ranks_before now weights d c) ds ≡ 0
      → AreBehind now weights c ds
  unfolding matches
  Sorted-AreBehind c [] h = tt
  Sorted-AreBehind c (d ∷ ds) h =
      (ranks_before_lem c d (ground arith), Sorted-AreBehind c ds (ground arith))

  Sorted-IsOrdered :
      (cs : List NewsfeedCandidate)
      → Sorted (ranks_before now weights) cs
      → IsOrdered now weights cs
  unfolding Sorted IsOrdered
  Sorted-IsOrdered [] h = tt
  Sorted-IsOrdered (c ∷ cs) (h, hs) = (Sorted-AreBehind c cs h, Sorted-IsOrdered cs hs)

  -- The ranking returns the candidates that it is given, those of a higher score first and of one
  -- score the newer ones first, a candidate without a post last, and it keeps the order of those that
  -- tie.
  pub rank_newsfeed_candidates-IsRanking :
      (cs : List NewsfeedCandidate)
      → IsRanking now weights cs (rank_newsfeed_candidates cs now weights)
  unfolding rank_newsfeed_candidates
  rank_newsfeed_candidates-IsRanking cs = record {
    same = λ p. matches-stable_sort (ranks_before now weights) p cs;
    sorted =
        Sorted-IsOrdered (stable_sort (ranks_before now weights) cs)
          (stable_sort-Sorted (ranks_before now weights) ranks_before_asym ranks_before_between cs);
    stable = λ c.
        filter-stable_sort (ranks_before now weights) ranks_before_asym ranks_before_between c cs;
  }
