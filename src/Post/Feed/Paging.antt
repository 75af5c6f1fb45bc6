-- ===== src/Post/Feed/Paging.antt =====
-- The pages of the news feed in post-service/service/post.go. The sum of skip and limit does not
-- overflow in postsFromRankedCandidatesSlice, since the limit has passed normalizeLimit.
use social_network_micro_ser.Prelude.{
  ℕ, zero, suc, ◌+◌, ◌-◌, Text, text_eq, text_eq_iff, Bool, true, not, ◌&&◌, ◌||◌, List, [], ◌∷◌,
  ◌++◌, Option, none, some, if◌then◌else◌, leb, length, ℤ, pos, ltb_ℤ, pos_part, take, drop, ◌≡◌,
  refl, arith, bit, matches, take_all, drop_all, drop-drop, take-append_drop, length-drop,
  Bool-cases, inl, inr, ap, ◌∙◌, sym, take_nil,
}
use social_network_micro_ser.Prelude.Sort.{matches-stable_sort}
use social_network_micro_ser.Services.Redis.{member}
use social_network_micro_ser.Post.Feed.{
  Post, NewsfeedCandidate, ScoreWeights, ranks_before, rank_newsfeed_candidates,
}

-- The identity of the post, empty where there is none.
abbrev pub post_id : Option Post → Text
post_id none = []
post_id (some p) = p.id

-- The loop, with the identities that were seen.
unfoldable pub unique_from : List Text → List NewsfeedCandidate → List NewsfeedCandidate
unique_from seen [] = []
unique_from seen (c ∷ cs) =
    let kept = c ∷ unique_from (post_id c.post ∷ seen) cs in
    let skipped = unique_from seen cs in
    if text_eq (post_id c.post) [] || member (post_id c.post) seen then skipped else kept

unfoldable pub unique_candidates : List NewsfeedCandidate → List NewsfeedCandidate
unfolding unique_from
unique_candidates cs = unique_from [] cs

abbrev pub with_post : Option Post → List Post → List Post
with_post none ps = ps
with_post (some p) ps = p ∷ ps

-- The posts of the candidates that have one.
unfoldable pub posts_of : List NewsfeedCandidate → List Post
posts_of [] = []
posts_of (c ∷ cs) = with_post c.post (posts_of cs)

-- `ranked[skip:end]`
unfoldable pub slice : {A : Type 0} → ℕ → ℕ → List A → List A
slice start end xs = take (end - start) (drop start xs)

abbrev pub min : ℕ → ℕ → ℕ
min m n = if leb m n then m else n

unfoldable pub posts_from_ranked : List NewsfeedCandidate → ℤ → ℤ → List Post
unfolding unique_candidates posts_of slice
posts_from_ranked ranked skip limit =
    let unique = unique_candidates ranked in
    let start = pos_part skip in
    if not (ltb_ℤ (pos 0) limit)
    then []
    else if leb (length unique) start
    then []
    else posts_of (slice start (min (start + pos_part limit) (length unique)) unique)

unfoldable pub posts_from_ranked_candidates :
    List NewsfeedCandidate → ScoreWeights → ℕ → ℤ → ℤ → List Post
unfolding posts_from_ranked
posts_from_ranked_candidates cs weights now skip limit =
    posts_from_ranked (rank_newsfeed_candidates cs now weights) skip limit

-- The loop of postIDsForLoaded, with the identities that were seen.
unfoldable pub loaded_from : List Text → List Post → List Text
loaded_from seen [] = []
loaded_from seen (p ∷ ps) =
    let kept = p.id ∷ loaded_from (p.id ∷ seen) ps in
    let skipped = loaded_from seen ps in
    if text_eq p.id [] || p.is_ad || member p.id seen then skipped else kept

unfoldable pub post_ids_for_loaded : List Post → List Text
unfolding loaded_from
post_ids_for_loaded ps = loaded_from [] ps

abbrev lacks_post : NewsfeedCandidate → Bool
lacks_post c = text_eq (post_id c.post) []

unique_from_lacks :
    (seen : List Text) (cs : List NewsfeedCandidate) → matches lacks_post (unique_from seen cs) ≡ 0
unfolding matches unique_from
unique_from_lacks seen [] = refl
unique_from_lacks seen (c ∷ cs) =
    ground (arith, unique_from_lacks seen cs, unique_from_lacks (post_id c.post ∷ seen) cs)

posts_of-take :
    (n : ℕ) (cs : List NewsfeedCandidate)
    → matches lacks_post cs ≡ 0
    → posts_of (take n cs) ≡ take n (posts_of cs)
unfolding posts_of take matches text_eq
posts_of-take zero cs h = refl
posts_of-take (suc n) [] h = refl
posts_of-take (suc n) (c ∷ cs) h = ground (arith, posts_of-take n cs)

posts_of-drop :
    (n : ℕ) (cs : List NewsfeedCandidate)
    → matches lacks_post cs ≡ 0
    → posts_of (drop n cs) ≡ drop n (posts_of cs)
unfolding posts_of drop matches text_eq
posts_of-drop zero cs h = refl
posts_of-drop (suc n) [] h = refl
posts_of-drop (suc n) (c ∷ cs) h = ground (arith, posts_of-drop n cs)

lacks-drop :
    (n : ℕ) (cs : List NewsfeedCandidate)
    → matches lacks_post cs ≡ 0
    → matches lacks_post (drop n cs) ≡ 0
unfolding drop matches
lacks-drop zero cs h = h
lacks-drop (suc n) [] h = h
lacks-drop (suc n) (c ∷ cs) h = lacks-drop n cs (omega arith)

-- All the posts of the feed, without paging.
abbrev pub whole_feed : List NewsfeedCandidate → List Post
whole_feed ranked = posts_of (unique_candidates ranked)

slice_lem :
    {A : Type 0} (s l : ℕ) (xs : List A) → slice s (min (s + l) (length xs)) xs ≡ take l (drop s xs)
unfolding slice
slice_lem s l xs =
    let long = length-drop s xs in
    elim (Bool-cases (leb (s + l) (length xs))) [
      | inl inside ↦ ap (λ n. take n (drop s xs)) (ground arith)
      | inr beyond ↦
          take_all (min (s + l) (length xs) - s) (drop s xs) (ground arith)
          ∙ sym (take_all l (drop s xs) (ground arith))
    ]

page_lem :
    (ranked : List NewsfeedCandidate) (skip limit : ℤ)
    → posts_from_ranked ranked skip limit
      ≡ take (pos_part limit) (drop (pos_part skip) (whole_feed ranked))
unfolding posts_from_ranked unique_candidates take posts_of
page_lem ranked skip limit =
    let s = pos_part skip in
    let l = pos_part limit in
    let unique = unique_candidates ranked in
    let here = unique_from_lacks [] ranked in
    let page =
      ap posts_of (slice_lem s l unique)
      ∙ posts_of-take l (drop s unique) (lacks-drop s unique here)
      ∙ ap (take l) (posts_of-drop s unique here) in
    let past = drop_all s unique in
    ground (arith, page, past, posts_of-drop s unique here, take_nil {A = Post} l)

-- A page is the part of the whole feed that starts after `skip` posts, none of them below zero, and has
-- at most `limit` posts, and two pages in a row are one page.
pub posts_from_ranked-append :
    (ranked : List NewsfeedCandidate) (skip : ℤ) (m n : ℕ)
    → (posts_from_ranked ranked skip (pos (m + n))
        ≡ posts_from_ranked ranked skip (pos m)
          ++ posts_from_ranked ranked (pos (pos_part skip + m)) (pos n))
      × (posts_from_ranked ranked skip (pos m) ≡ take m (drop (pos_part skip) (whole_feed ranked)))
posts_from_ranked-append ranked skip m n =
    let s = pos_part skip in
    let whole = whole_feed ranked in
    let cut = take-append_drop m n (drop s whole) in
    let rest = drop-drop s m whole in
    (
      ground (
        arith,
        cut,
        rest,
        page_lem ranked skip (pos (m + n)),
        page_lem ranked skip (pos m),
        page_lem ranked (pos (s + m)) (pos n),
      ),
      page_lem ranked skip (pos m),
    )

-- The candidates with a post of that identity.
abbrev pub named : Text → NewsfeedCandidate → Bool
named id c = text_eq (post_id c.post) id

same_name :
    (k id : Text) (seen : List Text)
    → text_eq k id ≡ true
    → (member k seen ≡ member id seen) × (text_eq k [] ≡ text_eq id [])
same_name k id seen h = let e = (text_eq_iff k id).0 h in rw e (refl, refl)

once_from :
    (seen : List Text) (cs : List NewsfeedCandidate) (id : Text)
    → matches (λ p. text_eq p.id id) (posts_of (unique_from seen cs))
      ≡ bit (not (text_eq id []) && not (member id seen) && leb 1 (matches (named id) cs))
unfolding matches posts_of unique_from text_eq
once_from seen [] id = ground arith
once_from seen (c ∷ cs) id = ground (
  arith,
  once_from seen cs id,
  once_from (post_id c.post ∷ seen) cs id,
  same_name (post_id c.post) id seen,
)

-- The feed has every post of a candidate exactly once, but those without an identity, however often
-- and in whatever order the candidates bring it.
pub feed_once :
    (cs : List NewsfeedCandidate) (weights : ScoreWeights) (now : ℕ) (id : Text)
    → matches (λ p. text_eq p.id id) (whole_feed (rank_newsfeed_candidates cs now weights))
      ≡ bit (not (text_eq id []) && leb 1 (matches (named id) cs))
unfolding unique_candidates rank_newsfeed_candidates
feed_once cs weights now id =
    let ranked = rank_newsfeed_candidates cs now weights in
    ground
      (arith, once_from [] ranked id, matches-stable_sort (ranks_before now weights) (named id) cs)
