-- ===== src/Post/Feed/Ads.antt =====
-- The advertisements between the posts of the news feed, and GetSuggestedPosts for the relevant feed,
-- both in post-service/service/post.go. The order in which the ads are drawn is an argument, and
-- `none` stands for ads that could not be fetched.
use social_network_micro_ser.Prelude.{
  ℕ, suc, ◌+◌, ◌-◌, ◌/◌, ◌%◌, Text, Bool, true, false, not, ◌&&◌, ◌||◌, List, [], ◌∷◌, ◌++◌, Option,
  none, some, if◌then◌else◌, ltb, ◌==◌, length, ℤ, take, ◌≡◌, refl, arith, matches, ap, ◌∙◌,
  take_nil,
}
use social_network_micro_ser.Prelude.Sort.{filter}
use social_network_micro_ser.Post.Feed.{Post, NewsfeedCandidate, ScoreWeights}
use social_network_micro_ser.Post.Feed.Paging.{posts_from_ranked_candidates, post_ids_for_loaded}

-- After the second post, and then after every fifth one.
abbrev pub shows_ad : ℕ → Bool
shows_ad i = i == 1 || (ltb 1 i && (i - 1) % 5 == 0)

-- One turn of the loop takes the next ad, if there is one.
abbrev pub next_ad : (List Post → List Post × List Post) → Bool → List Post → List Post × List Post
next_ad rest false ads = rest ads
next_ad rest true [] = rest []
next_ad rest true (ad ∷ ads) = (ad ∷ (rest ads).0, (rest ads).1)

-- The loop at the index `i`, with the ads that are left.
unfoldable pub interleave_from : ℕ → List Post → List Post → List Post × List Post
interleave_from i [] ads = ([], ads)
interleave_from i (p ∷ ps) ads =
    let (out, left) = next_ad (interleave_from (suc i) ps) (shows_ad i) ads in (p ∷ out, left)

append_first : List Post → List Post → List Post
append_first out [] = out
append_first out (ad ∷ ads) = out ++ (ad ∷ [])

unfoldable pub interleave_ads : List Post → List Post → List Post
unfolding interleave_from append_first
interleave_ads posts ads =
    let (out, left) = interleave_from 0 posts ads in
    if ltb (length posts) 2 then append_first out left else out

with_ads : List Post → Option (List Post) → List Post
unfolding interleave_ads
with_ads posts none = posts
with_ads posts (some []) = posts
with_ads posts (some (ad ∷ ads)) = interleave_ads posts (ad ∷ ads)

abbrev pub visible_page :
    List NewsfeedCandidate → ScoreWeights → ℕ → ℤ → ℤ → (Post → Bool) → List Post
visible_page cs weights now skip limit can_view =
    filter can_view (posts_from_ranked_candidates cs weights now skip limit)

-- The posts of the answer, and those that are marked as loaded.
unfoldable pub suggested_posts :
    List NewsfeedCandidate
    → ScoreWeights
    → ℕ
    → ℤ
    → ℤ
    → (Post → Bool)
    → Option (List Post)
    → List Post × List Text
unfolding with_ads
suggested_posts cs weights now skip limit can_view ads =
    let valid = visible_page cs weights now skip limit can_view in
    (if ltb 0 (length valid) then with_ads valid ads else valid, post_ids_for_loaded valid)

abbrev pub organic : Post → Bool
organic p = not p.is_ad

-- The number of ads among the first posts, at the indices up to `i`.
abbrev slots_before : ℕ → ℕ
slots_before i = (i + 3) / 5

organic_none : (ads : List Post) → matches organic ads ≡ 0 → filter organic ads ≡ []
unfolding matches filter
organic_none [] h = refl
organic_none (ad ∷ ads) h = ground (arith, organic_none ads)

organic-interleave_from :
    (i : ℕ) (ps ads : List Post)
    → matches (λ p. p.is_ad) ps ≡ 0
    → matches organic ads ≡ 0
    → (filter organic (interleave_from i ps ads).0 ≡ ps)
      × (matches organic (interleave_from i ps ads).1 ≡ 0)
unfolding matches filter interleave_from
organic-interleave_from i [] ads h k = (refl, k)
organic-interleave_from i (p ∷ ps) [] h k = ground (arith, organic-interleave_from (suc i) ps [])
organic-interleave_from i (p ∷ ps) (ad ∷ ads) h k =
    ground
      (arith, organic-interleave_from (suc i) ps ads, organic-interleave_from (suc i) ps (ad ∷ ads))

ads_none : (ps : List Post) → matches (λ p. p.is_ad) ps ≡ 0 → filter (λ p. p.is_ad) ps ≡ []
unfolding matches filter
ads_none [] h = refl
ads_none (p ∷ ps) h = ground (arith, ads_none ps)

slots_step :
    (i n : ℕ)
    → slots_before (i + suc n) - slots_before i ≡ (
        if shows_ad i
        then suc (slots_before (suc i + n) - slots_before (suc i))
        else slots_before (suc i + n) - slots_before (suc i))
slots_step i n = ground arith

taken_none : (i : ℕ) (ps : List Post) → interleave_from i ps [] ≡ (ps, [])
unfolding interleave_from
taken_none i [] = refl
taken_none i (p ∷ ps) = ground (arith, taken_none (suc i) ps)

ads-interleave_from :
    (i : ℕ) (ps ads : List Post)
    → matches (λ p. p.is_ad) ps ≡ 0
    → matches organic ads ≡ 0
    → filter (λ p. p.is_ad) (interleave_from i ps ads).0
      ≡ take (slots_before (i + length ps) - slots_before i) ads
unfolding matches filter interleave_from take
ads-interleave_from i [] ads h k =
    let e : slots_before (i + 0) - slots_before i ≡ 0 = omega arith in rw e refl
ads-interleave_from i (p ∷ ps) [] h k =
    rw (take_nil {A = Post} (slots_before (i + length (p ∷ ps)) - slots_before i))
      (ground (arith, taken_none (suc i) ps, ads_none ps))
ads-interleave_from i (p ∷ ps) (ad ∷ ads) h k =
    rw (slots_step i (length ps)) (
      ground (arith, ads-interleave_from (suc i) ps ads, ads-interleave_from (suc i) ps (ad ∷ ads)))

interleave_long :
    (posts ads : List Post)
    → matches (λ p. p.is_ad) posts ≡ 0
    → matches organic ads ≡ 0
    → ltb (length posts) 2 ≡ false
    → (filter organic (interleave_ads posts ads) ≡ posts)
      × (filter (λ p. p.is_ad) (interleave_ads posts ads)
          ≡ take (if ltb (length posts) 2 then 1 else (length posts + 3) / 5) ads)
unfolding interleave_ads
interleave_long posts ads h k long =
    let slots : slots_before (0 + length posts) - slots_before 0 ≡ (length posts + 3) / 5 =
      omega arith in
    let shown = ads-interleave_from 0 posts ads h k in
    rw long ((organic-interleave_from 0 posts ads h k).0, shown ∙ ap (λ n. take n ads) slots)

-- Every organic post stays in its place, and behind the second post and every fifth after it
-- stands the next ad, while there are any; a feed of fewer than two posts has one ad at its end.
-- Assumed: the ads are marked as such, and the posts are not.
pub interleave_ads_lem :
    (posts ads : List Post)
    → matches (λ p. p.is_ad) posts ≡ 0
    → matches organic ads ≡ 0
    → (filter organic (interleave_ads posts ads) ≡ posts)
      × (filter (λ p. p.is_ad) (interleave_ads posts ads)
          ≡ take (if ltb (length posts) 2 then 1 else (length posts + 3) / 5) ads)
unfolding interleave_ads append_first interleave_from filter matches take
interleave_ads_lem [] [] h k = ground arith
interleave_ads_lem [] (ad ∷ ads) h k = ground arith
interleave_ads_lem (p ∷ []) [] h k = ground arith
interleave_ads_lem (p ∷ []) (ad ∷ ads) h k = ground arith
interleave_ads_lem (p ∷ q ∷ ps) ads h k = interleave_long (p ∷ q ∷ ps) ads h k (ground arith)
