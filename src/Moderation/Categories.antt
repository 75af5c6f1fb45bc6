-- ===== src/Moderation/Categories.antt =====
-- What `NormalizeCategories` keeps.
use social_network_micro_ser.Prelude.{
  ℕ, Text, text_eq, text_eq_iff, true, not, ◌&&◌, List, [], ◌∷◌, ◌≡◌, refl, arith,
}
use social_network_micro_ser.Services.Redis.{member}
use social_network_micro_ser.Services.Relation.{bit, matches}
use social_network_micro_ser.Moderation.{is_valid_category, normalize_from, normalize_categories}

abbrev pub occurrences : Text → List Text → ℕ
occurrences c cs = matches (λ x. text_eq x c) cs

member_same : (c x : Text) (js : List Text) → text_eq x c ≡ true → member x js ≡ member c js
member_same c x js h = let e = (text_eq_iff x c).0 h in rw e refl

valid_same : (c x : Text) → text_eq x c ≡ true → is_valid_category x ≡ is_valid_category c
valid_same c x h = let e = (text_eq_iff x c).0 h in rw e refl

occurrences-normalize_from :
    (seen cs : List Text) (c : Text)
    → occurrences c (normalize_from seen cs)
      ≡ bit (is_valid_category c && member c cs && not (member c seen))
unfolding matches normalize_from
occurrences-normalize_from seen [] c = ground arith
occurrences-normalize_from seen (x ∷ cs) c = ground (
  arith,
  occurrences-normalize_from seen cs c,
  occurrences-normalize_from (x ∷ seen) cs c,
  member_same c x seen,
  valid_same c x,
)

-- Every valid category that is given is kept exactly once, and nothing else.
pub occurrences-normalize_categories :
    (cs : List Text) (c : Text)
    → occurrences c (normalize_categories cs) ≡ bit (is_valid_category c && member c cs)
unfolding normalize_categories
occurrences-normalize_categories cs c = ground (arith, occurrences-normalize_from [] cs c)
