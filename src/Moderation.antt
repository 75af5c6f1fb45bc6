-- ===== src/Moderation.antt =====
-- internal/moderation/moderation.go: the categories of a moderation result.
pub mod Categories
pub mod Items
pub mod Repository
pub mod Queue
pub mod Actions
pub mod Calls
pub mod Status
pub mod Stored
pub mod Refinement
pub mod Failures
mod Samples
use social_network_micro_ser.Prelude.{
  Text, codes, text_eq, Bool, not, ◌&&◌, List, [], ◌∷◌, if◌then◌else◌,
}
use social_network_micro_ser.Services.Redis.{member}

abbrev pub valid_categories : List Text
valid_categories =
    codes "SPAM"
    ∷ codes "TOXIC"
    ∷ codes "HARASSMENT"
    ∷ codes "SEXUAL"
    ∷ codes "VIOLENCE"
    ∷ codes "SCAM"
    ∷ codes "HATE"
    ∷ codes "SELF_HARM"
    ∷ []

unfoldable pub is_valid_category : Text → Bool
is_valid_category c = member c valid_categories

-- The loop, with the categories that were seen.
unfoldable pub normalize_from : List Text → List Text → List Text
normalize_from seen [] = []
normalize_from seen (c ∷ cs) =
    let kept = c ∷ normalize_from (c ∷ seen) cs in
    let skipped = normalize_from seen cs in
    if is_valid_category c && not (member c seen) then kept else skipped

unfoldable pub normalize_categories : List Text → List Text
unfolding normalize_from
normalize_categories cs = normalize_from [] cs
