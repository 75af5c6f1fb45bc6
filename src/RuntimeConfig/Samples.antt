-- ===== src/RuntimeConfig/Samples.antt =====
-- The theorem on the runtime configuration with a hash of one value.
use social_network_micro_ser.Prelude.{
  Text, atoi, codes, [], ◌∷◌, Option, some, ◌≡◌, refl, ok, negsuc, ℕ,
}
use social_network_micro_ser.RuntimeConfig.{ConfigValue, Answer, parse_int}

abbrev plain : Text → Option ConfigValue
plain raw = some (record { key = []; value = raw })

abbrev one_value : ℕ → Answer
one_value now = ok ((codes "post.max_page_limit", codes "50") ∷ [])

negative_int : parse_int (codes "-12") ≡ some (negsuc 11)
unfolding parse_int atoi
negative_int = refl
