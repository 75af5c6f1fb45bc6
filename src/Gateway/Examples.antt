-- ===== src/Gateway/Examples.antt =====
-- The theorems of the gateway at concrete requests.
use social_network_micro_ser.Prelude.{
  codes, text_eq, true, false, [], ◌∷◌, ◌++◌, ◌≡◌, refl, ◌⊎◌, Text, ok, arith,
}
use social_network_micro_ser.Auth.Examples.{sample_env, sample_claims, sample_world}
use social_network_micro_ser.Auth.Tokens.{logout}
use social_network_micro_ser.Gateway.{
  Request, Identity, refused, AuthClient, auth_required, allows_query_token, token_of, header_token,
  split, before_head, token_in, token_after, answer_for,
}
use social_network_micro_ser.Gateway.Passing.{passed_token}
use social_network_micro_ser.Gateway.Session.{client_of, has_space, gateway_refuses_logged_out}

abbrev bearer : Request
bearer = record {
  authorization = codes "Bearer at";
  upgrade = [];
  path = codes "/posts";
  query_token = [];
}

abbrev ann : Identity
ann = record { user_id = codes "u"; email = codes "a@b"; role = codes "USER" }

abbrev everyone_is_ann : AuthClient
everyone_is_ann token = ok (ok ann)

passed_token_example :
    (token : Text) × (everyone_is_ann token ≡ ok (ok ann))
    × (text_eq token [] ≡ false)
    × ((bearer.authorization ≡ codes "Bearer" ++ (32 ∷ token))
        ⊎ ((allows_query_token bearer ≡ true) × (bearer.query_token ≡ token)))
unfolding auth_required token_of header_token split before_head token_in token_after answer_for
    text_eq
passed_token_example = passed_token everyone_is_ann bearer ann refl

gateway_refuses_logged_out_example :
    auth_required
      (client_of sample_env 9 (logout sample_env [] (codes "at") 7 sample_world).1)
      bearer
    ≡ refused 401 (codes "INVALID_OR_EXPIRED_TOKEN") (codes "TOKEN_REVOKED")
unfolding has_space text_eq
gateway_refuses_logged_out_example =
    gateway_refuses_logged_out sample_env refl 7 [] (codes "at") sample_claims 1000 9 sample_world
      bearer tt refl refl refl refl (omega arith) refl
