-- ===== src/Gateway.antt =====
-- api-gateway/middleware/auth_middleware.go: which requests pass, and as whom. Letters are those of
-- ASCII where the case is ignored.
pub mod Passing
pub mod Session
pub mod RateLimit
mod Examples
use social_network_micro_ser.Prelude.{
  ℕ, ◌+◌, Text, codes, text_eq, Bool, not, ◌&&◌, ◌||◌, List, [], ◌∷◌, Outcome, ok, fail,
  if◌then◌else◌, ◌==◌, leb, map,
}
use social_network_micro_ser.Exception.{Err}

-- What the middleware reads of a request; a header or a parameter that is not there is empty.
pub record Request : Type 0 where
  pub authorization : Text
  pub upgrade : Text
  pub path : Text
  pub query_token : Text

pub record Identity : Type 0 where
  pub user_id : Text
  pub email : Text
  pub role : Text

-- A request that passes carries the identity in its headers; one that does not gets a status, a
-- message and the text of the refusal.
pub data Reply : Type 0 where
  passed : Identity → Reply
  refused : ℕ → Text → Text → Reply

-- `ValidateToken` of auth-service: a failed call, or an answer with the reason of a refusal.
abbrev pub AuthClient : Type 0
AuthClient = Text → Outcome Err (Outcome Text Identity)

-- `strings.Split(s, " ")`
unfoldable pub before_head : ℕ → List Text → List Text
before_head c [] = (c ∷ []) ∷ []
before_head c (part ∷ parts) = (c ∷ part) ∷ parts

unfoldable pub split : Text → List Text
unfolding before_head
split [] = [] ∷ []
split (c ∷ cs) = let parts = split cs in if c == 32 then [] ∷ parts else before_head c parts

unfoldable pub token_after : Text → Text → Text
token_after scheme token = if text_eq scheme (codes "Bearer") then token else []

unfoldable pub token_in : List Text → Text
unfolding token_after
token_in [] = []
token_in (scheme ∷ []) = []
token_in (scheme ∷ token ∷ []) = token_after scheme token
token_in (scheme ∷ token ∷ more ∷ parts) = []

unfoldable pub header_token : Text → Text
unfolding split token_in
header_token authorization = if text_eq authorization [] then [] else token_in (split authorization)

unfoldable pub to_lower : Text → Text
to_lower t = map (λ c. if leb 65 c && leb c 90 then c + 32 else c) t

unfoldable pub equal_fold : Text → Text → Bool
unfolding to_lower
equal_fold s t = text_eq (to_lower s) (to_lower t)

unfoldable pub allows_query_token : Request → Bool
unfolding equal_fold
allows_query_token r =
    equal_fold r.upgrade (codes "websocket") || text_eq r.path (codes "/logs/stream")

unfoldable pub token_of : Request → Text
unfolding header_token allows_query_token
token_of r =
    if text_eq (header_token r.authorization) [] && allows_query_token r
    then r.query_token
    else header_token r.authorization

unfoldable pub answer_for : Outcome Err (Outcome Text Identity) → Reply
answer_for (fail e) = refused 503 (codes "AUTH_SERVICE_UNAVAILABLE") []
answer_for (ok (fail reason)) = refused 401 (codes "INVALID_OR_EXPIRED_TOKEN") reason
answer_for (ok (ok who)) = passed who

unfoldable pub auth_required : AuthClient → Request → Reply
unfolding token_of answer_for
auth_required client r =
    if text_eq (token_of r) []
    then refused 401 (codes "UNAUTHORIZED_MISSING_TOKEN") []
    else answer_for (client (token_of r))
