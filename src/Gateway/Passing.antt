-- ===== src/Gateway/Passing.antt =====
-- Which requests pass the middleware of the gateway.
use social_network_micro_ser.Prelude.{
  ℕ, Text, codes, text_eq, text_eq_iff, text_eq_refl, true, false, List, [], ◌∷◌, ◌++◌, ◌≡◌, refl,
  ◌⊎◌, inl, inr, Outcome, ok, arith, Bool-cases, ◌==◌, ◌∙◌, sym, ap, if◌then◌else◌,
}
use social_network_micro_ser.Exception.{Err}
use social_network_micro_ser.Gateway.{
  Request, Identity, passed, AuthClient, before_head, split, token_after, token_in, header_token,
  allows_query_token, token_of, answer_for, auth_required,
}

-- The parts with a space between each two of them.
join : List Text → Text
join [] = []
join (part ∷ []) = part
join (part ∷ next ∷ parts) = part ++ (32 ∷ join (next ∷ parts))

join-before_head :
    (c : ℕ) (part : Text) (parts : List Text)
    → join (before_head c (part ∷ parts)) ≡ c ∷ join (part ∷ parts)
unfolding join before_head
join-before_head c part [] = refl
join-before_head c part (next ∷ parts) = refl

split_nonempty : (s : Text) → (part : Text) × (parts : List Text) × (split s ≡ part ∷ parts)
unfolding split before_head
split_nonempty [] = ([], [], refl)
split_nonempty (c ∷ cs) =
    let (part, parts, e) = split_nonempty cs in
    elim (Bool-cases (c == 32)) [
      | inl space ↦ ([], split cs, ground arith)
      | inr other ↦ (c ∷ part, parts, ground arith)
    ]

join-step :
    (c : ℕ) (s part : Text) (parts : List Text)
    → join (part ∷ parts) ≡ s
    → join (if c == 32 then [] ∷ part ∷ parts else before_head c (part ∷ parts)) ≡ c ∷ s
unfolding join
join-step c s part parts e =
    let head = join-before_head c part parts in
    elim (Bool-cases (c == 32)) [ inl space ↦ ground arith | inr other ↦ ground arith ]

join-split : (s : Text) → join (split s) ≡ s
unfolding join split
join-split [] = refl
join-split (c ∷ cs) =
    let (part, parts, e) = split_nonempty cs in
    rw e (join-step c cs part parts (ap join (sym e) ∙ join-split cs))

token_parts :
    (parts : List Text) (token : Text)
    → token_in parts ≡ token
    → text_eq token [] ≡ false
    → join parts ≡ codes "Bearer" ++ (32 ∷ token)
unfolding token_in token_after join
token_parts [] token h there = ground (arith, text_eq_refl [])
token_parts (scheme ∷ []) token h there = ground (arith, text_eq_refl [])
token_parts (scheme ∷ t ∷ []) token h there =
    ground (arith, text_eq_iff scheme (codes "Bearer"), text_eq_refl [])
token_parts (scheme ∷ t ∷ more ∷ parts) token h there = ground (arith, text_eq_refl [])

-- A header that gives a token is the word Bearer, a space and the token.
header_token_lem :
    (authorization : Text)
    → text_eq (header_token authorization) [] ≡ false
    → authorization ≡ codes "Bearer" ++ (32 ∷ header_token authorization)
unfolding header_token
header_token_lem authorization there = elim (Bool-cases (text_eq authorization [])) [
  | inl empty ↦ absurd (ground (arith, text_eq_refl []))
  | inr full ↦
      let parts = token_parts (split authorization) (token_in (split authorization)) refl in
      ground (arith, parts, join-split authorization)
]

answer_passed :
    (o : Outcome Err (Outcome Text Identity)) (who : Identity)
    → answer_for o ≡ passed who
    → o ≡ ok (ok who)
unfolding answer_for
answer_passed o who h = ground arith

-- A request that passes has a token that the auth service answered with just this identity, and
-- the token stands in the Authorization header after the word Bearer and a space, or else it is the
-- query parameter of a request that may send it so. Nothing is assumed.
pub passed_token :
    (client : AuthClient) (r : Request) (who : Identity)
    → auth_required client r ≡ passed who
    → (token : Text) × (client token ≡ ok (ok who))
      × (text_eq token [] ≡ false)
      × ((r.authorization ≡ codes "Bearer" ++ (32 ∷ token))
          ⊎ ((allows_query_token r ≡ true) × (r.query_token ≡ token)))
unfolding auth_required token_of answer_for
passed_token client r who h = elim (Bool-cases (text_eq (header_token r.authorization) [])) [
  | inr there ↦ (
    header_token r.authorization,
    answer_passed (client (header_token r.authorization)) who (ground arith),
    there,
    inl (header_token_lem r.authorization there),
  )
  | inl empty ↦ elim (Bool-cases (allows_query_token r)) [
    | inl allowed ↦ (
      r.query_token,
      answer_passed (client r.query_token) who (ground arith),
      ground arith,
      inr (allowed, refl),
    )
    | inr forbidden ↦ absurd (ground arith)
  ]
]
