-- ===== src/Social/Requests.antt =====
-- What a friend request shows in the profiles of the two users, in user-service/service/friend.go
-- and user-service/repository/sql_user_repository.go.
use social_network_micro_ser.Prelude.{
  ◌<◌, Text, text_eq, text_eq_iff, text_eq_refl, Bool, true, false, some, none, ◌≡◌, refl, ok,
  arith, ◌∙◌, ◌&&◌, ap, inl, inr, Option-cases, List, [], ◌∷◌,
}
use social_network_micro_ser.Services.Database.{first_of_rows}
use social_network_micro_ser.Services.Relation.{matches, matches-ext, first-matches}
use social_network_micro_ser.Social.Env.{
  Profile, UserEntity, FriendRequestEntity, Env, World, outgoing, incoming,
}
use social_network_micro_ser.Social.Repository.{
  is_named, request_edge, requests_between, find_profile, profile_of, target_user, insert_request,
  pending,
}
use social_network_micro_ser.Social.Service.{clear_suggested, send_friend_request, send_as, send_to}
use social_network_micro_ser.Social.Calls.{SameTables, clear_suggested-SameTables}
use social_network_micro_ser.Social.Effects.{IsUp, Known}

first_none-matches :
    {R : Type 0} (p : R → Bool) (rs : List R) → first_of_rows p rs ≡ none → matches p rs ≡ 0
unfolding matches
first_none-matches p [] h = refl
first_none-matches p (x ∷ rs) h = ground (arith, first_none-matches p rs)

found-matches :
    {R : Type 0} (p q : R → Bool) (rs : List R) (r : R)
    → first_of_rows p rs ≡ some r
    → q r ≡ true
    → 0 < matches q rs
unfolding matches
found-matches p q [] r h hit = cc
found-matches p q (x ∷ rs) r h hit = ground (arith, found-matches p q rs r)

first-ext :
    {R : Type 0} (p q : R → Bool) (rs : List R)
    → ((r : R) → p r ≡ q r)
    → first_of_rows p rs ≡ first_of_rows q rs
first-ext p q [] h = refl
first-ext p q (r ∷ rs) h = ground (arith, h r, first-ext p q rs h)

-- The query of the other user asks for the same rows.
first-swapped :
    (c d : Text) (rs : List FriendRequestEntity)
    → first_of_rows (requests_between d c) rs ≡ first_of_rows (requests_between c d) rs
first-swapped c d rs =
    first-ext (requests_between d c) (requests_between c d) rs (λ r. ground arith)

sender_found :
    (c d : Text) (rs : List FriendRequestEntity)
    → 0 < matches (requests_between c d) rs
    → matches (request_edge d c) rs ≡ 0
    → (r : FriendRequestEntity) × (first_of_rows (requests_between c d) rs ≡ some r)
      × (r.sender_id ≡ c)
sender_found c d rs some_there none_back =
    elim (Option-cases (first_of_rows (requests_between c d) rs)) [
      | inl missing ↦ absurd (ground (arith, first_none-matches (requests_between c d) rs missing))
      | inr (r, found) ↦
          let hit = first-matches (requests_between c d) rs r found in
          let back = found-matches (requests_between c d) (request_edge d c) rs r found in
          (r, found, ground (arith, text_eq_iff r.sender_id c))
    ]

module _ (env : Env)
    (index : (r e : FriendRequestEntity)
      → env.requests.same_key r e ≡ request_edge r.sender_id r.receiver_id e)
    (c t : Text) (me u : UserEntity) (w : World env) (up : IsUp env w)
    (known : Known env c t me u w)
    (by_id : env.users.first (is_named u.id) w.users ≡ ok (some u)) where
  sent : FriendRequestEntity
  sent = record { sender_id = c; receiver_id = u.id; status = pending }

  requested : World env
  unfolding sent
  requested = record w { requests = (env.requests.create sent w.requests).1 }

  cleared : World env
  unfolding requested
  cleared = (clear_suggested env u.id (clear_suggested env c requested).1).1

  sent_once :
      matches (request_edge c u.id) (env.requests.rows w.requests) ≡ 0
      → (env.requests.create sent w.requests).0 ≡ ok tt
  unfolding sent
  sent_once fresh =
      let e =
        matches-ext (env.requests.same_key sent) (request_edge c u.id)
          (env.requests.rows w.requests) (index sent) in
      ground (arith, env.requests.create_up sent w.requests up.requests, e)

  send_done :
      text_eq c u.id ≡ false
      → matches (request_edge c u.id) (env.requests.rows w.requests) ≡ 0
      → matches
          (λ e. text_eq e.sender_id c && text_eq e.status pending)
          (env.requests.rows w.requests)
        < env.limits.max_sent_request_count
      → send_friend_request env c t w ≡ (ok tt, cleared)
  unfolding send_friend_request send_as send_to find_profile profile_of insert_request target_user
      cleared requested clear_suggested sent
  send_done apart fresh below =
      let count =
        env.requests.count_up (λ e. text_eq e.sender_id me.id && text_eq e.status pending)
          w.requests up.requests in
      let created = sent_once fresh in
      ground (arith, known.caller, known.other, known.own_id, by_id)

  -- The request that the table then holds between the two is the one that was sent.
  sent_found :
      text_eq c u.id ≡ false
      → matches (request_edge c u.id) (env.requests.rows w.requests) ≡ 0
      → matches (request_edge u.id c) (env.requests.rows w.requests) ≡ 0
      → (r : FriendRequestEntity) × (env.requests.first (requests_between c u.id) requested.requests
          ≡ ok (some r))
        × (env.requests.first (requests_between u.id c) requested.requests ≡ ok (some r))
        × (r.sender_id ≡ c)
  unfolding requested sent
  sent_found apart fresh none_back =
      let same =
        matches-ext (env.requests.same_key sent) (request_edge c u.id)
          (env.requests.rows w.requests) (index sent) in
      let between =
        env.requests.matches-create (requests_between c u.id) sent w.requests up.requests in
      let back = env.requests.matches-create (request_edge u.id c) sent w.requests up.requests in
      let (r, found, from) =
        sender_found c u.id (env.requests.rows requested.requests)
          (ground (arith, same, between, text_eq_refl c, text_eq_refl u.id))
          (ground (arith, same, back)) in
      let up' = env.requests.create-Up sent w.requests up.requests in
      let mine = env.requests.first_up (requests_between c u.id) requested.requests up' in
      let theirs = env.requests.first_up (requests_between u.id c) requested.requests up' in
      let swapped = first-swapped c u.id (env.requests.rows requested.requests) in
      (r, mine ∙ ap ok found, theirs ∙ ap ok (swapped ∙ found), from)

  cleared-SameTables : SameTables env requested cleared
  unfolding cleared
  cleared-SameTables =
      let w2 = (clear_suggested env c requested).1 in
      let k = clear_suggested-SameTables env c requested in
      let l = clear_suggested-SameTables env u.id w2 in
      record {
        users = l.users ∙ k.users;
        friends = l.friends ∙ k.friends;
        requests = l.requests ∙ k.requests;
        blocks = l.blocks ∙ k.blocks;
      }

  -- A request below the limit succeeds; then the sender sees it as outgoing in the profile of the
  -- other user, and that user sees it as incoming in the profile of the sender. Assumed: the tables
  -- answer, the two users are found and are not the same, their ids are not empty, there is no
  -- request between them yet, and the unique index of the requests is the pair of the two ids.
  pub send_shows :
      text_eq c u.id ≡ false
      → text_eq c [] ≡ false
      → text_eq u.id [] ≡ false
      → matches (request_edge c u.id) (env.requests.rows w.requests) ≡ 0
      → matches (request_edge u.id c) (env.requests.rows w.requests) ≡ 0
      → matches
          (λ e. text_eq e.sender_id c && text_eq e.status pending)
          (env.requests.rows w.requests)
        < env.limits.max_sent_request_count
      → let r = send_friend_request env c t w in
        (r.0 ≡ ok tt)
        × ((p : Profile) × ((find_profile env t c r.1).0 ≡ ok p) × (p.request ≡ outgoing))
        × ((p : Profile) × ((find_profile env c u.id r.1).0 ≡ ok p) × (p.request ≡ incoming))
  unfolding find_profile profile_of requested
  send_shows apart there there' fresh none_back below =
      let e = send_done apart fresh below in
      let k = cleared-SameTables in
      let (r, mine, theirs, from) = sent_found apart fresh none_back in
      let swapped : text_eq u.id c ≡ false =
        ground (arith, text_eq_iff c u.id, text_eq_iff u.id c) in
      rw e (
        refl,
        (
          profile_of env u c cleared,
          ground (arith, k.users, known.other),
          ground (arith, k.requests, text_eq_iff r.sender_id c),
        ),
        (
          profile_of env me u.id cleared,
          ground (arith, k.users, known.caller),
          ground (arith, k.requests, known.own_id, text_eq_iff r.sender_id u.id),
        ),
      )
