-- ===== src/Chat/Calls/Listed.antt =====
-- What the keys of a call in Redis say of one another, whatever calls come.
use social_network_micro_ser.Prelude.{
  ℕ, Text, text_eq, text_eq_iff, true, false, ◌||◌, List, [], ◌∷◌, ◌++◌, map, Option, none, some,
  ◌≡◌, refl, arith, if◌then◌else◌,
}
use social_network_micro_ser.Services.Redis.{member}
use social_network_micro_ser.Services.Sets.{Sets}
use social_network_micro_ser.Chat.Calls.Entities.{
  in_call_key, call_key, call_uuid_key, prepared_key, prepared_with, prepared_keys, end_keys,
  delete_keys, set_in_calls, enter_call,
}

pub member-append :
    (k : Text) (xs ys : List Text) → member k (xs ++ ys) ≡ (member k xs || member k ys)
member-append k [] ys = refl
member-append k (x ∷ xs) ys = ground (arith, member-append k xs ys)

member-in_call_keys :
    (u : Text) (us : List Text) → member (in_call_key u) (map in_call_key us) ≡ member u us
unfolding text_eq
member-in_call_keys u [] = refl
member-in_call_keys u (v ∷ us) = ground (arith, member-in_call_keys u us)

call-in_call_keys : (c : Text) (us : List Text) → member (call_key c) (map in_call_key us) ≡ false
unfolding text_eq
call-in_call_keys c [] = refl
call-in_call_keys c (v ∷ us) = ground (arith, call-in_call_keys c us)

-- Neither a user nor a call has the key of a flag.
prepared_with_others :
    (u c v : Text) (us : List Text)
    → (member (in_call_key u) (prepared_with v us) ≡ false)
      × (member (call_key c) (prepared_with v us) ≡ false)
unfolding text_eq
prepared_with_others u c v [] = (refl, refl)
prepared_with_others u c v (x ∷ us) = ground (arith, prepared_with_others u c v us)

prepared_others :
    (u c : Text) (us vs : List Text)
    → (member (in_call_key u) (prepared_keys us vs) ≡ false)
      × (member (call_key c) (prepared_keys us vs) ≡ false)
prepared_others u c [] vs = (refl, refl)
prepared_others u c (v ∷ us) vs = ground (
  arith,
  prepared_with_others u c v vs,
  prepared_others u c us vs,
  member-append (in_call_key u) (prepared_with v vs) (prepared_keys us vs),
  member-append (call_key c) (prepared_with v vs) (prepared_keys us vs),
)

-- The end of a call deletes the keys of its members, and the set of the call alone.
pub end_keys_lem :
    (c u d : Text) (us : List Text)
    → (member (in_call_key u) (end_keys c us) ≡ member u us)
      × (member (call_key d) (end_keys c us) ≡ text_eq c d)
unfolding text_eq
end_keys_lem c u d us =
    let rest = call_key c ∷ call_uuid_key c ∷ [] in
    let flags = prepared_keys us us in
    let (user_free, call_free) = prepared_others u d us us in
    (
      ground (
        arith,
        member-append (in_call_key u) (map in_call_key us) (flags ++ rest),
        member-append (in_call_key u) flags rest,
        member-in_call_keys u us,
      ),
      ground (
        arith,
        member-append (call_key d) (map in_call_key us) (flags ++ rest),
        member-append (call_key d) flags rest,
        call-in_call_keys d us,
      ),
    )

module _ (redis : Sets) where
  pub delete_keys_lem :
      (ks : List Text) (s : redis.Store) (j : Text)
      → redis.Up s
      → (redis.Up (delete_keys redis ks s))
        × (redis.text (delete_keys redis ks s) j ≡ (if member j ks then none else redis.text s j))
        × (redis.members (delete_keys redis ks s) j
            ≡ (if member j ks then [] else redis.members s j))
  unfolding delete_keys
  delete_keys_lem [] s j up = (up, refl, refl)
  delete_keys_lem (k ∷ ks) s j up =
      let (up1, texts, members) = delete_keys_lem ks (redis.del k s) j (redis.del-Up k s up) in
      let text1 = redis.text-del k s j up in
      let members1 = redis.members-del k s j up in (up1, ground arith, ground arith)

  set_in_calls_lem :
      (c : Text) (us : List Text) (s : redis.Store) (u d : Text)
      → redis.Up s
      → let s1 = set_in_calls redis c us s in
        (redis.Up s1)
        × (redis.text s1 (in_call_key u)
            ≡ (if member u us then some c else redis.text s (in_call_key u)))
        × (redis.members s1 (call_key d) ≡ redis.members s (call_key d))
  unfolding set_in_calls text_eq
  set_in_calls_lem c [] s u d up = (up, refl, refl)
  set_in_calls_lem c (v ∷ us) s u d up =
      let (up1, texts, members) =
        set_in_calls_lem c us (redis.set (in_call_key v) c none s) u d
          (redis.set-Up (in_call_key v) c none s up) in
      let text1 = redis.text-set (in_call_key v) c none s (in_call_key u) up in
      let members1 = redis.members-set (in_call_key v) c none s (call_key d) up refl in
      (up1, ground arith, ground arith)

  pub enter_call_lem :
      (c : Text) (us ids : List Text) (s : redis.Store) (u d : Text)
      → redis.Up s
      → let s1 = enter_call redis c us ids s in
        (redis.Up s1)
        × (redis.text s1 (in_call_key u)
            ≡ (if member u us then some c else redis.text s (in_call_key u)))
        × (member u (redis.members s1 (call_key d)) ≡ (
            if text_eq c d
            then member u us || member u (redis.members s (call_key d))
            else member u (redis.members s (call_key d))))
  unfolding enter_call text_eq
  enter_call_lem c us ids s u d up =
      let s1 = set_in_calls redis c us s in
      let (up1, texts, members) = set_in_calls_lem c us s u d up in
      let s2 = redis.sadd (call_key c) us s1 in
      let up2 = redis.sadd-Up (call_key c) us s1 up1 in
      let text2 = redis.text-sadd (call_key c) us s1 (in_call_key u) up1 refl in
      let members2 = redis.member-sadd (call_key c) us s1 (call_key d) u up1 in
      let text3 = redis.text-sadd (call_uuid_key c) ids s2 (in_call_key u) up2 refl in
      let members3 = redis.member-sadd (call_uuid_key c) ids s2 (call_key d) u up2 in
      (redis.sadd-Up (call_uuid_key c) ids s2 up2, ground arith, ground arith)

  -- Whoever is in a call is a member of that call.
  pub record IsListed (s : redis.Store) : Type 0 where
    pub up : redis.Up s
    pub listed :
        (u c : Text)
        → redis.text s (in_call_key u) ≡ some c
        → member u (redis.members s (call_key c)) ≡ true

  pub enter_call-IsListed :
      (c : Text) (us ids : List Text) (s : redis.Store)
      → IsListed s
      → IsListed (enter_call redis c us ids s)
  enter_call-IsListed c us ids s h = record {
    up = (enter_call_lem c us ids s c c h.up).0;
    listed = λ u d in_call.
        let (up1, texts, members) = enter_call_lem c us ids s u d h.up in
        let before = h.listed u d in ground (arith, text_eq_iff c d);
  }

  pub end_keys-IsListed :
      (c : Text) (s : redis.Store)
      → IsListed s
      → IsListed (delete_keys redis (end_keys c (redis.members s (call_key c))) s)
  end_keys-IsListed c s h =
      let us = redis.members s (call_key c) in
      record {
        up = (delete_keys_lem (end_keys c us) s c h.up).0;
        listed = λ u d in_call.
            let (user_key, set_key) = end_keys_lem c u d us in
            let (up1, texts, m1) = delete_keys_lem (end_keys c us) s (in_call_key u) h.up in
            let (up2, t2, members) = delete_keys_lem (end_keys c us) s (call_key d) h.up in
            let before = h.listed u d in ground (arith, text_eq_iff c d);
      }

  pub flag-IsListed :
      (a b v : Text) (d : Option ℕ) (s : redis.Store)
      → IsListed s
      → IsListed (redis.set (prepared_key a b) v d s)
  unfolding text_eq
  flag-IsListed a b v d s h = record {
    up = redis.set-Up (prepared_key a b) v d s h.up;
    listed = λ u c in_call.
        let text1 = redis.text-set (prepared_key a b) v d s (in_call_key u) h.up in
        let members1 = redis.members-set (prepared_key a b) v d s (call_key c) h.up refl in
        let before = h.listed u c in ground arith;
  }

  pub lapse-IsListed :
      (a b : Text) (s : redis.Store) → IsListed s → IsListed (redis.del (prepared_key a b) s)
  unfolding text_eq
  lapse-IsListed a b s h = record {
    up = redis.del-Up (prepared_key a b) s h.up;
    listed = λ u c in_call.
        let text1 = redis.text-del (prepared_key a b) s (in_call_key u) h.up in
        let members1 = redis.members-del (prepared_key a b) s (call_key c) h.up in
        let before = h.listed u c in ground arith;
  }
