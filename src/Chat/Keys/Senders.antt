-- ===== src/Chat/Keys/Senders.antt =====
-- The sender keys of groups: SaveGroupSenderKeys and GetGroupSenderKeys of
-- chat-service/service/e2e_service.go. An error of one upsert is dropped, as the code does.
use social_network_micro_ser.Prelude.{
  ℕ, ◌+◌, ◌≤◌, Text, text_eq, text_eq_iff, itoa, Bool, true, false, ◌&&◌, List, [], ◌∷◌, ◌≡◌, ◌≢◌,
  refl, arith, Outcome, ok, fail, if◌then◌else◌, bit, matches, ap, ◌∙◌,
}
use social_network_micro_ser.Exception.{Err}
use social_network_micro_ser.Services.Upserts.{upsert_rows}
use social_network_micro_ser.Services.Collections.{Collection, same_key, found_matches}
use social_network_micro_ser.Chat.Keys.{colon, no_single_collection}

pub record SenderKeyUpload : Type 0 where
  pub recipient_id : Text
  pub recipient_device_id : Text
  pub key_generation : ℕ
  pub encrypted_sender_key : Text

pub record SenderKeyRecord : Type 0 where
  pub id : Text
  pub chat_id : Text
  pub sender_id : Text
  pub sender_device_id : Text
  pub recipient_id : Text
  pub recipient_device_id : Text
  pub key_generation : ℕ
  pub encrypted_sender_key : Text

abbrev pub record_id : Text → Text → Text → SenderKeyUpload → Text
record_id chat sender device k =
    colon chat (colon sender (colon device (colon k.recipient_id (itoa k.key_generation))))

abbrev pub sender_key_record : Text → Text → Text → SenderKeyUpload → SenderKeyRecord
sender_key_record chat sender device k = record {
  id = record_id chat sender device k;
  chat_id = chat;
  sender_id = sender;
  sender_device_id = device;
  recipient_id = k.recipient_id;
  recipient_device_id = k.recipient_device_id;
  key_generation = k.key_generation;
  encrypted_sender_key = k.encrypted_sender_key;
}

abbrev pub key_filter : Text → Text → Text → SenderKeyRecord → Bool
key_filter recipient device chat r =
    text_eq r.chat_id chat
    && text_eq r.recipient_id recipient
    && (if text_eq device [] then true else text_eq r.recipient_device_id device)

module _ (has_collection : Bool) (keys : Collection SenderKeyRecord) where
  unfoldable pub upsert_records :
      Text → Text → Text → List SenderKeyUpload → keys.Store → keys.Store
  upsert_records chat sender device [] s = s
  upsert_records chat sender device (k ∷ ks) s =
      upsert_records chat sender device ks
        (keys.upsert (λ r. r.id) (sender_key_record chat sender device k) s).1

  unfoldable pub save_group_sender_keys :
      Text → Text → Text → List SenderKeyUpload → keys.Store → Outcome Err (Unit {0}) × keys.Store
  unfolding upsert_records
  save_group_sender_keys sender chat device ks s =
      if has_collection
      then (ok tt, upsert_records chat sender device ks s)
      else (fail no_single_collection, s)

  unfoldable pub get_group_sender_keys :
      Text → Text → Text → keys.Store → Outcome Err (List SenderKeyRecord)
  get_group_sender_keys recipient device chat s =
      if has_collection
      then keys.find_sorted (key_filter recipient device chat) (λ r. r.key_generation) s
      else ok []

module _ {R : Type 0} (key : R → Text) where
  -- The second of two documents with one key replaces the first.
  upsert_twice :
      (a b : R) (rs : List R)
      → key a ≡ key b
      → upsert_rows
          (same_key key)
          (λ new old. new)
          b
          (upsert_rows (same_key key) (λ new old. new) a rs)
        ≡ upsert_rows (same_key key) (λ new old. new) b rs
  unfolding upsert_rows
  upsert_twice a b [] same = ground (arith, text_eq_iff (key a) (key b))
  upsert_twice a b (r ∷ rs) same = ground (
    arith,
    upsert_twice a b rs same,
    text_eq_iff (key a) (key b),
    text_eq_iff (key r) (key a),
    text_eq_iff (key r) (key b),
  )

  upsert_le :
      (q : R → Bool) (b : R) (rs : List R)
      → matches q (upsert_rows (same_key key) (λ new old. new) b rs) ≤ bit (q b) + matches q rs
  unfolding upsert_rows matches
  upsert_le q b [] = omega arith
  upsert_le q b (r ∷ rs) = ground (arith, upsert_le q b rs)

-- The keys from a device of a sender.
abbrev pub is_from : Text → Text → SenderKeyRecord → Bool
is_from sender device r = text_eq r.sender_id sender && text_eq r.sender_device_id device

module _ (keys : Collection SenderKeyRecord) where
  -- Of the keys of one generation that a device sends to two devices of one recipient in a chat, the
  -- first device gets none: the second key replaces the first. Assumed: the collection answers, has no
  -- key yet from that device for the first one, and the name of the first one is not empty.
  pub first_device_loses :
      (chat sender device : Text) (a b : SenderKeyUpload) (s : keys.Store)
      → keys.Up s
      → a.recipient_id ≡ b.recipient_id
      → a.key_generation ≡ b.key_generation
      → a.recipient_device_id ≢ b.recipient_device_id
      → a.recipient_device_id ≢ []
      → found_matches
          (is_from sender device)
          (get_group_sender_keys true keys a.recipient_id a.recipient_device_id chat s)
        ≡ 0
      → found_matches (is_from sender device) (
          get_group_sender_keys true keys a.recipient_id a.recipient_device_id chat
            (save_group_sender_keys true keys sender chat device (a ∷ b ∷ []) s).1)
        ≡ 0
  unfolding get_group_sender_keys save_group_sender_keys
  first_device_loses chat sender device a b s up to gen differ named absent =
      let ra = sender_key_record chat sender device a in
      let rb = sender_key_record chat sender device b in
      let key = λ (r : SenderKeyRecord). r.id in
      let p = key_filter a.recipient_id a.recipient_device_id chat in
      let q = is_from sender device in
      let s1 = (keys.upsert key ra s).1 in
      let up1 = keys.upsert-Up key ra s up in
      let up2 = keys.upsert-Up key rb s1 up1 in
      let before = keys.sorted_matches p (λ r. r.key_generation) s q up in
      let after = keys.sorted_matches p (λ r. r.key_generation) (keys.upsert key rb s1).1 q up2 in
      let docs1 = keys.docs-upsert key ra s up in
      let docs2 = keys.docs-upsert key rb s1 up1 in
      let same : ra.id ≡ rb.id = rw (to, gen) refl in
      let once = upsert_twice key ra rb (keys.docs s) same in
      let both = λ (r : SenderKeyRecord). p r && q r in
      let le = upsert_le key both rb (keys.docs s) in
      let missed : both rb ≡ false = ground (
        arith,
        text_eq_iff a.recipient_device_id [],
        text_eq_iff b.recipient_device_id a.recipient_device_id,
      ) in
      let docs : keys.docs (keys.upsert key rb s1).1
          ≡ upsert_rows (same_key key) (λ new old. new) rb (keys.docs s) =
        docs2 ∙ ap (upsert_rows (same_key key) (λ new old. new) rb) docs1 ∙ once in
      let none_after : matches both (upsert_rows (same_key key) (λ new old. new) rb (keys.docs s))
          ≡ 0 =
        let le0 : bit (both rb) ≡ 0 = ap bit missed in omega (arith, before) in
      after ∙ ap (matches both) docs ∙ none_after
