-- ===== src/Chat/Keys.antt =====
-- The keys of end-to-end encryption: chat-service/service/e2e_service.go with the documents of
-- chat-service/model/model.go. Of a document the names of the algorithms, the header of a sender key and
-- the times are left out. The count of the keys that are left is made in a goroutine; here it is made
-- at once.
pub mod Once
pub mod Senders
pub mod Backups
mod Samples
use social_network_micro_ser.Prelude.{
  ℕ, Text, codes, text_eq, itoa, Bool, true, false, not, ◌&&◌, ◌||◌, List, [], ◌∷◌, ◌++◌, map,
  Option, none, some, Outcome, ok, fail, if◌then◌else◌, ltb,
}
use social_network_micro_ser.Exception.{Err, message}
use social_network_micro_ser.Services.Collections.{Collection}

pub record DeviceKeyBundle : Type 0 where
  pub id : Text
  pub user_id : Text
  pub device_id : Text
  pub device_name : Text
  pub registration_id : ℕ
  pub identity_key_pub : Text
  pub signed_pre_key_id : ℕ
  pub signed_pre_key_pub : Text
  pub signed_pre_key_sig : Text

pub record OneTimePreKey : Type 0 where
  pub id : Text
  pub user_id : Text
  pub device_id : Text
  pub key_id : ℕ
  pub public_key : Text

-- `key_id` and `public_key` of an upload.
abbrev pub Upload : Type 0
Upload = ℕ × Text

-- The bundle of the request has neither the identity nor the user yet.
pub record RegisterKeysRequest : Type 0 where
  pub bundle : DeviceKeyBundle
  pub one_time_pre_keys : List Upload

pub record DevicePreKeyBundle : Type 0 where
  pub device_id : Text
  pub registration_id : ℕ
  pub identity_key_pub : Text
  pub signed_pre_key_id : ℕ
  pub signed_pre_key_pub : Text
  pub signed_pre_key_sig : Text
  pub one_time : Option Upload

pub record PreKeyBundleResponse : Type 0 where
  pub user_id : Text
  pub devices : List DevicePreKeyBundle

pub data Event : Type 0 where
  low_pre_keys : Text → Text → ℕ → Event

-- Whether a collection is there, and the collection.
pub record Env : Type 1 where
  pub has_bundles : Bool
  pub bundles : Collection DeviceKeyBundle
  pub has_pre_keys : Bool
  pub pre_keys : Collection OneTimePreKey

pub record World (env : Env) : Type 0 where
  pub bundle_docs : env.bundles.Store
  pub pre_key_docs : env.pre_keys.Store
  pub events : List Event

abbrev pub colon : Text → Text → Text
colon a b = a ++ (codes ":" ++ b)

abbrev pub pre_key_doc : Text → Text → Upload → OneTimePreKey
pre_key_doc user device (key_id, public_key) = record {
  id = colon user (colon device (itoa key_id));
  user_id = user;
  device_id = device;
  key_id = key_id;
  public_key = public_key;
}

abbrev pub pre_key_docs : Text → Text → List Upload → List OneTimePreKey
pre_key_docs user device = map (pre_key_doc user device)

abbrev pub is_pre_key_of : Text → Text → OneTimePreKey → Bool
is_pre_key_of user device k = text_eq k.user_id user && text_eq k.device_id device

abbrev pub is_bundle_of : Text → DeviceKeyBundle → Bool
is_bundle_of user b = text_eq b.user_id user

abbrev pub has_doc_id : Text → DeviceKeyBundle → Bool
has_doc_id id b = text_eq b.id id

abbrev pub stored_bundle : Text → DeviceKeyBundle → DeviceKeyBundle
stored_bundle user b = record b { id = colon user b.device_id; user_id = user }

abbrev pub upload_of : Outcome Err (Option OneTimePreKey) → Option Upload
upload_of (ok (some k)) = some (k.key_id, k.public_key)
upload_of (ok none) = none
upload_of (fail e) = none

abbrev pub no_single_collection : Err
no_single_collection = message (codes "database collection not initialized")

abbrev pub no_collection : Err
no_collection = message (codes "database collections not initialized")

module _ (env : Env) where
  unfoldable pub insert_pre_keys : Text → Text → List Upload → World env → World env
  insert_pre_keys user device [] w = w
  insert_pre_keys user device (u ∷ us) w = record w {
    pre_key_docs =
        env.pre_keys.insert_many (λ k. k.id) (pre_key_docs user device (u ∷ us)) w.pre_key_docs;
  }

  after_upsert :
      Outcome Err (Unit {0})
      → Text
      → RegisterKeysRequest
      → World env
      → Outcome Err (Unit {0}) × World env
  after_upsert (fail e) user req w = (fail e, w)
  after_upsert (ok _) user req w =
      (ok tt, insert_pre_keys user req.bundle.device_id req.one_time_pre_keys w)

  unfoldable pub register_device_keys :
      Text → RegisterKeysRequest → World env → Outcome Err (Unit {0}) × World env
  unfolding after_upsert
  register_device_keys user req w =
      let (answer, bundles) =
        env.bundles.upsert (λ b. b.id) (stored_bundle user req.bundle) w.bundle_docs in
      if not env.has_bundles || not env.has_pre_keys
      then (fail no_collection, w)
      else after_upsert answer user req (record w { bundle_docs = bundles })

  unfoldable pub count_or_zero : Outcome Err ℕ → ℕ
  count_or_zero (ok n) = n
  count_or_zero (fail e) = 0

  unfoldable pub add_one_time_pre_keys :
      Text → Text → List Upload → World env → Outcome Err ℕ × World env
  unfolding count_or_zero
  add_one_time_pre_keys user device uploads w =
      let w1 = insert_pre_keys user device uploads w in
      if not env.has_pre_keys
      then (fail no_single_collection, w)
      else (ok (count_or_zero (env.pre_keys.count (is_pre_key_of user device) w1.pre_key_docs)), w1)

  notice : Outcome Err ℕ → Text → Text → World env → World env
  notice (fail e) user device w = w
  notice (ok n) user device w =
      if ltb n 15 then record w { events = low_pre_keys user device n ∷ w.events } else w

  notice_low : Option Upload → Text → Text → World env → World env
  unfolding notice
  notice_low none user device w = w
  notice_low (some u) user device w =
      notice (env.pre_keys.count (is_pre_key_of user device) w.pre_key_docs) user device w

  -- One of the keys of the device leaves the collection, if there is one.
  unfoldable pub take_pre_key : Text → Text → World env → Option Upload × World env
  unfolding notice_low
  take_pre_key user device w =
      let (answer, docs) =
        env.pre_keys.find_one_and_delete (is_pre_key_of user device) w.pre_key_docs in
      let w1 = record w { pre_key_docs = docs } in
      if env.has_pre_keys
      then (upload_of answer, notice_low (upload_of answer) user device w1)
      else (none, w)

  device_bundle : DeviceKeyBundle → Option Upload → DevicePreKeyBundle
  device_bundle b one_time = record {
    device_id = b.device_id;
    registration_id = b.registration_id;
    identity_key_pub = b.identity_key_pub;
    signed_pre_key_id = b.signed_pre_key_id;
    signed_pre_key_pub = b.signed_pre_key_pub;
    signed_pre_key_sig = b.signed_pre_key_sig;
    one_time = one_time;
  }

  unfoldable pub device_bundles :
      Text → List DeviceKeyBundle → World env → List DevicePreKeyBundle × World env
  unfolding device_bundle
  device_bundles user [] w = ([], w)
  device_bundles user (b ∷ bs) w =
      let (one_time, w1) = take_pre_key user b.device_id w in
      let (rest, w2) = device_bundles user bs w1 in (device_bundle b one_time ∷ rest, w2)

  bundle_response :
      Outcome Err (List DeviceKeyBundle)
      → Text
      → World env
      → Outcome Err PreKeyBundleResponse × World env
  bundle_response (fail e) user w = (fail e, w)
  bundle_response (ok []) user w = (fail (message (codes "USER_KEYS_NOT_FOUND")), w)
  bundle_response (ok (b ∷ bs)) user w =
      let (devices, w1) = device_bundles user (b ∷ bs) w in
      (ok (record { user_id = user; devices = devices }), w1)

  unfoldable pub get_pre_key_bundle :
      Text → World env → Outcome Err PreKeyBundleResponse × World env
  unfolding bundle_response
  get_pre_key_bundle user w =
      if env.has_bundles
      then bundle_response (env.bundles.find_all (is_bundle_of user) w.bundle_docs) user w
      else (fail no_collection, w)

  unfoldable pub revoke_device : Text → Text → World env → World env
  revoke_device user device w = record w {
    bundle_docs =
        if env.has_bundles
        then env.bundles.delete_many (has_doc_id (colon user device)) w.bundle_docs
        else w.bundle_docs;
    pre_key_docs =
        if env.has_pre_keys
        then env.pre_keys.delete_many (is_pre_key_of user device) w.pre_key_docs
        else w.pre_key_docs;
  }
