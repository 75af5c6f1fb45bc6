-- ===== src/Chat/Keys/Samples.antt =====
-- The theorems on the keys of end-to-end encryption with collections in memory.
use social_network_micro_ser.Prelude.{
  ℕ, ◌+◌, ◌≤◌, codes, true, [], ◌∷◌, ◌≡◌, refl, List, arith, text_eq, matches,
}
use social_network_micro_ser.Prelude.Sort.{filter, stable_sort}
use social_network_micro_ser.Services.Collections.{
  list_collection, found_matches, insert_rows, take_row,
}
use social_network_micro_ser.Services.Upserts.{upsert_rows}
use social_network_micro_ser.Chat.Keys.{
  DeviceKeyBundle, OneTimePreKey, RegisterKeysRequest, Env, World, get_pre_key_bundle,
  register_device_keys, insert_pre_keys, device_bundles, take_pre_key,
}
use social_network_micro_ser.Chat.Keys.Backups.{KeyBackupRecord}
use social_network_micro_ser.Chat.Keys.Once.{
  Call, register_keys, fetch, run_calls, handed, uploads, left, run_calls-le,
}
use social_network_micro_ser.Chat.Keys.Senders.{
  SenderKeyUpload, SenderKeyRecord, is_from, get_group_sender_keys, save_group_sender_keys,
  first_device_loses,
}

abbrev sample_env : Env
sample_env = record {
  has_bundles = true;
  bundles = list_collection DeviceKeyBundle;
  has_pre_keys = true;
  pre_keys = list_collection OneTimePreKey;
}

abbrev no_keys : World sample_env
no_keys = record { bundle_docs = []; pre_key_docs = []; events = [] }

abbrev a_phone : RegisterKeysRequest
a_phone = record {
  bundle = record {
    id = [];
    user_id = [];
    device_id = codes "d1";
    device_name = codes "phone";
    registration_id = 1;
    identity_key_pub = codes "ik";
    signed_pre_key_id = 2;
    signed_pre_key_pub = codes "spk";
    signed_pre_key_sig = codes "sig";
  };
  one_time_pre_keys = (7, codes "k7") ∷ [];
}

abbrev two_fetches : List Call
two_fetches = register_keys (codes "ann") a_phone ∷ fetch (codes "ann") ∷ fetch (codes "ann") ∷ []

handed_once : handed (codes "ann") (codes "d1") 7 (run_calls sample_env two_fetches no_keys).0 ≡ 1
unfolding handed run_calls register_device_keys get_pre_key_bundle filter insert_pre_keys
    upsert_rows text_eq matches device_bundles take_pre_key take_row insert_rows
handed_once = refl

run_calls-le_example :
    let (out, w) = run_calls sample_env two_fetches no_keys in
    handed (codes "ann") (codes "d1") 7 out + left (codes "ann") (codes "d1") 7 sample_env w
    ≤ uploads (codes "ann") (codes "d1") 7 two_fetches
      + left (codes "ann") (codes "d1") 7 sample_env no_keys
run_calls-le_example = run_calls-le (codes "ann") (codes "d1") 7 sample_env two_fetches no_keys

abbrev key_for : ℕ → SenderKeyUpload
key_for n = record {
  recipient_id = codes "bob";
  recipient_device_id = n ∷ [];
  key_generation = 3;
  encrypted_sender_key = codes "key";
}

first_device_loses_example :
    found_matches (is_from (codes "ann") (codes "d1")) (
      get_group_sender_keys true
        (list_collection SenderKeyRecord)
        (codes "bob")
        (49 ∷ [])
        (codes "c")
        (save_group_sender_keys true
          (list_collection SenderKeyRecord)
          (codes "ann")
          (codes "c")
          (codes "d1")
          (key_for 49 ∷ key_for 50 ∷ [])
          []).1)
    ≡ 0
unfolding get_group_sender_keys matches stable_sort filter
first_device_loses_example =
    first_device_loses (list_collection SenderKeyRecord) (codes "c") (codes "ann") (codes "d1")
      (key_for 49) (key_for 50) [] tt refl refl (λ h. ground arith) (λ h. cc) refl

abbrev a_backup : KeyBackupRecord
a_backup = record {
  user_id = [];
  encrypted_vault = codes "vault";
  vault_iv = codes "iv";
  kdf_algorithm = codes "argon2id";
  kdf_salt = codes "salt";
  kdf_memory_kb = 65536;
  kdf_iterations = 3;
  kdf_parallelism = 1;
  key_fingerprint = codes "fp";
  version = 2;
  updated_at = 0;
}
