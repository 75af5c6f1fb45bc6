-- ===== src/Chat/Keys/Backups.antt =====
-- The backups of keys and the status of the keys of a user: SaveKeyBackup, GetKeyBackup and
-- GetE2EKeyStatus of chat-service/service/e2e_service.go. The request of a backup is the record
-- with a user and a time that the code does not read, and the time of a device is left out.
-- The numbers of a backup are only passed on.
use social_network_micro_ser.Prelude.{
  ℕ, Text, codes, text_eq, Bool, true, false, List, [], ◌∷◌, Option, none, some, Outcome, ok, fail,
  if◌then◌else◌, map,
}
use social_network_micro_ser.Exception.{Err, message}
use social_network_micro_ser.Services.Collections.{Collection}
use social_network_micro_ser.Chat.Keys.{
  DeviceKeyBundle, Env, World, is_pre_key_of, is_bundle_of, count_or_zero, no_single_collection,
}

pub record KeyBackupRecord : Type 0 where
  pub user_id : Text
  pub encrypted_vault : Text
  pub vault_iv : Text
  pub kdf_algorithm : Text
  pub kdf_salt : Text
  pub kdf_memory_kb : ℕ
  pub kdf_iterations : ℕ
  pub kdf_parallelism : ℕ
  pub key_fingerprint : Text
  pub version : ℕ
  pub updated_at : ℕ

pub record DeviceSummary : Type 0 where
  pub device_id : Text
  pub device_name : Text
  pub registration_id : ℕ
  pub remaining_pre_key_count : ℕ

pub record KeyStatusResponse : Type 0 where
  pub is_registered : Bool
  pub devices : List DeviceSummary
  pub has_backup : Bool
  pub backup_key_fingerprint : Text

abbrev pub backup_of : Text → KeyBackupRecord → Bool
backup_of user b = text_eq b.user_id user

abbrev pub stored_backup : Text → KeyBackupRecord → ℕ → KeyBackupRecord
stored_backup user req now = record req { user_id = user; updated_at = now }

abbrev pub unregistered : KeyStatusResponse
unregistered = record {
  is_registered = false;
  devices = [];
  has_backup = false;
  backup_key_fingerprint = [];
}

module _ (has_backups : Bool) (backups : Collection KeyBackupRecord) where
  unfoldable pub save_key_backup :
      Text → KeyBackupRecord → ℕ → backups.Store → Outcome Err (Unit {0}) × backups.Store
  save_key_backup user req now s =
      if has_backups
      then backups.upsert (λ b. b.user_id) (stored_backup user req now) s
      else (fail no_single_collection, s)

  found_backup : Outcome Err (Option KeyBackupRecord) → Outcome Err KeyBackupRecord
  found_backup (ok (some b)) = ok b
  found_backup (ok none) = fail (message (codes "BACKUP_NOT_FOUND"))
  found_backup (fail e) = fail (message (codes "BACKUP_NOT_FOUND"))

  unfoldable pub get_key_backup : Text → backups.Store → Outcome Err KeyBackupRecord
  unfolding found_backup
  get_key_backup user s =
      if has_backups
      then found_backup (backups.find_one (backup_of user) s)
      else fail no_single_collection

  module _ (env : Env) where
    device_summary : Text → World env → DeviceKeyBundle → DeviceSummary
    unfolding count_or_zero
    device_summary user w b = record {
      device_id = b.device_id;
      device_name = b.device_name;
      registration_id = b.registration_id;
      remaining_pre_key_count =
          if env.has_pre_keys
          then count_or_zero env
              (env.pre_keys.count (is_pre_key_of user b.device_id) w.pre_key_docs)
          else 0;
    }

    registered : List DeviceSummary → Outcome Err KeyBackupRecord → KeyStatusResponse
    registered devices (ok b) = record {
      is_registered = true;
      devices = devices;
      has_backup = true;
      backup_key_fingerprint = b.key_fingerprint;
    }
    registered devices (fail e) = record {
      is_registered = true;
      devices = devices;
      has_backup = false;
      backup_key_fingerprint = [];
    }

    bundles_status :
        Outcome Err (List DeviceKeyBundle)
        → Text
        → World env
        → backups.Store
        → Outcome Err KeyStatusResponse
    unfolding device_summary registered
    bundles_status (fail e) user w s = fail e
    bundles_status (ok []) user w s = ok unregistered
    bundles_status (ok (b ∷ bs)) user w s =
        ok (registered (map (device_summary user w) (b ∷ bs)) (get_key_backup user s))

    unfoldable get_e2e_key_status : Text → World env → backups.Store → Outcome Err KeyStatusResponse
    unfolding bundles_status
    get_e2e_key_status user w s =
        if env.has_bundles
        then bundles_status (env.bundles.find_all (is_bundle_of user) w.bundle_docs) user w s
        else ok unregistered
