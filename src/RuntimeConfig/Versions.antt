-- ===== src/RuntimeConfig/Versions.antt =====
-- admin-service/repository/runtime_config_repository.go: the values of the runtime configuration with
-- their versions, and the audit of their changes. A version is a number without the bound of int64,
-- and one time stands for the readings of the clock within a call. List and SeedDefaults are left out.
pub mod Changes
pub mod Stale
mod Samples
use social_network_micro_ser.Prelude.{
  ℕ, suc, Text, codes, text_eq, Bool, true, false, not, ◌&&◌, [], Option, none, some, Outcome, ok,
  fail, Action, ◌>>=◌, ◌>>◌, pure, if◌then◌else◌, ◌==◌, ltb,
}
use social_network_micro_ser.Exception.{Err, message}
use social_network_micro_ser.Services.Sql.{Sql}

pub record RuntimeConfig : Type 0 where
  pub key : Text
  pub scope : Text
  pub kind : Text
  pub value : Text
  pub default_value : Text
  pub description : Text
  pub category : Text
  pub is_sensitive : Bool
  pub is_editable : Bool
  pub validation_json : Text
  pub version : ℕ
  pub updated_by : Text
  pub created_at : ℕ
  pub updated_at : ℕ

pub record RuntimeConfigAudit : Type 0 where
  pub id : Text
  pub key : Text
  pub old_value : Text
  pub new_value : Text
  pub version : ℕ
  pub updated_by : Text
  pub reason : Text
  pub created_at : ℕ

-- `commit` is what the database answers to the end of a transaction.
pub record Env : Type 1 where
  pub configs : Sql RuntimeConfig
  pub audits : Sql RuntimeConfigAudit
  pub commit : configs.Store → audits.Store → Outcome Err (Unit {0})

pub record World (env : Env) : Type 0 where
  pub config_rows : env.configs.Store
  pub audit_rows : env.audits.Store

abbrev pub Handler : Env → Type 0 → Type 0
Handler env A = Action (World env) Err A

abbrev pub not_found : Err
not_found = message (codes "runtime config not found")

abbrev pub version_conflict : Err
version_conflict = message (codes "runtime config version conflict")

abbrev pub not_editable : Err
not_editable = message (codes "runtime config is not editable")

abbrev pub already_exists : Err
already_exists = message (codes "runtime config already exists")

abbrev pub config_named : Text → RuntimeConfig → Bool
config_named key c = text_eq c.key key

abbrev pub config_or_not_found : Outcome Err (Option RuntimeConfig) → Outcome Err RuntimeConfig
config_or_not_found (ok (some c)) = ok c
config_or_not_found (ok none) = fail not_found
config_or_not_found (fail e) = fail e

-- Who changes a value, why and when, with the identity that is drawn for the audit.
pub record Change : Type 0 where
  pub updated_by : Text
  pub reason : Text
  pub now : ℕ
  pub fresh : Text

abbrev pub audit_of : Text → RuntimeConfig → Change → RuntimeConfigAudit
audit_of old c change = record {
  id = change.fresh;
  key = c.key;
  old_value = old;
  new_value = c.value;
  version = c.version;
  updated_by = change.updated_by;
  reason = change.reason;
  created_at = change.now;
}

abbrev pub created_config : RuntimeConfig → Change → RuntimeConfig
created_config c change = record c {
  created_at = change.now;
  updated_at = change.now;
  updated_by = change.updated_by;
  version = 1;
  is_editable = true;
}

abbrev pub changed_config : Text → RuntimeConfig → Change → RuntimeConfig
changed_config value c change = record c {
  value = value;
  version = suc c.version;
  updated_by = change.updated_by;
  updated_at = change.now;
}

module _ (env : Env) where
  abbrev pub in_configs :
      {A : Type 0} → (env.configs.Store → A × env.configs.Store) → World env → A × World env
  in_configs f w = let (a, s) = f w.config_rows in (a, record w { config_rows = s })

  abbrev pub in_audits :
      {A : Type 0} → (env.audits.Store → A × env.audits.Store) → World env → A × World env
  in_audits f w = let (a, s) = f w.audit_rows in (a, record w { audit_rows = s })

  abbrev pub read_config : Text → Handler env RuntimeConfig
  read_config key w = (config_or_not_found (env.configs.first (config_named key) w.config_rows), w)

  abbrev pub count_configs : Text → Handler env ℕ
  count_configs key w = (env.configs.count (config_named key) w.config_rows, w)

  abbrev pub reject : Err → Handler env (Unit {0})
  reject e w = (fail e, w)

  -- An error of the body or of the end takes everything back.
  abbrev pub committed :
      {A : Type 0} → Outcome Err (Unit {0}) → A → World env → World env → Outcome Err A × World env
  committed (ok _) a new old = (ok a, new)
  committed (fail e) a new old = (fail e, old)

  abbrev pub ended :
      {A : Type 0} → Outcome Err A × World env → World env → Outcome Err A × World env
  ended (fail e, new) old = (fail e, old)
  ended (ok a, new) old = committed (env.commit new.config_rows new.audit_rows) a new old

  abbrev pub transaction : {A : Type 0} → Handler env A → Handler env A
  transaction body w = ended (body w) w

  unfoldable pub get_config : Text → Handler env RuntimeConfig
  get_config key = read_config key

  unfoldable pub create_config : RuntimeConfig → Change → Handler env RuntimeConfig
  create_config config change =
      let c = created_config config change in
      transaction (do
        n ← count_configs c.key
        (if ltb 0 n then reject already_exists else pure tt)
        in_configs (env.configs.create c)
        in_audits (env.audits.create (audit_of [] c change))
        pure c)

  -- `update` of the repository.
  unfoldable pub change_value : Text → Text → ℕ → Change → Bool → Handler env RuntimeConfig
  change_value key value expected change reset = transaction (do
    config ← read_config key
    (if not config.is_editable then reject not_editable else pure tt)
    (if not reset && not (expected == config.version) then reject version_conflict else pure tt)
    (let c = changed_config (if reset then config.default_value else value) config change in
        do
          in_configs (env.configs.update (config_named c.key) (λ _. c))
          in_audits (env.audits.create (audit_of config.value c change))
          pure c))

  unfoldable pub update_value : Text → Text → ℕ → Change → Handler env RuntimeConfig
  unfolding change_value
  update_value key value expected change = change_value key value expected change false

  unfoldable pub reset_value : Text → Change → Handler env RuntimeConfig
  unfolding change_value
  reset_value key change = change_value key [] 0 change true
