-- ===== src/RuntimeConfig/Versions/Samples.antt =====
-- The theorem on the versions of the runtime configuration with two tables in memory.
use social_network_micro_ser.Prelude.{
  codes, text_eq, true, false, [], ◌∷◌, ok, fail, ◌≡◌, refl, List, Text, matches,
}
use social_network_micro_ser.Services.Sql.{list_sql}
use social_network_micro_ser.RuntimeConfig.Versions.{
  RuntimeConfig, RuntimeConfigAudit, Env, World, Change, changed_config, version_conflict,
  update_value, create_config, created_config,
}
use social_network_micro_ser.RuntimeConfig.Versions.Stale.{
  Call, update, reset, run_calls, stale_update,
}

abbrev sample_env : Env
sample_env = record {
  configs = list_sql RuntimeConfig (λ c d. text_eq d.key c.key);
  audits = list_sql RuntimeConfigAudit (λ c d. text_eq d.id c.id);
  commit = λ s t. ok tt;
}

abbrev a_config : RuntimeConfig
a_config = record {
  key = codes "post.max_page_limit";
  scope = codes "post";
  kind = codes "INT";
  value = codes "50";
  default_value = codes "20";
  description = codes "posts of a page";
  category = codes "limits";
  is_sensitive = false;
  is_editable = true;
  validation_json = [];
  version = 1;
  updated_by = [];
  created_at = 0;
  updated_at = 0;
}

abbrev by : Text → Change
by fresh = record { updated_by = codes "ann"; reason = codes "load"; now = 7; fresh = fresh }

abbrev empty_world : World sample_env
empty_world = record { config_rows = []; audit_rows = [] }

abbrev sample_world : World sample_env
sample_world = record { config_rows = a_config ∷ []; audit_rows = [] }

-- A created value is found, and an audit whose identity is taken is an error that takes the update back.
created_once :
    (create_config sample_env a_config (by (codes "a")) empty_world).1.config_rows
    ≡ created_config a_config (by (codes "a")) ∷ []
unfolding create_config matches
created_once = refl

taken_back :
    let w = (create_config sample_env a_config (by (codes "a")) empty_world).1 in
    (update_value sample_env a_config.key (codes "9") 1 (by (codes "a")) w).1 ≡ w
unfolding create_config update_value matches text_eq
taken_back = refl

abbrev later_calls : List Call
later_calls =
    reset a_config.key (by (codes "b")) ∷ update a_config.key (codes "9") 3 (by (codes "c")) ∷ []

taken :
    (update_value sample_env a_config.key (codes "30") 1 (by (codes "a")) sample_world).0
    ≡ ok (changed_config (codes "30") a_config (by (codes "a")))
unfolding update_value text_eq matches
taken = refl

stale_update_example :
    let later =
      run_calls sample_env later_calls
        (update_value sample_env a_config.key (codes "30") 1 (by (codes "a")) sample_world).1 in
    update_value sample_env a_config.key (codes "40") 1 (by (codes "d")) later
    ≡ (fail version_conflict, later)
stale_update_example =
    stale_update sample_env a_config.key (codes "30") (codes "40") 1 (by (codes "a"))
      (by (codes "d")) (changed_config (codes "30") a_config (by (codes "a"))) later_calls
      sample_world tt taken
