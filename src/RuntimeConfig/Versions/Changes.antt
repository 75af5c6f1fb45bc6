-- ===== src/RuntimeConfig/Versions/Changes.antt =====
-- What a change of a value does in admin-service/repository/runtime_config_repository.go.
use social_network_micro_ser.Prelude.{
  ℕ, Text, text_eq, text_eq_iff, Bool, true, false, not, ◌&&◌, List, [], ◌∷◌, none, some, ◌≡◌, refl,
  ◌⊎◌, inl, inr, arith, Outcome, ok, fail, if◌then◌else◌, ◌==◌, matches, Bool-cases, Option-cases,
  Outcome-cases,
}
use social_network_micro_ser.Exception.{Err}
use social_network_micro_ser.Services.Database.{first_of_rows, update_rows}
use social_network_micro_ser.RuntimeConfig.Versions.{
  RuntimeConfig, Env, World, Change, config_named, changed_config, version_conflict, not_found,
  not_editable, change_value, audit_of,
}

pub first_other :
    (j k : Text) (new : RuntimeConfig) (rs : List RuntimeConfig)
    → text_eq new.key j ≡ true
    → text_eq j k ≡ false
    → first_of_rows (config_named k) (update_rows (config_named j) (λ _. new) rs)
      ≡ first_of_rows (config_named k) rs
first_other j k new [] same other = refl
first_other j k new (r ∷ rs) same other = ground (
  arith,
  first_other j k new rs same other,
  text_eq_iff r.key j,
  text_eq_iff new.key j,
  text_eq_iff r.key k,
  text_eq_iff j k,
)

pub none_unmatched :
    {R : Type 0} (p : R → Bool) (rs : List R) → matches p rs ≡ 0 → first_of_rows p rs ≡ none
unfolding matches
none_unmatched p [] h = refl
none_unmatched p (r ∷ rs) h = ground (arith, none_unmatched p rs)

pub first-named :
    (k : Text) (rs : List RuntimeConfig) (c : RuntimeConfig)
    → first_of_rows (config_named k) rs ≡ some c
    → c.key ≡ k
first-named k [] c found = cc
first-named k (r ∷ rs) c found = ground (arith, first-named k rs c, text_eq_iff r.key k)

module _ (env : Env) where
  -- A change that the database takes: the value of which it is the next version, and the rows behind.
  pub record Changed (key : Text) (value : Text) (expected : ℕ) (change : Change) (resets : Bool)
      (w : World env) : Type 0 where
    pub c : RuntimeConfig
    pub c' : RuntimeConfig
    pub found : first_of_rows (config_named key) (env.configs.rows w.config_rows) ≡ some c
    pub editable : c.is_editable ≡ true
    pub current : (resets ≡ false) → expected ≡ c.version
    pub next : c' ≡ changed_config (if resets then c.default_value else value) c change
    pub answer : (change_value env key value expected change resets w).0 ≡ ok c'
    pub up : env.configs.Up (change_value env key value expected change resets w).1.config_rows
    pub now :
        env.configs.rows (change_value env key value expected change resets w).1.config_rows
        ≡ update_rows (config_named c.key) (λ _. c') (env.configs.rows w.config_rows)

  abbrev pub Refused : {A : Type 0} → Outcome Err A × World env → World env → Type 0
  Refused r w = (r.1 ≡ w) × (e : Err) × (r.0 ≡ fail e)

  pub change_value_lem :
      (key value : Text) (expected : ℕ) (change : Change) (resets : Bool) (w : World env)
      → env.configs.Up w.config_rows
      → Refused (change_value env key value expected change resets w) w
        ⊎ Changed key value expected change resets w
  unfolding change_value
  change_value_lem key value expected change resets w up =
      let row = env.configs.first_up (config_named key) w.config_rows up in
      elim (Option-cases (first_of_rows (config_named key) (env.configs.rows w.config_rows))) [
        | inl missing ↦ inl (ground arith, not_found, ground arith)
        | inr (c, there) ↦ elim (Bool-cases c.is_editable) [
          | inr fixed ↦ inl (ground arith, not_editable, ground arith)
          | inl editable ↦ elim (Bool-cases (not resets && not (expected == c.version))) [
            | inl stale ↦ inl (ground arith, version_conflict, ground arith)
            | inr fits ↦
                let c' = changed_config (if resets then c.default_value else value) c change in
                let save = env.configs.update_up (config_named c.key) (λ _. c') w.config_rows up in
                let s = (env.configs.update (config_named c.key) (λ _. c') w.config_rows).1 in
                let a = env.audits.create (audit_of c.value c' change) w.audit_rows in
                elim (Outcome-cases a.0) [
                  | inr (err, e) ↦ inl (ground arith, err, ground arith)
                  | inl (u, e) ↦ elim (Outcome-cases (env.commit s a.1)) [
                    | inr (err, e2) ↦ inl (ground arith, err, ground arith)
                    | inl (u2, e2) ↦ inr (record {
                      c = c;
                      c' = c';
                      found = there;
                      editable = editable;
                      current = λ h. ground arith;
                      next = refl;
                      answer = ground arith;
                      up =
                          let u =
                            env.configs.update-Up (config_named c.key) (λ _. c') w.config_rows up in
                          ground arith;
                      now =
                          let u =
                            env.configs.rows-update (config_named c.key) (λ _. c') w.config_rows
                              up in
                          ground arith;
                    })
                  ]
                ]
          ]
        ]
      ]
