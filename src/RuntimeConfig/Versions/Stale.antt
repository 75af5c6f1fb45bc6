-- ===== src/RuntimeConfig/Versions/Stale.antt =====
-- The versions of admin-service/repository/runtime_config_repository.go against stale updates.
use social_network_micro_ser.Prelude.{
  ℕ, ◌<◌, Text, text_eq, text_eq_iff, text_eq_refl, Bool, true, false, List, [], ◌∷◌, some, ◌≡◌,
  refl, sym, ◌∙◌, inl, inr, arith, ok, fail, ltb, matches, Bool-cases, Outcome-cases,
}
use social_network_micro_ser.Services.Database.{first_of_rows, first-replace}
use social_network_micro_ser.Services.Sql.{insert_row}
use social_network_micro_ser.RuntimeConfig.Versions.{
  RuntimeConfig, Env, World, Change, config_named, created_config, version_conflict, change_value,
  update_value, reset_value, create_config, audit_of,
}
use social_network_micro_ser.RuntimeConfig.Versions.Changes.{
  change_value_lem, first_other, none_unmatched, first-named,
}

pub data Call : Type 0 where
  create : RuntimeConfig → Change → Call
  update : Text → Text → ℕ → Change → Call
  reset : Text → Change → Call

unfoldable pub run_call : (env : Env) → Call → World env → World env
run_call env (create config change) w = (create_config env config change w).1
run_call env (update key value expected change) w = (update_value env key value expected change w).1
run_call env (reset key change) w = (reset_value env key change w).1

unfoldable pub run_calls : (env : Env) → List Call → World env → World env
unfolding run_call
run_calls env [] w = w
run_calls env (c ∷ cs) w = run_calls env cs (run_call env c w)

first-inserted :
    (same : RuntimeConfig → RuntimeConfig → Bool) (k : Text) (r c : RuntimeConfig)
    (rs : List RuntimeConfig)
    → first_of_rows (config_named k) rs ≡ some c
    → matches (config_named r.key) rs ≡ 0
    → first_of_rows (config_named k) (insert_row same r rs) ≡ some c
first-inserted same k r c rs found new =
    ground (arith, none_unmatched (config_named r.key) rs, text_eq_iff r.key k)

module _ (env : Env) (k : Text) (v : ℕ) where
  record IsBeyond (w : World env) : Type 0 where
    up : env.configs.Up w.config_rows
    c : RuntimeConfig
    found : first_of_rows (config_named k) (env.configs.rows w.config_rows) ≡ some c
    editable : c.is_editable ≡ true
    beyond : v < c.version

  change_value-IsBeyond :
      (key value : Text) (expected : ℕ) (change : Change) (resets : Bool) (w : World env)
      → IsBeyond w
      → IsBeyond (change_value env key value expected change resets w).1
  change_value-IsBeyond key value expected change resets w h =
      elim (change_value_lem env key value expected change resets w h.up) [
        | inl (same, _, _) ↦ rw same h
        | inr d ↦ elim (Bool-cases (text_eq d.c.key k)) [
          | inl hit ↦
              let rs = env.configs.rows w.config_rows in
              let same = (text_eq_iff d.c.key k).0 hit in
              let asked : k ≡ key = sym same ∙ first-named key rs d.c d.found in
              let there : first_of_rows (config_named k) rs ≡ some d.c = rw asked d.found in
              let one : d.c ≡ h.c = cc in
              record {
                up = d.up;
                c = d.c';
                found =
                    rw (d.now, same)
                      (first-replace (config_named k) d.c' rs d.c (rw d.next hit) there);
                editable = rw d.next d.editable;
                beyond = rw (d.next, one) (omega (arith, h.beyond));
              }
          | inr other ↦ record {
            up = d.up;
            c = h.c;
            found = rw d.now (
                first_other d.c.key k d.c' (env.configs.rows w.config_rows)
                  (rw d.next (text_eq_refl d.c.key)) other
                ∙ h.found);
            editable = h.editable;
            beyond = h.beyond;
          }
        ]
      ]

  create_config-IsBeyond :
      (config : RuntimeConfig) (change : Change) (w : World env)
      → IsBeyond w
      → IsBeyond (create_config env config change w).1
  unfolding create_config
  create_config-IsBeyond config change w h =
      let r = created_config config change in
      let n = env.configs.count_up (config_named r.key) w.config_rows h.up in
      elim (Bool-cases (ltb 0 (matches (config_named r.key) (env.configs.rows w.config_rows)))) [
        | inl there ↦
            let back : (create_config env config change w).1 ≡ w = ground arith in rw back h
        | inr new ↦
            let made = env.configs.create r w.config_rows in
            let a = env.audits.create (audit_of [] r change) w.audit_rows in
            let rows = env.configs.rows-create r w.config_rows h.up in
            let kept =
              first-inserted env.configs.same_key k r h.c (env.configs.rows w.config_rows) h.found
                (ground arith) in
            elim (Outcome-cases made.0) [
              | inr (err, e) ↦
                  let back : (create_config env config change w).1 ≡ w = ground arith in rw back h
              | inl (u, e) ↦ elim (Outcome-cases a.0) [
                | inr (err, e1) ↦
                    let back : (create_config env config change w).1 ≡ w = ground arith in rw back h
                | inl (u1, e1) ↦ elim (Outcome-cases (env.commit made.1 a.1)) [
                  | inr (err, e2) ↦
                      let back : (create_config env config change w).1 ≡ w = ground arith in
                      rw back h
                  | inl (u2, e2) ↦
                      let all : (create_config env config change w).1
                          ≡ record { config_rows = made.1; audit_rows = a.1 } =
                        ground arith in
                      rw all (record {
                        up = env.configs.create-Up r w.config_rows h.up;
                        c = h.c;
                        found = rw rows kept;
                        editable = h.editable;
                        beyond = h.beyond;
                      })
                ]
              ]
            ]
      ]

  run_calls-IsBeyond : (cs : List Call) (w : World env) → IsBeyond w → IsBeyond (run_calls env cs w)
  unfolding run_calls update_value reset_value
  run_calls-IsBeyond [] w h = h
  run_calls-IsBeyond (create config change ∷ cs) w h =
      run_calls-IsBeyond cs (create_config env config change w).1
        (create_config-IsBeyond config change w h)
  run_calls-IsBeyond (update key value expected change ∷ cs) w h =
      run_calls-IsBeyond cs (update_value env key value expected change w).1
        (change_value-IsBeyond key value expected change false w h)
  run_calls-IsBeyond (reset key change ∷ cs) w h =
      run_calls-IsBeyond cs (reset_value env key change w).1
        (change_value-IsBeyond key [] 0 change true w h)

  refused_below :
      (value : Text) (change : Change) (w : World env)
      → IsBeyond w
      → update_value env k value v change w ≡ (fail version_conflict, w)
  unfolding update_value change_value
  refused_below value change w h =
      let row = env.configs.first_up (config_named k) w.config_rows h.up in
      let found = h.found in let editable = h.editable in let beyond = h.beyond in ground arith

-- Of the updates of a value that expect one version, only the first that succeeds is made: whatever is
-- created, updated and reset after it, another one answers the conflict and changes nothing. Assumed:
-- the table of the values answers; that of the audits and the end of a transaction may fail.
pub stale_update :
    (env : Env) (key value value' : Text) (v : ℕ) (change change' : Change) (c : RuntimeConfig)
    (cs : List Call) (w : World env)
    → env.configs.Up w.config_rows
    → (update_value env key value v change w).0 ≡ ok c
    → let later = run_calls env cs (update_value env key value v change w).1 in
      update_value env key value' v change' later ≡ (fail version_conflict, later)
unfolding update_value
stale_update env key value value' v change change' c cs w up taken =
    let now = (update_value env key value v change w).1 in
    elim (change_value_lem env key value v change false w up) [
      | inl (_, e, failed) ↦ (let bad : ok c ≡ fail e = sym taken ∙ failed in cc)
      | inr d ↦
          let named : d.c.key ≡ key =
            first-named key (env.configs.rows w.config_rows) d.c d.found in
          let start : IsBeyond env key v now = record {
            up = d.up;
            c = d.c';
            found =
                rw (d.now, named)
                  (first-replace (config_named key) d.c' (env.configs.rows w.config_rows) d.c
                    (rw d.next ((text_eq_iff d.c.key key).1 named)) d.found);
            editable = rw d.next d.editable;
            beyond = rw d.next (let e = d.current refl in omega arith);
          } in
          refused_below env key v value' change' (run_calls env cs now)
            (run_calls-IsBeyond env key v cs now start)
    ]
