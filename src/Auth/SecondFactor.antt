-- ===== src/Auth/SecondFactor.antt =====
-- The second factor of an account, from two_factor.go, over several calls.
use social_network_micro_ser.Prelude.{
  ℕ, Text, true, false, some, ◌≡◌, Outcome, ok, fail, arith, [], text_eq_refl, ap, ◌∙◌, refl,
  if◌then◌else◌,
}
use social_network_micro_ser.Exception.{Err, app}
use social_network_micro_ser.Services.Database.{found_or, first_of_rows, first-replace}
use social_network_micro_ser.Auth.Env.{Account, Env, World}
use social_network_micro_ser.Auth.Accounts.{has_id, find_by_id, save}
use social_network_micro_ser.Auth.Login.{check_two_factor, two_factor_required}
use social_network_micro_ser.Auth.TwoFactor.{
  generate_two_factor, verify_two_factor, disable_two_factor,
}
use social_network_micro_ser.Auth.Tokens.{is_empty}

-- The call went through with this result, and this is the account that its id finds.
pub record AccountSaved {A : Type 0} (env : Env) (result : A) (a : Account)
    (r : Outcome Err A × World env) : Type 0 where
  pub done : r.0 ≡ ok result
  pub up : env.database.Up r.1.db
  pub row : first_of_rows (has_id a.id) (env.database.rows r.1.db) ≡ some a
  pub found : (find_by_id env a.id r.1).0 ≡ ok a

module _ (env : Env) (w : World env) (a : Account) (up : env.database.Up w.db)
    (row : first_of_rows (has_id a.id) (env.database.rows w.db) ≡ some a) where
  save-AccountSaved : (b : Account) → b.id ≡ a.id → AccountSaved env tt b (save env b w)
  unfolding save find_by_id
  save-AccountSaved b same =
      let d = env.database in
      let p = has_id b.id in
      let s = (d.update p (λ x. b) w.db).1 in
      let u = d.update-Up p (λ x. b) w.db up in
      let old : first_of_rows p (d.rows w.db) ≡ some a = rw same row in
      let now : first_of_rows p (d.rows s) ≡ some b =
        ap (first_of_rows p) (d.rows-update p (λ x. b) w.db up)
        ∙ first-replace p b (d.rows w.db) a (text_eq_refl b.id) old in
      record {
        done = d.update_up p (λ x. b) w.db up;
        up = u;
        row = now;
        found = d.first_up p s u ∙ ap (λ o. found_or d.missing o) now;
      }

  -- A call that comes down to one save.
  saved_by :
      {A : Type 0} (result : A) (b : Account) (r : Outcome Err A × World env)
      → b.id ≡ a.id
      → r ≡ (ok result, (save env b w).1)
      → AccountSaved env result b r
  saved_by result b r same e =
      let s = save-AccountSaved b same in
      rw e (record { done = refl; up = s.up; row = s.row; found = s.found })

  generate-AccountSaved :
      (secret : Text)
      → AccountSaved env secret
          (record a { two_factor_secret = secret })
          (generate_two_factor env (ok secret) a.id w)
  unfolding generate_two_factor find_by_id
  generate-AccountSaved secret =
      let b = record a { two_factor_secret = secret } in
      let s = save-AccountSaved b refl in
      let e = env.database.first_up (has_id a.id) w.db up in
      saved_by secret b _ refl (ground (arith, s.done, row))

  verify-AccountSaved :
      (code : Text) (now : ℕ)
      → env.validate_totp code a.two_factor_secret now ≡ true
      → AccountSaved env tt
          (record a { is_two_factor_enabled = true })
          (verify_two_factor env a.id code now w)
  unfolding verify_two_factor find_by_id
  verify-AccountSaved code now valid =
      let b = record a { is_two_factor_enabled = true } in
      let s = save-AccountSaved b refl in
      let e = env.database.first_up (has_id a.id) w.db up in
      saved_by tt b _ refl (ground (arith, s.done, row))

  disable-AccountSaved :
      (code : Text) (now : ℕ)
      → env.validate_totp code a.two_factor_secret now ≡ true
      → AccountSaved env tt
          (record a { is_two_factor_enabled = false; two_factor_secret = [] })
          (disable_two_factor env a.id code now w)
  unfolding disable_two_factor find_by_id
  disable-AccountSaved code now valid =
      let b = record a { is_two_factor_enabled = false; two_factor_secret = [] } in
      let s = save-AccountSaved b refl in
      let e = env.database.first_up (has_id a.id) w.db up in
      saved_by tt b _ refl (ground (arith, s.done, row))

module _ (env : Env) (w : World env) (a : Account) (up : env.database.Up w.db)
    (row : first_of_rows (has_id a.id) (env.database.rows w.db) ≡ some a) (secret code : Text)
    (now : ℕ) (valid : env.validate_totp code secret now ≡ true) where
  -- A secret that is generated and then confirmed with one of its codes turns the second factor on:
  -- both calls succeed, the account found by the id holds the secret and is enabled, a login
  -- without a code is asked for one, and the login with the code, if it is not empty, passes the
  -- check. Assumed: the database is up, and the id finds the account.
  pub enrol_flow :
      let r1 = generate_two_factor env (ok secret) a.id w in
      let r2 = verify_two_factor env a.id code now r1.1 in
      let b = record a { two_factor_secret = secret; is_two_factor_enabled = true } in
      (r1.0 ≡ ok secret)
      × AccountSaved env tt b r2
      × (check_two_factor env b [] now ≡ fail (app two_factor_required))
      × (check_two_factor env b code now
          ≡ (if is_empty code then fail (app two_factor_required) else ok tt))
  unfolding check_two_factor
  enrol_flow =
      let g = generate-AccountSaved env w a up row secret in
      let w1 = (generate_two_factor env (ok secret) a.id w).1 in
      (
        g.done,
        verify-AccountSaved env w1 (record a { two_factor_secret = secret }) g.up g.row code now
            valid,
        ground (arith, text_eq_refl []),
        ground arith,
      )

  -- Generating a secret takes no code, so it also replaces the secret of an account whose second
  -- factor is enabled; with a code of the new secret the second factor is then turned off. Assumed:
  -- the database is up, and the id finds the account.
  pub generate_disables :
      let r1 = generate_two_factor env (ok secret) a.id w in
      let r2 = disable_two_factor env a.id code now r1.1 in
      (r1.0 ≡ ok secret)
      × AccountSaved env tt (record a { two_factor_secret = []; is_two_factor_enabled = false }) r2
  generate_disables =
      let g = generate-AccountSaved env w a up row secret in
      let w1 = (generate_two_factor env (ok secret) a.id w).1 in
      let b = record a { two_factor_secret = secret } in
      (g.done, disable-AccountSaved env w1 b g.up g.row code now valid)
