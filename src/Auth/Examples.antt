-- ===== src/Auth/Examples.antt =====
-- The theorems of auth-service at concrete worlds: a table for Redis, a list of rows for the
-- accounts, and simple stand-ins for bcrypt, totp, jwt and uuid.
use social_network_micro_ser.Prelude.{
  Text, codes, text_eq, text_eq_iff, true, false, none, some, List, [], ◌∷◌, ◌≡◌, refl, ok, fail,
  arith, if◌then◌else◌,
}
use social_network_micro_ser.Exception.{app}
use social_network_micro_ser.Exception.Codes.{account_not_found, unauthorized}
use social_network_micro_ser.Services.Redis.{text}
use social_network_micro_ser.Services.RedisTable.{table_server, held, remove}
use social_network_micro_ser.Services.Database.{table}
use social_network_micro_ser.Auth.Env.{Account, Config, Env, TokenClaims, World, mail}
use social_network_micro_ser.Auth.Keys.{
  login_attempt_key, login_lock_key, suspended_key, reset_code_key, reset_token_key,
  reset_verified_key, email_rate_key,
}
use social_network_micro_ser.Auth.Accounts.{
  find_by_email, find_by_email_and_role, in_transaction, update_password,
}
use social_network_micro_ser.Auth.Login.{
  login, login_to, validate_login, process_login_succeeded, account_locked_for, login_lock_ttl,
}
use social_network_micro_ser.Auth.Attempts.{Try, IsOpen, logins, countdown, login_lockout}
use social_network_micro_ser.Auth.Grants.{Granted, login-Granted, all_invalid, bad_codes_uncounted}
use social_network_micro_ser.Auth.Mailing.Limit.{checks, passed, passed-checks}
use social_network_micro_ser.Auth.Passwords.{PasswordStored, update_password_needs_mark}
use social_network_micro_ser.Auth.Reset.{
  forgot_password, verify_reset_password, update_password_by_code,
}
use social_network_micro_ser.Auth.ResetFlow.{reset_flow, logout_opens_reset}
use social_network_micro_ser.Auth.Register.{Registration, Drawn}
use social_network_micro_ser.Auth.SecondFactor.{AccountSaved, enrol_flow, generate_disables}
use social_network_micro_ser.Auth.TwoFactor.{
  generate_two_factor, verify_two_factor, disable_two_factor,
}
use social_network_micro_ser.Auth.Login.{check_two_factor, two_factor_required}
use social_network_micro_ser.Auth.Revocation.{logout_ends_refresh, logout_ends_access}
use social_network_micro_ser.Auth.Tokens.{
  is_empty, generate_token, logout, refresh_token_for_role, validate_token_reply,
}

abbrev pub sample_config : Config
sample_config = record {
  jwt_secret = codes "k";
  jwt_refresh_secret = codes "r";
  access_token_duration = 900;
  refresh_token_duration = 604800;
  verify_email_duration = 900;
  password_reset_duration = 900;
  email_rate_limit_count = 3;
  email_rate_limit_window = 60;
}

abbrev pub sample_claims : TokenClaims
sample_claims = record {
  user_id = codes "u";
  email = codes "a@b";
  role = codes "USER";
  scope = codes "USER";
  username = codes "ann";
  expires_at = some 1000;
  issued_at = 0;
  not_before = 0;
  subject = codes "u";
}

abbrev pub sample_env : Env
sample_env = record {
  cfg = sample_config;
  has_redis = true;
  redis = table_server;
  database = table Account (app account_not_found);
  compare_password = λ h p. text_eq h p;
  hash_password = λ salt p. ok p;
  compare-hash = λ salt p h e. (text_eq_iff h p).1 (ground (arith, e));
  validate_totp = λ code secret now. text_eq code secret;
  sign = λ claims key. ok claims.user_id;
  parse_token = λ token key now. ok sample_claims;
  parse_unverified = λ token. some sample_claims;
  parse_uuid = λ s. some s;
  parse_uuid-canonical = λ s id e. refl;
  user_client = none;
}

abbrev pub sample_account : Account
sample_account = record {
  id = codes "u";
  email = codes "a@b";
  password = codes "pw";
  role = codes "USER";
  is_verified = true;
  two_factor_secret = codes "s";
  is_two_factor_enabled = true;
  created_at = 1;
}

abbrev pub sample_world : World sample_env
sample_world = record { cache = []; db = sample_account ∷ []; sent = [] }

sample-IsOpen : IsOpen sample_env (codes "a@b") false sample_account sample_world
unfolding held login_lock_key suspended_key text_eq find_by_email_and_role
sample-IsOpen = record { found = refl; up = tt; not_locked = refl; not_suspended = refl }

abbrev attempt : Text → Text → Try
attempt password code = record { password = password; code = code; now = 5 }

abbrev wrong_five : List Try
wrong_five =
    attempt (codes "1") []
    ∷ attempt (codes "2") []
    ∷ attempt (codes "3") []
    ∷ attempt (codes "4") []
    ∷ attempt (codes "5") []
    ∷ []

login_lockout_example :
    ((logins sample_env (codes "a@b") false wrong_five sample_world).0 ≡ countdown 5)
    × ((login sample_env
          (codes "a@b")
          (codes "pw")
          (codes "s")
          false
          9
          (logins sample_env (codes "a@b") false wrong_five sample_world).1).0
        ≡ fail (account_locked_for login_lock_ttl))
unfolding held login_attempt_key text_eq
login_lockout_example =
    login_lockout sample_env refl (codes "a@b") false sample_account refl wrong_five
      (record { password = codes "pw"; code = codes "s"; now = 9 }) sample_world refl sample-IsOpen
      refl (refl, (refl, (refl, (refl, (refl, tt)))))

login-Granted_example :
    (a : Account) × Granted sample_env (codes "a@b") (codes "pw") (codes "s") false 7 sample_world a
unfolding login find_by_email_and_role text_eq validate_login held login_to process_login_succeeded
    generate_token remove
login-Granted_example =
    login-Granted sample_env (codes "a@b") (codes "pw") (codes "s") false 7 sample_world
      (codes "u", codes "u") refl

bad_codes_uncounted_example :
    let ts = attempt (codes "pw") (codes "x") ∷ attempt (codes "pw") (codes "y") ∷ [] in
    let r = logins sample_env (codes "a@b") false ts sample_world in
    (r.0 ≡ all_invalid ts) × IsOpen sample_env (codes "a@b") false sample_account r.1
unfolding text_eq
bad_codes_uncounted_example =
    bad_codes_uncounted sample_env refl (codes "a@b") false sample_account refl refl
      (attempt (codes "pw") (codes "x") ∷ attempt (codes "pw") (codes "y") ∷ []) sample_world
      sample-IsOpen ((refl, refl, refl), ((refl, refl, refl), tt))

passed-checks_example : passed (checks sample_env (codes "1.2.3.4") 7 sample_world) ≡ 3
unfolding held email_rate_key text_eq
passed-checks_example =
    passed-checks sample_env refl (omega arith) (codes "1.2.3.4") refl 7 sample_world tt refl

abbrev marked_world : World sample_env
marked_world = record sample_world {
  cache = (reset_verified_key (codes "a@b") (codes "c"), text (codes "1"), 900) ∷ [];
}

update_password_needs_mark_example :
    (sample_env.has_redis ≡ true)
    × ((code : Text) × (sample_env.parse_uuid (codes "c") ≡ some code)
        × (sample_env.redis.exists (reset_verified_key (codes "a@b") code) marked_world.cache
            ≡ ok true))
unfolding update_password_by_code find_by_email text_eq held reset_verified_key in_transaction
    update_password
update_password_needs_mark_example =
    update_password_needs_mark sample_env marked_world (codes "a@b") (codes "c") (codes "new") 0
      refl

reset_flow_example :
    let r1 = forgot_password sample_env (codes "a@b") (codes "1.2.3.4") (codes "c") sample_world in
    let r2 = verify_reset_password sample_env (codes "a@b") (codes "c") r1.1 in
    let r3 = update_password_by_code sample_env (codes "a@b") (codes "c") (codes "new") 0 r2.1 in
    (r1.0 ≡ ok tt)
    × (r1.1.sent ≡ mail (codes "a@b") (codes "c") ∷ [])
    × (r2.0 ≡ ok tt)
    × PasswordStored sample_env (codes "u") (codes "new") sample_world r3
    × (sample_env.compare_password (codes "new") (codes "new") ≡ true)
    × (sample_env.redis.held r3.1.cache (reset_verified_key (codes "a@b") (codes "c")) ≡ none)
    × (sample_env.redis.held r2.1.cache (reset_token_key (codes "c")) ≡ none)
unfolding held reset_code_key email_rate_key text_eq find_by_email
reset_flow_example =
    reset_flow sample_env refl sample_world (codes "a@b") sample_account tt tt refl
      (codes "1.2.3.4") (codes "c") (codes "new") (codes "new") 0 0 (omega arith) refl refl refl
      (omega arith) refl refl

logout_opens_reset_example :
    let w1 =
      (logout sample_env (reset_verified_key (codes "a@b") (codes "c")) [] 7 sample_world).1 in
    PasswordStored sample_env
      (codes "u")
      (codes "new")
      sample_world
      (update_password_by_code sample_env (codes "a@b") (codes "c") (codes "new") 0 w1)
unfolding find_by_email text_eq
logout_opens_reset_example =
    logout_opens_reset sample_env refl sample_world (codes "a@b") sample_account tt tt refl
      (codes "c") (codes "c") (codes "new") (codes "new") 0 7 refl refl

logout_ends_refresh_example :
    let w1 = (logout sample_env (codes "rt") (codes "at") 7 sample_world).1 in
    refresh_token_for_role sample_env (codes "rt") (codes "USER") 9 w1
    ≡ (fail (app unauthorized), w1)
unfolding text_eq
logout_ends_refresh_example =
    logout_ends_refresh sample_env refl 7 (codes "rt") (codes "at") (codes "USER") 9 sample_world tt
      refl

logout_ends_access_example :
    validate_token_reply sample_env
      (codes "at")
      9
      (logout sample_env (codes "rt") (codes "at") 7 sample_world).1
    ≡ fail (codes "TOKEN_REVOKED")
unfolding text_eq
logout_ends_access_example =
    logout_ends_access sample_env refl 7 (codes "rt") (codes "at") sample_claims 1000 9 sample_world
      tt refl refl refl (omega arith)

abbrev sample_registration : Registration
sample_registration = record {
  email = codes "x@y";
  password = codes "secret";
  given_name = codes "Xu";
  family_name = codes "Yi";
  birthdate = codes "2000-01-01";
  client_ip = codes "1.2.3.4";
}

abbrev sample_draw : Drawn
sample_draw = record { account_id = codes "n"; code = codes "c"; salt = 0; now = 7 }

enrol_flow_example :
    let r1 = generate_two_factor sample_env (ok (codes "t")) (codes "u") sample_world in
    let r2 = verify_two_factor sample_env (codes "u") (codes "t") 9 r1.1 in
    let b = record sample_account { two_factor_secret = codes "t"; is_two_factor_enabled = true } in
    (r1.0 ≡ ok (codes "t"))
    × AccountSaved sample_env tt b r2
    × (check_two_factor sample_env b [] 9 ≡ fail (app two_factor_required))
    × (check_two_factor sample_env b (codes "t") 9
        ≡ (if is_empty (codes "t") then fail (app two_factor_required) else ok tt))
unfolding text_eq
enrol_flow_example =
    enrol_flow sample_env sample_world sample_account tt refl (codes "t") (codes "t") 9 refl

generate_disables_example :
    let r1 = generate_two_factor sample_env (ok (codes "t")) (codes "u") sample_world in
    let r2 = disable_two_factor sample_env (codes "u") (codes "t") 9 r1.1 in
    (r1.0 ≡ ok (codes "t"))
    × AccountSaved sample_env tt
        (record sample_account { two_factor_secret = []; is_two_factor_enabled = false })
        r2
unfolding text_eq
generate_disables_example =
    generate_disables sample_env sample_world sample_account tt refl (codes "t") (codes "t") 9 refl
