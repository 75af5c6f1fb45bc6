-- ===== src/Auth/TwoFactor.antt =====
-- auth-service/service/two_factor.go. The secret that `totp.Generate` draws is an argument.
use social_network_micro_ser.Prelude.{
  guard, ◌||◌, ℕ, Text, Bool, true, false, not, Outcome, ◌>>=◌, ◌>>◌, pure, attempt, or_fail, [],
}
use social_network_micro_ser.Exception.{Err, app}
use social_network_micro_ser.Exception.Code.{ErrorCode}
use social_network_micro_ser.Exception.Codes.{account_not_found}
use social_network_micro_ser.Auth.Env.{Account, Env, Handler}
use social_network_micro_ser.Auth.Accounts.{find_by_id, save}

-- `NewAppError(code, message, error)`
abbrev pub generate_error : ErrorCode
generate_error = record {
  code = 500;
  message = "2FA_GENERATE_ERROR";
  error = "Could not generate 2FA secret";
  status = 400;
}

abbrev pub db_error : ErrorCode
db_error = record {
  code = 500;
  message = "DB_ERROR";
  error = "Failed to update account";
  status = 400;
}

abbrev pub invalid_code : ErrorCode
invalid_code = record {
  code = 400;
  message = "INVALID_2FA_CODE";
  error = "Invalid 2FA code";
  status = 400;
}

module _ (env : Env) where
  account_by_id : Text → Handler env Account
  account_by_id id = do found ← attempt (find_by_id env id); or_fail (app account_not_found) found

  save_or_fail : Account → Handler env (Unit {0})
  save_or_fail a = do saved ← attempt (save env a); or_fail (app db_error) saved

  -- The result of `totp.Generate` comes first; its URL is left out.
  unfoldable pub generate_two_factor : Outcome Err Text → Text → Handler env Text
  unfolding account_by_id save_or_fail
  generate_two_factor drawn id = do
    secret ← or_fail (app generate_error) drawn
    a ← account_by_id id
    save_or_fail (record a { two_factor_secret = secret })
    pure secret

  unfoldable pub verify_two_factor : Text → Text → ℕ → Handler env (Unit {0})
  unfolding account_by_id save_or_fail
  verify_two_factor id code now = do
    a ← account_by_id id
    guard (env.validate_totp code a.two_factor_secret now) (app invalid_code)
    save_or_fail (record a { is_two_factor_enabled = true })

  unfoldable pub disable_two_factor : Text → Text → ℕ → Handler env (Unit {0})
  unfolding account_by_id save_or_fail
  disable_two_factor id code now = do
    a ← account_by_id id
    guard (not a.is_two_factor_enabled || env.validate_totp code a.two_factor_secret now)
        (app invalid_code)
    save_or_fail (record a { is_two_factor_enabled = false; two_factor_secret = [] })

  unfoldable pub two_factor_status : Text → Handler env Bool
  unfolding account_by_id
  two_factor_status id = do a ← account_by_id id; pure a.is_two_factor_enabled
