-- ===== src/Auth/RegisterFlow.antt =====
-- From a registration to a verified account, in register.go.
use social_network_micro_ser.Prelude.{Text, true, some, ◌≡◌, Outcome, ok, ◌∷◌}
use social_network_micro_ser.Exception.{Err}
use social_network_micro_ser.Services.Redis.{text}
use social_network_micro_ser.Services.Database.{first_of_rows}
use social_network_micro_ser.Auth.Env.{Account, Env, World, mail, create_user}
use social_network_micro_ser.Auth.Keys.{verify_code_key}
use social_network_micro_ser.Auth.Accounts.{has_email}
use social_network_micro_ser.Auth.Register.{
  Registration, Drawn, VerifyCode, new_account, verify_code,
}

-- The transaction went through, and the condition now finds this row; nothing else changes.
record RowStored (env : Env) (email : Text) (a : Account) (w : World env)
    (r : Outcome Err (Unit {0}) × World env) : Type 0 where
  done : r.0 ≡ ok tt
  up : env.database.Up r.1.db
  row : first_of_rows (has_email email) (env.database.rows r.1.db) ≡ some a
  cache : r.1.cache ≡ w.cache
  sent : r.1.sent ≡ w.sent

module _ (env : Env) (on : env.has_redis ≡ true) (w : World env) (cache_up : env.redis.Up w.cache)
    (db_up : env.database.Up w.db) where
  -- What a registration leaves: the row of the new account, the code under its id, and what was
  -- sent.
  record Registered (r : Registration) (d : Drawn) (hashed : Text)
      (out : Outcome Err VerifyCode × World env) : Type 0 where
    done : out.0 ≡ ok (verify_code env d.code d.account_id d.now)
    up : env.redis.Up out.1.cache
    stays_up : env.database.Up out.1.db
    code : env.redis.held out.1.cache (verify_code_key d.account_id) ≡ some (text d.code)
    row :
        first_of_rows (has_email r.email) (env.database.rows out.1.db)
        ≡ some (new_account env r d hashed)
    sent :
        out.1.sent
        ≡ create_user d.account_id r.email r.given_name r.family_name r.birthdate
          ∷ mail r.email d.code
          ∷ w.sent
