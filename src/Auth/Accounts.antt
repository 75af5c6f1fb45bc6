-- ===== src/Auth/Accounts.antt =====
-- auth-service/repository/account_repository.go: the account queries, over gorm.
use social_network_micro_ser.Prelude.{
  ℕ, Text, text_eq, Bool, ◌&&◌, ◌==◌, Outcome, ◌>>◌, throw, ok, fail, if◌then◌else◌,
}
use social_network_micro_ser.Exception.{Err}
use social_network_micro_ser.Auth.Env.{Account, Env, Handler, stored}

abbrev pub has_id : Text → Account → Bool
has_id id a = text_eq id a.id

abbrev pub has_email : Text → Account → Bool
has_email email a = text_eq email a.email

module _ (env : Env) where
  unfoldable pub find_by_email : Text → Handler env Account
  find_by_email email w = (env.database.first (has_email email) w.db, w)

  unfoldable pub find_by_email_and_role : Text → Text → Handler env Account
  find_by_email_and_role email role w =
      (env.database.first (λ a. has_email email a && text_eq role a.role) w.db, w)

  unfoldable pub find_by_id : Text → Handler env Account
  find_by_id id w = (env.database.first (has_id id) w.db, w)

  -- A zero `CreatedAt` becomes the time of the call.
  unfoldable pub create : Account → ℕ → Handler env (Unit {0})
  create a now =
      stored env
        (env.database.create (if a.created_at == 0 then record a { created_at = now } else a))

  -- `Save`: every field of the row with the account's id.
  unfoldable pub save : Account → Handler env (Unit {0})
  save a = stored env (env.database.update (has_id a.id) (λ old. a))

  unfoldable pub update_verification_status : Text → Bool → Handler env (Unit {0})
  update_verification_status id verified =
      stored env (env.database.update (has_id id) (λ a. record a { is_verified = verified }))

  unfoldable pub update_password : Text → Text → Handler env (Unit {0})
  update_password id hashed =
      stored env (env.database.update (has_id id) (λ a. record a { password = hashed }))

  rolled_back : Handler env (Unit {0})
  rolled_back w = (ok tt, record w { db = env.database.rollback w.db })

  -- `Begin`, the statement, and `Commit`; an error of the statement rolls back.
  undo_on_error : Outcome Err (Unit {0}) → Handler env (Unit {0})
  unfolding rolled_back
  undo_on_error (ok _) = stored env env.database.commit
  undo_on_error (fail e) = do rolled_back; throw e

  unfoldable pub in_transaction : Handler env (Unit {0}) → Handler env (Unit {0})
  unfolding undo_on_error
  in_transaction statement = do
    stored env env.database.begin
    λ w. undo_on_error (statement w).0 (statement w).1
