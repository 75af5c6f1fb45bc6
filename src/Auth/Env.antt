-- ===== src/Auth/Env.antt =====
-- The data of auth-service (model/account.go, config/config.go, service/token.go), the services
-- that it calls, and the state that its handlers read and change.
use social_network_micro_ser.Prelude.{
  ℕ, Text, Bool, true, Option, some, List, ◌∷◌, ◌≡◌, Outcome, ok, Action,
}
use social_network_micro_ser.Exception.{Err}
use social_network_micro_ser.Services.Redis.{Redis}
use social_network_micro_ser.Services.Database.{Database}

pub record Account : Type 0 where
  pub id : Text
  pub email : Text
  pub password : Text
  pub role : Text
  pub is_verified : Bool
  pub two_factor_secret : Text
  pub is_two_factor_enabled : Bool
  pub created_at : ℕ

pub record TokenClaims : Type 0 where
  pub user_id : Text
  pub email : Text
  pub role : Text
  pub scope : Text
  pub username : Text
  pub expires_at : Option ℕ
  pub issued_at : ℕ
  pub not_before : ℕ
  pub subject : Text

-- Durations and times are whole seconds.
pub record Config : Type 0 where
  pub jwt_secret : Text
  pub jwt_refresh_secret : Text
  pub access_token_duration : ℕ
  pub refresh_token_duration : ℕ
  pub verify_email_duration : ℕ
  pub password_reset_duration : ℕ
  pub email_rate_limit_count : ℕ
  pub email_rate_limit_window : ℕ

-- What leaves the service: a mail with the code in its link, and a call of `CreateUser` with the
-- id, the email, the two names and the birthdate.
pub data Event : Type 0 where
  mail : Text → Text → Event
  create_user : Text → Text → Text → Text → Text → Event

-- bcrypt, totp, jwt, uuid and the user service, with the documented facts that are used.
pub record Env : Type 1 where
  pub cfg : Config
  pub has_redis : Bool
  pub redis : Redis
  pub database : Database Account
  pub compare_password : Text → Text → Bool
  -- the salt comes first
  pub hash_password : ℕ → Text → Outcome Err Text
  pub compare-hash :
      (salt : ℕ) (password h : Text)
      → hash_password salt password ≡ ok h
      → compare_password h password ≡ true
  -- the code, the secret and the time
  pub validate_totp : Text → Text → ℕ → Bool
  pub sign : TokenClaims → Text → Outcome Err Text
  -- the token, the key and the time
  pub parse_token : Text → Text → ℕ → Outcome Err TokenClaims
  pub parse_unverified : Text → Option TokenClaims
  pub parse_uuid : Text → Option Text
  -- `uuid.Parse` reads the form that `String` prints
  pub parse_uuid-canonical : (s id : Text) → parse_uuid s ≡ some id → parse_uuid id ≡ some id
  -- the gRPC client of the user service, if it is there: the username of a user
  pub user_client : Option (Text → Outcome Err Text)

pub record World (env : Env) : Type 0 where
  pub cache : env.redis.Store
  pub db : env.database.Store
  pub sent : List Event

module _ (env : Env) where
  abbrev pub Handler : Type 0 → Type 0
  Handler A = Action (World env) Err A

  -- a command to Redis
  abbrev pub cached : {A : Type 0} → Action env.redis.Store Err A → Handler A
  cached f w = ((f w.cache).0, record w { cache = (f w.cache).1 })

  abbrev pub cache_read : {A : Type 0} → (env.redis.Store → Outcome Err A) → Handler A
  cache_read f w = (f w.cache, w)

  -- a statement to the database
  abbrev pub stored : {A : Type 0} → Action env.database.Store Err A → Handler A
  stored f w = ((f w.db).0, record w { db = (f w.db).1 })

  abbrev pub emit : Event → Handler (Unit {0})
  emit e w = (ok tt, record w { sent = e ∷ w.sent })
