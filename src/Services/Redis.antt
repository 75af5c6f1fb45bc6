-- ===== src/Services/Redis.antt =====
-- The Redis commands that the services send through go-redis, over an abstract server state.
-- A command's error stands for `err != nil`; a missing key is `none` (`redis.Nil`).
use social_network_micro_ser.Prelude.{
  ℕ, suc, ◌<◌, Text, text_eq, Bool, true, false, ◌||◌, List, [], ◌∷◌, Option, none, some, ◌≡◌, ◌⊎◌,
  Outcome, ok, if◌then◌else◌,
}
use social_network_micro_ser.Exception.{Err}

-- What a key holds: the decimal form of a number, or another text.
pub data Value : Type 0 where
  num : ℕ → Value
  text : Text → Value

abbrev pub Reply : Type 0 → Type 0
Reply A = Outcome Err A

abbrev pub is_some {ℓ} : {A : Type ℓ} → Option A → Bool
is_some none = false
is_some (some a) = true

-- INCR starts a missing key at 0.
abbrev pub count_of : Option Value → Option ℕ
count_of none = some 0
count_of (some (num n)) = some n
count_of (some (text t)) = none

abbrev pub member : Text → List Text → Bool
member k [] = false
member k (j ∷ js) = text_eq j k || member k js

pub record Redis : Type 1 where
  pub Store : Type 0
  -- what the server answers a read of the key
  pub held : Store → Text → Option Value
  -- the seconds that the key has left
  pub left : Store → Text → ℕ
  -- the server answers every command
  pub Up : Store → Type 0
  -- time has passed, in which keys may have expired
  pub Later : Store → Store → Type 0
  pub exists : Text → Store → Reply Bool
  pub get : Text → Store → Reply (Option Value)
  -- `none` for the negative answers: no such key, or a key that does not expire
  pub ttl : Text → Store → Reply (Option ℕ)
  pub set : Text → Value → ℕ → Store → Reply (Unit {0}) × Store
  pub incr : Text → Store → Reply ℕ × Store
  pub expire : Text → ℕ → Store → Reply (Unit {0}) × Store
  pub del : List Text → Store → Reply (Unit {0}) × Store
  pub exists_up : (k : Text) (s : Store) → Up s → exists k s ≡ ok (is_some (held s k))
  pub get_up : (k : Text) (s : Store) → Up s → get k s ≡ ok (held s k)
  pub ttl_up :
      (k : Text) (s : Store)
      → Up s
      → 0 < left s k
      → is_some (held s k) ≡ true
      → ttl k s ≡ ok (some (left s k))
  pub set_up : (k : Text) (v : Value) (d : ℕ) (s : Store) → Up s → (set k v d s).0 ≡ ok tt
  pub set-Up : (k : Text) (v : Value) (d : ℕ) (s : Store) → Up s → Up (set k v d s).1
  pub held-set :
      (k : Text) (v : Value) (d : ℕ) (s : Store) (j : Text)
      → Up s
      → held (set k v d s).1 j ≡ (if text_eq k j then some v else held s j)
  pub left-set :
      (k : Text) (v : Value) (d : ℕ) (s : Store) → Up s → 0 < d → left (set k v d s).1 k ≡ d
  pub incr_up :
      (k : Text) (s : Store) (n : ℕ)
      → Up s
      → count_of (held s k) ≡ some n
      → (incr k s).0 ≡ ok (suc n)
  pub incr-Up : (k : Text) (s : Store) → Up s → Up (incr k s).1
  pub held-incr :
      (k : Text) (s : Store) (n : ℕ) (j : Text)
      → Up s
      → count_of (held s k) ≡ some n
      → held (incr k s).1 j ≡ (if text_eq k j then some (num (suc n)) else held s j)
  pub expire_up : (k : Text) (d : ℕ) (s : Store) → Up s → (expire k d s).0 ≡ ok tt
  pub expire-Up : (k : Text) (d : ℕ) (s : Store) → Up s → Up (expire k d s).1
  pub held-expire :
      (k : Text) (d : ℕ) (s : Store) (j : Text) → Up s → 0 < d → held (expire k d s).1 j ≡ held s j
  pub del_up : (ks : List Text) (s : Store) → Up s → (del ks s).0 ≡ ok tt
  pub del-Up : (ks : List Text) (s : Store) → Up s → Up (del ks s).1
  pub held-del :
      (ks : List Text) (s : Store) (j : Text)
      → Up s
      → held (del ks s).1 j ≡ (if member j ks then none else held s j)
  pub left-del :
      (ks : List Text) (s : Store) (j : Text)
      → Up s
      → member j ks ≡ false
      → left (del ks s).1 j ≡ left s j
  pub held-later : (s t : Store) (k : Text) → Later s t → (held t k ≡ held s k) ⊎ (held t k ≡ none)
