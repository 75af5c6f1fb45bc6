-- ===== src/Services/Sets.antt =====
-- The Redis commands on texts and sets: the documented behaviour of those that the calls of
-- chat-service send while the server is up, and a table for the examples. The replies of the commands
-- that change something are dropped, as the code does. A text that expires is deleted by a step of its
-- own, so an expiry is only written down here.
use social_network_micro_ser.Prelude.{
  ℕ, Text, text_eq, text_eq_iff, Bool, false, ◌||◌, List, [], ◌∷◌, Option, none, some, ◌≡◌, refl,
  Outcome, ok, if◌then◌else◌, arith,
}
use social_network_micro_ser.Exception.{Err}
use social_network_micro_ser.Services.Redis.{member, is_some}

pub record Sets : Type 1 where
  pub Store : Type 0
  pub text : Store → Text → Option Text
  pub members : Store → Text → List Text
  pub Up : Store → Type 0
  pub exists : Text → Store → Outcome Err Bool
  pub get : Text → Store → Outcome Err (Option Text)
  pub smembers : Text → Store → Outcome Err (List Text)
  -- with the seconds until it expires, if it does
  pub set : Text → Text → Option ℕ → Store → Store
  pub sadd : Text → List Text → Store → Store
  pub del : Text → Store → Store
  -- asked for keys that hold texts only
  pub exists_up : (k : Text) (s : Store) → Up s → exists k s ≡ ok (is_some (text s k))
  pub get_up : (k : Text) (s : Store) → Up s → get k s ≡ ok (text s k)
  pub smembers_up : (k : Text) (s : Store) → Up s → smembers k s ≡ ok (members s k)
  pub set-Up : (k v : Text) (d : Option ℕ) (s : Store) → Up s → Up (set k v d s)
  pub text-set :
      (k v : Text) (d : Option ℕ) (s : Store) (j : Text)
      → Up s
      → text (set k v d s) j ≡ (if text_eq k j then some v else text s j)
  pub members-set :
      (k v : Text) (d : Option ℕ) (s : Store) (j : Text)
      → Up s
      → text_eq k j ≡ false
      → members (set k v d s) j ≡ members s j
  pub sadd-Up : (k : Text) (vs : List Text) (s : Store) → Up s → Up (sadd k vs s)
  pub text-sadd :
      (k : Text) (vs : List Text) (s : Store) (j : Text)
      → Up s
      → text_eq k j ≡ false
      → text (sadd k vs s) j ≡ text s j
  pub member-sadd :
      (k : Text) (vs : List Text) (s : Store) (j v : Text)
      → Up s
      → member v (members (sadd k vs s) j)
        ≡ (if text_eq k j then member v vs || member v (members s j) else member v (members s j))
  pub del-Up : (k : Text) (s : Store) → Up s → Up (del k s)
  pub text-del :
      (k : Text) (s : Store) (j : Text)
      → Up s
      → text (del k s) j ≡ (if text_eq k j then none else text s j)
  pub members-del :
      (k : Text) (s : Store) (j : Text)
      → Up s
      → members (del k s) j ≡ (if text_eq k j then [] else members s j)

pub record Table : Type 0 where
  pub texts : Text → Option Text
  pub sets : Text → List Text

unfoldable pub add_members : List Text → List Text → List Text
add_members [] ms = ms
add_members (v ∷ vs) ms = let rest = add_members vs ms in if member v rest then rest else v ∷ rest

pub member-add_members :
    (v : Text) (vs ms : List Text) → member v (add_members vs ms) ≡ (member v vs || member v ms)
unfolding add_members
member-add_members v [] ms = refl
member-add_members v (x ∷ vs) ms =
    ground (arith, member-add_members v vs ms, member-add_members x vs ms, text_eq_iff x v)

abbrev pub table_sadd : Text → List Text → Table → Table
table_sadd k vs s = record s {
  sets = λ j. if text_eq k j then add_members vs (s.sets j) else s.sets j;
}

pub member-table_sadd :
    (k : Text) (vs : List Text) (s : Table) (j v : Text)
    → member v ((table_sadd k vs s).sets j)
      ≡ (if text_eq k j then member v vs || member v (s.sets j) else member v (s.sets j))
member-table_sadd k vs s j v = ground (arith, member-add_members v vs (s.sets j))

abbrev pub table_sets : Sets
table_sets = record {
  Store = Table;
  text = λ s. s.texts;
  members = λ s. s.sets;
  Up = λ s. Unit {0};
  exists = λ k s. ok (is_some (s.texts k));
  get = λ k s. ok (s.texts k);
  smembers = λ k s. ok (s.sets k);
  set = λ k v d s. record s { texts = λ j. if text_eq k j then some v else s.texts j };
  sadd = table_sadd;
  del = λ k s. record {
    texts = λ j. if text_eq k j then none else s.texts j;
    sets = λ j. if text_eq k j then [] else s.sets j;
  };
  exists_up = λ k s u. refl;
  get_up = λ k s u. refl;
  smembers_up = λ k s u. refl;
  set-Up = λ k v d s u. tt;
  text-set = λ k v d s j u. refl;
  members-set = λ k v d s j u h. refl;
  sadd-Up = λ k vs s u. tt;
  text-sadd = λ k vs s j u h. refl;
  member-sadd = λ k vs s j v u. member-table_sadd k vs s j v;
  del-Up = λ k s u. tt;
  text-del = λ k s j u. refl;
  members-del = λ k s j u. refl;
}
