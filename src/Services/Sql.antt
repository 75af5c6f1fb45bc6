-- ===== src/Services/Sql.antt =====
-- A table behind gorm that the code reads, counts and changes row by row: the documented behaviour of
-- the statements while the database is up, and a list of rows for the examples. Rows that are deleted
-- softly are no rows.
use social_network_micro_ser.Prelude.{
  ℕ, Bool, List, ◌∷◌, Option, ◌≡◌, refl, Outcome, ok, fail, if◌then◌else◌, ◌==◌, codes, matches,
}
use social_network_micro_ser.Exception.{Err, message}
use social_network_micro_ser.Services.Database.{first_of_rows, update_rows}
use social_network_micro_ser.Services.Relation.{delete_rows}

abbrev pub insert_row : {R : Type 0} → (R → R → Bool) → R → List R → List R
insert_row same_key r rs = if matches (same_key r) rs == 0 then r ∷ rs else rs

pub record Sql (R : Type 0) : Type 1 where
  pub Store : Type 0
  pub rows : Store → List R
  pub Up : Store → Type 0
  -- a row that the keys do not let stand beside this one
  pub same_key : R → R → Bool
  pub duplicate : Err
  -- `none` is `gorm.ErrRecordNotFound`
  pub first : (R → Bool) → Store → Outcome Err (Option R)
  pub count : (R → Bool) → Store → Outcome Err ℕ
  pub create : R → Store → Outcome Err (Unit {0}) × Store
  pub update : (R → Bool) → (R → R) → Store → Outcome Err (Unit {0}) × Store
  -- the number of rows that are deleted
  pub remove : (R → Bool) → Store → Outcome Err ℕ × Store
  pub first_up : (p : R → Bool) (s : Store) → Up s → first p s ≡ ok (first_of_rows p (rows s))
  pub count_up : (p : R → Bool) (s : Store) → Up s → count p s ≡ ok (matches p (rows s))
  pub create_up :
      (r : R) (s : Store)
      → Up s
      → (create r s).0 ≡ (if matches (same_key r) (rows s) == 0 then ok tt else fail duplicate)
  pub create-Up : (r : R) (s : Store) → Up s → Up (create r s).1
  pub rows-create :
      (r : R) (s : Store) → Up s → rows (create r s).1 ≡ insert_row same_key r (rows s)
  pub update_up : (p : R → Bool) (f : R → R) (s : Store) → Up s → (update p f s).0 ≡ ok tt
  pub update-Up : (p : R → Bool) (f : R → R) (s : Store) → Up s → Up (update p f s).1
  pub rows-update :
      (p : R → Bool) (f : R → R) (s : Store)
      → Up s
      → rows (update p f s).1 ≡ update_rows p f (rows s)
  pub remove_up : (p : R → Bool) (s : Store) → Up s → (remove p s).0 ≡ ok (matches p (rows s))
  pub remove-Up : (p : R → Bool) (s : Store) → Up s → Up (remove p s).1
  pub rows-remove : (p : R → Bool) (s : Store) → Up s → rows (remove p s).1 ≡ delete_rows p (rows s)

abbrev pub sql_create : {R : Type 0} → (R → R → Bool) → R → List R → Outcome Err (Unit {0}) × List R
sql_create same_key r rs = (
  if matches (same_key r) rs == 0 then ok tt else fail (message (codes "duplicate key")),
  insert_row same_key r rs,
)

abbrev pub list_sql : (R : Type 0) → (R → R → Bool) → Sql R
list_sql R same_key = record {
  Store = List R;
  rows = λ s. s;
  Up = λ s. Unit {0};
  same_key = same_key;
  duplicate = message (codes "duplicate key");
  first = λ p s. ok (first_of_rows p s);
  count = λ p s. ok (matches p s);
  create = sql_create same_key;
  update = λ p f s. (ok tt, update_rows p f s);
  remove = λ p s. (ok (matches p s), delete_rows p s);
  first_up = λ p s u. refl;
  count_up = λ p s u. refl;
  create_up = λ r s u. refl;
  create-Up = λ r s u. tt;
  rows-create = λ r s u. refl;
  update_up = λ p f s u. refl;
  update-Up = λ p f s u. tt;
  rows-update = λ p f s u. refl;
  remove_up = λ p s u. refl;
  remove-Up = λ p s u. tt;
  rows-remove = λ p s u. refl;
}
