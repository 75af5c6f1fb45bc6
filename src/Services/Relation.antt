-- ===== src/Services/Relation.antt =====
-- A table behind gorm whose rows are created, counted and deleted, with one unique index: the
-- documented behaviour of the statements while the database is up, and a list of rows for the
-- examples.
use social_network_micro_ser.Prelude.{
  not, ℕ, ◌+◌, ◌<◌, ◌≤◌, Bool, true, List, [], ◌∷◌, Option, none, some, ◌≡◌, refl, Outcome, ok,
  fail, if◌then◌else◌, arith, ◌==◌, codes,
}
unfoldable pub use social_network_micro_ser.Prelude.{bit, matches}
pub use social_network_micro_ser.Prelude.{matches-ext}
use social_network_micro_ser.Exception.{Err, message}
use social_network_micro_ser.Services.Database.{first_of_rows}

unfoldable pub delete_rows : {R : Type 0} → (R → Bool) → List R → List R
delete_rows p [] = []
delete_rows p (r ∷ rs) = let rest = delete_rows p rs in if p r then rest else r ∷ rest

pub record Relation (R : Type 0) : Type 1 where
  pub Store : Type 0
  pub rows : Store → List R
  pub Up : Store → Type 0
  -- a row that the unique index does not let stand beside this one
  pub same_key : R → R → Bool
  pub duplicate : Err
  -- `none` is `gorm.ErrRecordNotFound`
  pub first : (R → Bool) → Store → Outcome Err (Option R)
  pub count : (R → Bool) → Store → Outcome Err ℕ
  -- the rows that meet the condition
  pub find_all : (R → Bool) → Store → Outcome Err (List R)
  pub create : R → Store → Outcome Err (Unit {0}) × Store
  pub remove : (R → Bool) → Store → Outcome Err (Unit {0}) × Store
  pub first_up : (p : R → Bool) (s : Store) → Up s → first p s ≡ ok (first_of_rows p (rows s))
  pub count_up : (p : R → Bool) (s : Store) → Up s → count p s ≡ ok (matches p (rows s))
  pub find_all_up :
      (p : R → Bool) (s : Store) → Up s → find_all p s ≡ ok (delete_rows (λ r. not (p r)) (rows s))
  pub create_up :
      (r : R) (s : Store)
      → Up s
      → (create r s).0 ≡ (if matches (same_key r) (rows s) == 0 then ok tt else fail duplicate)
  pub create-Up : (r : R) (s : Store) → Up s → Up (create r s).1
  pub matches-create :
      (p : R → Bool) (r : R) (s : Store)
      → Up s
      → matches p (rows (create r s).1) ≡ (
          if matches (same_key r) (rows s) == 0
          then bit (p r) + matches p (rows s)
          else matches p (rows s))
  pub remove_up : (p : R → Bool) (s : Store) → Up s → (remove p s).0 ≡ ok tt
  pub remove-Up : (p : R → Bool) (s : Store) → Up s → Up (remove p s).1
  pub rows-remove : (p : R → Bool) (s : Store) → Up s → rows (remove p s).1 ≡ delete_rows p (rows s)

-- A condition that is found is met by some row, and the found row meets it.
pub first-matches :
    {R : Type 0} (p : R → Bool) (rs : List R) (r : R)
    → first_of_rows p rs ≡ some r
    → (p r ≡ true) × (0 < matches p rs)
unfolding matches
first-matches p [] r h = (cc, cc)
first-matches p (x ∷ rs) r h = ground (arith, first-matches p rs r)

pub first_of_none :
    {R : Type 0} (p : R → Bool) (rs : List R) → matches p rs ≡ 0 → first_of_rows p rs ≡ none
unfolding matches
first_of_none p [] h = refl
first_of_none p (x ∷ rs) h = ground (arith, first_of_none p rs)

pub matches-deleted : {R : Type 0} (p : R → Bool) (rs : List R) → matches p (delete_rows p rs) ≡ 0
unfolding matches delete_rows
matches-deleted p [] = refl
matches-deleted p (r ∷ rs) = ground (arith, matches-deleted p rs)

pub delete_rows-matches :
    {R : Type 0} (p q : R → Bool) (rs : List R) → matches q (delete_rows p rs) ≤ matches q rs
unfolding matches delete_rows
delete_rows-matches p q [] = omega arith
delete_rows-matches p q (r ∷ rs) = ground (arith, delete_rows-matches p q rs)

abbrev pub list_create :
    {R : Type 0} → (R → R → Bool) → R → List R → Outcome Err (Unit {0}) × List R
list_create same_key r rs =
    if matches (same_key r) rs == 0
    then (ok tt, r ∷ rs)
    else (fail (message (codes "duplicate key")), rs)

pub created :
    {R : Type 0} (same_key : R → R → Bool) (r : R) (rs : List R)
    → (list_create same_key r rs).0
      ≡ (if matches (same_key r) rs == 0 then ok tt else fail (message (codes "duplicate key")))
created same_key r rs = ground arith

pub matches-created :
    {R : Type 0} (same_key : R → R → Bool) (p : R → Bool) (r : R) (rs : List R)
    → matches p (list_create same_key r rs).1
      ≡ (if matches (same_key r) rs == 0 then bit (p r) + matches p rs else matches p rs)
unfolding matches
matches-created same_key p r rs = ground arith

abbrev pub list_relation : (R : Type 0) → (R → R → Bool) → Relation R
list_relation R same_key = record {
  Store = List R;
  rows = λ s. s;
  Up = λ s. Unit {0};
  same_key = same_key;
  duplicate = message (codes "duplicate key");
  first = λ p s. ok (first_of_rows p s);
  count = λ p s. ok (matches p s);
  find_all = λ p s. ok (delete_rows (λ r. not (p r)) s);
  create = list_create same_key;
  remove = λ p s. (ok tt, delete_rows p s);
  first_up = λ p s u. refl;
  count_up = λ p s u. refl;
  find_all_up = λ p s u. refl;
  create_up = λ r s u. created same_key r s;
  create-Up = λ r s u. tt;
  matches-create = λ p r s u. matches-created same_key p r s;
  remove_up = λ p s u. refl;
  remove-Up = λ p s u. tt;
  rows-remove = λ p s u. refl;
}
