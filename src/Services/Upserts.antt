-- ===== src/Services/Upserts.antt =====
-- A table behind gorm whose rows are inserted with a clause for conflicts: the documented behaviour of
-- the statements while the database is up, and a list of rows for the examples.
use social_network_micro_ser.Prelude.{
  ℕ, Text, text_eq, text_eq_iff, Bool, List, [], ◌∷◌, Option, none, some, ◌≡◌, refl, Outcome, ok,
  if◌then◌else◌, arith, matches,
}
use social_network_micro_ser.Exception.{Err}
use social_network_micro_ser.Services.Database.{first_of_rows}

-- INSERT … ON CONFLICT: the first row that is in conflict is replaced by what the clause says, which
-- is given the new row and the old one.
unfoldable pub upsert_rows : {R : Type 0} → (R → R → Bool) → (R → R → R) → R → List R → List R
upsert_rows conflicts resolve r [] = r ∷ []
upsert_rows conflicts resolve r (x ∷ xs) =
    let rest = upsert_rows conflicts resolve r xs in
    if conflicts r x then resolve r x ∷ xs else x ∷ rest

pub record Upserts (R : Type 0) : Type 1 where
  pub Store : Type 0
  pub rows : Store → List R
  pub Up : Store → Type 0
  -- `none` is `gorm.ErrRecordNotFound`
  pub first : (R → Bool) → Store → Outcome Err (Option R)
  pub count : (R → Bool) → Store → Outcome Err ℕ
  pub upsert : (R → R → Bool) → (R → R → R) → R → Store → Outcome Err (Unit {0}) × Store
  -- INSERT without a clause; an error where a key is there already
  pub create : R → Store → Outcome Err (Unit {0}) × Store
  pub first_up : (p : R → Bool) (s : Store) → Up s → first p s ≡ ok (first_of_rows p (rows s))
  pub count_up : (p : R → Bool) (s : Store) → Up s → count p s ≡ ok (matches p (rows s))
  pub upsert_up :
      (conflicts : R → R → Bool) (resolve : R → R → R) (r : R) (s : Store)
      → Up s
      → (upsert conflicts resolve r s).0 ≡ ok tt
  pub upsert-Up :
      (conflicts : R → R → Bool) (resolve : R → R → R) (r : R) (s : Store)
      → Up s
      → Up (upsert conflicts resolve r s).1
  pub rows-upsert :
      (conflicts : R → R → Bool) (resolve : R → R → R) (r : R) (s : Store)
      → Up s
      → rows (upsert conflicts resolve r s).1 ≡ upsert_rows conflicts resolve r (rows s)

abbrev pub list_upserts : (R : Type 0) → Upserts R
list_upserts R = record {
  Store = List R;
  rows = λ s. s;
  Up = λ s. Unit {0};
  first = λ p s. ok (first_of_rows p s);
  count = λ p s. ok (matches p s);
  upsert = λ conflicts resolve r s. (ok tt, upsert_rows conflicts resolve r s);
  create = λ r s. (ok tt, r ∷ s);
  first_up = λ p s u. refl;
  count_up = λ p s u. refl;
  upsert_up = λ conflicts resolve r s u. refl;
  upsert-Up = λ conflicts resolve r s u. tt;
  rows-upsert = λ conflicts resolve r s u. refl;
}

-- The row that stands in place of the new one.
abbrev pub merged : {R : Type 0} → (R → R → R) → R → Option R → R
merged resolve r none = r
merged resolve r (some x) = resolve r x

-- A conflict on a key that the clause keeps changes the row of that key only.
pub first-upsert_rows :
    {R : Type 0} (key : R → Text) (resolve : R → R → R) (r : R) (rs : List R) (j : Text)
    → ((x : R) → key (resolve r x) ≡ key r)
    → first_of_rows
        (λ x. text_eq (key x) j)
        (upsert_rows (λ n x. text_eq (key x) (key n)) resolve r rs)
      ≡ (if text_eq (key r) j
          then some (merged resolve r (first_of_rows (λ x. text_eq (key x) (key r)) rs))
          else first_of_rows (λ x. text_eq (key x) j) rs)
unfolding upsert_rows
first-upsert_rows key resolve r [] j h = refl
first-upsert_rows key resolve r (x ∷ xs) j h = ground (
  arith,
  first-upsert_rows key resolve r xs j h,
  h x,
  text_eq_iff (key x) (key r),
  text_eq_iff (key x) j,
  text_eq_iff (key r) j,
)
