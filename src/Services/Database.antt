-- ===== src/Services/Database.antt =====
-- A table behind gorm, over an abstract database state: a query for the first row that meets a
-- condition, inserts and updates, and the begin and end of a transaction.
use social_network_micro_ser.Prelude.{
  arith, Bool, List, [], ◌∷◌, Option, none, some, ◌≡◌, refl, Outcome, ok, fail, if◌then◌else◌, true,
}
use social_network_micro_ser.Exception.{Err}

abbrev pub first_of_rows : {R : Type 0} → (R → Bool) → List R → Option R
first_of_rows p [] = none
first_of_rows p (r ∷ rs) = if p r then some r else first_of_rows p rs

abbrev pub update_rows : {R : Type 0} → (R → Bool) → (R → R) → List R → List R
update_rows p f [] = []
update_rows p f (r ∷ rs) = (if p r then f r else r) ∷ update_rows p f rs

-- `missing` is `gorm.ErrRecordNotFound`.
abbrev pub found_or : {R : Type 0} → Err → Option R → Outcome Err R
found_or missing none = fail missing
found_or missing (some r) = ok r

pub record Database (R : Type 0) : Type 1 where
  pub Store : Type 0
  pub missing : Err
  -- what the open transaction, or else the database, shows
  pub rows : Store → List R
  pub Up : Store → Type 0
  pub first : (R → Bool) → Store → Outcome Err R
  pub create : R → Store → Outcome Err (Unit {0}) × Store
  pub update : (R → Bool) → (R → R) → Store → Outcome Err (Unit {0}) × Store
  pub begin : Store → Outcome Err (Unit {0}) × Store
  pub commit : Store → Outcome Err (Unit {0}) × Store
  pub rollback : Store → Store
  pub first_up :
      (p : R → Bool) (s : Store) → Up s → first p s ≡ found_or missing (first_of_rows p (rows s))
  pub update_up : (p : R → Bool) (f : R → R) (s : Store) → Up s → (update p f s).0 ≡ ok tt
  pub update-Up : (p : R → Bool) (f : R → R) (s : Store) → Up s → Up (update p f s).1
  pub rows-update :
      (p : R → Bool) (f : R → R) (s : Store)
      → Up s
      → rows (update p f s).1 ≡ update_rows p f (rows s)
  pub create_up : (r : R) (s : Store) → Up s → (create r s).0 ≡ ok tt
  pub create-Up : (r : R) (s : Store) → Up s → Up (create r s).1
  -- an inserted row is found by a condition that no other row meets
  pub first-create :
      (p : R → Bool) (r : R) (s : Store)
      → Up s
      → first_of_rows p (rows s) ≡ none
      → p r ≡ true
      → first_of_rows p (rows (create r s).1) ≡ some r
  pub begin_up : (s : Store) → Up s → (begin s).0 ≡ ok tt
  pub begin-Up : (s : Store) → Up s → Up (begin s).1
  pub rows-begin : (s : Store) → Up s → rows (begin s).1 ≡ rows s
  pub commit_up : (s : Store) → Up s → (commit s).0 ≡ ok tt
  pub commit-Up : (s : Store) → Up s → Up (commit s).1
  pub rows-commit : (s : Store) → Up s → rows (commit s).1 ≡ rows s

pub head_found :
    {R : Type 0} (p : R → Bool) (r : R) (rs : List R)
    → p r ≡ true
    → first_of_rows p (r ∷ rs) ≡ some r
head_found p r rs h = rw h

-- An update of the found row is found by a condition that the update does not touch.
pub first-update :
    {R : Type 0} (p q : R → Bool) (f : R → R) (rs : List R) (r : R)
    → ((x : R) → p (f x) ≡ p x)
    → q r ≡ true
    → first_of_rows p rs ≡ some r
    → first_of_rows p (update_rows q f rs) ≡ some (f r)
first-update p q f [] r keeps hit found = cc
first-update p q f (x ∷ rs) r keeps hit found =
    ground (arith, keeps x, keeps r, first-update p q f rs r keeps hit)

pub first-replace :
    {R : Type 0} (p : R → Bool) (r' : R) (rs : List R) (r : R)
    → p r' ≡ true
    → first_of_rows p rs ≡ some r
    → first_of_rows p (update_rows p (λ x. r') rs) ≡ some r'
first-replace p r' [] r hit found = cc
first-replace p r' (x ∷ rs) r hit found = ground (arith, first-replace p r' rs r hit)

-- The rows themselves, always up: the concrete database of the examples.
abbrev pub table : (R : Type 0) → Err → Database R
table R missing = record {
  Store = List R;
  missing = missing;
  rows = λ s. s;
  Up = λ s. Unit {0};
  first = λ p s. found_or missing (first_of_rows p s);
  create = λ r s. (ok tt, r ∷ s);
  update = λ p f s. (ok tt, update_rows p f s);
  begin = λ s. (ok tt, s);
  commit = λ s. (ok tt, s);
  rollback = λ s. s;
  first_up = λ p s u. refl;
  update_up = λ p f s u. refl;
  update-Up = λ p f s u. tt;
  rows-update = λ p f s u. refl;
  create_up = λ r s u. refl;
  create-Up = λ r s u. tt;
  first-create = λ p r s u missing h. head_found p r s h;
  begin_up = λ s u. refl;
  begin-Up = λ s u. tt;
  rows-begin = λ s u. refl;
  commit_up = λ s u. refl;
  commit-Up = λ s u. tt;
  rows-commit = λ s u. refl;
}
