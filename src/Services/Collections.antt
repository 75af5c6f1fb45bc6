-- ===== src/Services/Collections.antt =====
-- A collection of MongoDB: what is documented of the statements that the code sends, failures
-- included where a count of documents is bounded, and a list for the examples.
use social_network_micro_ser.Prelude.{
  ℕ, ◌+◌, ◌≤◌, Text, text_eq, Bool, true, ◌&&◌, List, [], ◌∷◌, Option, none, some, ◌≡◌, refl,
  Outcome, ok, fail, if◌then◌else◌, arith, bit, matches, ◌==◌, ltb, not, ◌∙◌,
}
use social_network_micro_ser.Prelude.Sort.{filter, stable_sort, matches-stable_sort}
use social_network_micro_ser.Exception.{Err}
use social_network_micro_ser.Services.Database.{first_of_rows}
use social_network_micro_ser.Services.Upserts.{upsert_rows}

abbrev pub taken : {R : Type 0} → (R → Bool) → Outcome Err (Option R) → ℕ
taken q (ok (some r)) = bit (q r)
taken q (ok none) = 0
taken q (fail e) = 0

abbrev pub found_matches : {R : Type 0} → (R → Bool) → Outcome Err (List R) → ℕ
found_matches q (ok rs) = matches q rs
found_matches q (fail e) = 0

abbrev pub same_key : {R : Type 0} → (R → Text) → R → R → Bool
same_key key new old = text_eq (key old) (key new)

-- The keys of the documents are given with the statements.
pub record Collection (R : Type 0) : Type 1 where
  pub Store : Type 0
  pub docs : Store → List R
  pub Up : Store → Type 0
  pub find_all : (R → Bool) → Store → Outcome Err (List R)
  -- `none` for no document
  pub find_one : (R → Bool) → Store → Outcome Err (Option R)
  -- the documents with the greatest number first
  pub find_sorted : (R → Bool) → (R → ℕ) → Store → Outcome Err (List R)
  pub count : (R → Bool) → Store → Outcome Err ℕ
  -- UpdateOne by key with $set and upsert
  pub upsert : (R → Text) → R → Store → Outcome Err (Unit {0}) × Store
  -- InsertMany, not ordered: a document whose key is taken is left out
  pub insert_many : (R → Text) → List R → Store → Store
  pub insert_one : R → Store → Outcome Err (Unit {0}) × Store
  -- UpdateOne of a document that meets the condition
  pub update_one : (R → Bool) → (R → R) → Store → Outcome Err (Unit {0}) × Store
  pub find_one_and_delete : (R → Bool) → Store → Outcome Err (Option R) × Store
  pub delete_many : (R → Bool) → Store → Store
  -- an inserted or a deleted document counts once, whatever fails
  pub insert_le :
      (key : R → Text) (rs : List R) (s : Store) (q : R → Bool)
      → matches q (docs (insert_many key rs s)) ≤ matches q rs + matches q (docs s)
  pub taken_le :
      (p : R → Bool) (s : Store) (q : R → Bool)
      → taken q (find_one_and_delete p s).0 + matches q (docs (find_one_and_delete p s).1)
        ≤ matches q (docs s)
  pub taken_meets :
      (p : R → Bool) (s : Store) (r : R) → (find_one_and_delete p s).0 ≡ ok (some r) → p r ≡ true
  pub delete_le :
      (p : R → Bool) (s : Store) (q : R → Bool)
      → matches q (docs (delete_many p s)) ≤ matches q (docs s)
  pub find_one_up : (p : R → Bool) (s : Store) → Up s → find_one p s ≡ ok (first_of_rows p (docs s))
  pub upsert_up : (key : R → Text) (r : R) (s : Store) → Up s → (upsert key r s).0 ≡ ok tt
  pub upsert-Up : (key : R → Text) (r : R) (s : Store) → Up s → Up (upsert key r s).1
  pub docs-upsert :
      (key : R → Text) (r : R) (s : Store)
      → Up s
      → docs (upsert key r s).1 ≡ upsert_rows (same_key key) (λ new old. new) r (docs s)
  pub sorted_matches :
      (p : R → Bool) (by : R → ℕ) (s : Store) (q : R → Bool)
      → Up s
      → found_matches q (find_sorted p by s) ≡ matches (λ r. p r && q r) (docs s)

module _ {R : Type 0} where
  unfoldable pub insert_rows : (R → Text) → List R → List R → List R
  insert_rows key [] rs = rs
  insert_rows key (n ∷ ns) rs =
      insert_rows key ns (if matches (same_key key n) rs == 0 then n ∷ rs else rs)

  unfoldable pub take_row : (R → Bool) → List R → Option R × List R
  take_row p [] = (none, [])
  take_row p (r ∷ rs) =
      let rest = take_row p rs in if p r then (some r, rs) else (rest.0, r ∷ rest.1)

  unfoldable pub update_row : (R → Bool) → (R → R) → List R → List R
  update_row p f [] = []
  update_row p f (r ∷ rs) = let rest = update_row p f rs in if p r then f r ∷ rs else r ∷ rest

  pub insert_rows_le :
      (key : R → Text) (ns rs : List R) (q : R → Bool)
      → matches q (insert_rows key ns rs) ≤ matches q ns + matches q rs
  unfolding insert_rows matches
  insert_rows_le key [] rs q = omega arith
  insert_rows_le key (n ∷ ns) rs q =
      let rest = if matches (same_key key n) rs == 0 then n ∷ rs else rs in
      ground (arith, insert_rows_le key ns rest q)

  pub take_row_le :
      (p : R → Bool) (rs : List R) (q : R → Bool)
      → taken q (ok (take_row p rs).0) + matches q (take_row p rs).1 ≤ matches q rs
  unfolding take_row matches
  take_row_le p [] q = omega arith
  take_row_le p (r ∷ rs) q = ground (arith, take_row_le p rs q)

  pub take_row_meets :
      (p : R → Bool) (rs : List R) (r : R)
      → ◌≡◌ {A = Outcome Err (Option R)} (ok (take_row p rs).0) (ok (some r))
      → p r ≡ true
  unfolding take_row
  take_row_meets p [] r h = cc
  take_row_meets p (x ∷ rs) r h = ground (arith, take_row_meets p rs r)

  pub filter_le :
      (p : R → Bool) (rs : List R) (q : R → Bool) → matches q (filter p rs) ≤ matches q rs
  unfolding filter matches
  filter_le p [] q = omega arith
  filter_le p (r ∷ rs) q = ground (arith, filter_le p rs q)

  pub matches-filter :
      (p : R → Bool) (rs : List R) (q : R → Bool)
      → matches q (filter p rs) ≡ matches (λ r. p r && q r) rs
  unfolding filter matches
  matches-filter p [] q = refl
  matches-filter p (r ∷ rs) q = ground (arith, matches-filter p rs q)

  abbrev pub greater : (R → ℕ) → R → R → Bool
  greater by r x = ltb (by x) (by r)

abbrev pub list_collection : (R : Type 0) → Collection R
list_collection R = record {
  Store = List R;
  docs = λ s. s;
  Up = λ s. Unit {0};
  find_all = λ p s. ok (filter p s);
  find_one = λ p s. ok (first_of_rows p s);
  find_sorted = λ p by s. ok (stable_sort (greater by) (filter p s));
  count = λ p s. ok (matches p s);
  upsert = λ key r s. (ok tt, upsert_rows (same_key key) (λ new old. new) r s);
  insert_many = insert_rows;
  insert_one = λ r s. (ok tt, r ∷ s);
  update_one = λ p f s. (ok tt, update_row p f s);
  find_one_and_delete = λ p s. (ok (take_row p s).0, (take_row p s).1);
  delete_many = λ p s. filter (λ r. not (p r)) s;
  insert_le = insert_rows_le;
  taken_le = take_row_le;
  taken_meets = take_row_meets;
  delete_le = λ p s q. filter_le (λ r. not (p r)) s q;
  find_one_up = λ p s u. refl;
  upsert_up = λ key r s u. refl;
  upsert-Up = λ key r s u. tt;
  docs-upsert = λ key r s u. refl;
  sorted_matches =
      λ p by s q u. matches-stable_sort (greater by) q (filter p s) ∙ matches-filter p s q;
}
