-- ===== src/Services/RedisTable.antt =====
-- A Redis server as a table: the concrete server of the examples. It is always up.
use social_network_micro_ser.Prelude.{
  ℕ, suc, ◌<◌, Text, text_eq, text_eq_iff, text_eq_refl, true, false, List, [], ◌∷◌, Option, none,
  some, ◌≡◌, refl, ◌⊎◌, ok, fail, if◌then◌else◌, arith, ap,
}
use social_network_micro_ser.Exception.{message}
use social_network_micro_ser.Services.Redis.{
  Value, num, text, Reply, is_some, count_of, member, Redis,
}

-- A key, its value and the seconds it has left.
abbrev pub Row : Type 0
Row = Text × Value × ℕ

abbrev pub Table : Type 0
Table = List Row

unfoldable pub held : Table → Text → Option Value
held [] j = none
held ((k, v, d) ∷ rows) j = if text_eq k j then some v else held rows j

unfoldable pub left : Table → Text → ℕ
left [] j = 0
left ((k, v, d) ∷ rows) j = if text_eq k j then d else left rows j

unfoldable pub remove : List Text → Table → Table
remove ks [] = []
remove ks ((k, v, d) ∷ rows) =
    let rest = remove ks rows in if member k ks then rest else (k, v, d) ∷ rest

unfoldable pub prolong : Text → ℕ → Table → Table
prolong k d [] = []
prolong k d ((j, v, e) ∷ rows) =
    let rest = prolong k d rows in if text_eq k j then (j, v, d) ∷ rest else (j, v, e) ∷ rest

unfoldable pub bump : Text → Table → Option Value → Reply ℕ × Table
bump k rows none = (ok 1, (k, num 1, 0) ∷ rows)
bump k rows (some (num n)) = (ok (suc n), (k, num (suc n), left rows k) ∷ rows)
bump k rows (some (text t)) = (fail (message []), rows)

member-eq : (ks : List Text) (k j : Text) → k ≡ j → member k ks ≡ member j ks
member-eq ks k j e = rw e

pub held-remove :
    (ks : List Text) (rows : Table) (j : Text)
    → held (remove ks rows) j ≡ (if member j ks then none else held rows j)
unfolding held remove
held-remove ks [] j = ground arith
held-remove ks ((k, v, d) ∷ rows) j =
    ground (arith, held-remove ks rows j, text_eq_iff k j, member-eq ks k j)

pub left-remove :
    (ks : List Text) (rows : Table) (j : Text)
    → member j ks ≡ false
    → left (remove ks rows) j ≡ left rows j
unfolding left remove
left-remove ks [] j h = refl
left-remove ks ((k, v, d) ∷ rows) j h =
    ground (arith, left-remove ks rows j, text_eq_iff k j, member-eq ks k j)

pub held-prolong :
    (k : Text) (d : ℕ) (rows : Table) (j : Text) → held (prolong k d rows) j ≡ held rows j
unfolding held prolong
held-prolong k d [] j = refl
held-prolong k d ((i, v, e) ∷ rows) j = ground (arith, held-prolong k d rows j)

pub bump_up :
    (k : Text) (rows : Table) (o : Option Value) (n : ℕ)
    → count_of o ≡ some n
    → (bump k rows o).0 ≡ ok (suc n)
unfolding bump
bump_up k rows o n h = ground arith

pub held-bump :
    (k : Text) (rows : Table) (o : Option Value) (n : ℕ) (j : Text)
    → count_of o ≡ some n
    → held (bump k rows o).1 j ≡ (if text_eq k j then some (num (suc n)) else held rows j)
unfolding bump held
held-bump k rows o n j h = ground arith

pub left-head : (k : Text) (v : Value) (d : ℕ) (rows : Table) → left ((k, v, d) ∷ rows) k ≡ d
unfolding left
left-head k v d rows = rw text_eq_refl

pub held-cons :
    (k : Text) (v : Value) (d : ℕ) (rows : Table) (j : Text)
    → Unit {0}
    → held ((k, v, d) ∷ rows) j ≡ (if text_eq k j then some v else held rows j)
unfolding held
held-cons k v d rows j u = refl

unfoldable pub ttl_of : Option Value → ℕ → Option ℕ
ttl_of none d = none
ttl_of (some v) d = if text_eq (d ∷ []) (0 ∷ []) then none else some d

pub ttl_of_up : (o : Option Value) (d : ℕ) → 0 < d → is_some o ≡ true → ttl_of o d ≡ some d
unfolding ttl_of text_eq
ttl_of_up none d p h = cc
ttl_of_up (some v) d p h = ground arith

abbrev pub table_server : Redis
table_server = record {
  Store = Table;
  held = held;
  left = left;
  Up = λ s. Unit {0};
  Later = λ s t. (k : Text) → (held t k ≡ held s k) ⊎ (held t k ≡ none);
  exists = λ k s. ok (is_some (held s k));
  get = λ k s. ok (held s k);
  ttl = λ k s. ok (ttl_of (held s k) (left s k));
  set = λ k v d s. (ok tt, (k, v, d) ∷ s);
  incr = λ k s. bump k s (held s k);
  expire = λ k d s. (ok tt, prolong k d s);
  del = λ ks s. (ok tt, remove ks s);
  exists_up = λ k s u. refl;
  get_up = λ k s u. refl;
  ttl_up = λ k s u p h. ap ok (ttl_of_up (held s k) (left s k) p h);
  set_up = λ k v d s u. refl;
  set-Up = λ k v d s u. tt;
  held-set = held-cons;
  left-set = λ k v d s u p. left-head k v d s;
  incr_up = λ k s n u h. bump_up k s (held s k) n h;
  incr-Up = λ k s u. tt;
  held-incr = λ k s n j u h. held-bump k s (held s k) n j h;
  expire_up = λ k d s u. refl;
  expire-Up = λ k d s u. tt;
  held-expire = λ k d s j u p. held-prolong k d s j;
  del_up = λ ks s u. refl;
  del-Up = λ ks s u. tt;
  held-del = λ ks s j u. held-remove ks s j;
  left-del = λ ks s j u h. left-remove ks s j h;
  held-later = λ s t k l. l k;
}
