-- ===== src/Services/Counters.antt =====
-- The Redis commands on counters: the documented behaviour of INCR, DECR, DEL and SET while the server
-- is up, and a map for the examples. A missing key counts as 0. The replies of DEL and SET are dropped,
-- as the code does. The counters are far from the bounds of 64 bits.
use social_network_micro_ser.Prelude.{
  Text, text_eq, false, ◌≡◌, refl, Outcome, ok, if◌then◌else◌, ℤ, pos, ◌+ℤ◌, ◌-ℤ◌,
}
use social_network_micro_ser.Exception.{Err}

pub record Counters : Type 1 where
  pub Store : Type 0
  pub value : Store → Text → ℤ
  pub Up : Store → Type 0
  pub incr : Text → Store → Outcome Err ℤ × Store
  pub decr : Text → Store → Outcome Err ℤ × Store
  pub del : Text → Store → Store
  pub set : Text → Text → Store → Store
  pub incr_up : (k : Text) (s : Store) → Up s → (incr k s).0 ≡ ok (value s k +ℤ pos 1)
  pub incr-Up : (k : Text) (s : Store) → Up s → Up (incr k s).1
  pub value-incr :
      (k : Text) (s : Store) (j : Text)
      → Up s
      → value (incr k s).1 j ≡ (if text_eq k j then value s k +ℤ pos 1 else value s j)
  pub decr_up : (k : Text) (s : Store) → Up s → (decr k s).0 ≡ ok (value s k -ℤ pos 1)
  pub decr-Up : (k : Text) (s : Store) → Up s → Up (decr k s).1
  pub value-decr :
      (k : Text) (s : Store) (j : Text)
      → Up s
      → value (decr k s).1 j ≡ (if text_eq k j then value s k -ℤ pos 1 else value s j)
  pub del-Up : (k : Text) (s : Store) → Up s → Up (del k s)
  pub value-del :
      (k : Text) (s : Store) (j : Text)
      → Up s
      → value (del k s) j ≡ (if text_eq k j then pos 0 else value s j)
  pub set-Up : (k t : Text) (s : Store) → Up s → Up (set k t s)
  pub value-set :
      (k t : Text) (s : Store) (j : Text)
      → Up s
      → text_eq k j ≡ false
      → value (set k t s) j ≡ value s j

abbrev pub set_count : Text → ℤ → (Text → ℤ) → Text → ℤ
set_count k n s j = if text_eq k j then n else s j

abbrev pub count_map : Counters
count_map = record {
  Store = Text → ℤ;
  value = λ s. s;
  Up = λ s. Unit {0};
  incr = λ k s. (ok (s k +ℤ pos 1), set_count k (s k +ℤ pos 1) s);
  decr = λ k s. (ok (s k -ℤ pos 1), set_count k (s k -ℤ pos 1) s);
  del = λ k s. set_count k (pos 0) s;
  set = λ k t s. s;
  incr_up = λ k s u. refl;
  incr-Up = λ k s u. tt;
  value-incr = λ k s j u. refl;
  decr_up = λ k s u. refl;
  decr-Up = λ k s u. tt;
  value-decr = λ k s j u. refl;
  del-Up = λ k s u. tt;
  value-del = λ k s j u. refl;
  set-Up = λ k t s u. tt;
  value-set = λ k t s j u h. refl;
}
