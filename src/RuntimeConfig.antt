-- ===== src/RuntimeConfig.antt =====
-- internal/runtimeconfig/provider.go: the values that the services read at run time, and their copy
-- of the hash in Redis. A value has the fields that are read, decode stands for json.Unmarshal, and
-- the answer of Redis is an argument of what asks for it. A call takes no time, so that one time, in
-- nanoseconds, stands for the readings of the clock within it.
pub mod Fresh
mod Samples
pub mod Versions
use social_network_micro_ser.Prelude.{
  ℕ, ◌-◌, Text, text_eq, Bool, true, false, not, List, [], ◌∷◌, Option, none, some, Outcome, ok,
  fail, if◌then◌else◌, ltb, leb, ◌==◌, lookup, atoi, ℤ, pos, negsuc, sub_ℕ, suc, max_int,
}
use social_network_micro_ser.Exception.{Err}

pub record ConfigValue : Type 0 where
  pub key : Text
  pub value : Text

-- `none` is the zero time.
pub record Provider : Type 0 where
  pub values : List (Text × ConfigValue)
  pub last_refresh : Option ℕ

-- What HGETALL answers.
abbrev pub Answer : Type 0
Answer = Outcome Err (List (Text × Text))

abbrev pub refresh_interval : ℕ
refresh_interval = 5000000000

abbrev pub new_provider : Provider
new_provider = record { values = []; last_refresh = none }

abbrev pub named_value : Text → ConfigValue → ConfigValue
named_value key v = if text_eq v.key [] then record v { key = key } else v

abbrev pub add_value :
    Text → Option ConfigValue → List (Text × ConfigValue) → List (Text × ConfigValue)
add_value key none vs = vs
add_value key (some v) vs = (key, named_value key v) ∷ vs

-- `strconv.Atoi` with its sign; `none` is an error, out of range included.
within : ℕ → Option ℕ → Option ℕ
within limit none = none
within limit (some n) = if leb n limit then some n else none

signed : Bool → Option ℕ → Option ℤ
signed negative none = none
signed negative (some n) = some (if negative then sub_ℕ 0 n else pos n)

unfoldable pub parse_int : Text → Option ℤ
unfolding within signed
parse_int [] = none
parse_int (c ∷ cs) =
    if c == 45
    then signed true (within (suc max_int) (atoi cs))
    else if c == 43
    then signed false (within max_int (atoi cs))
    else signed false (within max_int (atoi (c ∷ cs)))

module _ (has_client : Bool) (decode : Text → Option ConfigValue) where
  unfoldable pub values_of : List (Text × Text) → List (Text × ConfigValue)
  values_of [] = []
  values_of ((key, raw) ∷ rows) = add_value key (decode raw) (values_of rows)

  replace_values : Answer → ℕ → Provider → Outcome Err (Unit {0}) × Provider
  replace_values (fail e) now p = (fail e, p)
  replace_values (ok rows) now p =
      (ok tt, record { values = values_of rows; last_refresh = some now })

  unfoldable pub refresh : Answer → ℕ → Provider → Outcome Err (Unit {0}) × Provider
  unfolding replace_values
  refresh answer now p = if has_client then replace_values answer now p else (ok tt, p)

  is_stale : Option ℕ → ℕ → Bool
  is_stale none now = true
  is_stale (some last) now = leb refresh_interval (now - last)

  unfoldable pub ensure_fresh : Answer → ℕ → Provider → Outcome Err (Unit {0}) × Provider
  unfolding is_stale refresh
  ensure_fresh answer now p =
      let refreshed = refresh answer now p in
      if not has_client
      then (ok tt, p)
      else if is_stale p.last_refresh now
      then refreshed
      else (ok tt, p)

  abbrev pub value_text : Option ConfigValue → Option Text
  value_text none = none
  value_text (some v) = some v.value

  -- `String` and `Int` of the provider.
  unfoldable pub get_string : Text → Answer → ℕ → Provider → Option Text × Provider
  unfolding ensure_fresh
  get_string key answer now p =
      let p1 = (ensure_fresh answer now p).1 in (value_text (lookup key p1.values), p1)

  int_or : ℤ → Option Text → ℤ
  int_or fallback none = fallback
  int_or fallback (some raw) = elim (parse_int raw) [ none ↦ fallback | some n ↦ n ]

  unfoldable pub get_int : Text → ℤ → Answer → ℕ → Provider → ℤ × Provider
  unfolding int_or
  get_int key fallback answer now p =
      let (raw, p1) = get_string key answer now p in (int_or fallback raw, p1)
