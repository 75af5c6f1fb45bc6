-- ===== src/Services/Windows.antt =====
-- The Redis commands of the rate limit, with times in milliseconds: the documented behaviour of sorted
-- sets and of texts that expire, and a table for the examples. The two kinds of keys are kept apart,
-- since their prefixes in the code differ.
use social_network_micro_ser.Prelude.{
  ℕ, ◌+◌, Text, text_eq, Bool, true, false, not, List, [], ◌∷◌, Option, none, some, ◌≡◌, refl,
  Outcome, ok, if◌then◌else◌, length, lookup, put, ltb, bit, ℤ, pos, ltb_ℤ,
}
use social_network_micro_ser.Prelude.Sort.{filter}
use social_network_micro_ser.Exception.{Err}

pub record Entry : Type 0 where
  pub score : ℕ
  pub member : Text

-- `until` is the time at which the set expires.
pub record Zset : Type 0 where
  pub entries : List Entry
  pub until : Option ℕ

pub record Table : Type 0 where
  pub sets : List (Text × Zset)
  -- the times at which the texts expire
  pub texts : List (Text × ℕ)

pub data Command : Type 0 where
  exists : Text → Command
  -- ZREMRANGEBYSCORE from -inf to the given score
  zremrangebyscore : Text → ℤ → Command
  zadd : Text → ℕ → Text → Command
  zcard : Text → Command
  expire : Text → ℕ → Command

abbrev pub is_live : ℕ → Option ℕ → Bool
is_live now none = true
is_live now (some until) = ltb now until

abbrev pub live_set : ℕ → Option Zset → Zset
live_set now none = record { entries = []; until = none }
live_set now (some z) = if is_live now z.until then z else record { entries = []; until = none }

abbrev pub set_at : ℕ → Text → Table → Zset
set_at now key t = live_set now (lookup key t.sets)

abbrev pub live_text : ℕ → Option ℕ → Bool
live_text now none = false
live_text now (some until) = ltb now until

abbrev pub text_at : ℕ → Text → Table → Bool
text_at now key t = live_text now (lookup key t.texts)

abbrev pub with_entries : ℕ → Text → List Entry → Table → Table
with_entries now key es t = record t {
  sets = put key (record (set_at now key t) { entries = es }) t.sets;
}

-- An entry replaces the one of the same member.
abbrev pub add_entry : Entry → List Entry → List Entry
add_entry e es = e ∷ filter (λ f. not (text_eq f.member e.member)) es

abbrev pub add_text : ℕ → Text → Table → Table
add_text until key t = record t { texts = put key until t.texts }

-- The reply, as a number, and the table after the command.
unfoldable pub run_command : ℕ → Command → Table → ℕ × Table
run_command now (exists key) t = (bit (text_at now key t), t)
run_command now (zremrangebyscore key max) t =
    let z = set_at now key t in
    let kept = filter (λ e. ltb_ℤ max (pos e.score)) z.entries in (0, with_entries now key kept t)
run_command now (zadd key score member) t = (
  0,
  with_entries now key
      (add_entry (record { score = score; member = member }) (set_at now key t).entries) t,
)
run_command now (zcard key) t = (length (set_at now key t).entries, t)
run_command now (expire key d) t =
    (0, record t { sets = put key (record (set_at now key t) { until = some (now + d) }) t.sets })

unfoldable pub run_commands : ℕ → List Command → Table → List ℕ × Table
unfolding run_command
run_commands now [] t = ([], t)
run_commands now (c ∷ cs) t =
    let (reply, t1) = run_command now c t in
    let (replies, t2) = run_commands now cs t1 in (reply ∷ replies, t2)

pub record Windows : Type 1 where
  pub Store : Type 0
  pub view : Store → Table
  pub Up : Store → Type 0
  -- MULTI and EXEC
  pub exec : ℕ → List Command → Store → Outcome Err (List ℕ) × Store
  -- SET with an expiry, whose reply the code drops
  pub set : ℕ → Text → ℕ → Store → Store
  -- whether SETNX has set the text
  pub setnx : ℕ → Text → ℕ → Store → Bool × Store
  pub exec_up :
      (now : ℕ) (cs : List Command) (s : Store)
      → Up s
      → (exec now cs s).0 ≡ ok (run_commands now cs (view s)).0
  pub view-exec :
      (now : ℕ) (cs : List Command) (s : Store)
      → Up s
      → view (exec now cs s).1 ≡ (run_commands now cs (view s)).1
  pub exec-Up : (now : ℕ) (cs : List Command) (s : Store) → Up s → Up (exec now cs s).1
  pub view-set :
      (now : ℕ) (key : Text) (d : ℕ) (s : Store)
      → Up s
      → view (set now key d s) ≡ add_text (now + d) key (view s)
  pub set-Up : (now : ℕ) (key : Text) (d : ℕ) (s : Store) → Up s → Up (set now key d s)
  pub view-setnx :
      (now : ℕ) (key : Text) (d : ℕ) (s : Store)
      → Up s
      → view (setnx now key d s).1
        ≡ (if text_at now key (view s) then view s else add_text (now + d) key (view s))
  pub setnx-Up : (now : ℕ) (key : Text) (d : ℕ) (s : Store) → Up s → Up (setnx now key d s).1

abbrev pub table_windows : Windows
table_windows = record {
  Store = Table;
  view = λ t. t;
  Up = λ t. Unit {0};
  exec = λ now cs t. let (replies, t1) = run_commands now cs t in (ok replies, t1);
  set = λ now key d t. add_text (now + d) key t;
  setnx = λ now key d t.
      (not (text_at now key t), if text_at now key t then t else add_text (now + d) key t);
  exec_up = λ now cs t u. refl;
  view-exec = λ now cs t u. refl;
  exec-Up = λ now cs t u. tt;
  view-set = λ now key d t u. refl;
  set-Up = λ now key d t u. tt;
  view-setnx = λ now key d t u. refl;
  setnx-Up = λ now key d t u. tt;
}
