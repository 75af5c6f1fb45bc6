-- ===== src/Gateway/RateLimit/Quiet.antt =====
-- The table of the rate limit when no request has come since a time.
use social_network_micro_ser.Prelude.{
  ℕ, ◌+◌, ◌≤◌, Text, text_eq, text_eq_refl, Bool, true, false, not, List, [], ◌∷◌, Option, none,
  some, ◌≡◌, refl, arith, ltb, length, lookup, lookup-put, matches, matches-le, ℤ, pos, ◌-ℤ◌, ltb_ℤ,
  ◌∙◌,
}
use social_network_micro_ser.Prelude.Sort.{filter, filter_none, matches-filter}
use social_network_micro_ser.Services.Windows.{
  Entry, Zset, Table, exists, zremrangebyscore, zadd, zcard, expire, set_at, text_at, is_live,
  with_entries, live_set, add_entry, add_text, run_command, run_commands,
}
use social_network_micro_ser.Gateway.RateLimit.{ban_millis}

abbrev pub entries_of : Option Zset → List Entry
entries_of none = []
entries_of (some z) = z.entries

abbrev pub until_of : Option ℕ → ℕ
until_of none = 0
until_of (some until) = until

abbrev pub later : ℕ → Entry → Bool
later m e = ltb m e.score

-- No request is counted after the time `m`, and every text expires soon after it.
pub record IsQuiet (m : ℕ) (t : Table) : Type 0 where
  pub scores : (key : Text) → matches (later m) (entries_of (lookup key t.sets)) ≡ 0
  pub texts : (key : Text) → until_of (lookup key t.texts) ≤ m + ban_millis

pub live-later :
    (m now : ℕ) (z : Option Zset)
    → matches (later m) (entries_of z) ≡ 0
    → matches (later m) (live_set now z).entries ≡ 0
unfolding matches
live-later m now none h = refl
live-later m now (some z) h = ground arith

module _ (m : ℕ) where
  entries-IsQuiet :
      (now : ℕ) (key : Text) (es : List Entry) (t : Table)
      → IsQuiet m t
      → matches (later m) es ≡ 0
      → IsQuiet m (with_entries now key es t)
  entries-IsQuiet now key es t q h = record {
    scores = λ k.
        ground
          (arith, q.scores k, lookup-put key (record (set_at now key t) { entries = es }) t.sets k);
    texts = q.texts;
  }

  expire-IsQuiet :
      (now d : ℕ) (key : Text) (t : Table)
      → IsQuiet m t
      → IsQuiet m (run_command now (expire key d) t).1
  unfolding run_command
  expire-IsQuiet now d key t q =
      let z = record (set_at now key t) { until = some (now + d) } in
      let live = live-later m now (lookup key t.sets) (q.scores key) in
      record {
        scores = λ k. ground (arith, q.scores k, lookup-put key z t.sets k);
        texts = q.texts;
      }

  pub pipeline-IsQuiet :
      (now : ℕ) (key : Text) (low : ℤ) (member : Text) (window : ℕ) (t : Table)
      → now ≤ m
      → IsQuiet m t
      → IsQuiet m
          (run_commands now
            (zremrangebyscore key low ∷ zadd key now member ∷ zcard key ∷ expire key window ∷ [])
            t).1
  unfolding run_commands matches
  pipeline-IsQuiet now key low member window t h q =
      let old = set_at now key t in
      let kept = filter (λ e. ltb_ℤ low (pos e.score)) old.entries in
      let live = live-later m now (lookup key t.sets) (q.scores key) in
      let fewer = matches-filter (later m) (λ e. ltb_ℤ low (pos e.score)) old.entries in
      let t1 = with_entries now key kept t in
      let q1 = entries-IsQuiet now key kept t q (omega arith) in
      let es = (set_at now key t1).entries in
      let live1 = live-later m now (lookup key t1.sets) (q1.scores key) in
      let others = λ (f : Entry). not (text_eq f.member member) in
      let fewer1 = matches-filter (later m) others es in
      let new : Entry = record { score = now; member = member } in
      let added : matches (later m) (add_entry new es) ≡ 0 = ground arith in
      let t2 = with_entries now key (add_entry new es) t1 in
      expire-IsQuiet now window key t2 (entries-IsQuiet now key (add_entry new es) t1 q1 added)

  pub add_text-IsQuiet :
      (until : ℕ) (key : Text) (t : Table)
      → until ≤ m + ban_millis
      → IsQuiet m t
      → IsQuiet m (add_text until key t)
  add_text-IsQuiet until key t h q = record {
    scores = q.scores;
    texts = λ k. ground (arith, q.texts k, lookup-put key until t.texts k);
  }

pub live_again : (now : ℕ) (z : Option Zset) → is_live now (live_set now z).until ≡ true
live_again now none = refl
live_again now (some z) = ground arith

pub set_at-with_entries :
    (now : ℕ) (key : Text) (es : List Entry) (t : Table)
    → (set_at now key (with_entries now key es t)).entries ≡ es
set_at-with_entries now key es t =
    let z = record (set_at now key t) { entries = es } in
    let found = lookup-put key z t.sets key in
    let live = live_again now (lookup key t.sets) in ground (arith, text_eq_refl key)

-- A window that starts after the last request is empty.
pub emptied :
    (m now window : ℕ) (es : List Entry)
    → matches (later m) es ≡ 0
    → m + window ≤ now
    → filter (λ e. ltb_ℤ (pos now -ℤ pos window) (pos e.score)) es ≡ []
unfolding ◌-ℤ◌
emptied m now window es old silent =
    let within = λ (e : Entry). ltb_ℤ (pos now -ℤ pos window) (pos e.score) in
    let fewer = matches-le within (later m) es (λ e. ground arith) in
    filter_none within es (omega arith)

-- The replies of the pipeline after a silence: no ban, and one request in the window.
pub first_count :
    (m now : ℕ) (banned key member : Text) (window : ℕ) (t : Table)
    → IsQuiet m t
    → m + window ≤ now
    → m + ban_millis ≤ now
    → (run_commands now
        (exists banned
          ∷ zremrangebyscore key (pos now -ℤ pos window)
          ∷ zadd key now member
          ∷ zcard key
          ∷ expire key window
          ∷ [])
        t).0
      ≡ 0 ∷ 0 ∷ 0 ∷ 1 ∷ 0 ∷ []
unfolding run_commands filter
first_count m now banned key member window t q silent free =
    let old = live-later m now (lookup key t.sets) (q.scores key) in
    let low = pos now -ℤ pos window in
    let kept = filter (λ e. ltb_ℤ low (pos e.score)) (set_at now key t).entries in
    let gone = emptied m now window (set_at now key t).entries old silent in
    let t1 = with_entries now key kept t in
    let es1 = set_at-with_entries now key kept t in
    let new : Entry = record { score = now; member = member } in
    let es = (set_at now key t1).entries in
    let es2 = set_at-with_entries now key (add_entry new es) t1 in
    let text = q.texts banned in
    let here : text_at now banned t ≡ false = ground arith in
    let empty : es ≡ [] = es1 ∙ gone in
    let one : length (add_entry new es) ≡ 1 = rw empty refl in ground arith
