-- ===== src/Gateway/RateLimit/Stamps.antt =====
-- What the requests of a client leave in the sorted set of its window.
use social_network_micro_ser.Prelude.{
  ℕ, Text, false, suc, ◌+◌, ◌≤◌, ◌<◌, text_eq, text_eq_iff, text_eq_refl, true, not, List, [], ◌∷◌,
  some, ◌≡◌, refl, arith, length, lookup, lookup-put, bit, pos, ◌-ℤ◌, ltb_ℤ, itoa, itoa_injective,
  ◌∙◌, ap, map,
}
use social_network_micro_ser.Prelude.Sort.{filter}
use social_network_micro_ser.Services.Windows.{
  Entry, Zset, Table, set_at, live_set, text_at, with_entries, add_entry, run_commands, is_live,
}
use social_network_micro_ser.Gateway.RateLimit.{Request, rate_key, ban_key, millis, pipeline}
use social_network_micro_ser.Gateway.RateLimit.Quiet.{set_at-with_entries}

-- What the requests at these times leave in the sorted set.
abbrev stamp : ℕ → Entry
stamp now = record { score = millis now; member = itoa now }

length-map : (f : ℕ → Entry) (ts : List ℕ) → length (map f ts) ≡ length ts
length-map f [] = refl
length-map f (t ∷ ts) = omega (arith, length-map f ts)

-- The times in a window from `m` on, the last one first, each after the ones behind it.
abbrev pub Before : ℕ → ℕ → List ℕ → Type 0
Before m now [] = Unit {0}
Before m now (t ∷ ts) = (t < now) × (m ≤ millis t) × Before m t ts

pub Before-later :
    (m now later : ℕ) (ts : List ℕ) → now ≤ later → Before m now ts → Before m later ts
Before-later m now later [] h b = tt
Before-later m now later (t ∷ ts) h (b, c, d) = (omega arith, c, d)

-- None of them falls out of the window, and none has the member of a new request.
stamps_kept :
    (m window now : ℕ) (ts : List ℕ)
    → Before m now ts
    → millis now < m + window
    → filter (λ e. ltb_ℤ (pos (millis now) -ℤ pos window) (pos e.score)) (map stamp ts)
      ≡ map stamp ts
unfolding ◌-ℤ◌ filter
stamps_kept m window now [] b h = refl
stamps_kept m window now (t ∷ ts) (b, c, d) h =
    let rest = stamps_kept m window now ts (Before-later m t now ts (omega arith) d) h in
    ground arith

members_apart :
    (m now : ℕ) (ts : List ℕ)
    → Before m now ts
    → filter (λ f. not (text_eq f.member (itoa now))) (map stamp ts) ≡ map stamp ts
unfolding filter
members_apart m now [] b = refl
members_apart m now (t ∷ ts) (b, c, d) =
    let rest = members_apart m now ts (Before-later m t now ts (omega arith) d) in
    let same = itoa_injective t now in let apart = text_eq_iff (itoa t) (itoa now) in ground arith

module _ (window : ℕ) (r : Request) where
  -- The requests at the times `ts` are those that a request now finds in its window.
  abbrev pub HasSeen : ℕ → List ℕ → Table → Type 0
  HasSeen m ts t =
      (now : ℕ)
      → Before m now ts
      → m ≤ millis now
      → millis now < m + window
      → filter (λ e. ltb_ℤ (pos (millis now) -ℤ pos window) (pos e.score))
          (set_at (millis now) (rate_key r) t).entries
        ≡ map stamp ts

  abbrev pub left_by : ℕ → List ℕ → Zset
  left_by now ts = record { entries = map stamp (now ∷ ts); until = some (millis now + window) }

  pub step_replies :
      (m now : ℕ) (ts : List ℕ) (t : Table)
      → HasSeen m ts t
      → Before m now ts
      → m ≤ millis now
      → millis now < m + window
      → let after = run_commands (millis now) (pipeline window r now) t in
        (after.0 ≡ bit (text_at (millis now) (ban_key r) t) ∷ 0 ∷ 0 ∷ suc (length ts) ∷ 0 ∷ [])
        × (lookup (rate_key r) after.1.sets ≡ some (left_by now ts))
  unfolding run_commands pipeline
  step_replies m now ts t seen before low high =
      let key = rate_key r in
      let kept =
        filter (λ e. ltb_ℤ (pos (millis now) -ℤ pos window) (pos e.score))
          (set_at (millis now) key t).entries in
      let e = seen now before low high in
      let t1 = with_entries (millis now) key kept t in
      let e1 = set_at-with_entries (millis now) key kept t in
      let es = (set_at (millis now) key t1).entries in
      let added = add_entry (stamp now) es in
      let all : es ≡ map stamp ts = e1 ∙ e in
      let e2 : added ≡ map stamp (now ∷ ts) =
        ap (λ xs. stamp now ∷ filter (λ f. not (text_eq f.member (itoa now))) xs) all
        ∙ ap (λ xs. stamp now ∷ xs) (members_apart m now ts before) in
      let t2 = with_entries (millis now) key added t1 in
      let e3 = set_at-with_entries (millis now) key added t1 in
      let z = record (set_at (millis now) key t2) { until = some (millis now + window) } in
      let found = lookup-put key z t2.sets key in
      let count = length-map stamp ts in let same = text_eq_refl key in (ground arith, ground arith)

  pub seen_after :
      (m now : ℕ) (ts : List ℕ) (t : Table)
      → Before m now ts
      → m ≤ millis now
      → lookup (rate_key r) t.sets ≡ some (left_by now ts)
      → HasSeen m (now ∷ ts) t
  seen_after m now ts t before low found now' before' low' high' =
      let (after, in_window, rest) = before' in
      let live : is_live (millis now') (some (millis now + window)) ≡ true = ground arith in
      let here : (set_at (millis now') (rate_key r) t).entries ≡ map stamp (now ∷ ts) =
        ground arith in
      rw here (stamps_kept m window now' (now ∷ ts) before' high')

module _ (window m : ℕ) (ts : List ℕ) where
  -- What was seen depends on the key and on its sorted set only.
  pub HasSeen-same :
      (r r' : Request) (t t' : Table)
      → lookup (rate_key r') t'.sets ≡ lookup (rate_key r) t.sets
      → HasSeen window r m ts t
      → HasSeen window r' m ts t'
  HasSeen-same r r' t t' same seen now before low high =
      ap
        (λ z.
          filter (λ e. ltb_ℤ (pos (millis now) -ℤ pos window) (pos e.score))
            (live_set (millis now) z).entries)
        same
      ∙ seen now before low high

-- The commands for one key leave the others as they are.
pub lookup-run_commands :
    (window now : ℕ) (r : Request) (key : Text) (t : Table)
    → text_eq (rate_key r) key ≡ false
    → lookup key (run_commands (millis now) (pipeline window r now) t).1.sets ≡ lookup key t.sets
unfolding run_commands pipeline
lookup-run_commands window now r key t apart =
    let own = rate_key r in
    let kept =
      filter (λ e. ltb_ℤ (pos (millis now) -ℤ pos window) (pos e.score))
        (set_at (millis now) own t).entries in
    let t1 = with_entries (millis now) own kept t in
    let added = add_entry (stamp now) (set_at (millis now) own t1).entries in
    let t2 = with_entries (millis now) own added t1 in
    let first = lookup-put own (record (set_at (millis now) own t) { entries = kept }) t.sets key in
    let second =
      lookup-put own (record (set_at (millis now) own t1) { entries = added }) t1.sets key in
    let third =
      lookup-put own (record (set_at (millis now) own t2) { until = some (millis now + window) })
        t2.sets key in
    rw (third, apart) (rw (second, apart) (rw (first, apart) refl))
