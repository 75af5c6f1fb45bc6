-- ===== src/RuntimeConfig/Fresh.antt =====
-- How old a value is that the provider serves.
use social_network_micro_ser.Prelude.{
  ℕ, ◌+◌, ◌<◌, Text, true, List, [], ◌∷◌, Option, some, ◌≡◌, ◌⊎◌, ok, lookup,
}
use social_network_micro_ser.RuntimeConfig.{
  ConfigValue, Provider, Answer, refresh_interval, new_provider, values_of, value_text, get_string,
}

-- What Redis answers at each time.
module _ (decode : Text → Option ConfigValue) (hash : ℕ → Answer) where
  -- The values are those of Redis at the time of the last refresh.
  abbrev pub IsCopy : Provider → Type 0
  IsCopy p =
      (p ≡ new_provider)
      ⊎ ((t : ℕ) × (rows : List (Text × Text)) × (hash t ≡ ok rows)
          × (p ≡ record { values = values_of true decode rows; last_refresh = some t }))

  -- Reads of keys at times, one after the other.
  unfoldable pub reads : List (Text × ℕ) → Provider → Provider
  reads [] p = p
  reads ((key, now) ∷ rs) p = reads rs (get_string true decode key (hash now) now p).1

  -- What is served at `now` stood in Redis at `t`, less than the interval before.
  abbrev pub ServedFrom : Text → ℕ → Option Text → Type 0
  ServedFrom key now served =
      (t : ℕ) × (rows : List (Text × Text)) × (hash t ≡ ok rows)
      × (now < t + refresh_interval)
      × (served ≡ value_text true decode (lookup key (values_of true decode rows)))
