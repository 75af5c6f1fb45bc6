-- ===== src/Chat/Presence/Sessions.antt =====
-- What the counter of a user says after the connections of the user have come and gone.
use social_network_micro_ser.Prelude.{
  ℕ, suc, Text, text_eq_refl, true, List, [], ◌∷◌, none, some, ◌≡◌, refl, ◌⊎◌, inl, inr, arith,
  length, remove_key, ◌+◌, ap, ◌∙◌, lookup, lookup-put, lookup-remove_key, put, pos, Bool-cases,
}
use social_network_micro_ser.Chat.Presence.Counting.{counter, online_counter, offline_counter}
use social_network_micro_ser.Chat.Presence.{
  Env, World, counter_key, has_conn, add_conn, drop_conn, register_client, unregister_client,
  closing,
}

conns_cases : (cs : List ℕ) → (cs ≡ []) ⊎ ((c : ℕ) × (ds : List ℕ) × (cs ≡ c ∷ ds))
conns_cases [] = inl refl
conns_cases (c ∷ ds) = inr (c, ds, refl)

-- Connections that are opened, and closed, one after the other.
unfoldable pub registers : (env : Env) → Text → List ℕ → World env → World env
registers env user [] w = w
registers env user (c ∷ cs) w = registers env user cs (register_client env user c w)

unfoldable pub unregisters : (env : Env) → Text → Text → List ℕ → World env → World env
unregisters env user now [] w = w
unregisters env user now (c ∷ cs) w =
    unregisters env user now cs (unregister_client env user c now w)

module _ (env : Env) (user : Text) where
  abbrev pub session : Text → List ℕ → List ℕ → World env → World env
  session now opened closed w = unregisters env user now closed (registers env user opened w)

module _ (env : Env) (user : Text) (has_redis : env.has_redis ≡ true) where
  record IsOpen (k : ℕ) (w : World env) : Type 0 where
    up : env.redis.Up w.counters
    first : ℕ
    others : List ℕ
    here : lookup user w.connections ≡ some (first ∷ others)
    counted : counter env user w ≡ pos (suc k)

  record IsGone (k : ℕ) (w : World env) : Type 0 where
    up : env.redis.Up w.counters
    gone : lookup user w.connections ≡ none
    counted : counter env user w ≡ pos k

  register_first : (c : ℕ) (w : World env) → IsGone 0 w → IsOpen 0 (register_client env user c w)
  unfolding register_client
  register_first c w h =
      let w1 = record w { connections = put user (c ∷ []) w.connections } in
      let (up, counted, same) = online_counter env user has_redis 0 w1 h.up h.counted in
      let gone = h.gone in
      let stands = lookup-put user (c ∷ []) w.connections user in
      let me = text_eq_refl user in
      record {
        up = ground arith;
        first = c;
        others = [];
        here = ground arith;
        counted = ground arith;
      }

  register_more :
      (k c : ℕ) (w : World env) → IsOpen k w → IsOpen (suc k) (register_client env user c w)
  unfolding register_client
  register_more k c w h =
      let cs = add_conn c (h.first ∷ h.others) in
      let w1 = record w { connections = put user cs w.connections } in
      let (up, counted, same) = online_counter env user has_redis (suc k) w1 h.up h.counted in
      let here = h.here in
      let stands = lookup-put user cs w.connections user in
      let me = text_eq_refl user in
      elim (Bool-cases (has_conn c (h.first ∷ h.others))) [
        | inl old ↦ record {
          up = ground arith;
          first = h.first;
          others = h.others;
          here = ground arith;
          counted = ground arith;
        }
        | inr new ↦ record {
          up = ground arith;
          first = c;
          others = h.first ∷ h.others;
          here = ground arith;
          counted = ground arith;
        }
      ]

  unregister-IsOpen :
      (k c : ℕ) (now : Text) (w : World env)
      → IsOpen k w
      → IsOpen k (unregister_client env user c now w)
        ⊎ IsGone k (unregister_client env user c now w)
  unfolding unregister_client
  unregister-IsOpen k c now w h =
      let cs = h.first ∷ h.others in
      let here = h.here in
      let w1 = closing env c cs w in
      let counters1 : w1.counters ≡ w.counters = ground arith in
      let up1 : env.redis.Up w1.counters = rw counters1 h.up in
      let counted1 : counter env user w1 ≡ pos (suc k) =
        ap (λ s. env.redis.value s (counter_key user)) counters1 ∙ h.counted in
      let connections1 : w1.connections ≡ w.connections = ground arith in
      elim (conns_cases (drop_conn c cs)) [
        | inl none_left ↦
            let w2 = record w1 {
              connections = remove_key user w1.connections;
              active_chats = remove_key user w1.active_chats;
            } in
            let (up, counted, same) = offline_counter env user has_redis k now w2 up1 counted1 in
            let absent = lookup-remove_key user w1.connections user in
            let me = text_eq_refl user in
            inr (record { up = ground arith; gone = ground arith; counted = ground arith })
        | inr (d, ds, left) ↦
            let stands = lookup-put user (drop_conn c cs) w1.connections user in
            let me = text_eq_refl user in
            inl (record {
              up = ground arith;
              first = d;
              others = ds;
              here = ground arith;
              counted = ground arith;
            })
      ]

  unregister-IsGone :
      (k c : ℕ) (now : Text) (w : World env)
      → IsGone k w
      → IsGone k (unregister_client env user c now w)
  unfolding unregister_client
  unregister-IsGone k c now w h =
      let gone = h.gone in
      let same : unregister_client env user c now w ≡ w = ground arith in rw same h

  registers-IsOpen :
      (k : ℕ) (cs : List ℕ) (w : World env)
      → IsOpen k w
      → IsOpen (length cs + k) (registers env user cs w)
  unfolding registers
  registers-IsOpen k [] w h = let e : 0 + k ≡ k = omega arith in rw e h
  registers-IsOpen k (c ∷ cs) w h =
      let e : suc (length cs) + k ≡ length cs + suc k = omega arith in
      rw e (registers-IsOpen (suc k) cs (register_client env user c w) (register_more k c w h))

  unregisters_all :
      (k : ℕ) (now : Text) (cs : List ℕ) (w : World env)
      → IsOpen k w ⊎ IsGone k w
      → IsOpen k (unregisters env user now cs w) ⊎ IsGone k (unregisters env user now cs w)
  unfolding unregisters
  unregisters_all k now [] w h = h
  unregisters_all k now (c ∷ cs) w (inl open_) =
      unregisters_all k now cs (unregister_client env user c now w)
        (unregister-IsOpen k c now w open_)
  unregisters_all k now (c ∷ cs) w (inr gone_) =
      unregisters_all k now cs (unregister_client env user c now w)
        (inr (unregister-IsGone k c now w gone_))

  -- After a user has opened connections and all are closed, the counter of the user stands at one
  -- less than the number that were opened, whatever was closed in whatever order; at the start the
  -- user has none and the counter is 0. Assumed: Redis is configured and answers.
  pub counter_left :
      (c : ℕ) (cs ds : List ℕ) (now : Text) (w : World env)
      → env.redis.Up w.counters
      → lookup user w.connections ≡ none
      → counter env user w ≡ pos 0
      → lookup user (session env user now (c ∷ cs) ds w).connections ≡ none
      → counter env user (session env user now (c ∷ cs) ds w) ≡ pos (length cs)
  unfolding registers
  counter_left c cs ds now w up absent zeroed left =
      let start : IsGone 0 w = record { up = up; gone = absent; counted = zeroed } in
      let opened =
        registers-IsOpen 0 cs (register_client env user c w) (register_first c w start) in
      let e : length cs + 0 ≡ length cs = omega arith in
      elim (unregisters_all (length cs + 0) now ds (registers env user (c ∷ cs) w) (inl opened)) [
        | inl open_ ↦ (let bad = open_.here in cc)
        | inr gone_ ↦ gone_.counted ∙ ap pos e
      ]
