-- ===== src/Chat/Calls/Runs.antt =====
-- Sequences of the calls of chat-service, and whom they leave in a call.
use mathlib.Core.Path.{subst}
use social_network_micro_ser.Prelude.{
  ℕ, Text, codes, Bool, true, List, [], ◌∷◌, Option, none, some, ◌≡◌, refl, sym, inl, inr, arith,
  Outcome, ok, fail, Bool-cases, Option-cases, Outcome-cases, Kept,
}
use social_network_micro_ser.Exception.{Err}
use social_network_micro_ser.Chat.Calls.Entities.{
  Env, World, Fresh, in_call_key, call_key, prepared_key, CallMessage, end_keys, delete_keys,
  call_uuid_key, User, call_message, broadcast_call, sent_call, Event,
}
use social_network_micro_ser.Chat.Calls.Service.{
  enter, prepare_call, save_message, init_call, start_call, start_group_call, answer_call,
  answer_group_call, clear, clear_call, members_of, end_call, reject_call,
  end_call_by_member_username, send_ends, enter_as, done, update_call, emit, end_found,
}
use social_network_micro_ser.Chat.Calls.Listed.{
  IsListed, enter_call-IsListed, end_keys-IsListed, flag-IsListed, lapse-IsListed,
}

-- The calls of the service, and the end of the time of a flag.
pub data Call : Type 0 where
  init : Text → Text → Call
  start_group : Text → Text → Text → Bool → Fresh → Call
  start : Text → Text → Text → Bool → Fresh → Call
  answer : Text → ℕ → Call
  answer_group : Text → Text → Call
  reject : Text → ℕ → Call
  end : Text → ℕ → Call
  end_by_member : Text → ℕ → Call
  lapse : Text → Text → Call

module _ (env : Env) where
  unfoldable pub run_call : Call → World env → World env
  run_call (init caller callee) w = (init_call env caller callee w).1
  run_call (start_group c caller chat video fresh) w =
      (start_group_call env c caller chat video fresh w).1
  run_call (start c caller callee video fresh) w = (start_call env c caller callee video fresh w).1
  run_call (answer c now) w = (answer_call env c now w).1
  run_call (answer_group c user) w = answer_group_call env c user w
  run_call (reject c now) w = (reject_call env c now w).1
  run_call (end c now) w = (end_call env c now w).1
  run_call (end_by_member u now) w = (end_call_by_member_username env u now w).1
  run_call (lapse a b) w = record w { cache = env.redis.del (prepared_key a b) w.cache }

  unfoldable pub run_calls : List Call → World env → World env
  run_calls [] w = w
  run_calls (c ∷ cs) w = run_calls cs (run_call c w)

  unfoldable pub Listed : World env → Type 0
  Listed w = IsListed env.redis w.cache

  enter-Listed :
      (c : Text) (us ids : List Text) (w : World env) → Listed w → Listed (enter env c us ids w)
  unfolding enter Listed
  enter-Listed c us ids w h = elim (Bool-cases env.has_redis) [
    | inl there ↦ rw there (enter_call-IsListed env.redis c us ids w.cache h)
    | inr none_ ↦ rw none_ h
  ]

  prepare-Listed : (a b : Text) (w : World env) → Listed w → Listed (prepare_call env a b w)
  unfolding prepare_call Listed
  prepare-Listed a b w h = elim (Bool-cases env.has_redis) [
    | inl there ↦ rw there (flag-IsListed env.redis a b (codes "true") (some 120) w.cache h)
    | inr none_ ↦ rw none_ h
  ]

  save-Listed : (m : CallMessage) (w : World env) → Listed w → Listed (save_message env m w)
  unfolding save_message Listed
  save-Listed m w h = elim (Bool-cases env.has_messages) [
    | inl there ↦ rw there h
    | inr none_ ↦ rw none_ h
  ]

  pub sent-cache :
      (c : Text) (ids : List Text) (w : World env) → (send_ends env c ids w).cache ≡ w.cache
  sent-cache c [] w = refl
  sent-cache c (id ∷ ids) w = sent-cache c ids _

  cleared-Listed :
      (c : Text) (us ids : List Text) (w : World env)
      → us ≡ env.redis.members w.cache (call_key c)
      → Listed w
      → Listed (clear_call env c us ids w)
  unfolding clear_call Listed
  cleared-Listed c [] ids w e h = h
  cleared-Listed c (u ∷ us) ids w e h =
      let kept =
        subst (λ xs. IsListed env.redis (delete_keys env.redis (end_keys c xs) w.cache)) (sym e)
          (end_keys-IsListed env.redis c w.cache h) in
      rw
        (sent-cache c ids
          (record w { cache = delete_keys env.redis (end_keys c (u ∷ us)) w.cache }))
        kept

  clear-Listed : (c : Text) (w : World env) → Listed w → Listed (clear env c w)
  unfolding clear Listed
  clear-Listed c w h = elim (Bool-cases env.has_redis) [
    | inl there ↦
        let read = env.redis.smembers_up (call_key c) w.cache h.up in
        rw there (
          cleared-Listed c (members_of env (call_key c) w) (members_of env (call_uuid_key c) w) w
            (rw read refl) h)
    | inr none_ ↦ rw none_ h
  ]

  emit-Listed : (e : Event) → Kept Listed (done env (emit env e))
  unfolding Listed
  emit-Listed e w h = h

  update-Listed : (c : Text) (f : CallMessage → CallMessage) → Kept Listed (update_call env c f)
  unfolding Listed
  update-Listed c f w h = h

  lapsed-Listed :
      (a b : Text) (w : World env)
      → Listed w
      → Listed (record w { cache = env.redis.del (prepared_key a b) w.cache })
  unfolding Listed
  lapsed-Listed a b w h = lapse-IsListed env.redis a b w.cache h

  init_call-Listed : (caller callee : Text) → Kept Listed (init_call env caller callee)
  unfolding init_call
  init_call-Listed caller callee w h = elim (Option-cases (env.user_by_id caller)) [
    | inl missing ↦ ground arith
    | inr (u, e) ↦ let last = prepare-Listed u.username callee w h in ground arith
  ]

  start_group_call-Listed :
      (c caller chat : Text) (video : Bool) (fresh : Fresh)
      → Kept Listed (start_group_call env c caller chat video fresh)
  unfolding start_group_call
  start_group_call-Listed c caller chat video fresh w h =
      elim (Option-cases (env.user_by_name caller)) [
        | inl missing ↦ ground arith
        | inr (u, e) ↦
            let m = call_message c chat u.user_id [] video fresh in
            let w1 = save_message env m w in
            let w2 = emit env (broadcast_call chat m) w1 in
            let last =
              enter-Listed c (caller ∷ []) (u.user_id ∷ []) w2
                (emit-Listed (broadcast_call chat m) w1 (save-Listed m w h)) in
            ground arith
      ]

  start_call-Listed :
      (c caller callee : Text) (video : Bool) (fresh : Fresh)
      → Kept Listed (start_call env c caller callee video fresh)
  unfolding start_call
  start_call-Listed c caller callee video fresh w h =
      elim (Option-cases (env.user_by_name caller)) [
        | inl missing ↦ ground arith
        | inr (u, e) ↦ elim (Option-cases (env.user_by_name callee)) [
          | inl missing ↦ ground arith
          | inr (v, e1) ↦ elim (Outcome-cases (env.direct_chat u.user_id v.user_id)) [
            | inr (err, e2) ↦ ground arith
            | inl (chat, e2) ↦
                let m = call_message c chat u.user_id v.user_id video fresh in
                let w1 = save_message env m w in
                let w2 = emit env (broadcast_call chat m) w1 in
                let w3 = emit env (sent_call v.user_id m) w2 in
                let last = enter-Listed c (caller ∷ callee ∷ []) (u.user_id ∷ v.user_id ∷ []) w3 (
                  emit-Listed (sent_call v.user_id m) w2
                    (emit-Listed (broadcast_call chat m) w1 (save-Listed m w h))) in
                ground arith
          ]
        ]
      ]

  answer_call-Listed : (c : Text) (now : ℕ) → Kept Listed (answer_call env c now)
  unfolding answer_call
  answer_call-Listed c now w h =
      let last = update-Listed c (λ m. record m { is_answered = true; answer_at = some now }) w h in
      ground arith

  entered-Listed :
      (u : Option User) (c id : Text) (w : World env) → Listed w → Listed (enter_as env u c id w)
  entered-Listed none c id w h = h
  entered-Listed (some u) c id w h = enter-Listed c (u.username ∷ []) (id ∷ []) w h

  end_call-Listed : (c : Text) (now : ℕ) → Kept Listed (end_call env c now)
  unfolding end_call
  end_call-Listed c now w h =
      let f = λ (m : CallMessage). record m { end_at = some now } in
      let last = clear-Listed c (update_call env c f w).1 (update-Listed c f w h) in ground arith

  reject_call-Listed : (c : Text) (now : ℕ) → Kept Listed (reject_call env c now)
  unfolding reject_call
  reject_call-Listed c now w h =
      let f = λ (m : CallMessage). record m { is_rejected = true; end_at = some now } in
      let updated = update-Listed c f w h in
      let last = end_call-Listed c now (update_call env c f w).1 updated in
      elim (Outcome-cases (update_call env c f w).0) [
        | inl (_, e) ↦ ground arith
        | inr (err, e) ↦ ground arith
      ]

  found-Listed : (o : Outcome Err (Option Text)) (now : ℕ) → Kept Listed (end_found env o now)
  unfolding end_found
  found-Listed (fail e) now w h = h
  found-Listed (ok none) now w h = h
  found-Listed (ok (some [])) now w h = h
  found-Listed (ok (some (c ∷ cs))) now w h = end_call-Listed (c ∷ cs) now w h

  run_call-Listed : (c : Call) (w : World env) → Listed w → Listed (run_call c w)
  unfolding run_call answer_group_call end_call_by_member_username
  run_call-Listed (init caller callee) w h = init_call-Listed caller callee w h
  run_call-Listed (start_group c caller chat video fresh) w h =
      start_group_call-Listed c caller chat video fresh w h
  run_call-Listed (start c caller callee video fresh) w h =
      start_call-Listed c caller callee video fresh w h
  run_call-Listed (answer c now) w h = answer_call-Listed c now w h
  run_call-Listed (answer_group c user) w h = entered-Listed (env.user_by_id user) c user w h
  run_call-Listed (reject c now) w h = reject_call-Listed c now w h
  run_call-Listed (end c now) w h = end_call-Listed c now w h
  run_call-Listed (end_by_member u now) w h =
      let last = found-Listed (env.redis.get (in_call_key u) w.cache) now w h in ground arith
  run_call-Listed (lapse a b) w h = lapsed-Listed a b w h

  pub run_calls-Listed : (cs : List Call) (w : World env) → Listed w → Listed (run_calls cs w)
  unfolding run_calls
  run_calls-Listed [] w h = h
  run_calls-Listed (c ∷ cs) w h = run_calls-Listed cs (run_call c w) (run_call-Listed c w h)
