-- ===== src/Chat/Calls/Hanging.antt =====
-- Whom the end of a call frees.
use social_network_micro_ser.Prelude.{
  ℕ, Text, text_eq, text_eq_iff, text_eq_refl, true, false, List, [], ◌∷◌, Option, none, some, ◌≡◌,
  ◌≢◌, refl, ap, ◌∙◌, ◌⊎◌, inl, inr, arith, ok,
}
use social_network_micro_ser.Services.Redis.{member, is_some}
use social_network_micro_ser.Chat.Calls.Entities.{
  Env, World, in_call_key, call_key, call_uuid_key, enter_call, end_keys, delete_keys, User,
}
use social_network_micro_ser.Chat.Calls.Service.{
  enter, answer_group_call, clear, clear_call, members_of, end_call, end_call_by_member_username,
  is_in_call, update_call, end_found,
}
use social_network_micro_ser.Chat.Calls.Listed.{
  IsListed, end_keys_lem, delete_keys_lem, enter_call_lem,
}
use social_network_micro_ser.Chat.Calls.Runs.{Call, run_calls, Listed, run_calls-Listed, sent-cache}

text_cases :
    (o : Option Text) → (o ≡ none) ⊎ ((o ≡ some []) ⊎ ((x : ℕ) × (xs : Text) × (o ≡ some (x ∷ xs))))
text_cases none = inl refl
text_cases (some []) = inr (inl refl)
text_cases (some (x ∷ xs)) = inr (inr (x, xs, refl))

module _ (env : Env) (redis_there : env.has_redis ≡ true) where
  pub in_call_read :
      (u : Text) (w : World env)
      → env.redis.Up w.cache
      → is_in_call env u w ≡ is_some (env.redis.text w.cache (in_call_key u))
  unfolding is_in_call
  in_call_read u w up = let read = env.redis.exists_up (in_call_key u) w.cache up in ground arith

  -- The state of the cache after a call that has a member is cleared.
  cleared :
      (c : Text) (us ids : List Text) (v : Text) (w : World env)
      → member v us ≡ true
      → (clear_call env c us ids w).cache ≡ delete_keys env.redis (end_keys c us) w.cache
  unfolding clear_call
  cleared c [] ids v w h = cc
  cleared c (u ∷ us) ids v w h = sent-cache env c ids _

  clear-cache :
      (c v : Text) (w : World env)
      → env.redis.Up w.cache
      → member v (env.redis.members w.cache (call_key c)) ≡ true
      → (clear env c w).cache
        ≡ delete_keys env.redis (end_keys c (env.redis.members w.cache (call_key c))) w.cache
  unfolding clear
  clear-cache c v w up h =
      let us = env.redis.members w.cache (call_key c) in
      let read = env.redis.smembers_up (call_key c) w.cache up in
      let last = cleared c us (members_of env (call_uuid_key c) w) v w h in ground arith

  -- What the end of a call leaves of the users and of the other calls.
  pub clear_lem :
      (c u d v : Text) (w : World env)
      → env.redis.Up w.cache
      → member v (env.redis.members w.cache (call_key c)) ≡ true
      → let w1 = clear env c w in
        (env.redis.Up w1.cache)
        × (member u (env.redis.members w.cache (call_key c)) ≡ true → is_in_call env u w1 ≡ false)
        × (text_eq c d ≡ false
            → env.redis.members w1.cache (call_key d) ≡ env.redis.members w.cache (call_key d))
  clear_lem c u d v w up h =
      let us = env.redis.members w.cache (call_key c) in
      let w1 = clear env c w in
      let same = clear-cache c v w up h in
      let (user_key, set_key) = end_keys_lem c u d us in
      let (up1, texts, m1) = delete_keys_lem env.redis (end_keys c us) w.cache (in_call_key u) up in
      let (up2, t2, members) = delete_keys_lem env.redis (end_keys c us) w.cache (call_key d) up in
      let up3 : env.redis.Up w1.cache = rw same up1 in
      (
        up3,
        λ there.
            let read = in_call_read u w1 up3 in
            let gone : env.redis.text w1.cache (in_call_key u) ≡ none =
              ap (λ s. env.redis.text s (in_call_key u)) same ∙ ground arith in
            ground arith,
        λ other. ap (λ s. env.redis.members s (call_key d)) same ∙ ground arith,
      )

  -- `end_call` on the cache, where the messages are there.
  pub end_call_clears :
      (c : Text) (now : ℕ) (w : World env)
      → env.has_messages ≡ true
      → let w1 = (update_call env c (λ m. record m { end_at = some now }) w).1 in
        (end_call env c now w ≡ (ok tt, clear env c w1)) × (w1.cache ≡ w.cache)
  unfolding end_call
  end_call_clears c now w there = (rw there refl, refl)

  -- Whatever calls came before, a user whose call is ended by EndCallByMemberUsername, which no handler
  -- calls yet, is in no call then, unless the identity of the call is the empty text. Assumed: Redis
  -- and the messages are there, and at the start Redis answers and lists everybody in a call as a
  -- member of it.
  pub hang_up :
      (cs : List Call) (w : World env) (u : Text) (now : ℕ)
      → env.has_messages ≡ true
      → Listed env w
      → env.redis.text (run_calls env cs w).cache (in_call_key u) ≢ some []
      → is_in_call env u (end_call_by_member_username env u now (run_calls env cs w)).1 ≡ false
  unfolding end_call_by_member_username end_found Listed
  hang_up cs w u now there start named =
      let w1 = run_calls env cs w in
      let h : IsListed env.redis w1.cache = run_calls-Listed env cs w start in
      let read = env.redis.get_up (in_call_key u) w1.cache h.up in
      elim (text_cases (env.redis.text w1.cache (in_call_key u))) [
        | inl none_ ↦ let free = in_call_read u w1 h.up in ground arith
        | inr (inl empty) ↦ absurd (named empty)
        | inr (inr (x, xs, e)) ↦
            let w2 = (update_call env (x ∷ xs) (λ m. record m { end_at = some now }) w1).1 in
            let (ended, same) = end_call_clears (x ∷ xs) now w1 there in
            let listed = h.listed u (x ∷ xs) e in
            let (up, frees, others) = clear_lem (x ∷ xs) u (x ∷ xs) u w2 h.up listed in
            let free = frees listed in ground arith
      ]

  -- A member of a call who answers a call of a group is in no call once the first one ends, but stays
  -- a member of the second. Assumed: Redis answers, and the messages and the user are there.
  pub second_call_forgotten :
      (w : World env) (c d id : Text) (u : User) (now : ℕ)
      → env.has_messages ≡ true
      → env.redis.Up w.cache
      → env.user_by_id id ≡ some u
      → member u.username (env.redis.members w.cache (call_key c)) ≡ true
      → text_eq d c ≡ false
      → let w1 = (end_call env c now (answer_group_call env d id w)).1 in
        (is_in_call env u.username w1 ≡ false)
        × (member u.username (env.redis.members w1.cache (call_key d)) ≡ true)
  unfolding answer_group_call enter
  second_call_forgotten w c d id u now there up found listed other =
      let us = u.username ∷ [] in
      let w1 = answer_group_call env d id w in
      let entered : w1.cache ≡ enter_call env.redis d us (id ∷ []) w.cache = ground arith in
      let (upc, textc, inc) = enter_call_lem env.redis d us (id ∷ []) w.cache u.username c up in
      let (upd, textd, ind) = enter_call_lem env.redis d us (id ∷ []) w.cache u.username d up in
      let up1 : env.redis.Up w1.cache = rw entered upc in
      let in_c : member u.username (env.redis.members w1.cache (call_key c)) ≡ true =
        ap (λ s. member u.username (env.redis.members s (call_key c))) entered ∙ ground arith in
      let me = text_eq_refl d in
      let in_d : member u.username (env.redis.members w1.cache (call_key d)) ≡ true =
        ap (λ s. member u.username (env.redis.members s (call_key d))) entered
        ∙ ground (arith, text_eq_refl u.username) in
      let w2 = (update_call env c (λ m. record m { end_at = some now }) w1).1 in
      let (ended, same) = end_call_clears c now w1 there in
      let (up2, frees, others) = clear_lem c u.username d u.username w2 up1 in_c in
      let apart : text_eq c d ≡ false = ground (arith, text_eq_iff c d, text_eq_iff d c) in
      let free = frees in_c in let kept = others apart in (ground arith, ground arith)
