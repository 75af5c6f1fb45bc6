-- ===== src/Chat/Presence/Counting.antt =====
-- What the counter of a user says after the user comes and goes, in chat-service/service/chat_service.go.
use social_network_micro_ser.Prelude.{
  ℕ, suc, Text, text_eq, text_eq_refl, true, false, ◌≡◌, refl, inl, inr, arith, ◌==◌, ℤ, pos, ◌+ℤ◌,
  ◌-ℤ◌, Bool-cases,
}
use social_network_micro_ser.Chat.Presence.{
  Env, World, counter_key, online_count_key, last_online_key, handle_redis_online,
  handle_redis_offline,
}

other_keys :
    (user : Text)
    → (text_eq online_count_key (counter_key user) ≡ false)
      × (text_eq (last_online_key user) (counter_key user) ≡ false)
unfolding text_eq
other_keys user = (refl, refl)

module _ (env : Env) (user : Text) where
  -- The counter that Redis holds for the user.
  abbrev pub counter : World env → ℤ
  counter w = env.redis.value w.counters (counter_key user)

module _ (env : Env) (user : Text) (has_redis : env.has_redis ≡ true) where
  pub online_counter :
      (k : ℕ) (w : World env)
      → env.redis.Up w.counters
      → counter env user w ≡ pos k
      → let w1 = handle_redis_online env user w in
        (env.redis.Up w1.counters)
        × (counter env user w1 ≡ pos (suc k))
        × (w1.connections ≡ w.connections)
  unfolding handle_redis_online ◌+ℤ◌
  online_counter k w up e =
      let r = env.redis in
      let key = counter_key user in
      let s = (r.incr key w.counters).1 in
      let answer = r.incr_up key w.counters up in
      let up1 = r.incr-Up key w.counters up in
      let value1 = r.value-incr key w.counters key up in
      let up2 = r.incr-Up online_count_key s up1 in
      let value2 = r.value-incr online_count_key s key up1 in
      let same = text_eq_refl key in
      let other = (other_keys user).0 in
      elim (Bool-cases (k == 0)) [
        | inl new ↦ (ground arith, ground arith, ground arith)
        | inr more ↦ (ground arith, ground arith, ground arith)
      ]

  pub offline_counter :
      (k : ℕ) (now : Text) (w : World env)
      → env.redis.Up w.counters
      → counter env user w ≡ pos (suc k)
      → let w1 = handle_redis_offline env user now w in
        (env.redis.Up w1.counters)
        × (counter env user w1 ≡ pos k)
        × (w1.connections ≡ w.connections)
  unfolding handle_redis_offline ◌-ℤ◌
  offline_counter k now w up e =
      let r = env.redis in
      let key = counter_key user in
      let s = (r.decr key w.counters).1 in
      let answer = r.decr_up key w.counters up in
      let up1 = r.decr-Up key w.counters up in
      let value1 = r.value-decr key w.counters key up in
      let s2 = r.del key s in
      let up2 = r.del-Up key s up1 in
      let value2 = r.value-del key s key up1 in
      let s3 = (r.decr online_count_key s2).1 in
      let up3 = r.decr-Up online_count_key s2 up2 in
      let value3 = r.value-decr online_count_key s2 key up2 in
      let up4 = r.set-Up (last_online_key user) now s3 up3 in
      let value4 = r.value-set (last_online_key user) now s3 key up3 (other_keys user).1 in
      let same = text_eq_refl key in
      let other = (other_keys user).0 in
      elim (Bool-cases (k == 0)) [
        | inl last ↦ (ground arith, ground arith, ground arith)
        | inr more ↦ (ground arith, ground arith, ground arith)
      ]
