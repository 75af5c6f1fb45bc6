-- ===== src/Chat/Calls/Service.antt =====
-- Calls: SaveMessage, and IsInCall to EndCallByMemberUsername, in chat-service/service/chat_service.go.
use social_network_micro_ser.Prelude.{
  ℕ, Text, codes, Bool, true, false, not, ◌&&◌, ◌||◌, List, [], ◌∷◌, Option, none, some, Outcome,
  ok, fail, if◌then◌else◌, Action, ◌>>=◌, ◌>>◌, pure, guard, ignore, or_error, lift,
}
use social_network_micro_ser.Exception.{Err, app, message}
use social_network_micro_ser.Exception.Codes.{
  user_not_found, already_in_call, target_already_in_call, not_ready_for_call,
}
use social_network_micro_ser.Chat.Calls.Entities.{
  CallMessage, Env, Event, Fresh, User, World, broadcast_call, call_key, call_message,
  call_uuid_key, delete_keys, end_keys, enter_call, in_call_key, is_yes, members_or_none,
  prepared_key, sent_call, sent_end, with_call_id,
}

module _ (env : Env) where
  abbrev pub Handler : Type 0 → Type 0
  Handler A = Action (World env) Err A

  abbrev pub emit : Event → World env → World env
  emit e w = record w { events = e ∷ w.events }

  abbrev pub find_user : Option User → Handler User
  find_user u w = (or_error (app user_not_found) u, w)

  unfoldable pub is_in_call : Text → World env → Bool
  is_in_call username w =
      if env.has_redis then is_yes (env.redis.exists (in_call_key username) w.cache) else false

  unfoldable pub is_prepared_for_call : Text → Text → World env → Bool
  is_prepared_for_call caller callee w =
      if env.has_redis
      then is_yes (env.redis.exists (prepared_key caller callee) w.cache)
      else false

  unfoldable pub prepare_call : Text → Text → World env → World env
  prepare_call caller callee w =
      if env.has_redis
      then record w {
        cache = env.redis.set (prepared_key caller callee) (codes "true") (some 120) w.cache;
      }
      else w

  no_users : Err
  no_users = message (codes "user client not initialized")

  abbrev pub unless_in_call : Text → Err → Handler (Unit {0})
  unless_in_call username e w = (if is_in_call username w then fail e else ok tt, w)

  abbrev pub done : (World env → World env) → Handler (Unit {0})
  done f w = (ok tt, f w)

  unfoldable pub init_call : Text → Text → Handler (Unit {0})
  unfolding is_in_call prepare_call no_users
  init_call caller_id callee = do
    guard env.has_users no_users
    caller ← find_user (env.user_by_id caller_id)
    unless_in_call caller.username (app already_in_call)
    unless_in_call callee (app target_already_in_call)
    done (prepare_call caller.username callee)

  unfoldable pub save_message : CallMessage → World env → World env
  save_message m w =
      if env.has_messages
      then record w { message_docs = (env.messages.insert_one m w.message_docs).1 }
      else w

  unfoldable pub enter : Text → List Text → List Text → World env → World env
  unfolding enter_call
  enter call_id usernames ids w =
      if env.has_redis
      then record w { cache = enter_call env.redis call_id usernames ids w.cache }
      else w

  unfoldable pub start_group_call : Text → Text → Text → Bool → Fresh → Handler (Unit {0})
  unfolding is_in_call save_message enter no_users
  start_group_call call_id caller_name chat_id is_video_call fresh = do
    guard env.has_users no_users
    unless_in_call caller_name (app already_in_call)
    caller ← find_user (env.user_by_name caller_name)
    let m = call_message call_id chat_id caller.user_id [] is_video_call fresh
    done (save_message m)
    done (emit (broadcast_call chat_id m))
    done (enter call_id (caller_name ∷ []) (caller.user_id ∷ []))

  abbrev pub is_ready : Text → Text → World env → Bool
  is_ready caller callee w =
      not (is_in_call caller w || is_in_call callee w) && is_prepared_for_call caller callee w

  unfoldable pub start_call : Text → Text → Text → Bool → Fresh → Handler (Unit {0})
  unfolding is_in_call is_prepared_for_call save_message enter no_users
  start_call call_id caller_name callee_name is_video_call fresh = do
    guard env.has_users no_users
    (λ w. (if is_ready caller_name callee_name w then ok tt else fail (app not_ready_for_call), w))
    caller ← find_user (env.user_by_name caller_name)
    callee ← find_user (env.user_by_name callee_name)
    chat_id ← lift (env.direct_chat caller.user_id callee.user_id)
    let m = call_message call_id chat_id caller.user_id callee.user_id is_video_call fresh
    done (save_message m)
    done (emit (broadcast_call chat_id m))
    done (emit (sent_call callee.user_id m))
    done (enter call_id (caller_name ∷ callee_name ∷ []) (caller.user_id ∷ callee.user_id ∷ []))

  no_messages : Err
  no_messages = message (codes "message collection not initialized")

  abbrev pub update_call : Text → (CallMessage → CallMessage) → Handler (Unit {0})
  update_call call_id f w =
      let (answer, docs) = env.messages.update_one (with_call_id call_id) f w.message_docs in
      (answer, record w { message_docs = docs })

  unfoldable pub answer_call : Text → ℕ → Handler (Unit {0})
  unfolding no_messages
  answer_call call_id now = do
    guard env.has_messages no_messages
    update_call call_id (λ m. record m { is_answered = true; answer_at = some now })

  -- A user that is not found changes nothing.
  abbrev pub enter_as : Option User → Text → Text → World env → World env
  enter_as none call_id user_id w = w
  enter_as (some u) call_id user_id w = enter call_id (u.username ∷ []) (user_id ∷ []) w

  unfoldable pub answer_group_call : Text → Text → World env → World env
  unfolding enter
  answer_group_call call_id user_id w = enter_as (env.user_by_id user_id) call_id user_id w

  abbrev pub send_ends : Text → List Text → World env → World env
  send_ends call_id [] w = w
  send_ends call_id (id ∷ ids) w = send_ends call_id ids (emit (sent_end id call_id) w)

  unfoldable pub clear_call : Text → List Text → List Text → World env → World env
  clear_call call_id [] ids w = w
  clear_call call_id (u ∷ us) ids w =
      send_ends call_id ids
        (record w { cache = delete_keys env.redis (end_keys call_id (u ∷ us)) w.cache })

  abbrev pub members_of : Text → World env → List Text
  members_of key w = members_or_none (env.redis.smembers key w.cache)

  unfoldable pub clear : Text → World env → World env
  unfolding clear_call
  clear call_id w =
      if env.has_redis
      then clear_call call_id (members_of (call_key call_id) w)
          (members_of (call_uuid_key call_id) w) w
      else w

  unfoldable pub end_call : Text → ℕ → Handler (Unit {0})
  unfolding no_messages clear
  end_call call_id now = do
    guard env.has_messages no_messages
    ignore (update_call call_id (λ m. record m { end_at = some now }))
    done (clear call_id)

  unfoldable pub reject_call : Text → ℕ → Handler (Unit {0})
  unfolding no_messages end_call
  reject_call call_id now = do
    guard env.has_messages no_messages
    update_call call_id (λ m. record m { is_rejected = true; end_at = some now })
    end_call call_id now

  -- No call, and a call whose identity is empty, is nothing to end.
  unfoldable pub end_found : Outcome Err (Option Text) → ℕ → Handler (Unit {0})
  unfolding end_call
  end_found (fail e) now = pure tt
  end_found (ok none) now = pure tt
  end_found (ok (some [])) now = pure tt
  end_found (ok (some (c ∷ cs))) now = end_call (c ∷ cs) now

  unfoldable pub end_call_by_member_username : Text → ℕ → Handler (Unit {0})
  unfolding end_found
  end_call_by_member_username username now w =
      if env.has_redis
      then end_found (env.redis.get (in_call_key username) w.cache) now w
      else (ok tt, w)
