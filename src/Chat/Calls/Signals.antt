-- ===== src/Chat/Calls/Signals.antt =====
-- The signals of calls that come over a socket: the part of HandleIncomingMessages in
-- chat-service/service/chat_service.go for commands that start with CALL_. The chats in Neo4j are an
-- argument. Where the code reads an answer of user-service and drops the error, none is no user.
use social_network_micro_ser.Prelude.{
  Text, codes, text_eq, Bool, true, false, List, [], ◌∷◌, Option, none, some, ◌≡◌, refl, inl, inr,
  arith, if◌then◌else◌, Bool-cases,
}
use social_network_micro_ser.Exception.{has_prefix}
use social_network_micro_ser.Chat.Calls.Entities.{Env, World, Fresh, User, forwarded, in_call_key}
use social_network_micro_ser.Chat.Calls.Service.{
  emit, prepare_call, start_group_call, start_call, answer_call, answer_group_call, end_call,
  is_in_call, update_call, clear,
}
use social_network_micro_ser.Chat.Calls.Runs.{Listed}
use social_network_micro_ser.Chat.Calls.Hanging.{clear_lem, end_call_clears}

pub record Signal : Type 0 where
  pub command : Text
  pub chat_id : Text
  pub call_type : Text
  pub target_id : Text

-- `IsGroupChat` and `GetChatMembers`.
pub record Chats : Type 0 where
  pub is_group : Text → Bool
  pub members : Text → List Text

-- The first member who is not the sender.
unfoldable pub other_member : Text → List Text → Option Text
other_member sender [] = none
other_member sender (m ∷ ms) =
    let rest = other_member sender ms in if text_eq m sender then rest else some m

module _ (env : Env) where
  abbrev pub offer_group : Option User → Text → Bool → Fresh → World env → World env
  offer_group none chat video fresh w = w
  offer_group (some u) chat video fresh w =
      (start_group_call env chat u.username chat video fresh w).1

  abbrev pub offer_to : Option User → Option User → Text → Bool → Fresh → World env → World env
  offer_to none callee chat video fresh w = w
  offer_to (some u) none chat video fresh w = w
  offer_to (some u) (some v) chat video fresh w =
      (start_call env chat u.username v.username video fresh
        (prepare_call env u.username v.username w)).1

  abbrev pub offer_direct : Option Text → Text → Text → Bool → Fresh → World env → World env
  offer_direct none sender chat video fresh w = w
  offer_direct (some recipient) sender chat video fresh w =
      if text_eq recipient []
      then w
      else offer_to (env.user_by_id sender) (env.user_by_id recipient) chat video fresh w

  abbrev pub forward_all : Text → Text → List Text → World env → World env
  forward_all command sender [] w = w
  forward_all command sender (m ∷ ms) w =
      forward_all command sender ms
        (if text_eq m sender then w else emit env (forwarded m sender command) w)

  module _ (chats : Chats) where
    unfoldable pub offer : Text → Signal → Fresh → World env → World env
    unfolding other_member
    offer sender s fresh w =
        let video = text_eq s.call_type (codes "VIDEO") in
        if chats.is_group s.chat_id
        then offer_group (env.user_by_id sender) s.chat_id video fresh w
        else offer_direct (other_member sender (chats.members s.chat_id)) sender s.chat_id video
            fresh w

    unfoldable pub answer_signal : Text → Signal → Fresh → World env → World env
    answer_signal sender s fresh w =
        let w1 = if chats.is_group s.chat_id then answer_group_call env s.chat_id sender w else w in
        (answer_call env s.chat_id fresh.1 w1).1

    unfoldable pub apply_signal : Text → Signal → Fresh → World env → World env
    unfolding offer answer_signal
    apply_signal sender s fresh w =
        if text_eq s.command (codes "CALL_OFFER")
        then offer sender s fresh w
        else if text_eq s.command (codes "CALL_ANSWER")
        then answer_signal sender s fresh w
        else if text_eq s.command (codes "CALL_HANGUP")
        then (end_call env s.chat_id fresh.1 w).1
        else w

    unfoldable pub forward_signal : Text → Signal → World env → World env
    forward_signal sender s w =
        if text_eq s.target_id []
        then forward_all s.command sender (chats.members s.chat_id) w
        else emit env (forwarded s.target_id sender s.command) w

    -- A signal without a chat is skipped, and other commands are not handled here.
    unfoldable pub handle_signal : Text → Signal → Fresh → World env → World env
    unfolding apply_signal forward_signal has_prefix
    handle_signal sender s fresh w =
        if has_prefix (codes "CALL_") s.command
        then (if text_eq s.chat_id []
            then w
            else forward_signal sender s (apply_signal sender s fresh w))
        else w

  forwarded-cache :
      (command sender : Text) (ms : List Text) (w : World env)
      → (forward_all command sender ms w).cache ≡ w.cache
  forwarded-cache command sender [] w = refl
  forwarded-cache command sender (m ∷ ms) w = ground (
    arith,
    forwarded-cache command sender ms w,
    forwarded-cache command sender ms (emit env (forwarded m sender command) w),
  )

  same_in_call :
      (u : Text) (w w1 : World env) → w1.cache ≡ w.cache → is_in_call env u w1 ≡ is_in_call env u w
  unfolding is_in_call
  same_in_call u w w1 e = ground arith

  -- Whoever sends a hang-up for a chat, a member of it or not, ends the call of that chat: whoever was
  -- in that call is in no call then. Assumed: Redis and the messages are there, Redis answers and lists
  -- everybody in a call as a member of it.
  pub anybody_hangs_up :
      (chats : Chats) (sender target c u : Text) (fresh : Fresh) (w : World env)
      → env.has_redis ≡ true
      → env.has_messages ≡ true
      → Listed env w
      → text_eq c [] ≡ false
      → env.redis.text w.cache (in_call_key u) ≡ some c
      → is_in_call env u (
          handle_signal chats sender
            (record {
              command = codes "CALL_HANGUP";
              chat_id = c;
              call_type = [];
              target_id = target;
            })
            fresh
            w)
        ≡ false
  unfolding handle_signal text_eq Listed
  anybody_hangs_up chats sender target c u fresh w redis there h named in_c =
      let w1 = (update_call env c (λ m. record m { end_at = some fresh.1 }) w).1 in
      let (ended, same) = end_call_clears env redis c fresh.1 w there in
      let listed = h.listed u c in_c in
      let (up, frees, others) = clear_lem env redis c u c u w1 h.up listed in
      let free = frees listed in
      let w2 = clear env c w1 in
      let sent = forwarded-cache (codes "CALL_HANGUP") sender (chats.members c) w2 in
      elim (Bool-cases (text_eq target [])) [
        | inl everybody ↦
            let still =
              same_in_call u w2 (forward_all (codes "CALL_HANGUP") sender (chats.members c) w2)
                sent in
            ground arith
        | inr one ↦
            let still =
              same_in_call u w2 (emit env (forwarded target sender (codes "CALL_HANGUP")) w2)
                refl in
            ground arith
      ]
