-- ===== src/Chat/Calls/Entities.antt =====
-- The data of the calls of chat-service/service/chat_service.go, and the keys of Redis. The content of
-- a message, which names the kind of the call, the profiles and the links that are added to it, and the
-- cache of the lists of chats are left out. The chats in Neo4j are read through Env.
use social_network_micro_ser.Prelude.{
  ℕ, Text, codes, text_eq, Bool, false, List, [], ◌∷◌, ◌++◌, map, Option, none, Outcome, ok, fail,
  if◌then◌else◌,
}
use social_network_micro_ser.Exception.{Err}
use social_network_micro_ser.Services.Collections.{Collection}
use social_network_micro_ser.Services.Sets.{Sets}

-- What is read of UserCommonInfoResponse.
pub record User : Type 0 where
  pub user_id : Text
  pub username : Text

pub record CallMessage : Type 0 where
  pub id : Text
  pub chat_id : Text
  pub sender_id : Text
  pub recipient_id : Text
  pub timestamp : ℕ
  pub call_id : Text
  pub is_video_call : Bool
  pub is_answered : Bool
  pub answer_at : Option ℕ
  pub is_rejected : Bool
  pub end_at : Option ℕ

pub data Event : Type 0 where
  broadcast_call : Text → CallMessage → Event
  sent_call : Text → CallMessage → Event
  sent_end : Text → Text → Event
  -- to whom, from whom, and the command
  forwarded : Text → Text → Text → Event

-- The answers of user-service are `none` for an error and for no user; `none` for the client says that
-- there is none.
pub record Env : Type 1 where
  pub has_users : Bool
  pub user_by_id : Text → Option User
  pub user_by_name : Text → Option User
  pub direct_chat : Text → Text → Outcome Err Text
  pub has_redis : Bool
  pub redis : Sets
  pub has_messages : Bool
  pub messages : Collection CallMessage

pub record World (env : Env) : Type 0 where
  pub cache : env.redis.Store
  pub message_docs : env.messages.Store
  pub events : List Event

-- A new identity and the time.
abbrev pub Fresh : Type 0
Fresh = Text × ℕ

abbrev pub in_call_key : Text → Text
in_call_key username = codes "incall:" ++ username

abbrev pub prepared_key : Text → Text → Text
prepared_key caller callee = codes "prepared_for_call:" ++ (caller ++ (codes ":" ++ callee))

abbrev pub call_key : Text → Text
call_key call_id = codes "call:" ++ call_id

abbrev pub call_uuid_key : Text → Text
call_uuid_key call_id = codes "call_uuid:" ++ call_id

abbrev pub with_call_id : Text → CallMessage → Bool
with_call_id call_id m = text_eq m.call_id call_id

abbrev pub is_yes : Outcome Err Bool → Bool
is_yes (ok b) = b
is_yes (fail e) = false

abbrev pub members_or_none : Outcome Err (List Text) → List Text
members_or_none (ok ms) = ms
members_or_none (fail e) = []

abbrev pub call_message : Text → Text → Text → Text → Bool → Fresh → CallMessage
call_message call_id chat_id sender recipient is_video_call fresh = record {
  id = fresh.0;
  chat_id = chat_id;
  sender_id = sender;
  recipient_id = recipient;
  timestamp = fresh.1;
  call_id = call_id;
  is_video_call = is_video_call;
  is_answered = false;
  answer_at = none;
  is_rejected = false;
  end_at = none;
}

-- The flags of the pairs of different members.
abbrev pub prepared_with : Text → List Text → List Text
prepared_with u [] = []
prepared_with u (v ∷ vs) =
    if text_eq u v then prepared_with u vs else prepared_key u v ∷ prepared_with u vs

abbrev pub prepared_keys : List Text → List Text → List Text
prepared_keys [] vs = []
prepared_keys (u ∷ us) vs = prepared_with u vs ++ prepared_keys us vs

-- The keys that the end of a call deletes, in the order of the code.
abbrev pub end_keys : Text → List Text → List Text
end_keys call_id us =
    map in_call_key us ++ (prepared_keys us us ++ (call_key call_id ∷ call_uuid_key call_id ∷ []))

module _ (redis : Sets) where
  unfoldable pub delete_keys : List Text → redis.Store → redis.Store
  delete_keys [] s = s
  delete_keys (k ∷ ks) s = delete_keys ks (redis.del k s)

  unfoldable pub set_in_calls : Text → List Text → redis.Store → redis.Store
  set_in_calls call_id [] s = s
  set_in_calls call_id (u ∷ us) s =
      set_in_calls call_id us (redis.set (in_call_key u) call_id none s)

  -- The state of a call that users enter.
  unfoldable pub enter_call : Text → List Text → List Text → redis.Store → redis.Store
  unfolding set_in_calls
  enter_call call_id usernames ids s =
      redis.sadd (call_uuid_key call_id) ids
        (redis.sadd (call_key call_id) usernames (set_in_calls call_id usernames s))
