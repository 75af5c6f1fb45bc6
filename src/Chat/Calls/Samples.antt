-- ===== src/Chat/Calls/Samples.antt =====
-- The theorems on calls with a cache and messages in memory.
use social_network_micro_ser.Prelude.{
  Text, codes, text_eq, true, false, [], ◌∷◌, Option, none, some, ok, ◌≡◌, ◌≢◌, refl, List,
}
use social_network_micro_ser.Services.Redis.{member}
use social_network_micro_ser.Services.Sets.{table_sets, add_members}
use social_network_micro_ser.Services.Collections.{list_collection}
use social_network_micro_ser.Chat.Calls.Entities.{
  Env, World, User, CallMessage, in_call_key, call_key,
}
use social_network_micro_ser.Chat.Calls.Service.{
  is_in_call, init_call, start_call, end_call, answer_group_call, end_call_by_member_username,
}
use social_network_micro_ser.Chat.Calls.Runs.{
  Call, init, start, run_calls, run_call, Listed, run_calls-Listed,
}
use social_network_micro_ser.Chat.Calls.Hanging.{hang_up, second_call_forgotten}
use social_network_micro_ser.Chat.Calls.Signals.{Chats, handle_signal, anybody_hangs_up}

-- A user has one text for the identity and for the name.
abbrev user_named : Text → Option User
user_named id = some (record { user_id = id; username = id })

abbrev sample_env : Env
sample_env = record {
  has_users = true;
  user_by_id = user_named;
  user_by_name = user_named;
  direct_chat = λ a b. ok (codes "chat");
  has_redis = true;
  redis = table_sets;
  has_messages = true;
  messages = list_collection CallMessage;
}

abbrev quiet : World sample_env
quiet = record {
  cache = record { texts = λ k. none; sets = λ k. [] };
  message_docs = [];
  events = [];
}

quiet-Listed : Listed sample_env quiet
unfolding Listed
quiet-Listed = record { up = tt; listed = λ u c h. cc }

abbrev ann_calls_bob : List Call
ann_calls_bob =
    init (codes "ann") (codes "bob")
    ∷ start (codes "c") (codes "ann") (codes "bob") false (codes "m", 5)
    ∷ []

abbrev talking : World sample_env
talking = run_calls sample_env ann_calls_bob quiet

talking_call : talking.cache.texts (in_call_key (codes "bob")) ≡ some (codes "c")
unfolding run_calls run_call init_call start_call text_eq
talking_call = refl

talking_member : member (codes "bob") (talking.cache.sets (call_key (codes "c"))) ≡ true
unfolding run_calls run_call init_call start_call text_eq add_members
talking_member = refl

not_empty : talking.cache.texts (in_call_key (codes "bob")) ≢ some []
not_empty h = let e = talking_call in cc

hang_up_example :
    is_in_call sample_env
      (codes "bob")
      (end_call_by_member_username sample_env (codes "bob") 9 talking).1
    ≡ false
hang_up_example =
    hang_up sample_env refl ann_calls_bob quiet (codes "bob") 9 refl quiet-Listed not_empty

second_call_forgotten_example :
    let w =
      (end_call sample_env
        (codes "c")
        9
        (answer_group_call sample_env (codes "g") (codes "bob") talking)).1 in
    (is_in_call sample_env (codes "bob") w ≡ false)
    × (member (codes "bob") (w.cache.sets (call_key (codes "g"))) ≡ true)
unfolding text_eq
second_call_forgotten_example =
    second_call_forgotten sample_env refl talking (codes "c") (codes "g") (codes "bob")
      (record { user_id = codes "bob"; username = codes "bob" }) 9 refl tt refl talking_member refl

abbrev no_members : Chats
no_members = record { is_group = λ c. false; members = λ c. [] }

anybody_hangs_up_example :
    is_in_call sample_env (codes "bob") (
      handle_signal sample_env no_members
        (codes "eve")
        (record {
          command = codes "CALL_HANGUP";
          chat_id = codes "c";
          call_type = [];
          target_id = [];
        })
        (codes "n", 9)
        talking)
    ≡ false
unfolding text_eq
anybody_hangs_up_example =
    anybody_hangs_up sample_env no_members (codes "eve") [] (codes "c") (codes "bob") (codes "n", 9)
      talking refl refl (run_calls-Listed sample_env ann_calls_bob quiet quiet-Listed) refl
      talking_call
