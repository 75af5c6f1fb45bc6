-- ===== src/Social/Calls.antt =====
-- Sequences of the calls of user-service/service/friend.go.
use social_network_micro_ser.Prelude.{Text, List, [], ◌∷◌, ◌≡◌, arith}
use social_network_micro_ser.Social.Env.{Env, World, Handler}
use social_network_micro_ser.Social.Repository.{find_profile}
use social_network_micro_ser.Social.Service.{
  clear_suggested, clear_found, clear_by_username, clear_both, unfriend, block, unblock,
  send_friend_request, accept_friend_request, delete_friend_request,
}

pub data Call : Type 0 where
  call_unfriend : Text → Text → Call
  call_block : Text → Text → Call
  call_unblock : Text → Text → Call
  call_send : Text → Text → Call
  call_accept : Text → Text → Call
  call_delete : Text → Text → Call

module _ (env : Env) where
  unfoldable pub run : Call → Handler env (Unit {0})
  run (call_unfriend c t) = unfriend env c t
  run (call_block c t) = block env c t
  run (call_unblock c t) = unblock env c t
  run (call_send c t) = send_friend_request env c t
  run (call_accept c t) = accept_friend_request env c t
  run (call_delete c t) = delete_friend_request env c t

  -- The calls one after the other, whatever each of them answers.
  unfoldable pub runs : List Call → World env → World env
  runs [] w = w
  runs (c ∷ cs) w = runs cs (run c w).1

module _ (env : Env) where
  -- The tables are as they were.
  pub record SameTables (w w' : World env) : Type 0 where
    pub users : w'.users ≡ w.users
    pub friends : w'.friends ≡ w.friends
    pub requests : w'.requests ≡ w.requests
    pub blocks : w'.blocks ≡ w.blocks

  pub clear_suggested-SameTables :
      (id : Text) (w : World env) → SameTables w (clear_suggested env id w).1
  unfolding clear_suggested
  clear_suggested-SameTables id w = record {
    users = ground arith;
    friends = ground arith;
    requests = ground arith;
    blocks = ground arith;
  }

  pub clear_both-SameTables : (c t : Text) (w : World env) → SameTables w (clear_both env c t w).1
  unfolding clear_both clear_by_username clear_found find_profile clear_suggested
  clear_both-SameTables c t w = record {
    users = ground arith;
    friends = ground arith;
    requests = ground arith;
    blocks = ground arith;
  }
