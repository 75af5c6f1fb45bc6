-- ===== src/Gateway/RateLimit/Samples.antt =====
-- The theorems on the rate limit with a table for Redis.
use social_network_micro_ser.Prelude.{
  ◌≤◌, ℕ, codes, true, false, [], ◌∷◌, some, ◌≡◌, refl, arith, lookup, matches,
}
use social_network_micro_ser.Services.Windows.{table_windows}
use social_network_micro_ser.Gateway.RateLimit.{Request, passed, Env, World, rate_limiter}
use social_network_micro_ser.Gateway.RateLimit.Bound.{passes, passes_lem}
use social_network_micro_ser.Gateway.RateLimit.Recovery.{requests, passes_again, QuietSince}

abbrev sample_env : Env
sample_env = record { has_redis = true; windows = table_windows; has_slack = false }

abbrev empty_world : World sample_env
empty_world = record { store = record { sets = []; texts = [] }; alerts = [] }

abbrev a_request : Request
a_request = record {
  user_id = codes "u";
  client_ip = codes "1.2.3.4";
  full_path = codes "/posts";
  method = codes "GET";
}

empty_world-QuietSince : (limit : ℕ) → QuietSince sample_env limit 60000 1 empty_world
unfolding lookup matches
empty_world-QuietSince limit = record {
  up = tt;
  quiet = record { scores = λ key. refl; texts = λ key. omega arith };
}

-- Two requests at the start, of which the second is over the limit of one, and one 300 seconds later.
passes_again_example :
    (rate_limiter sample_env 1 60000 a_request 300001000000
      (requests sample_env 1 60000 ((a_request, 0) ∷ (a_request, 1000000) ∷ []) empty_world)).0
    ≡ passed (some (1, 0))
passes_again_example =
    passes_again sample_env 1 60000 1 300001000000 ((a_request, 0) ∷ (a_request, 1000000) ∷ [])
      a_request empty_world refl (omega arith, (omega arith, tt)) (empty_world-QuietSince 1)
      (omega arith) (omega arith) (omega arith)

abbrev other_request : Request
other_request = record a_request { user_id = codes "v" }

-- The third request of a client in a row is over the limit of two, and that of another client counts
-- on its own.
passes_lem_example :
    passes sample_env 2 60000 a_request
      ((a_request, 60001000000)
        ∷ (a_request, 60002000000)
        ∷ (other_request, 60002500000)
        ∷ (a_request, 60003000000)
        ∷ [])
      empty_world
    ≤ 2
passes_lem_example =
    passes_lem sample_env 2 60000 a_request 60001 1
      ((a_request, 60001000000)
        ∷ (a_request, 60002000000)
        ∷ (other_request, 60002500000)
        ∷ (a_request, 60003000000)
        ∷ [])
      empty_world refl (empty_world-QuietSince 2) (omega arith)
      ((
        omega arith,
        omega arith,
        omega arith,
        (
          omega arith,
          omega arith,
          omega arith,
          (omega arith, omega arith, omega arith, (omega arith, omega arith, tt, tt)),
        ),
      ))
