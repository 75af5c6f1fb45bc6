-- ===== src/Chat/Keys/Once.antt =====
-- How often a one-time key is handed out.
use social_network_micro_ser.Prelude.{
  ℕ, ◌+◌, ◌≤◌, Text, text_eq, text_eq_iff, Bool, false, ◌&&◌, List, [], ◌∷◌, Option, none, some,
  inl, inr, arith, Outcome, ok, fail, if◌then◌else◌, ◌==◌, bit, matches, Option-cases,
  Outcome-cases,
}
use social_network_micro_ser.Exception.{Err}
use social_network_micro_ser.Chat.Keys.{
  DeviceKeyBundle, OneTimePreKey, Upload, RegisterKeysRequest, DevicePreKeyBundle,
  PreKeyBundleResponse, Env, World, pre_key_docs, is_pre_key_of, insert_pre_keys,
  register_device_keys, add_one_time_pre_keys, take_pre_key, device_bundles, get_pre_key_bundle,
  revoke_device, bundle_response, stored_bundle, is_bundle_of,
}

pub data Call : Type 0 where
  register_keys : Text → RegisterKeysRequest → Call
  add : Text → Text → List Upload → Call
  fetch : Text → Call
  revoke : Text → Text → Call

abbrev pub with_answer :
    Outcome Err PreKeyBundleResponse → List PreKeyBundleResponse → List PreKeyBundleResponse
with_answer (ok r) rs = r ∷ rs
with_answer (fail e) rs = rs

-- The bundles that the calls answer, and the state behind them.
unfoldable pub run_calls :
    (env : Env) → List Call → World env → List PreKeyBundleResponse × World env
run_calls env [] w = ([], w)
run_calls env (register_keys user req ∷ cs) w =
    run_calls env cs (register_device_keys env user req w).1
run_calls env (add user device us ∷ cs) w =
    run_calls env cs (add_one_time_pre_keys env user device us w).1
run_calls env (fetch user ∷ cs) w =
    let (answer, w1) = get_pre_key_bundle env user w in
    let (rest, w2) = run_calls env cs w1 in (with_answer answer rest, w2)
run_calls env (revoke user device ∷ cs) w = run_calls env cs (revoke_device env user device w)

abbrev pub has_key_id : ℕ → Option Upload → Bool
has_key_id n none = false
has_key_id n (some u) = u.0 == n

-- The key with a number, of a device of a user: its documents, its uploads, and the bundles that
-- hand it out.
module _ (user device : Text) (n : ℕ) where
  abbrev pub is_key : OneTimePreKey → Bool
  is_key k = is_pre_key_of user device k && k.key_id == n

  unfoldable pub uploads : List Call → ℕ
  uploads [] = 0
  uploads (register_keys u req ∷ cs) =
      matches is_key (pre_key_docs u req.bundle.device_id req.one_time_pre_keys) + uploads cs
  uploads (add u d us ∷ cs) = matches is_key (pre_key_docs u d us) + uploads cs
  uploads (fetch u ∷ cs) = uploads cs
  uploads (revoke u d ∷ cs) = uploads cs

  abbrev pub hands_out : DevicePreKeyBundle → Bool
  hands_out b = text_eq b.device_id device && has_key_id n b.one_time

  abbrev pub handed_by : Text → List DevicePreKeyBundle → ℕ
  handed_by u bs = if text_eq u user then matches hands_out bs else 0

  unfoldable pub handed : List PreKeyBundleResponse → ℕ
  handed [] = 0
  handed (r ∷ rs) = handed_by r.user_id r.devices + handed rs

  module _ (env : Env) where
    abbrev pub left : World env → ℕ
    left w = matches is_key (env.pre_keys.docs w.pre_key_docs)

    taken_key :
        (u d : Text) (w : World env)
        → let (one_time, w1) = take_pre_key env u d w in
          bit (text_eq u user && text_eq d device && has_key_id n one_time) + left w1 ≤ left w
    unfolding take_pre_key
    taken_key u d w =
        let p = is_pre_key_of u d in
        let r = env.pre_keys.find_one_and_delete p w.pre_key_docs in
        let le = env.pre_keys.taken_le p w.pre_key_docs is_key in
        elim (Outcome-cases r.0) [
          | inr (err, e) ↦ ground arith
          | inl (found, e) ↦ elim (Option-cases found) [
            | inl none_ ↦ ground arith
            | inr (k, e1) ↦
                let meets = env.pre_keys.taken_meets p w.pre_key_docs k (rw e1 at e) in
                ground (
                  arith,
                  text_eq_iff k.user_id u,
                  text_eq_iff k.device_id d,
                  text_eq_iff k.user_id user,
                  text_eq_iff u user,
                  text_eq_iff k.device_id device,
                  text_eq_iff d device,
                )
          ]
        ]

    devices_keys :
        (u : Text) (bs : List DeviceKeyBundle) (w : World env)
        → let (devices, w1) = device_bundles env u bs w in handed_by u devices + left w1 ≤ left w
    unfolding device_bundles matches
    devices_keys u [] w = ground arith
    devices_keys u (b ∷ bs) w =
        ground
          (arith, taken_key u b.device_id w, devices_keys u bs (take_pre_key env u b.device_id w).1)

    bundle_keys :
        (answer : Outcome Err (List DeviceKeyBundle)) (u : Text) (w : World env)
        (rest : List PreKeyBundleResponse)
        → let (out, w1) = bundle_response env answer u w in
          handed (with_answer out rest) + left w1 ≤ handed rest + left w
    unfolding bundle_response handed
    bundle_keys (fail e) u w rest = omega arith
    bundle_keys (ok []) u w rest = omega arith
    bundle_keys (ok (b ∷ bs)) u w rest = ground (arith, devices_keys u (b ∷ bs) w)

    fetched_keys :
        (u : Text) (w : World env) (rest : List PreKeyBundleResponse)
        → let (out, w1) = get_pre_key_bundle env u w in
          handed (with_answer out rest) + left w1 ≤ handed rest + left w
    unfolding get_pre_key_bundle
    fetched_keys u w rest =
        ground (arith, bundle_keys (env.bundles.find_all (is_bundle_of u) w.bundle_docs) u w rest)

    inserted_keys :
        (u d : Text) (us : List Upload) (w : World env)
        → left (insert_pre_keys env u d us w) ≤ matches is_key (pre_key_docs u d us) + left w
    unfolding insert_pre_keys
    inserted_keys u d [] w = omega arith
    inserted_keys u d (x ∷ us) w =
        env.pre_keys.insert_le (λ k. k.id) (pre_key_docs u d (x ∷ us)) w.pre_key_docs is_key

    registered_keys :
        (u : Text) (req : RegisterKeysRequest) (w : World env)
        → left (register_device_keys env u req w).1
          ≤ matches is_key (pre_key_docs u req.bundle.device_id req.one_time_pre_keys) + left w
    unfolding register_device_keys
    registered_keys u req w =
        let r = env.bundles.upsert (λ b. b.id) (stored_bundle u req.bundle) w.bundle_docs in
        let w1 = record w { bundle_docs = r.1 } in
        elim (Outcome-cases r.0) [
          | inl (_, e) ↦
              ground (arith, inserted_keys u req.bundle.device_id req.one_time_pre_keys w1)
          | inr (_, e) ↦ ground arith
        ]

    -- Whatever is uploaded, fetched and revoked in whatever order, and whatever fails, a one-time key of
    -- a device is handed out no more often than it was uploaded or stood in the collection before.
    pub run_calls-le :
        (cs : List Call) (w : World env)
        → let (out, w1) = run_calls env cs w in handed out + left w1 ≤ uploads cs + left w
    unfolding run_calls uploads handed add_one_time_pre_keys revoke_device
    run_calls-le [] w = omega arith
    run_calls-le (register_keys u req ∷ cs) w =
        omega (arith, registered_keys u req w, run_calls-le cs (register_device_keys env u req w).1)
    run_calls-le (add u d us ∷ cs) w =
        ground
          (arith, inserted_keys u d us w, run_calls-le cs (add_one_time_pre_keys env u d us w).1)
    run_calls-le (fetch u ∷ cs) w =
        let (out, w1) = get_pre_key_bundle env u w in
        omega (arith, fetched_keys u w (run_calls env cs w1).0, run_calls-le cs w1)
    run_calls-le (revoke u d ∷ cs) w = ground (
      arith,
      env.pre_keys.delete_le (is_pre_key_of u d) w.pre_key_docs is_key,
      run_calls-le cs (revoke_device env u d w),
    )
