-- ===== src/Transition/Cases.antt =====
-- What the v2 root is on each branch, errors included.
use qorechain_rdk.Transition.Binding.{covered, Covered}
use qorechain_rdk.Prelude.{
  ◌≡◌, refl, ◌≢◌, ◌⊎◌, inl, inr, Bool, true, false, ◌&&◌, ◌||◌, some, arith, ◌==◌, Bool-cases,
  length, ok, err, Result-cases,
}
use qorechain_rdk.Transition.{
  given, v2_parts, qorehash, withdrawals_root_length, bytes_of, missing_ids, TransitionError,
  truthy, TransitionInput, Bytes, batch_transition_root_v2,
}

and_false : (a b : Bool) → (a && b) ≡ false → (a ≡ false) ⊎ (b ≡ false)
and_false true b h = inr h
and_false false b h = inl refl

module _ (shake : Bytes → Bytes) (input : TransitionInput) where
  ids_missing :
      (truthy input.chain_id && truthy input.rollup_id) ≡ false
      → batch_transition_root_v2 shake input ≡ err missing_ids
  unfolding batch_transition_root_v2
  ids_missing h = ground arith

  module _ (ids : (truthy input.chain_id && truthy input.rollup_id) ≡ true) where
    withdrawals_error :
        (e : TransitionError)
        → bytes_of input.withdrawals_root ≡ err e
        → batch_transition_root_v2 shake input ≡ err e
    unfolding batch_transition_root_v2
    withdrawals_error e hw = ground arith

    module _ (w : Bytes) (hw : bytes_of input.withdrawals_root ≡ ok w) where
      withdrawals_refused :
          (length w == 0 || length w == 32) ≡ false
          → batch_transition_root_v2 shake input ≡ err (withdrawals_root_length (length w))
      unfolding batch_transition_root_v2
      withdrawals_refused bad = ground arith

      module _ (good : (length w == 0 || length w == 32) ≡ true) where
        prev_error :
            (e : TransitionError)
            → bytes_of (some input.prev_state_root) ≡ err e
            → batch_transition_root_v2 shake input ≡ err e
        unfolding batch_transition_root_v2
        prev_error e hp = ground arith

        module _ (p : Bytes) (hp : bytes_of (some input.prev_state_root) ≡ ok p) where
          hash_error :
              (e : TransitionError)
              → bytes_of input.data_hash ≡ err e
              → batch_transition_root_v2 shake input ≡ err e
          unfolding batch_transition_root_v2
          hash_error e hd = ground arith

          root_ok :
              (d : Bytes)
              → bytes_of input.data_hash ≡ ok d
              → batch_transition_root_v2 shake input
                ≡ ok (
                    qorehash shake (
                      v2_parts (given input.chain_id) (given input.rollup_id) p d input.tx_count w))
          unfolding batch_transition_root_v2
          root_ok d hd = ground arith

-- What the v2 root is, and when it is refused: without a chain id or a rollup id; on a withdrawals root
-- that is not hex, or is neither empty nor 32 bytes; on another field that is not hex. Otherwise it is
-- returned.
pub batch_transition_root_v2_cases :
    (shake : Bytes → Bytes) (input : TransitionInput)
    → ((root : Bytes) × (batch_transition_root_v2 shake input ≡ ok root) × Covered shake input root)
      ⊎ ((batch_transition_root_v2 shake input ≡ err missing_ids)
          × ((truthy input.chain_id ≡ false) ⊎ (truthy input.rollup_id ≡ false)))
      ⊎ ((w : Bytes) × (batch_transition_root_v2 shake input
            ≡ err (withdrawals_root_length (length w)))
          × (bytes_of input.withdrawals_root ≡ ok w)
          × (length w ≢ 0)
          × (length w ≢ 32))
      ⊎ ((e : TransitionError) × (batch_transition_root_v2 shake input ≡ err e)
          × ((bytes_of input.withdrawals_root ≡ err e)
              ⊎ (bytes_of (some input.prev_state_root) ≡ err e)
              ⊎ (bytes_of input.data_hash ≡ err e)))
batch_transition_root_v2_cases shake input =
    elim (Bool-cases (truthy input.chain_id && truthy input.rollup_id)) [
      | inr missing ↦ inr (
          inl (
            ids_missing shake input missing,
            and_false (truthy input.chain_id) (truthy input.rollup_id) missing,
          ))
      | inl ids ↦ elim (Result-cases (bytes_of input.withdrawals_root)) [
        | inr (e, hw) ↦ inr (inr (inr (e, withdrawals_error shake input ids e hw, inl hw)))
        | inl (w, hw) ↦ elim (Bool-cases (length w == 0 || length w == 32)) [
          | inr bad ↦ inr (
              inr (
                inl (
                  w,
                  withdrawals_refused shake input ids w hw bad,
                  hw,
                  ground arith,
                  ground arith,
                )))
          | inl good ↦ elim (Result-cases (bytes_of (some input.prev_state_root))) [
            | inr (e, hp) ↦
                inr (inr (inr (e, prev_error shake input ids w hw good e hp, inr (inl hp))))
            | inl (p, hp) ↦ elim (Result-cases (bytes_of input.data_hash)) [
              | inr (e, hd) ↦
                  inr (inr (inr (e, hash_error shake input ids w hw good p hp e hd, inr (inr hd))))
              | inl (d, hd) ↦
                  let root = qorehash shake (
                    v2_parts (given input.chain_id) (given input.rollup_id) p d input.tx_count w) in
                  let built = root_ok shake input ids w hw good p hp d hd in
                  inl (root, built, covered shake input root built)
            ]
          ]
        ]
      ]
    ]
