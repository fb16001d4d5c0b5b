-- ===== src/Watchtower/Judge.antt =====
-- `canonicalRootFor`, `transitionRootValidator` and `fraudProofForBatch` of
-- packages/ts/src/watchtower/index.ts: which batch is fraudulent, and the proof that shows it.
use qorechain_rdk.Prelude.{
  ◌≡◌, refl, ◌≢◌, ◌↔◌, ◌⊎◌, inl, inr, Bool, true, false, ◌&&◌, Option, none, some, [], ◌∷◌, ◌++◌,
  arith, ◌==◌, if◌then◌else◌, Bool-cases, length, Result, ok, err, ◌>>=◌,
}
use qorechain_rdk.Text.{JsString}
use qorechain_rdk.Bytes.{Bytes}
use qorechain_rdk.Bytes.Hex.{to_bytes, HexError, decode_wire_bytes, raw}
use qorechain_rdk.Views.{BatchView, RdkClient}
use qorechain_rdk.Transition.{
  TransitionError, batch_transition_root, transition_root_version_for_batch, fraud_proof,
  proof_roots_length,
}

pub data JudgeError : Type 0 where
  not_read : JsString → JudgeError
  not_decoded : HexError → JudgeError
  no_root : TransitionError → JudgeError

abbrev pub as_read {ℓ} : {A : Type ℓ} → Result JsString A → Result JudgeError A
as_read (ok a) = ok a
as_read (err e) = err (not_read e)

abbrev pub as_decoded {ℓ} : {A : Type ℓ} → Result HexError A → Result JudgeError A
as_decoded (ok a) = ok a
as_decoded (err e) = err (not_decoded e)

abbrev pub as_root {ℓ} : {A : Type ℓ} → Result TransitionError A → Result JudgeError A
as_root (ok a) = ok a
as_root (err e) = err (no_root e)

-- `a.every((x, i) => x === b[i])`.
abbrev pub every_same : Bytes → Bytes → Bool
every_same [] b = true
every_same (x ∷ a) [] = false
every_same (x ∷ a) (y ∷ b) = (x == y) && every_same a b

unfoldable pub same_bytes : Bytes → Bytes → Bool
same_bytes a b = (length a == length b) && every_same a b

same_bytes→eq : (a b : Bytes) → same_bytes a b ≡ true → a ≡ b
unfolding same_bytes
same_bytes→eq [] [] h = refl
same_bytes→eq [] (y ∷ b) h = absurd (ground arith)
same_bytes→eq (x ∷ a) [] h = absurd (ground arith)
same_bytes→eq (x ∷ a) (y ∷ b) h = ground (arith, same_bytes→eq a b)

same_bytes_refl : (a : Bytes) → same_bytes a a ≡ true
unfolding same_bytes
same_bytes_refl [] = refl
same_bytes_refl (x ∷ a) = ground (arith, same_bytes_refl a)

pub same_bytes_iff : (a b : Bytes) → (same_bytes a b ≡ true) ↔ (a ≡ b)
same_bytes_iff a b = (same_bytes→eq a b, λ e. rw e (same_bytes_refl b))

module _ (shake : Bytes → Bytes) (base64_to_bytes : JsString → Bytes) where
  unfoldable pub canonical_root_for : RdkClient → JsString → BatchView → Result JudgeError Bytes
  canonical_root_for client rollup_id batch = do
    version ←
        as_read
          (transition_root_version_for_batch client.rest batch.submitted_at batch.withdrawals_bound)
    prev ← as_decoded (decode_wire_bytes base64_to_bytes batch.prev_state_root)
    hash ← as_decoded (decode_wire_bytes base64_to_bytes batch.data_hash)
    withdrawals ← as_decoded (decode_wire_bytes base64_to_bytes batch.withdrawals_root)
    as_root (
        batch_transition_root shake
          (record {
            prev_state_root = raw prev;
            data_hash = some (raw hash);
            tx_count = batch.tx_count;
            chain_id = some client.chain_id;
            rollup_id = some rollup_id;
            withdrawals_root = some (raw withdrawals);
          })
          version)

  unfoldable pub transition_root_validator :
      RdkClient → JsString → BatchView → Result JudgeError Bool
  transition_root_validator client rollup_id batch = do
    published ← as_decoded (decode_wire_bytes base64_to_bytes batch.state_root)
    canonical ← canonical_root_for client rollup_id batch
    ok (same_bytes published canonical)

  unfoldable pub fraud_proof_for_batch :
      RdkClient → JsString → BatchView → Result JudgeError (Option Bytes)
  fraud_proof_for_batch client rollup_id batch = do
    canonical ← canonical_root_for client rollup_id batch
    published ← as_decoded (decode_wire_bytes base64_to_bytes batch.state_root)
    if same_bytes published canonical then ok none else do
      prev ← as_decoded (decode_wire_bytes base64_to_bytes batch.prev_state_root)
      proof ← as_root (fraud_proof (raw prev) (raw canonical))
      ok (some proof)

-- Where the batch's roots and its canonical root can be had: the validator accepts the batch exactly
-- when it publishes the canonical root, and then there is no fraud proof; otherwise the proof is the
-- previous root with the canonical root, or, where one of the two is not 32 bytes, an error.
pub fraud_proof_for_batch_cases :
    (shake : Bytes → Bytes) (base64_to_bytes : JsString → Bytes) (client : RdkClient)
    (rollup_id : JsString) (batch : BatchView) (published prev canonical : Bytes)
    → decode_wire_bytes base64_to_bytes batch.state_root ≡ ok published
    → decode_wire_bytes base64_to_bytes batch.prev_state_root ≡ ok prev
    → canonical_root_for shake base64_to_bytes client rollup_id batch ≡ ok canonical
    → let valid = transition_root_validator shake base64_to_bytes client rollup_id batch in
      let proof = fraud_proof_for_batch shake base64_to_bytes client rollup_id batch in
      ((published ≡ canonical) × (valid ≡ ok true) × (proof ≡ ok none))
      ⊎ ((published ≢ canonical)
          × (valid ≡ ok false)
          × (((length prev ≡ 32)
                × (length canonical ≡ 32)
                × (proof ≡ ok (some (prev ++ canonical))))
              ⊎ (((length prev ≢ 32) ⊎ (length canonical ≢ 32))
                  × (proof ≡ err (no_root proof_roots_length)))))
unfolding transition_root_validator fraud_proof_for_batch fraud_proof to_bytes
fraud_proof_for_batch_cases shake b64 client rollup_id batch published prev canonical hp hv hc =
    elim (Bool-cases (same_bytes published canonical)) [
      | inl s ↦
          inl ((same_bytes_iff published canonical).0 s, rw (hp, hc, s) refl, rw (hc, hp, s) refl)
      | inr s ↦ inr (
        λ e. absurd (ground (arith, (same_bytes_iff published canonical).1 e)),
        rw (hp, hc, s) refl,
        elim (Bool-cases ((length prev == 32) && (length canonical == 32))) [
          | inl l ↦ inl (ground arith, ground arith, rw (hc, hp, s, hv) (ground arith))
          | inr l ↦ inr (ground arith, rw (hc, hp, s, hv) (ground arith))
        ],
      )
    ]
