-- ===== src/Tx/Client/Carried.antt =====
-- packages/ts/src/tx/client.ts and messages.ts: which of an input's fields the batch that `submitBatch`
-- sends carries.
use qorechain_rdk.Prelude.{
  ◌≡◌, refl, sym, subst, inl, inr, none, some, arith, Bool-cases, Result, ok, err, ◌>>=◌,
  ok-injective, >>=-eq-ok,
}
use qorechain_rdk.Prelude.Int.{ℤ}
use qorechain_rdk.Tx.Client.{TxError, TxClient, Sdk}
use qorechain_rdk.Tx.Messages.{
  given, bytes_of, bytes_or_empty, big, EncodeObject, SubmitBatchInput, Numeric, submit_batch_msg,
}
use qorechain_rdk.Tx.Client.Operations
use qorechain_rdk.Tx.Messages
use qorechain_rdk.Tx.Client.Operations.{AnchorMode}
use qorechain_rdk.Tx.Client.Anchor.{unsigned, signed, Anchoring, try_anchor_signature}
use qorechain_rdk.Tx.Codecs.SubmitBatch.{MsgSubmitBatch, from_partial}

-- Every field of the batch but its sender and its anchor signature is the input's, numbers and bytes as
-- they are read; bytes that the input leaves out are none.
abbrev pub CarriesBatch : SubmitBatchInput → MsgSubmitBatch → Type 0
CarriesBatch input m =
    (m.rollup_id ≡ input.rollup_id)
    × (some m.batch_index ≡ input.batch_index)
    × (bytes_of input.state_root ≡ ok m.state_root)
    × (bytes_or_empty input.prev_state_root ≡ ok m.prev_state_root)
    × (some m.tx_count ≡ input.tx_count)
    × (bytes_or_empty input.data_hash ≡ ok m.data_hash)
    × (bytes_or_empty input.proof ≡ ok m.proof)
    × (bytes_or_empty input.withdrawals_root ≡ ok m.withdrawals_root)
    × (bytes_or_empty input.validator_set_hash ≡ ok m.validator_set_hash)

pub big-ok : (n : Numeric) (v : ℤ) → big n ≡ ok v → n ≡ some v
big-ok none v e = absurd (cc)
big-ok (some w) v e = cc

-- A message that is built carries its input's fields.
pub built_message :
    (input : SubmitBatchInput) (object : EncodeObject)
    → submit_batch_msg input ≡ ok object
    → (m : MsgSubmitBatch) × (object ≡ Messages.submit_batch m)
      × (m.sequencer ≡ input.sequencer)
      × (bytes_or_empty input.anchor_signature ≡ ok m.anchor_signature)
      × CarriesBatch input m
unfolding submit_batch_msg from_partial
built_message input object h =
    let (index, e1, h1) = >>=-eq-ok (big input.batch_index) _ h in
    let (root, e2, h2) = >>=-eq-ok (bytes_of input.state_root) _ h1 in
    let (prev, e3, h3) = >>=-eq-ok (bytes_or_empty input.prev_state_root) _ h2 in
    let (count, e4, h4) = >>=-eq-ok (big input.tx_count) _ h3 in
    let (hash, e5, h5) = >>=-eq-ok (bytes_or_empty input.data_hash) _ h4 in
    let (proof, e6, h6) = >>=-eq-ok (bytes_or_empty input.proof) _ h5 in
    let (withdrawals, e7, h7) = >>=-eq-ok (bytes_or_empty input.withdrawals_root) _ h6 in
    let (signature, e8, h8) = >>=-eq-ok (bytes_or_empty input.anchor_signature) _ h7 in
    let (set, e9, h9) = >>=-eq-ok (bytes_or_empty input.validator_set_hash) _ h8 in
    (
      _,
      sym (ok-injective h9),
      refl,
      e8,
      (
        refl,
        sym (big-ok input.batch_index index e1),
        e2,
        e3,
        sym (big-ok input.tx_count count e4),
        e5,
        e6,
        e7,
        e9,
      ),
    )

module _ (sdk : Sdk) (client : TxClient) (input : SubmitBatchInput) (m : MsgSubmitBatch) where
  signed_same :
      (mode : AnchorMode) (anchoring : Result TxError Anchoring) (anchored : SubmitBatchInput)
      → (anchoring >>= Operations.with_signature sdk client input mode) ≡ ok anchored
      → CarriesBatch anchored m
      → CarriesBatch input m
  signed_same mode (err e) anchored h same = absurd (cc)
  signed_same mode (ok (signed signature)) anchored h same =
      subst (λ t. CarriesBatch t m) (sym (ok-injective h)) same
  signed_same AnchorMode.require (ok (unsigned reason)) anchored h same = absurd (cc)
  signed_same AnchorMode.auto (ok (unsigned reason)) anchored h same =
      subst (λ t. CarriesBatch t m) (sym (ok-injective h)) same
  signed_same AnchorMode.off (ok (unsigned reason)) anchored h same =
      subst (λ t. CarriesBatch t m) (sym (ok-injective h)) same

  kept :
      (anchored : SubmitBatchInput)
      → ◌≡◌ {A = Result TxError SubmitBatchInput} (ok input) (ok anchored)
      → CarriesBatch anchored m
      → CarriesBatch input m
  kept anchored h same = subst (λ t. CarriesBatch t m) (sym (ok-injective h)) same

  -- Anchoring changes no other field.
  pub anchored-CarriesBatch :
      (mode : AnchorMode) (anchored : SubmitBatchInput)
      → Operations.anchored_input sdk client input mode ≡ ok anchored
      → CarriesBatch anchored m
      → CarriesBatch input m
  unfolding Operations.anchored_input
  anchored-CarriesBatch AnchorMode.off anchored h same = kept anchored h same
  anchored-CarriesBatch AnchorMode.auto anchored h same =
      elim (Bool-cases (given input.anchor_signature)) [
        | inl there ↦ kept anchored (ground arith) same
        | inr absent ↦
            signed_same AnchorMode.auto (try_anchor_signature sdk client input) anchored
              (ground arith) same
      ]
  anchored-CarriesBatch AnchorMode.require anchored h same =
      elim (Bool-cases (given input.anchor_signature)) [
        | inl there ↦ kept anchored (ground arith) same
        | inr absent ↦
            signed_same AnchorMode.require (try_anchor_signature sdk client input) anchored
              (ground arith) same
      ]
