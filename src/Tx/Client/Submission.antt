-- ===== src/Tx/Client/Submission.antt =====
-- packages/ts/src/tx/client.ts: what `submitBatch` has checked by the time that it sends, and what the
-- batch that it sends carries.
use qorechain_rdk.Prelude.{
  ◌≡◌, refl, sym, ap, ◌∙◌, subst, ◌≢◌, ◌⊎◌, inl, inr, true, false, Option, none, some, List, [],
  ◌∷◌, arith, ltb, if◌then◌else◌, Bool-cases, length, Result, ok, err, ◌>>=◌, ok-injective,
  >>=-eq-ok,
}
use qorechain_rdk.Tx.Client.Carried.{CarriesBatch, anchored-CarriesBatch, built_message}
use qorechain_rdk.Tx.Client.Guards.{
  broadcast_sends, signs_hybrid, is_post_quantum, messages_of, AnchorSent,
}
use qorechain_rdk.Tx.Client.Anchor.{unsigned, signed, Anchoring, try_anchor_signature}
use qorechain_rdk.Tx.Client.Operations.{AnchorMode}
use qorechain_rdk.Tx.Client.Creator.{try_anchor_signature_iff, SignedByCreator, built-ok}
use qorechain_rdk.Views.{RollupView}
use qorechain_rdk.Bytes.Hex.RoundTrip.{hex_to_bytes_iff}
use qorechain_rdk.Text.{JsString, is_empty}
use qorechain_rdk.Rules.{withdrawals_root_error, data_hash_error, is_data_empty}
use qorechain_rdk.Bytes.Hex.{strip_0x, hex_text, raw, BytesInput, to_bytes}
use mathlib.Core.Option
use qorechain_rdk.Tx.Messages.{
  given, hex_checked, bytes_of, bytes_or_empty, SubmitBatchInput, submit_batch_msg,
}
use qorechain_rdk.Tx.Messages
use qorechain_rdk.Tx.Codecs.SubmitBatch.{MsgSubmitBatch}
use qorechain_rdk.Tx.Client.{
  bad_withdrawals_root, Request, TxOptions, thrown_by, built, bad_data_hash, Rest, TxClient, refuse,
  TxError, Sdk, Bytes,
}
use qorechain_rdk.Tx.Client.Operations

is_empty-length : {A : Type 0} (s : List A) → length s ≡ 0 → is_empty s ≡ true
is_empty-length [] h = refl
is_empty-length (x ∷ s) h = absurd (omega (arith, h))

-- The data hash rule holds of what passed, on any rollup that the node reports.
no_bytes_no_data :
    (data_hash : Option BytesInput) (hash : Bytes)
    → bytes_or_empty data_hash ≡ ok hash
    → ltb 0 (length hash) ≡ false
    → is_data_empty data_hash ≡ true
unfolding bytes_or_empty bytes_of to_bytes
no_bytes_no_data none hash h short = refl
no_bytes_no_data (some (raw [])) hash h short = refl
no_bytes_no_data (some (raw (b ∷ bs))) hash h short = ground arith
no_bytes_no_data (some (hex_text [])) hash h short = refl
no_bytes_no_data (some (hex_text (c ∷ s))) hash h short = elim (hex_to_bytes_iff (c ∷ s)) [
  | inl (even, bs, read, back) ↦
      let same : bs ≡ hash = ok-injective (subst (λ r. hex_checked r ≡ ok hash) read h) in
      let short' : length hash ≡ 0 = ground arith in
      is_empty-length (strip_0x (c ∷ s)) (omega (arith, back.2, ap (λ (b : Bytes). length b) same))
  | inr (odd, read) ↦ absurd (cc (subst (λ r. hex_checked r ≡ ok hash) read h))
]

passes :
    (da : JsString) (data_hash : Option BytesInput)
    → is_data_empty data_hash ≡ true
    → data_hash_error da data_hash ≡ none
unfolding data_hash_error
passes da data_hash h = rw h

not_given :
    (data_hash : Option BytesInput) → given data_hash ≡ false → is_data_empty data_hash ≡ true
unfolding strip_0x
not_given none h = refl
not_given (some (hex_text [])) h = refl
not_given (some (hex_text (c ∷ s))) h = absurd (cc)
not_given (some (raw b)) h = absurd (cc)

pub refuse-ok {ℓ} :
    {E : Type ℓ} (wrap : E → TxError) (o : Option E) → refuse wrap o ≡ ok tt → o ≡ none
refuse-ok wrap none h = refl
refuse-ok wrap (some e) h = absurd (cc)

module _ (sdk : Sdk) (client : TxClient) (input : SubmitBatchInput) where
  accepted_by :
      (rest : Rest) (rollup : RollupView)
      → rest.get_rollup input.rollup_id ≡ ok rollup
      → Operations.data_hash_by sdk client (some rest) input ≡ ok tt
      → data_hash_error rollup.da_backend input.data_hash ≡ none
  accepted_by rest rollup read h =
      refuse-ok bad_data_hash (data_hash_error rollup.da_backend input.data_hash) (
        subst
          (λ r.
            (thrown_by r >>= λ (v : RollupView).
            refuse bad_data_hash (data_hash_error v.da_backend input.data_hash))
            ≡ ok tt)
          read h)

  data_hash_checked :
      (rest : Rest) (rollup : RollupView)
      → Operations.hybrid_rest client.hybrid ≡ some rest
      → rest.get_rollup input.rollup_id ≡ ok rollup
      → Operations.check_data_hash sdk client input ≡ ok tt
      → data_hash_error rollup.da_backend input.data_hash ≡ none
  unfolding Operations.check_data_hash
  data_hash_checked rest rollup has read h = elim (Bool-cases (given input.data_hash)) [
    | inr absent ↦ passes rollup.da_backend input.data_hash (not_given input.data_hash absent)
    | inl there ↦
        let h' : (built (bytes_or_empty input.data_hash) >>= λ (hash : Bytes).
        if ltb 0 (length hash)
        then Operations.data_hash_by sdk client (Operations.hybrid_rest client.hybrid) input
        else ok tt)
            ≡ ok tt =
          ground arith in
        let (hash, e, k) = >>=-eq-ok (built (bytes_or_empty input.data_hash)) _ h' in
        elim (Bool-cases (ltb 0 (length hash))) [
          | inl long ↦ accepted_by rest rollup read (ground arith)
          | inr short ↦
              passes rollup.da_backend input.data_hash
                (no_bytes_no_data input.data_hash hash (built-ok _ hash e) short)
        ]
  ]

  -- What the anchoring step leaves: the input's own signature, the creator's, or none.
  anchored_by :
      (mode : AnchorMode) (anchoring : Result TxError Anchoring) (anchored : SubmitBatchInput)
      → try_anchor_signature sdk client input ≡ anchoring
      → (anchoring >>= Operations.with_signature sdk client input mode) ≡ ok anchored
      → ((signature : Bytes) × (anchored.anchor_signature ≡ some (raw signature))
          × SignedByCreator sdk client input signature)
        ⊎ ((anchored.anchor_signature ≡ input.anchor_signature) × (mode ≢ AnchorMode.require))
  anchored_by mode (err e) anchored made h = absurd (cc)
  anchored_by mode (ok (signed signature)) anchored made h = inl (
    signature,
    ap SubmitBatchInput.anchor_signature (sym (ok-injective h)),
    (try_anchor_signature_iff sdk client input signature).0 made,
  )
  anchored_by AnchorMode.require (ok (unsigned reason)) anchored made h = absurd (cc)
  anchored_by AnchorMode.auto (ok (unsigned reason)) anchored made h =
      inr (ap SubmitBatchInput.anchor_signature (sym (ok-injective h)), λ e. cc)
  anchored_by AnchorMode.off (ok (unsigned reason)) anchored made h =
      inr (ap SubmitBatchInput.anchor_signature (sym (ok-injective h)), λ e. cc)

  nothing_sent :
      (given_ : Option BytesInput) (sent : Bytes)
      → given given_ ≡ false
      → bytes_or_empty given_ ≡ ok sent
      → sent ≡ []
  unfolding bytes_or_empty
  nothing_sent none sent absent h = ground arith
  nothing_sent (some b) sent absent h = ground arith

  signature_sent :
      (signature sent : Bytes) → bytes_or_empty (some (raw signature)) ≡ ok sent → sent ≡ signature
  unfolding bytes_or_empty bytes_of to_bytes
  signature_sent signature sent h = ground arith

  sent_by :
      (mode : AnchorMode) (anchored : SubmitBatchInput) (sent : Bytes)
      → given input.anchor_signature ≡ false
      → (try_anchor_signature sdk client input >>= Operations.with_signature sdk client input mode)
        ≡ ok anchored
      → bytes_or_empty anchored.anchor_signature ≡ ok sent
      → AnchorSent sdk client input mode sent
  sent_by mode anchored sent absent h b =
      elim (anchored_by mode (try_anchor_signature sdk client input) anchored refl h) [
        | inl (signature, e, s) ↦
            let same =
              signature_sent signature sent (subst (λ o. bytes_or_empty o ≡ ok sent) e b) in
            inr (inl (absent, subst (λ t. SignedByCreator sdk client input t) (sym same) s))
        | inr (e, other) ↦ inr (
            inr (
              absent,
              other,
              nothing_sent input.anchor_signature sent absent
                  (subst (λ o. bytes_or_empty o ≡ ok sent) e b),
            ))
      ]

  own_signature :
      (mode : AnchorMode) (anchored : SubmitBatchInput) (sent : Bytes)
      → anchored ≡ input
      → given input.anchor_signature ≡ true
      → bytes_or_empty anchored.anchor_signature ≡ ok sent
      → AnchorSent sdk client input mode sent
  own_signature mode anchored sent same there b =
      inl (
        there,
        subst (λ (t : SubmitBatchInput). bytes_or_empty t.anchor_signature ≡ ok sent) same b,
      )

  anchor_sent :
      (mode : AnchorMode) (anchored : SubmitBatchInput) (sent : Bytes)
      → Operations.anchored_input sdk client input mode ≡ ok anchored
      → bytes_or_empty anchored.anchor_signature ≡ ok sent
      → AnchorSent sdk client input mode sent
  unfolding Operations.anchored_input
  anchor_sent AnchorMode.off anchored sent h b =
      let same = ok-injective h in
      let b' =
        subst (λ (t : SubmitBatchInput). bytes_or_empty t.anchor_signature ≡ ok sent) (sym same)
          b in
      elim (Bool-cases (given input.anchor_signature)) [
        | inl there ↦ inl (there, b')
        | inr absent ↦
            inr (inr (absent, λ e. cc, nothing_sent input.anchor_signature sent absent b'))
      ]
  anchor_sent AnchorMode.auto anchored sent h b = elim (Bool-cases (given input.anchor_signature)) [
    | inl there ↦ own_signature AnchorMode.auto anchored sent (ground arith) there b
    | inr absent ↦ sent_by AnchorMode.auto anchored sent absent (ground arith) b
  ]
  anchor_sent AnchorMode.require anchored sent h b =
      elim (Bool-cases (given input.anchor_signature)) [
        | inl there ↦ own_signature AnchorMode.require anchored sent (ground arith) there b
        | inr absent ↦ sent_by AnchorMode.require anchored sent absent (ground arith) b
      ]

-- What has been checked, and what is sent.
pub record BatchSent (sdk : Sdk) (client : TxClient) (own : Option JsString)
    (input : SubmitBatchInput) (mode : AnchorMode) (request : Request) : Type 0 where
  pub message : MsgSubmitBatch
  pub is_sent : messages_of request ≡ Messages.submit_batch message ∷ []
  pub lane : is_post_quantum request ≡ signs_hybrid client.hybrid
  pub own_address : message.sequencer ≡ Operations.sender_of sdk client own
  pub carries : CarriesBatch input message
  pub root_accepted : withdrawals_root_error input.withdrawals_root ≡ none
  pub data_accepted :
      (rest : Rest) (rollup : RollupView)
      → Operations.hybrid_rest client.hybrid ≡ some rest
      → rest.get_rollup input.rollup_id ≡ ok rollup
      → data_hash_error rollup.da_backend input.data_hash ≡ none
  pub anchor : AnchorSent sdk client input mode message.anchor_signature

-- A batch is sent alone, by the post-quantum path exactly where the client has a key for it. Its sender
-- is the client's address, or the sequencer that the input names although its type leaves it out; its
-- other fields but the anchor signature are the input's. Its withdrawals root and, where a node can be asked for the rollup, its data hash
-- pass the chain's rules. For its anchor it carries the signature that was given; else one that the
-- client made as the rollup's creator; else none, which the mode "require" never lets through.
pub submit_batch_sends :
    (sdk : Sdk) (client : TxClient) (own : Option JsString) (input : SubmitBatchInput)
    (opts : TxOptions) (mode : Option AnchorMode) (request : Request)
    → Operations.submit_batch sdk client own input opts mode ≡ ok request
    → BatchSent sdk client own input (Option.get_or mode AnchorMode.auto) request
unfolding Operations.submit_batch Operations.send
submit_batch_sends sdk client own input opts mode request h =
    let (u, root_ok, h1) =
      >>=-eq-ok (refuse bad_withdrawals_root (withdrawals_root_error input.withdrawals_root)) _ h in
    let (u', data_ok, h2) = >>=-eq-ok (Operations.check_data_hash sdk client input) _ h1 in
    let (anchored, anchor_ok, h3) =
      >>=-eq-ok (Operations.anchored_input sdk client input (Option.get_or mode AnchorMode.auto)) _
        h2 in
    let (object, object_ok, h4) =
      >>=-eq-ok
        (built
          (submit_batch_msg (record anchored { sequencer = Operations.sender_of sdk client own })))
        _ h3 in
    let (m, is_batch, sender, signature, fields) =
      built_message (record anchored { sequencer = Operations.sender_of sdk client own }) object
        (built-ok _ object object_ok) in
    let (sent, lane) = broadcast_sends sdk client (object ∷ []) opts request h4 in
    record {
      message = m;
      is_sent = sent ∙ ap (λ o. o ∷ []) is_batch;
      lane = lane;
      own_address = sender;
      carries =
          anchored-CarriesBatch sdk client input m (Option.get_or mode AnchorMode.auto) anchored
            anchor_ok fields;
      root_accepted =
          refuse-ok bad_withdrawals_root (withdrawals_root_error input.withdrawals_root) root_ok;
      data_accepted =
          λ rest rollup has read. data_hash_checked sdk client input rest rollup has read data_ok;
      anchor =
          anchor_sent sdk client input (Option.get_or mode AnchorMode.auto) anchored
            m.anchor_signature anchor_ok signature;
    }
