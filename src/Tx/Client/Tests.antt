-- ===== src/Tx/Client/Tests.antt =====
-- Anchoring and submission by a client of a node that knows one rollup.
use qorechain_rdk.Prelude.{
  ◌≡◌, refl, sym, ap, subst, ◌↔◌, true, none, some, [], ◌∷◌, arith, ok, err, ok-injective,
}
use qorechain_rdk.Tx.Client.Toy.{
  my_rollup, my_rest, default_opts, my_hybrid, sent_with, my_client, toy_sdk, toy_verify,
}
use qorechain_rdk.Tx.Client.Broadcast.{
  with_margin, simulate, resolve_fee, send_hybrid, broadcast_hybrid, broadcast,
}
use qorechain_rdk.Tx.Client.Operations.{AnchorMode}
use qorechain_rdk.Tx.Client.Submission.{submit_batch_sends, BatchSent}
use qorechain_rdk.Receipts.Signature.{signature_over}
use qorechain_rdk.Tx.Client.Verified.{creator_signature_verifies, RecordsBatch}
use qorechain_rdk.Tx.Client.Creator.{try_anchor_signature_iff, SignedByCreator}
use qorechain_rdk.Rules.{data_hash_error, withdrawals_root_error}
use qorechain_rdk.Receipts.SignBytes.{v2, anchor_sign_bytes_v2, v2_message_parts}
use qorechain_rdk.Bytes.Hex.{
  invalid_hex_string, bytes_to_hex, parse_pairs, strip_0x, hex_to_bytes, to_bytes, raw, hex_text,
}
use qorechain_rdk.QoreHash.{concat_parts}
use qorechain_rdk.QoreHash.Toy.{toy_hash}
use qorechain_rdk.Prelude.Int.{pos}
use qorechain_rdk.Text.{str_eq_refl, str_eq, js}
use qorechain_rdk.Views.{AnchorView}
use qorechain_rdk.Tx.Messages
use qorechain_rdk.Tx.Messages.{
  submit_batch_msg, bytes_or_empty, bad_bytes, bytes_of, SubmitBatchInput,
}
use qorechain_rdk.Tx.Client.{not_creator, bad_message, Bytes}
use qorechain_rdk.Tx.Client.Anchor.{
  unsigned, hex_or_empty, anchor_sign_bytes_for_batch, try_anchor_signature, signed,
}
use qorechain_rdk.Tx.Client.Operations
use qorechain_rdk.Tx.Codecs.SubmitBatch.{MsgSubmitBatch, from_partial}

abbrev batch_5 : SubmitBatchInput
batch_5 = record {
  sequencer = [];
  rollup_id = js "r-1";
  batch_index = some (pos 5);
  state_root = hex_text (js "0102");
  prev_state_root = none;
  tx_count = some (pos 3);
  data_hash = some (raw (8 ∷ []));
  proof = none;
  withdrawals_root = none;
  anchor_signature = none;
  validator_set_hash = none;
}

abbrev message_5 : Bytes
message_5 = concat_parts (v2_message_parts (js "qore-1") (js "layer-1") 5 (1 ∷ 2 ∷ []) [] 3 [])

abbrev signature_5 : Bytes
signature_5 = toy_hash (4 ∷ 2 ∷ message_5)

batch_5_signed : try_anchor_signature toy_sdk my_client batch_5 ≡ ok (signed signature_5)
unfolding try_anchor_signature anchor_sign_bytes_for_batch bytes_of hex_or_empty to_bytes
    hex_to_bytes strip_0x parse_pairs bytes_to_hex anchor_sign_bytes_v2
batch_5_signed = refl

try_anchor_signature_iff_example :
    (try_anchor_signature toy_sdk my_client batch_5 ≡ ok (signed signature_5))
    ↔ SignedByCreator toy_sdk my_client batch_5 signature_5
try_anchor_signature_iff_example = try_anchor_signature_iff toy_sdk my_client batch_5 signature_5

-- Whoever is not the creator sends the batch unanchored.
other_unsigned :
    try_anchor_signature toy_sdk (record my_client { address = js "other" }) batch_5
    ≡ ok (unsigned (not_creator (js "me")))
unfolding try_anchor_signature
other_unsigned = refl

-- A state root that is no hex text makes the signing throw, although nothing is sent yet.
bad_root_throws :
    try_anchor_signature toy_sdk my_client (record batch_5 { state_root = hex_text (js "xyz") })
    ≡ err (bad_message (bad_bytes (invalid_hex_string (js "xyz"))))
unfolding try_anchor_signature anchor_sign_bytes_for_batch bytes_of to_bytes hex_to_bytes strip_0x
bad_root_throws = refl

abbrev recorded_5 : AnchorView
recorded_5 = record {
  layer_id = js "layer-1";
  layer_height = 5;
  state_root = bytes_to_hex (1 ∷ 2 ∷ []);
  validator_set_hash = [];
  main_chain_height = 200;
  anchored_at = 9;
  pqc_signature = bytes_to_hex signature_5;
  transaction_count = 3;
  compressed_state_proof = [];
}

message_5_built :
    anchor_sign_bytes_for_batch
      (js "qore-1")
      (js "layer-1")
      (some (pos 5))
      (hex_text (js "0102"))
      (some (pos 3))
      none
    ≡ ok message_5
unfolding anchor_sign_bytes_for_batch bytes_of hex_or_empty to_bytes hex_to_bytes strip_0x
    parse_pairs bytes_to_hex anchor_sign_bytes_v2
message_5_built = refl

abbrev signed_5 : SignedByCreator toy_sdk my_client batch_5 signature_5
signed_5 = record {
  hybrid = my_hybrid;
  rest = my_rest;
  chain_id = js "qore-1";
  rollup = my_rollup;
  message = message_5;
  hybrid_given = refl;
  rest_given = refl;
  chain_id_read = refl;
  rollup_read = refl;
  layer_given = refl;
  is_creator = refl;
  message_built = message_5_built;
  signature_made = refl;
}

records_5 : RecordsBatch recorded_5 (js "layer-1") batch_5 signature_5
unfolding bytes_of to_bytes hex_to_bytes strip_0x parse_pairs hex_or_empty
records_5 = record {
  height = pos 5;
  root = 1 ∷ 2 ∷ [];
  count = pos 3;
  index_given = refl;
  root_given = refl;
  count_given = refl;
  layer = refl;
  layer_height = refl;
  state_root = refl;
  validator_set = refl;
  transaction_count = refl;
  state_proof = refl;
  pqc_signature = refl;
}

toy_pair :
    (message made : Bytes)
    → toy_sdk.pqc_sign (4 ∷ 2 ∷ []) message ≡ ok made
    → toy_verify (4 ∷ 2 ∷ []) message made ≡ ok true
toy_pair message made h =
    ap ok (subst (λ t. str_eq made t ≡ true) (sym (ok-injective h)) (str_eq_refl made))

creator_signature_verifies_example :
    signature_over toy_verify recorded_5 (bytes_to_hex (4 ∷ 2 ∷ [])) (js "qore-1") v2 ≡ true
creator_signature_verifies_example =
    creator_signature_verifies toy_sdk my_client batch_5 signature_5 toy_verify recorded_5 signed_5
      records_5 (omega arith, tt) refl (omega arith, (omega arith, tt)) refl toy_pair

abbrev anchored_5 : MsgSubmitBatch
anchored_5 = record {
  sequencer = js "me";
  rollup_id = js "r-1";
  batch_index = pos 5;
  state_root = 1 ∷ 2 ∷ [];
  prev_state_root = [];
  tx_count = pos 3;
  data_hash = 8 ∷ [];
  proof = [];
  withdrawals_root = [];
  anchor_signature = signature_5;
  validator_set_hash = [];
}

batch_5_sent :
    Operations.submit_batch toy_sdk my_client none batch_5 default_opts none
    ≡ ok (sent_with (Messages.submit_batch anchored_5))
unfolding Operations.submit_batch Operations.check_data_hash Operations.anchored_input
    Operations.send withdrawals_root_error data_hash_error bytes_or_empty submit_batch_msg
    from_partial broadcast broadcast_hybrid send_hybrid resolve_fee simulate with_margin
    try_anchor_signature anchor_sign_bytes_for_batch bytes_of hex_or_empty to_bytes hex_to_bytes
    strip_0x parse_pairs bytes_to_hex anchor_sign_bytes_v2
batch_5_sent = refl

submit_batch_sends_example :
    BatchSent toy_sdk my_client none batch_5 AnchorMode.auto
      (sent_with (Messages.submit_batch anchored_5))
submit_batch_sends_example =
    submit_batch_sends toy_sdk my_client none batch_5 default_opts none
      (sent_with (Messages.submit_batch anchored_5)) batch_5_sent
