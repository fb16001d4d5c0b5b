-- ===== src/Tx/Client/Anchor.antt =====
-- packages/ts/src/tx/client.ts: the bytes that a rollup's creator signs to anchor a batch, and the
-- signature that the client makes of its own accord.
use qorechain_rdk.Prelude.{
  ◌-◌, ◌%◌, ◌^◌, ℕ, not, Option, none, some, [], if◌then◌else◌, Result, ok, err, ◌>>=◌,
}
use qorechain_rdk.Bytes.Hex.{bytes_to_hex, BytesInput}
use qorechain_rdk.Prelude.Int.{negsuc, pos, ℤ}
use qorechain_rdk.Text.{str_eq, is_empty, JsString}
use qorechain_rdk.Views.{Rest, RollupView}
use qorechain_rdk.Tx.Messages.{
  Numeric, big, bytes_of, given, MessageError, hex_checked, SubmitBatchInput,
}
use qorechain_rdk.Tx.Client.{
  not_creator, no_layer_id, built, no_chain_id, thrown_by, rollup_unreadable, no_rest, NoAnchor,
  PqcKeypair, not_hybrid, Bytes, Sdk, TxClient, TxError, HybridConfig,
}
use qorechain_rdk.Receipts.SignBytes.{AnchorMessage, anchor_sign_bytes_v2}

-- `u64be` keeps the low 64 bits of a bigint, of a negative one those of its two's complement.
abbrev pub low_64 : ℤ → ℕ
low_64 (pos n) = n
low_64 (negsuc n) = 2 ^ 64 - 1 - n % 2 ^ 64

-- `x ? bytesToHex(toBytes(x)) : ""`.
unfoldable pub hex_or_empty : Option BytesInput → Result MessageError JsString
hex_or_empty none = ok []
hex_or_empty (some b) =
    if given (some b) then (do bytes ← bytes_of b; ok (bytes_to_hex bytes)) else ok []

abbrev pub batch_anchor_message : JsString → JsString → ℕ → JsString → JsString → ℕ → AnchorMessage
batch_anchor_message chain_id layer_id height state_root_hex vsh_hex count = record {
  layer_id = layer_id;
  layer_height = height;
  state_root = state_root_hex;
  validator_set_hash = vsh_hex;
  chain_id = some chain_id;
  transaction_count = some count;
  compressed_state_proof = some [];
}

unfoldable pub anchor_sign_bytes_for_batch :
    JsString
    → JsString
    → Numeric
    → BytesInput
    → Numeric
    → Option BytesInput
    → Result MessageError Bytes
unfolding hex_or_empty
anchor_sign_bytes_for_batch chain_id layer_id batch_index state_root tx_count validator_set_hash =
    do
      height ← big batch_index
      root ← bytes_of state_root
      vsh_hex ← hex_or_empty validator_set_hash
      count ← big tx_count
      hex_checked (
          anchor_sign_bytes_v2
            (batch_anchor_message chain_id layer_id (low_64 height) (bytes_to_hex root) vsh_hex
              (low_64 count))
            chain_id (low_64 count))

-- `{ signature?, reason }`: a signature, or why there is none.
pub data Anchoring : Type 0 where
  signed : Bytes → Anchoring
  unsigned : NoAnchor → Anchoring

module _ (sdk : Sdk) (address : JsString) (input : SubmitBatchInput) where
  abbrev pub sign_anchor :
      PqcKeypair → RollupView → Result JsString JsString → Result TxError Anchoring
  sign_anchor keypair rollup chain_id_read = do
    chain_id ← thrown_by chain_id_read
    message ← built (
        anchor_sign_bytes_for_batch chain_id rollup.layer_id input.batch_index input.state_root
          input.tx_count input.validator_set_hash)
    signature ← thrown_by (sdk.pqc_sign keypair.secret_key message)
    ok (signed signature)

  abbrev pub anchor_rollup :
      PqcKeypair → Result JsString JsString → Result JsString RollupView → Result TxError Anchoring
  anchor_rollup keypair chain_id_read (err message) = ok (unsigned (rollup_unreadable message))
  anchor_rollup keypair chain_id_read (ok rollup) =
      if is_empty rollup.layer_id
      then ok (unsigned no_layer_id)
      else if not (str_eq rollup.creator address)
      then ok (unsigned (not_creator rollup.creator))
      else sign_anchor keypair rollup chain_id_read

  abbrev pub anchor_chain :
      PqcKeypair → Rest → Option (Result JsString JsString) → Result TxError Anchoring
  anchor_chain keypair rest none = ok (unsigned no_chain_id)
  anchor_chain keypair rest (some chain_id_read) =
      anchor_rollup keypair chain_id_read (rest.get_rollup input.rollup_id)

  abbrev pub anchor_rest :
      PqcKeypair → Option Rest → Option (Result JsString JsString) → Result TxError Anchoring
  anchor_rest keypair none chain_id_read = ok (unsigned no_rest)
  anchor_rest keypair (some rest) chain_id_read = anchor_chain keypair rest chain_id_read

  abbrev pub anchor_hybrid :
      Option HybridConfig → Option (Result JsString JsString) → Result TxError Anchoring
  anchor_hybrid none chain_id_read = ok (unsigned not_hybrid)
  anchor_hybrid (some hybrid) chain_id_read =
      anchor_rest hybrid.pqc_keypair hybrid.rest chain_id_read

unfoldable pub try_anchor_signature : Sdk → TxClient → SubmitBatchInput → Result TxError Anchoring
try_anchor_signature sdk client input =
    anchor_hybrid sdk client.address input client.hybrid client.transport.get_chain_id
