-- ===== src/Receipts/SignBytes.antt =====
-- The canonical anchor messages of packages/ts/src/receipts/index.ts, under both bindings.
pub mod Laws
use qorechain_rdk.Prelude.{
  ◌>>=◌, ℕ, Option, none, some, List, [], ◌∷◌, ◌++◌, if◌then◌else◌, length, Result, ok, err,
}
use qorechain_rdk.Text.{JsString, js, is_empty}
use qorechain_rdk.Text.Encoder.{utf8}
use qorechain_rdk.Bytes.{Bytes, u64be}
use qorechain_rdk.Bytes.Hex.{HexError, hex_to_bytes}
use qorechain_rdk.QoreHash.{concat_parts}

pub data AnchorSignBytesVersion : Type 0 where
  v1 v2 : AnchorSignBytesVersion

-- What an anchor message is made of. The v1 form reads the first four fields only.
pub record AnchorMessage : Type 0 where
  pub layer_id : JsString
  pub layer_height : ℕ
  pub state_root : JsString
  pub validator_set_hash : JsString
  pub chain_id : Option JsString
  pub transaction_count : Option ℕ
  pub compressed_state_proof : Option JsString

unfoldable pub anchor_sign_bytes_v1 : AnchorMessage → Result HexError Bytes
anchor_sign_bytes_v1 input = do
  state_root ← hex_to_bytes input.state_root
  vsh ← hex_to_bytes input.validator_set_hash
  ok (utf8 input.layer_id ++ (u64be input.layer_height ++ (state_root ++ vsh)))

abbrev pub anchor_sign_domain_v2 : JsString
anchor_sign_domain_v2 = js "qorechain-multilayer-anchor-v2"

-- `parts.push(u64be(b.length), b)`.
abbrev pub length_prefixed : Bytes → List Bytes
length_prefixed b = u64be (length b) ∷ b ∷ []

abbrev pub v2_message_parts : JsString → JsString → ℕ → Bytes → Bytes → ℕ → Bytes → List Bytes
v2_message_parts chain layer height state_root vsh count proof =
    utf8 anchor_sign_domain_v2
    ∷ (length_prefixed (utf8 chain)
        ++ (length_prefixed (utf8 layer)
            ++ (u64be height
                ∷ (length_prefixed state_root
                    ++ (length_prefixed vsh ++ (u64be count ∷ length_prefixed proof))))))

abbrev pub or_empty : Option JsString → JsString
or_empty none = []
or_empty (some s) = s

unfoldable pub anchor_sign_bytes_v2 : AnchorMessage → JsString → ℕ → Result HexError Bytes
anchor_sign_bytes_v2 input chain count = do
  state_root ← hex_to_bytes input.state_root
  vsh ← hex_to_bytes input.validator_set_hash
  proof ← hex_to_bytes (or_empty input.compressed_state_proof)
  ok (
      concat_parts
        (v2_message_parts chain input.layer_id input.layer_height state_root vsh count proof))

pub data SignBytesError : Type 0 where
  hex_error : HexError → SignBytesError
  chain_id_needed transaction_count_needed : SignBytesError

abbrev rethrow : Result HexError Bytes → Result SignBytesError Bytes
rethrow (ok b) = ok b
rethrow (err e) = err (hex_error e)

v2_checked : AnchorMessage → Option JsString → Option ℕ → Result SignBytesError Bytes
v2_checked input none count = err chain_id_needed
v2_checked input (some chain) none =
    if is_empty chain then err chain_id_needed else err transaction_count_needed
v2_checked input (some chain) (some count) =
    if is_empty chain then err chain_id_needed else rethrow (anchor_sign_bytes_v2 input chain count)

unfoldable pub anchor_sign_bytes :
    AnchorMessage → AnchorSignBytesVersion → Result SignBytesError Bytes
unfolding v2_checked
anchor_sign_bytes input v1 = rethrow (anchor_sign_bytes_v1 input)
anchor_sign_bytes input v2 = v2_checked input input.chain_id input.transaction_count
