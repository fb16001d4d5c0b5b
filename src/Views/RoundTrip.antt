-- ===== src/Views/RoundTrip.antt =====
-- The chain's JSON of a batch, of an anchor and of a post-quantum key, and that the mappers give the view back.
-- A node spells the keys in one of two ways, and sends an integer as a number or as a decimal text.

use qorechain_rdk.Prelude.{
  ℕ, suc, ◌≡◌, refl, sym, ap, ◌∙◌, inl, inr, Bool, true, false, Option, none, some, [], ◌∷◌, arith,
  Bool-cases, ok,
}
use qorechain_rdk.Bytes.Hex.RoundTrip.{decode_wire_bytes-bytes_to_hex}
use qorechain_rdk.Bytes.Hex.{bytes_to_hex}
use qorechain_rdk.Amounts.Decimal.{read_digits-print, all_digits-print, print-nonempty}
use qorechain_rdk.Amounts.{big_int, all_digits, to_string}
use mathlib.Core.Option.{get_or}
use mathlib.Core.Option
use qorechain_rdk.Views.Doubles.{to_double}
use Prim.Native.String.{String}
use qorechain_rdk.Text.{is_empty, whole, JsString, js, JsNumber}
use qorechain_rdk.Bytes.{AreBytes, Bytes}
use qorechain_rdk.Views.{BatchView, AnchorView}
use qorechain_rdk.Views.Json.{
  string_of, json_number, json_string, json_bool, number_of, Json, entry, no_fields,
}
use qorechain_rdk.Views.Fields.{finite_or_zero, hex_bytes, RawRecord, num}
use qorechain_rdk.Views.Mappers.{map_anchor_view, map_batch_view}

pub data Spelling : Type 0 where
  snake_case camel_case : Spelling

pub data Style : Type 0 where
  as_number as_text : Style

abbrev pub key : Spelling → String → String → JsString
key snake_case snake camel = js snake
key camel_case snake camel = js camel

abbrev pub number_json : Style → ℕ → Json
number_json as_number n = json_number n
number_json as_text n = json_string (to_string n)

-- What is read of it: a number is read as it is, a text is rounded to a double, and as 0 beyond the doubles.
abbrev pub number_read : Style → ℕ → ℕ
number_read as_number n = n
number_read as_text n = get_or (to_double n) 0

-- A batch that the flag says nothing of has no such field.
abbrev pub bound_json : Spelling → Option Bool → RawRecord
bound_json case (some true) =
    entry (key case "withdrawals_bound" "withdrawalsBound") (json_bool true) no_fields
bound_json case bound = no_fields

unfoldable pub batch_json : Spelling → Style → BatchView → RawRecord
batch_json case style batch =
    entry (key case "rollup_id" "rollupId") (json_string batch.rollup_id) (
      entry (key case "batch_index" "batchIndex") (number_json style batch.batch_index) (
        entry (key case "state_root" "stateRoot") (json_string batch.state_root) (
          entry (key case "prev_state_root" "prevStateRoot") (json_string batch.prev_state_root) (
            entry (key case "tx_count" "txCount") (number_json style batch.tx_count) (
              entry (key case "data_hash" "dataHash") (json_string batch.data_hash) (
                entry (key case "proof_type" "proofType") (json_string batch.proof_type) (
                  entry (key case "status" "status") (json_string batch.status) (
                    entry (key case "submitted_at" "submittedAt")
                      (number_json style batch.submitted_at)
                      (entry (key case "finalized_at" "finalizedAt")
                        (number_json style batch.finalized_at)
                        (entry (key case "withdrawals_root" "withdrawalsRoot")
                          (json_string batch.withdrawals_root)
                          (entry (key case "submitted_time" "submittedTime")
                            (number_json style batch.submitted_time)
                            (bound_json case batch.withdrawals_bound))))))))))))

unfoldable pub anchor_json : Spelling → Style → AnchorView → RawRecord
anchor_json case style anchor =
    entry (key case "layer_id" "layerId") (json_string anchor.layer_id) (
      entry (key case "layer_height" "layerHeight") (number_json style anchor.layer_height) (
        entry (key case "state_root" "stateRoot") (json_string anchor.state_root) (
          entry (key case "validator_set_hash" "validatorSetHash")
            (json_string anchor.validator_set_hash)
            (entry (key case "main_chain_height" "mainChainHeight")
              (number_json style anchor.main_chain_height)
              (entry (key case "anchored_at" "anchoredAt") (number_json style anchor.anchored_at) (
                entry (key case "pqc_aggregate_signature" "pqcAggregateSignature")
                  (json_string anchor.pqc_signature)
                  (entry (key case "transaction_count" "transactionCount")
                    (number_json style anchor.transaction_count)
                    (entry (key case "compressed_state_proof" "compressedStateProof")
                      (json_string anchor.compressed_state_proof) no_fields))))))))

finite_text : (o : Option ℕ) → finite_or_zero (Option.map whole o) ≡ whole (get_or o 0)
finite_text none = refl
finite_text (some n) = refl

num_of_digits :
    (other : JsString → Option JsNumber) (s : JsString)
    → is_empty s ≡ false
    → all_digits s ≡ true
    → num other (some (json_string s)) ≡ whole (get_or (to_double (big_int s)) 0)
unfolding num number_of
num_of_digits other [] some_digit digits = ground (arith, some_digit)
num_of_digits other (c ∷ s) some_digit digits =
    rw digits (finite_text (to_double (big_int (c ∷ s))))

num-number_json :
    (other : JsString → Option JsNumber) (style : Style) (n : ℕ)
    → num other (some (number_json style n)) ≡ whole (number_read style n)
num-number_json other as_number n = unfold num number_of in refl
num-number_json other as_text n =
    num_of_digits other (to_string n) (print-nonempty n) (all_digits-print (suc n) n)
    ∙ ap (λ k. whole (get_or (to_double k) 0)) (read_digits-print (suc n) n (omega arith))

-- The batch with each number as it is read.
abbrev pub batch_read : Style → BatchView → BatchView
batch_read style batch = record batch {
  batch_index = number_read style batch.batch_index;
  tx_count = number_read style batch.tx_count;
  submitted_at = number_read style batch.submitted_at;
  finalized_at = number_read style batch.finalized_at;
  submitted_time = number_read style batch.submitted_time;
}

abbrev pub anchor_read : Style → AnchorView → AnchorView
anchor_read style anchor = record anchor {
  layer_height = number_read style anchor.layer_height;
  main_chain_height = number_read style anchor.main_chain_height;
  anchored_at = number_read style anchor.anchored_at;
  transaction_count = number_read style anchor.transaction_count;
}

-- What the kit's views say of the flag: that it is set, or nothing.
abbrev pub IsServed : Option Bool → Type 0
IsServed none = Unit
IsServed (some true) = Unit
IsServed (some false) = ⊥

counts_read :
    (base64_to_bytes : JsString → Bytes) (other : JsString → Option JsNumber) (case : Spelling)
    (style : Style) (batch : BatchView) (bound : Option Bool)
    → IsServed bound
    → let served = record batch { withdrawals_bound = bound } in
      map_batch_view base64_to_bytes other (batch_json case style served)
      ≡ ok (batch_read style served)
unfolding map_batch_view batch_json string_of
counts_read b64 other snake_case style batch none served = simp (num-number_json other style)
counts_read b64 other snake_case style batch (some true) served = simp (num-number_json other style)
counts_read b64 other camel_case style batch none served = simp (num-number_json other style)
counts_read b64 other camel_case style batch (some true) served = simp (num-number_json other style)
counts_read b64 other case style batch (some false) served = elim served [ ]

-- A batch that a node sends in JSON is read as that batch, in both spellings, and with integers as numbers or
-- as texts, which are rounded to doubles, where its flag is set or not there.
pub map-batch_json :
    (base64_to_bytes : JsString → Bytes) (other : JsString → Option JsNumber) (case : Spelling)
    (style : Style) (batch : BatchView)
    → IsServed batch.withdrawals_bound
    → map_batch_view base64_to_bytes other (batch_json case style batch)
      ≡ ok (batch_read style batch)
map-batch_json b64 other case style batch served =
    counts_read b64 other case style batch batch.withdrawals_bound served

-- A text of bytes in lower-case hex, as the kit keeps them.
abbrev pub IsHexText : JsString → Type 0
IsHexText s = (bytes : Bytes) × AreBytes bytes × (s ≡ bytes_to_hex bytes)

hex_bytes-hex :
    (base64_to_bytes : JsString → Bytes) (s : JsString)
    → IsHexText s
    → hex_bytes base64_to_bytes (some (json_string s)) ≡ ok s
unfolding hex_bytes string_of
hex_bytes-hex b64 s (bytes, are, e) = elim (Bool-cases (is_empty s)) [
  | inl empty ↦ rw empty (ap ok (sym (empty_text s empty)))
  | inr some_digit ↦ rw (some_digit, e, decode_wire_bytes-bytes_to_hex b64 bytes are) refl
]
  where
    empty_text : (s : JsString) → is_empty s ≡ true → s ≡ []
    empty_text [] h = refl
    empty_text (c ∷ s) h = ground (arith, h)

-- An anchor that a node sends in JSON, its bytes in hex, is read as that anchor, in both spellings, and with
-- integers as numbers or as texts, which are rounded to doubles.
pub map-anchor_json :
    (base64_to_bytes : JsString → Bytes) (other : JsString → Option JsNumber) (case : Spelling)
    (style : Style) (anchor : AnchorView)
    → IsHexText anchor.state_root
    → IsHexText anchor.validator_set_hash
    → IsHexText anchor.pqc_signature
    → IsHexText anchor.compressed_state_proof
    → map_anchor_view base64_to_bytes other (anchor_json case style anchor)
      ≡ ok (anchor_read style anchor)
unfolding map_anchor_view anchor_json string_of
map-anchor_json b64 other snake_case style anchor root set signature proof = simp (
  num-number_json other style,
  hex_bytes-hex b64 anchor.state_root root,
  hex_bytes-hex b64 anchor.validator_set_hash set,
  hex_bytes-hex b64 anchor.pqc_signature signature,
  hex_bytes-hex b64 anchor.compressed_state_proof proof,
)
map-anchor_json b64 other camel_case style anchor root set signature proof = simp (
  num-number_json other style,
  hex_bytes-hex b64 anchor.state_root root,
  hex_bytes-hex b64 anchor.validator_set_hash set,
  hex_bytes-hex b64 anchor.pqc_signature signature,
  hex_bytes-hex b64 anchor.compressed_state_proof proof,
)
