-- ===== src/Tx/Codecs/SubmitBatch.antt =====
-- The codec of packages/ts/src/tx/codecs.ts for MsgSubmitBatch: the message, its encoder, its decoder and
-- `fromPartial`; what is encoded is decoded to the same message.
use qorechain_rdk.Prelude.{
  ◌/◌, ◌%◌, ℕ, ◌≡◌, refl, true, Option, none, List, [], arith, ◌==◌, if◌then◌else◌, Result, ok,
}
use qorechain_rdk.Bytes.{AreBytes}
use qorechain_rdk.Prelude.Int.{ℤ, pos}
use qorechain_rdk.Tx.Wire.Parses.{skip-IsRound, read-IsRound, if-IsRound, IsSwitch}
use qorechain_rdk.Tx.Wire.{
  decode_with, skipping, bytes_field, read_into, uint64_field, IsUint64, DecodeFailure, well_formed,
  BinaryReader, string_field, Switch, new_reader, Wire, WireLaws,
}
use qorechain_rdk.Tx.Wire.Fields.{
  string-Carries, decode-Carries, uint64-Carries, bytes-Carries, Carries,
}
use qorechain_rdk.Text.{JsString}
use mathlib.Core.Option.{get_or}

pub record MsgSubmitBatch : Type 0 where
  pub sequencer : JsString
  pub rollup_id : JsString
  pub batch_index : ℤ
  pub state_root : List ℕ
  pub prev_state_root : List ℕ
  pub tx_count : ℤ
  pub data_hash : List ℕ
  pub proof : List ℕ
  pub withdrawals_root : List ℕ
  pub anchor_signature : List ℕ
  pub validator_set_hash : List ℕ

abbrev pub empty : MsgSubmitBatch
empty = record {
  sequencer = [];
  rollup_id = [];
  batch_index = pos 0;
  state_root = [];
  prev_state_root = [];
  tx_count = pos 0;
  data_hash = [];
  proof = [];
  withdrawals_root = [];
  anchor_signature = [];
  validator_set_hash = [];
}

unfoldable pub encode : Wire → MsgSubmitBatch → List ℕ → List ℕ
encode wire message writer =
    let w1 = string_field wire 10 message.sequencer writer in
    let w2 = string_field wire 18 message.rollup_id w1 in
    let w3 = uint64_field wire 24 message.batch_index w2 in
    let w4 = bytes_field wire 34 message.state_root w3 in
    let w5 = bytes_field wire 42 message.prev_state_root w4 in
    let w6 = uint64_field wire 48 message.tx_count w5 in
    let w7 = bytes_field wire 58 message.data_hash w6 in
    let w8 = bytes_field wire 66 message.proof w7 in
    let w9 = bytes_field wire 74 message.withdrawals_root w8 in
    let w10 = bytes_field wire 82 message.anchor_signature w9 in
    bytes_field wire 90 message.validator_set_hash w10

unfoldable pub submit_batch_switch : Wire → Switch MsgSubmitBatch
submit_batch_switch wire message tag bytes =
    if tag / 8 == 1
    then read_into (wire.get_string bytes) (λ v. record message { sequencer = v })
    else if tag / 8 == 2
    then read_into (wire.get_string bytes) (λ v. record message { rollup_id = v })
    else if tag / 8 == 3
    then read_into (wire.get_uint64 bytes) (λ v. record message { batch_index = v })
    else if tag / 8 == 4
    then read_into (wire.get_bytes bytes) (λ v. record message { state_root = v })
    else if tag / 8 == 5
    then read_into (wire.get_bytes bytes) (λ v. record message { prev_state_root = v })
    else if tag / 8 == 6
    then read_into (wire.get_uint64 bytes) (λ v. record message { tx_count = v })
    else if tag / 8 == 7
    then read_into (wire.get_bytes bytes) (λ v. record message { data_hash = v })
    else if tag / 8 == 8
    then read_into (wire.get_bytes bytes) (λ v. record message { proof = v })
    else if tag / 8 == 9
    then read_into (wire.get_bytes bytes) (λ v. record message { withdrawals_root = v })
    else if tag / 8 == 10
    then read_into (wire.get_bytes bytes) (λ v. record message { anchor_signature = v })
    else if tag / 8 == 11
    then read_into (wire.get_bytes bytes) (λ v. record message { validator_set_hash = v })
    else skipping (wire.skip_type (tag % 8) bytes) message

unfoldable pub decode : Wire → BinaryReader → Option ℕ → Result DecodeFailure MsgSubmitBatch
decode wire reader len = decode_with wire (submit_batch_switch wire) empty reader len

-- `Partial<MsgSubmitBatch>`.
pub record Partial : Type 0 where
  pub sequencer : Option JsString
  pub rollup_id : Option JsString
  pub batch_index : Option ℤ
  pub state_root : Option (List ℕ)
  pub prev_state_root : Option (List ℕ)
  pub tx_count : Option ℤ
  pub data_hash : Option (List ℕ)
  pub proof : Option (List ℕ)
  pub withdrawals_root : Option (List ℕ)
  pub anchor_signature : Option (List ℕ)
  pub validator_set_hash : Option (List ℕ)

unfoldable pub from_partial : Partial → MsgSubmitBatch
from_partial object = record {
  sequencer = get_or object.sequencer [];
  rollup_id = get_or object.rollup_id [];
  batch_index = get_or object.batch_index (pos 0);
  state_root = get_or object.state_root [];
  prev_state_root = get_or object.prev_state_root [];
  tx_count = get_or object.tx_count (pos 0);
  data_hash = get_or object.data_hash [];
  proof = get_or object.proof [];
  withdrawals_root = get_or object.withdrawals_root [];
  anchor_signature = get_or object.anchor_signature [];
  validator_set_hash = get_or object.validator_set_hash [];
}

-- The strings have an encoding and the numbers fit their fields.
pub record IsEncodable (message : MsgSubmitBatch) : Type 0 where
  pub sequencer_fits : well_formed message.sequencer ≡ true
  pub rollup_id_fits : well_formed message.rollup_id ≡ true
  pub batch_index_fits : IsUint64 message.batch_index
  pub state_root_fits : AreBytes message.state_root
  pub prev_state_root_fits : AreBytes message.prev_state_root
  pub tx_count_fits : IsUint64 message.tx_count
  pub data_hash_fits : AreBytes message.data_hash
  pub proof_fits : AreBytes message.proof
  pub withdrawals_root_fits : AreBytes message.withdrawals_root
  pub anchor_signature_fits : AreBytes message.anchor_signature
  pub validator_set_hash_fits : AreBytes message.validator_set_hash

module _ (wire : Wire) (laws : WireLaws wire) where
  pub submit_batch_switch-IsSwitch : IsSwitch (submit_batch_switch wire)
  unfolding submit_batch_switch
  submit_batch_switch-IsSwitch message tag bytes =
      if-IsRound (tag / 8 == 1) _ _ bytes (read-IsRound wire.get_string _ bytes laws.string_shrinks)
        (if-IsRound (tag / 8 == 2) _ _ bytes
          (read-IsRound wire.get_string _ bytes laws.string_shrinks)
          (if-IsRound (tag / 8 == 3) _ _ bytes
            (read-IsRound wire.get_uint64 _ bytes laws.uint64_shrinks)
            (if-IsRound (tag / 8 == 4) _ _ bytes
              (read-IsRound wire.get_bytes _ bytes laws.bytes_shrinks)
              (if-IsRound (tag / 8 == 5) _ _ bytes
                (read-IsRound wire.get_bytes _ bytes laws.bytes_shrinks)
                (if-IsRound (tag / 8 == 6) _ _ bytes
                  (read-IsRound wire.get_uint64 _ bytes laws.uint64_shrinks)
                  (if-IsRound (tag / 8 == 7) _ _ bytes
                    (read-IsRound wire.get_bytes _ bytes laws.bytes_shrinks)
                    (if-IsRound (tag / 8 == 8) _ _ bytes
                      (read-IsRound wire.get_bytes _ bytes laws.bytes_shrinks)
                      (if-IsRound (tag / 8 == 9) _ _ bytes
                        (read-IsRound wire.get_bytes _ bytes laws.bytes_shrinks)
                        (if-IsRound (tag / 8 == 10) _ _ bytes
                          (read-IsRound wire.get_bytes _ bytes laws.bytes_shrinks)
                          (if-IsRound (tag / 8 == 11) _ _ bytes
                            (read-IsRound wire.get_bytes _ bytes laws.bytes_shrinks)
                            (skip-IsRound message wire.skip_type (tag % 8) bytes
                              laws.skip_shrinks)))))))))))

  pub submit_batch-Carries :
      (message : MsgSubmitBatch)
      → IsEncodable message
      → Carries wire (submit_batch_switch wire) (encode wire message []) empty message
  unfolding encode submit_batch_switch
  submit_batch-Carries m fits =
      let m1 : MsgSubmitBatch = record empty { sequencer = m.sequencer } in
      let m2 : MsgSubmitBatch = record m1 { rollup_id = m.rollup_id } in
      let m3 : MsgSubmitBatch = record m2 { batch_index = m.batch_index } in
      let m4 : MsgSubmitBatch = record m3 { state_root = m.state_root } in
      let m5 : MsgSubmitBatch = record m4 { prev_state_root = m.prev_state_root } in
      let m6 : MsgSubmitBatch = record m5 { tx_count = m.tx_count } in
      let m7 : MsgSubmitBatch = record m6 { data_hash = m.data_hash } in
      let m8 : MsgSubmitBatch = record m7 { proof = m.proof } in
      let m9 : MsgSubmitBatch = record m8 { withdrawals_root = m.withdrawals_root } in
      let m10 : MsgSubmitBatch = record m9 { anchor_signature = m.anchor_signature } in
      bytes-Carries wire laws (submit_batch_switch wire) 90 (omega arith) _ empty
        m.validator_set_hash (λ v. record m10 { validator_set_hash = v }) (λ b. refl)
        fits.validator_set_hash_fits
        (bytes-Carries wire laws (submit_batch_switch wire) 82 (omega arith) _ empty
          m.anchor_signature (λ v. record m9 { anchor_signature = v }) (λ b. refl)
          fits.anchor_signature_fits
          (bytes-Carries wire laws (submit_batch_switch wire) 74 (omega arith) _ empty
            m.withdrawals_root (λ v. record m8 { withdrawals_root = v }) (λ b. refl)
            fits.withdrawals_root_fits
            (bytes-Carries wire laws (submit_batch_switch wire) 66 (omega arith) _ empty m.proof
              (λ v. record m7 { proof = v }) (λ b. refl) fits.proof_fits
              (bytes-Carries wire laws (submit_batch_switch wire) 58 (omega arith) _ empty
                m.data_hash (λ v. record m6 { data_hash = v }) (λ b. refl) fits.data_hash_fits
                (uint64-Carries wire laws (submit_batch_switch wire) 48 (omega arith) _ empty
                  m.tx_count (λ v. record m5 { tx_count = v }) (λ b. refl) fits.tx_count_fits
                  (bytes-Carries wire laws (submit_batch_switch wire) 42 (omega arith) _ empty
                    m.prev_state_root (λ v. record m4 { prev_state_root = v }) (λ b. refl)
                    fits.prev_state_root_fits
                    (bytes-Carries wire laws (submit_batch_switch wire) 34 (omega arith) _ empty
                      m.state_root (λ v. record m3 { state_root = v }) (λ b. refl)
                      fits.state_root_fits
                      (uint64-Carries wire laws (submit_batch_switch wire) 24 (omega arith) _ empty
                        m.batch_index (λ v. record m2 { batch_index = v }) (λ b. refl)
                        fits.batch_index_fits
                        (string-Carries wire laws (submit_batch_switch wire) 18 (omega arith) _
                          empty m.rollup_id (λ v. record m1 { rollup_id = v }) (λ b. refl)
                          fits.rollup_id_fits
                          (string-Carries wire laws (submit_batch_switch wire) 10 (omega arith) _
                            empty m.sequencer (λ v. record empty { sequencer = v }) (λ b. refl)
                            fits.sequencer_fits (λ tail m2 p. p)))))))))))

  -- Over a reader and writer that keep their laws, a message whose fields fit the wire is decoded from its
  -- own encoding.
  pub submit_batch_round_trip :
      (message : MsgSubmitBatch)
      → IsEncodable message
      → decode wire (new_reader (encode wire message [])) none ≡ ok message
  unfolding decode
  submit_batch_round_trip message fits =
      decode-Carries wire laws (submit_batch_switch wire) submit_batch_switch-IsSwitch empty message
        (encode wire message []) (submit_batch-Carries message fits)
