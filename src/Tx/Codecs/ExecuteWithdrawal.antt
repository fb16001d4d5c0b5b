-- ===== src/Tx/Codecs/ExecuteWithdrawal.antt =====
-- The codec of packages/ts/src/tx/codecs.ts for MsgExecuteWithdrawal: the message, its encoder, its decoder and
-- `fromPartial`; what is encoded is decoded to the same message.
use qorechain_rdk.Prelude.{
  ◌/◌, ◌%◌, ℕ, ◌≡◌, refl, sym, subst, true, false, Option, none, List, [], ◌∷◌, ◌++◌, arith, ◌==◌,
  if◌then◌else◌, Result, ok,
}
use mathlib.Core.List.{append_assoc, append-nil}
use qorechain_rdk.Bytes.{AreBytes}
use qorechain_rdk.Prelude.Int.{pos, ℤ}
use qorechain_rdk.Tx.Wire.Parses.{skip-IsRound, read-IsRound, if-IsRound, IsSwitch}
use qorechain_rdk.Tx.Wire.{
  decode_with, IsInt64, int64_field, skipping, DecodeFailure, uint64_field, IsUint64, read_into,
  Switch, well_formed, BinaryReader, new_reader, string_field, put_field, Wire, WireLaws,
}
use qorechain_rdk.Tx.Wire.Fields.{
  put-Carries, uint64-Carries, decode-Carries, string-Carries, int64-Carries, Carries,
}
use qorechain_rdk.Text.{JsString}
use mathlib.Core.Option.{get_or}

pub record MsgExecuteWithdrawal : Type 0 where
  pub submitter : JsString
  pub rollup_id : JsString
  pub batch_index : ℤ
  pub withdrawal_index : ℤ
  pub recipient : JsString
  pub denom : JsString
  pub amount : ℤ
  pub proof : List (List ℕ)

abbrev pub empty : MsgExecuteWithdrawal
empty = record {
  submitter = [];
  rollup_id = [];
  batch_index = pos 0;
  withdrawal_index = pos 0;
  recipient = [];
  denom = [];
  amount = pos 0;
  proof = [];
}

-- `for (const v of message.proof)`.
unfoldable pub proof_fields : Wire → List (List ℕ) → List ℕ → List ℕ
proof_fields wire [] writer = writer
proof_fields wire (v ∷ vs) writer =
    proof_fields wire vs (put_field wire false 66 (wire.put_bytes v) writer)

unfoldable pub encode : Wire → MsgExecuteWithdrawal → List ℕ → List ℕ
unfolding proof_fields
encode wire message writer =
    let w1 = string_field wire 10 message.submitter writer in
    let w2 = string_field wire 18 message.rollup_id w1 in
    let w3 = uint64_field wire 24 message.batch_index w2 in
    let w4 = uint64_field wire 32 message.withdrawal_index w3 in
    let w5 = string_field wire 42 message.recipient w4 in
    let w6 = string_field wire 50 message.denom w5 in
    let w7 = int64_field wire 56 message.amount w6 in proof_fields wire message.proof w7

unfoldable pub execute_withdrawal_switch : Wire → Switch MsgExecuteWithdrawal
execute_withdrawal_switch wire message tag bytes =
    if tag / 8 == 1
    then read_into (wire.get_string bytes) (λ v. record message { submitter = v })
    else if tag / 8 == 2
    then read_into (wire.get_string bytes) (λ v. record message { rollup_id = v })
    else if tag / 8 == 3
    then read_into (wire.get_uint64 bytes) (λ v. record message { batch_index = v })
    else if tag / 8 == 4
    then read_into (wire.get_uint64 bytes) (λ v. record message { withdrawal_index = v })
    else if tag / 8 == 5
    then read_into (wire.get_string bytes) (λ v. record message { recipient = v })
    else if tag / 8 == 6
    then read_into (wire.get_string bytes) (λ v. record message { denom = v })
    else if tag / 8 == 7
    then read_into (wire.get_int64 bytes) (λ v. record message { amount = v })
    else if tag / 8 == 8
    then read_into (wire.get_bytes bytes) (λ v. record message { proof = message.proof ++ v ∷ [] })
    else skipping (wire.skip_type (tag % 8) bytes) message

unfoldable pub decode : Wire → BinaryReader → Option ℕ → Result DecodeFailure MsgExecuteWithdrawal
decode wire reader len = decode_with wire (execute_withdrawal_switch wire) empty reader len

-- `Partial<MsgExecuteWithdrawal>`.
pub record Partial : Type 0 where
  pub submitter : Option JsString
  pub rollup_id : Option JsString
  pub batch_index : Option ℤ
  pub withdrawal_index : Option ℤ
  pub recipient : Option JsString
  pub denom : Option JsString
  pub amount : Option ℤ
  pub proof : Option (List (List ℕ))

unfoldable pub from_partial : Partial → MsgExecuteWithdrawal
from_partial object = record {
  submitter = get_or object.submitter [];
  rollup_id = get_or object.rollup_id [];
  batch_index = get_or object.batch_index (pos 0);
  withdrawal_index = get_or object.withdrawal_index (pos 0);
  recipient = get_or object.recipient [];
  denom = get_or object.denom [];
  amount = get_or object.amount (pos 0);
  proof = get_or object.proof [];
}

abbrev pub AreByteLists : List (List ℕ) → Type 0
AreByteLists [] = Unit
AreByteLists (b ∷ bs) = AreBytes b × AreByteLists bs

-- The strings have an encoding and the numbers fit their fields.
pub record IsEncodable (message : MsgExecuteWithdrawal) : Type 0 where
  pub submitter_fits : well_formed message.submitter ≡ true
  pub rollup_id_fits : well_formed message.rollup_id ≡ true
  pub batch_index_fits : IsUint64 message.batch_index
  pub withdrawal_index_fits : IsUint64 message.withdrawal_index
  pub recipient_fits : well_formed message.recipient ≡ true
  pub denom_fits : well_formed message.denom ≡ true
  pub amount_fits : IsInt64 message.amount
  pub proof_fits : AreByteLists message.proof

module _ (wire : Wire) (laws : WireLaws wire) where
  pub execute_withdrawal_switch-IsSwitch : IsSwitch (execute_withdrawal_switch wire)
  unfolding execute_withdrawal_switch
  execute_withdrawal_switch-IsSwitch message tag bytes =
      if-IsRound (tag / 8 == 1) _ _ bytes (read-IsRound wire.get_string _ bytes laws.string_shrinks)
        (if-IsRound (tag / 8 == 2) _ _ bytes
          (read-IsRound wire.get_string _ bytes laws.string_shrinks)
          (if-IsRound (tag / 8 == 3) _ _ bytes
            (read-IsRound wire.get_uint64 _ bytes laws.uint64_shrinks)
            (if-IsRound (tag / 8 == 4) _ _ bytes
              (read-IsRound wire.get_uint64 _ bytes laws.uint64_shrinks)
              (if-IsRound (tag / 8 == 5) _ _ bytes
                (read-IsRound wire.get_string _ bytes laws.string_shrinks)
                (if-IsRound (tag / 8 == 6) _ _ bytes
                  (read-IsRound wire.get_string _ bytes laws.string_shrinks)
                  (if-IsRound (tag / 8 == 7) _ _ bytes
                    (read-IsRound wire.get_int64 _ bytes laws.int64_shrinks)
                    (if-IsRound (tag / 8 == 8) _ _ bytes
                      (read-IsRound wire.get_bytes _ bytes laws.bytes_shrinks)
                      (skip-IsRound message wire.skip_type (tag % 8) bytes laws.skip_shrinks))))))))

  -- Each element is appended to those read so far.
  proof_fields-Carries :
      (vs done : List (List ℕ)) (writer : List ℕ) (m0 m : MsgExecuteWithdrawal)
      → AreByteLists vs
      → Carries wire (execute_withdrawal_switch wire) writer m0 (record m { proof = done })
      → Carries wire
          (execute_withdrawal_switch wire)
          (proof_fields wire vs writer)
          m0
          (record m { proof = done ++ vs })
  unfolding proof_fields execute_withdrawal_switch
  proof_fields-Carries [] done writer m0 m fit c =
      subst
        (λ (t : List (List ℕ)).
          Carries wire (execute_withdrawal_switch wire) writer m0 (record m { proof = t }))
        (sym (append-nil done)) c
  proof_fields-Carries (v ∷ vs) done writer m0 m fit c =
      subst
        (λ (t : List (List ℕ)).
          Carries wire (execute_withdrawal_switch wire)
            (proof_fields wire vs (put_field wire false 66 (wire.put_bytes v) writer)) m0
            (record m { proof = t }))
        (append_assoc done (v ∷ []) vs)
        (proof_fields-Carries vs (done ++ v ∷ [])
          (put_field wire false 66 (wire.put_bytes v) writer) m0 m fit.1
          (put-Carries wire laws (execute_withdrawal_switch wire) false 66 (wire.put_bytes v) writer
            m0 (record m { proof = done }) (record m { proof = done ++ v ∷ [] }) (omega arith) c
            (λ h. cc) (λ h tail. rw (laws.bytes_back v tail fit.0))))

  pub execute_withdrawal-Carries :
      (message : MsgExecuteWithdrawal)
      → IsEncodable message
      → Carries wire (execute_withdrawal_switch wire) (encode wire message []) empty message
  unfolding encode execute_withdrawal_switch
  execute_withdrawal-Carries m fits =
      let m1 : MsgExecuteWithdrawal = record empty { submitter = m.submitter } in
      let m2 : MsgExecuteWithdrawal = record m1 { rollup_id = m.rollup_id } in
      let m3 : MsgExecuteWithdrawal = record m2 { batch_index = m.batch_index } in
      let m4 : MsgExecuteWithdrawal = record m3 { withdrawal_index = m.withdrawal_index } in
      let m5 : MsgExecuteWithdrawal = record m4 { recipient = m.recipient } in
      let m6 : MsgExecuteWithdrawal = record m5 { denom = m.denom } in
      let m7 : MsgExecuteWithdrawal = record m6 { amount = m.amount } in
      proof_fields-Carries m.proof [] _ empty m fits.proof_fits (
        int64-Carries wire laws (execute_withdrawal_switch wire) 56 (omega arith) _ empty m.amount
          (λ v. record m6 { amount = v }) (λ b. refl) fits.amount_fits
          (string-Carries wire laws (execute_withdrawal_switch wire) 50 (omega arith) _ empty
            m.denom (λ v. record m5 { denom = v }) (λ b. refl) fits.denom_fits
            (string-Carries wire laws (execute_withdrawal_switch wire) 42 (omega arith) _ empty
              m.recipient (λ v. record m4 { recipient = v }) (λ b. refl) fits.recipient_fits
              (uint64-Carries wire laws (execute_withdrawal_switch wire) 32 (omega arith) _ empty
                m.withdrawal_index (λ v. record m3 { withdrawal_index = v }) (λ b. refl)
                fits.withdrawal_index_fits
                (uint64-Carries wire laws (execute_withdrawal_switch wire) 24 (omega arith) _ empty
                  m.batch_index (λ v. record m2 { batch_index = v }) (λ b. refl)
                  fits.batch_index_fits
                  (string-Carries wire laws (execute_withdrawal_switch wire) 18 (omega arith) _
                    empty m.rollup_id (λ v. record m1 { rollup_id = v }) (λ b. refl)
                    fits.rollup_id_fits
                    (string-Carries wire laws (execute_withdrawal_switch wire) 10 (omega arith) _
                      empty m.submitter (λ v. record empty { submitter = v }) (λ b. refl)
                      fits.submitter_fits (λ tail m2 p. p))))))))

  -- Over a reader and writer that keep their laws, a message whose fields fit the wire, with a proof of any
  -- length, is decoded from its own encoding.
  pub execute_withdrawal_round_trip :
      (message : MsgExecuteWithdrawal)
      → IsEncodable message
      → decode wire (new_reader (encode wire message [])) none ≡ ok message
  unfolding decode
  execute_withdrawal_round_trip message fits =
      decode-Carries wire laws (execute_withdrawal_switch wire) execute_withdrawal_switch-IsSwitch
        empty message (encode wire message []) (execute_withdrawal-Carries message fits)
