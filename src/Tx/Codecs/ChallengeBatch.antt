-- ===== src/Tx/Codecs/ChallengeBatch.antt =====
-- The codec of packages/ts/src/tx/codecs.ts for MsgChallengeBatch: the message, its encoder, its decoder and
-- `fromPartial`; what is encoded is decoded to the same message.
use qorechain_rdk.Prelude.{
  ◌/◌, ◌%◌, ℕ, ◌≡◌, refl, true, Option, none, List, [], arith, ◌==◌, if◌then◌else◌, Result, ok,
}
use qorechain_rdk.Bytes.{AreBytes}
use qorechain_rdk.Prelude.Int.{pos, ℤ}
use qorechain_rdk.Tx.Wire.Parses.{skip-IsRound, read-IsRound, if-IsRound, IsSwitch}
use qorechain_rdk.Tx.Wire.{
  skipping, bytes_field, decode_with, uint64_field, IsUint64, DecodeFailure, read_into,
  BinaryReader, new_reader, well_formed, Switch, string_field, Wire, WireLaws,
}
use qorechain_rdk.Tx.Wire.Fields.{
  string-Carries, decode-Carries, uint64-Carries, bytes-Carries, Carries,
}
use qorechain_rdk.Text.{JsString}
use mathlib.Core.Option.{get_or}

pub record MsgChallengeBatch : Type 0 where
  pub challenger : JsString
  pub rollup_id : JsString
  pub batch_index : ℤ
  pub proof : List ℕ

abbrev pub empty : MsgChallengeBatch
empty = record { challenger = []; rollup_id = []; batch_index = pos 0; proof = [] }

unfoldable pub encode : Wire → MsgChallengeBatch → List ℕ → List ℕ
encode wire message writer =
    let w1 = string_field wire 10 message.challenger writer in
    let w2 = string_field wire 18 message.rollup_id w1 in
    let w3 = uint64_field wire 24 message.batch_index w2 in bytes_field wire 34 message.proof w3

unfoldable pub challenge_batch_switch : Wire → Switch MsgChallengeBatch
challenge_batch_switch wire message tag bytes =
    if tag / 8 == 1
    then read_into (wire.get_string bytes) (λ v. record message { challenger = v })
    else if tag / 8 == 2
    then read_into (wire.get_string bytes) (λ v. record message { rollup_id = v })
    else if tag / 8 == 3
    then read_into (wire.get_uint64 bytes) (λ v. record message { batch_index = v })
    else if tag / 8 == 4
    then read_into (wire.get_bytes bytes) (λ v. record message { proof = v })
    else skipping (wire.skip_type (tag % 8) bytes) message

unfoldable pub decode : Wire → BinaryReader → Option ℕ → Result DecodeFailure MsgChallengeBatch
decode wire reader len = decode_with wire (challenge_batch_switch wire) empty reader len

-- `Partial<MsgChallengeBatch>`.
pub record Partial : Type 0 where
  pub challenger : Option JsString
  pub rollup_id : Option JsString
  pub batch_index : Option ℤ
  pub proof : Option (List ℕ)

unfoldable pub from_partial : Partial → MsgChallengeBatch
from_partial object = record {
  challenger = get_or object.challenger [];
  rollup_id = get_or object.rollup_id [];
  batch_index = get_or object.batch_index (pos 0);
  proof = get_or object.proof [];
}

-- The strings have an encoding and the numbers fit their fields.
pub record IsEncodable (message : MsgChallengeBatch) : Type 0 where
  pub challenger_fits : well_formed message.challenger ≡ true
  pub rollup_id_fits : well_formed message.rollup_id ≡ true
  pub batch_index_fits : IsUint64 message.batch_index
  pub proof_fits : AreBytes message.proof

module _ (wire : Wire) (laws : WireLaws wire) where
  pub challenge_batch_switch-IsSwitch : IsSwitch (challenge_batch_switch wire)
  unfolding challenge_batch_switch
  challenge_batch_switch-IsSwitch message tag bytes =
      if-IsRound (tag / 8 == 1) _ _ bytes (read-IsRound wire.get_string _ bytes laws.string_shrinks)
        (if-IsRound (tag / 8 == 2) _ _ bytes
          (read-IsRound wire.get_string _ bytes laws.string_shrinks)
          (if-IsRound (tag / 8 == 3) _ _ bytes
            (read-IsRound wire.get_uint64 _ bytes laws.uint64_shrinks)
            (if-IsRound (tag / 8 == 4) _ _ bytes
              (read-IsRound wire.get_bytes _ bytes laws.bytes_shrinks)
              (skip-IsRound message wire.skip_type (tag % 8) bytes laws.skip_shrinks))))

  pub challenge_batch-Carries :
      (message : MsgChallengeBatch)
      → IsEncodable message
      → Carries wire (challenge_batch_switch wire) (encode wire message []) empty message
  unfolding encode challenge_batch_switch
  challenge_batch-Carries m fits =
      let m1 : MsgChallengeBatch = record empty { challenger = m.challenger } in
      let m2 : MsgChallengeBatch = record m1 { rollup_id = m.rollup_id } in
      let m3 : MsgChallengeBatch = record m2 { batch_index = m.batch_index } in
      bytes-Carries wire laws (challenge_batch_switch wire) 34 (omega arith) _ empty m.proof
        (λ v. record m3 { proof = v }) (λ b. refl) fits.proof_fits
        (uint64-Carries wire laws (challenge_batch_switch wire) 24 (omega arith) _ empty
          m.batch_index (λ v. record m2 { batch_index = v }) (λ b. refl) fits.batch_index_fits
          (string-Carries wire laws (challenge_batch_switch wire) 18 (omega arith) _ empty
            m.rollup_id (λ v. record m1 { rollup_id = v }) (λ b. refl) fits.rollup_id_fits
            (string-Carries wire laws (challenge_batch_switch wire) 10 (omega arith) _ empty
              m.challenger (λ v. record empty { challenger = v }) (λ b. refl) fits.challenger_fits
              (λ tail m2 p. p))))

  -- A message that can be encoded is decoded from its own encoding.
  pub challenge_batch_round_trip :
      (message : MsgChallengeBatch)
      → IsEncodable message
      → decode wire (new_reader (encode wire message [])) none ≡ ok message
  unfolding decode
  challenge_batch_round_trip message fits =
      decode-Carries wire laws (challenge_batch_switch wire) challenge_batch_switch-IsSwitch empty
        message (encode wire message []) (challenge_batch-Carries message fits)
