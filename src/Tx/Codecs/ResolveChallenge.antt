-- ===== src/Tx/Codecs/ResolveChallenge.antt =====
-- The codec of packages/ts/src/tx/codecs.ts for MsgResolveChallenge: the message, its encoder, its decoder and
-- `fromPartial`; what is encoded is decoded to the same message.
use qorechain_rdk.Prelude.{
  ◌/◌, ◌%◌, ℕ, ◌≡◌, refl, Bool, true, false, Option, none, List, [], arith, ◌==◌, if◌then◌else◌,
  Result, ok,
}
use qorechain_rdk.Tx.Wire.Parses.{skip-IsRound, read-IsRound, if-IsRound, IsSwitch}
use qorechain_rdk.Prelude.Int.{pos, ℤ}
use qorechain_rdk.Tx.Wire.{
  bool_field, decode_with, skipping, DecodeFailure, read_into, uint64_field, IsUint64, well_formed,
  new_reader, BinaryReader, string_field, Switch, Wire, WireLaws,
}
use qorechain_rdk.Tx.Wire.Fields.{
  string-Carries, decode-Carries, uint64-Carries, bool-Carries, Carries,
}
use qorechain_rdk.Text.{JsString}
use mathlib.Core.Option.{get_or}

pub record MsgResolveChallenge : Type 0 where
  pub resolver : JsString
  pub rollup_id : JsString
  pub batch_index : ℤ
  pub fraud_upheld : Bool

abbrev pub empty : MsgResolveChallenge
empty = record { resolver = []; rollup_id = []; batch_index = pos 0; fraud_upheld = false }

unfoldable pub encode : Wire → MsgResolveChallenge → List ℕ → List ℕ
encode wire message writer =
    let w1 = string_field wire 10 message.resolver writer in
    let w2 = string_field wire 18 message.rollup_id w1 in
    let w3 = uint64_field wire 24 message.batch_index w2 in
    bool_field wire 32 message.fraud_upheld w3

unfoldable pub resolve_challenge_switch : Wire → Switch MsgResolveChallenge
resolve_challenge_switch wire message tag bytes =
    if tag / 8 == 1
    then read_into (wire.get_string bytes) (λ v. record message { resolver = v })
    else if tag / 8 == 2
    then read_into (wire.get_string bytes) (λ v. record message { rollup_id = v })
    else if tag / 8 == 3
    then read_into (wire.get_uint64 bytes) (λ v. record message { batch_index = v })
    else if tag / 8 == 4
    then read_into (wire.get_bool bytes) (λ v. record message { fraud_upheld = v })
    else skipping (wire.skip_type (tag % 8) bytes) message

unfoldable pub decode : Wire → BinaryReader → Option ℕ → Result DecodeFailure MsgResolveChallenge
decode wire reader len = decode_with wire (resolve_challenge_switch wire) empty reader len

-- `Partial<MsgResolveChallenge>`.
pub record Partial : Type 0 where
  pub resolver : Option JsString
  pub rollup_id : Option JsString
  pub batch_index : Option ℤ
  pub fraud_upheld : Option Bool

unfoldable pub from_partial : Partial → MsgResolveChallenge
from_partial object = record {
  resolver = get_or object.resolver [];
  rollup_id = get_or object.rollup_id [];
  batch_index = get_or object.batch_index (pos 0);
  fraud_upheld = get_or object.fraud_upheld false;
}

-- The strings have an encoding and the numbers fit their fields.
pub record IsEncodable (message : MsgResolveChallenge) : Type 0 where
  pub resolver_fits : well_formed message.resolver ≡ true
  pub rollup_id_fits : well_formed message.rollup_id ≡ true
  pub batch_index_fits : IsUint64 message.batch_index

module _ (wire : Wire) (laws : WireLaws wire) where
  pub resolve_challenge_switch-IsSwitch : IsSwitch (resolve_challenge_switch wire)
  unfolding resolve_challenge_switch
  resolve_challenge_switch-IsSwitch message tag bytes =
      if-IsRound (tag / 8 == 1) _ _ bytes (read-IsRound wire.get_string _ bytes laws.string_shrinks)
        (if-IsRound (tag / 8 == 2) _ _ bytes
          (read-IsRound wire.get_string _ bytes laws.string_shrinks)
          (if-IsRound (tag / 8 == 3) _ _ bytes
            (read-IsRound wire.get_uint64 _ bytes laws.uint64_shrinks)
            (if-IsRound (tag / 8 == 4) _ _ bytes
              (read-IsRound wire.get_bool _ bytes laws.bool_shrinks)
              (skip-IsRound message wire.skip_type (tag % 8) bytes laws.skip_shrinks))))

  pub resolve_challenge-Carries :
      (message : MsgResolveChallenge)
      → IsEncodable message
      → Carries wire (resolve_challenge_switch wire) (encode wire message []) empty message
  unfolding encode resolve_challenge_switch
  resolve_challenge-Carries m fits =
      let m1 : MsgResolveChallenge = record empty { resolver = m.resolver } in
      let m2 : MsgResolveChallenge = record m1 { rollup_id = m.rollup_id } in
      let m3 : MsgResolveChallenge = record m2 { batch_index = m.batch_index } in
      bool-Carries wire laws (resolve_challenge_switch wire) 32 (omega arith) _ empty m.fraud_upheld
        (λ v. record m3 { fraud_upheld = v }) (λ b. refl)
        (uint64-Carries wire laws (resolve_challenge_switch wire) 24 (omega arith) _ empty
          m.batch_index (λ v. record m2 { batch_index = v }) (λ b. refl) fits.batch_index_fits
          (string-Carries wire laws (resolve_challenge_switch wire) 18 (omega arith) _ empty
            m.rollup_id (λ v. record m1 { rollup_id = v }) (λ b. refl) fits.rollup_id_fits
            (string-Carries wire laws (resolve_challenge_switch wire) 10 (omega arith) _ empty
              m.resolver (λ v. record empty { resolver = v }) (λ b. refl) fits.resolver_fits
              (λ tail m2 p. p))))

  -- A message that can be encoded is decoded from its own encoding.
  pub resolve_challenge_round_trip :
      (message : MsgResolveChallenge)
      → IsEncodable message
      → decode wire (new_reader (encode wire message [])) none ≡ ok message
  unfolding decode
  resolve_challenge_round_trip message fits =
      decode-Carries wire laws (resolve_challenge_switch wire) resolve_challenge_switch-IsSwitch
        empty message (encode wire message []) (resolve_challenge-Carries message fits)
