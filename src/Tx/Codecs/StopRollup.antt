-- ===== src/Tx/Codecs/StopRollup.antt =====
-- The codec of packages/ts/src/tx/codecs.ts for MsgStopRollup: the message, its encoder, its decoder and
-- `fromPartial`; what is encoded is decoded to the same message.
use qorechain_rdk.Prelude.{
  ◌/◌, ◌%◌, ℕ, ◌≡◌, refl, true, Option, none, List, [], arith, ◌==◌, if◌then◌else◌, Result, ok,
}
use qorechain_rdk.Tx.Wire.Parses.{skip-IsRound, read-IsRound, if-IsRound, IsSwitch}
use qorechain_rdk.Tx.Wire.{
  skipping, decode_with, DecodeFailure, read_into, BinaryReader, string_field, Switch, new_reader,
  well_formed, Wire, WireLaws,
}
use qorechain_rdk.Tx.Wire.Fields.{decode-Carries, string-Carries, Carries}
use qorechain_rdk.Text.{JsString}
use mathlib.Core.Option.{get_or}

pub record MsgStopRollup : Type 0 where
  pub creator : JsString
  pub rollup_id : JsString

abbrev pub empty : MsgStopRollup
empty = record { creator = []; rollup_id = [] }

unfoldable pub encode : Wire → MsgStopRollup → List ℕ → List ℕ
encode wire message writer =
    let w1 = string_field wire 10 message.creator writer in
    string_field wire 18 message.rollup_id w1

unfoldable pub stop_rollup_switch : Wire → Switch MsgStopRollup
stop_rollup_switch wire message tag bytes =
    if tag / 8 == 1
    then read_into (wire.get_string bytes) (λ v. record message { creator = v })
    else if tag / 8 == 2
    then read_into (wire.get_string bytes) (λ v. record message { rollup_id = v })
    else skipping (wire.skip_type (tag % 8) bytes) message

unfoldable pub decode : Wire → BinaryReader → Option ℕ → Result DecodeFailure MsgStopRollup
decode wire reader len = decode_with wire (stop_rollup_switch wire) empty reader len

-- `Partial<MsgStopRollup>`.
pub record Partial : Type 0 where
  pub creator : Option JsString
  pub rollup_id : Option JsString

unfoldable pub from_partial : Partial → MsgStopRollup
from_partial object = record {
  creator = get_or object.creator [];
  rollup_id = get_or object.rollup_id [];
}

-- The strings have an encoding and the numbers fit their fields.
pub record IsEncodable (message : MsgStopRollup) : Type 0 where
  pub creator_fits : well_formed message.creator ≡ true
  pub rollup_id_fits : well_formed message.rollup_id ≡ true

module _ (wire : Wire) (laws : WireLaws wire) where
  pub stop_rollup_switch-IsSwitch : IsSwitch (stop_rollup_switch wire)
  unfolding stop_rollup_switch
  stop_rollup_switch-IsSwitch message tag bytes =
      if-IsRound (tag / 8 == 1) _ _ bytes (read-IsRound wire.get_string _ bytes laws.string_shrinks)
        (if-IsRound (tag / 8 == 2) _ _ bytes
          (read-IsRound wire.get_string _ bytes laws.string_shrinks)
          (skip-IsRound message wire.skip_type (tag % 8) bytes laws.skip_shrinks))

  pub stop_rollup-Carries :
      (message : MsgStopRollup)
      → IsEncodable message
      → Carries wire (stop_rollup_switch wire) (encode wire message []) empty message
  unfolding encode stop_rollup_switch
  stop_rollup-Carries m fits =
      let m1 : MsgStopRollup = record empty { creator = m.creator } in
      string-Carries wire laws (stop_rollup_switch wire) 18 (omega arith) _ empty m.rollup_id
        (λ v. record m1 { rollup_id = v }) (λ b. refl) fits.rollup_id_fits
        (string-Carries wire laws (stop_rollup_switch wire) 10 (omega arith) _ empty m.creator
          (λ v. record empty { creator = v }) (λ b. refl) fits.creator_fits (λ tail m2 p. p))

  -- A message that can be encoded is decoded from its own encoding.
  pub stop_rollup_round_trip :
      (message : MsgStopRollup)
      → IsEncodable message
      → decode wire (new_reader (encode wire message [])) none ≡ ok message
  unfolding decode
  stop_rollup_round_trip message fits =
      decode-Carries wire laws (stop_rollup_switch wire) stop_rollup_switch-IsSwitch empty message
        (encode wire message []) (stop_rollup-Carries message fits)
