-- ===== src/Tx/Codecs/PauseRollup.antt =====
-- The codec of packages/ts/src/tx/codecs.ts for MsgPauseRollup: the message, its encoder, its decoder and
-- `fromPartial`; what is encoded is decoded to the same message.
use qorechain_rdk.Prelude.{
  ◌/◌, ◌%◌, ℕ, ◌≡◌, refl, true, Option, none, List, [], arith, ◌==◌, if◌then◌else◌, Result, ok,
}
use qorechain_rdk.Tx.Wire.Parses.{skip-IsRound, read-IsRound, if-IsRound, IsSwitch}
use qorechain_rdk.Tx.Wire.{
  decode_with, skipping, read_into, DecodeFailure, string_field, Switch, new_reader, well_formed,
  BinaryReader, Wire, WireLaws,
}
use qorechain_rdk.Tx.Wire.Fields.{decode-Carries, string-Carries, Carries}
use qorechain_rdk.Text.{JsString}
use mathlib.Core.Option.{get_or}

pub record MsgPauseRollup : Type 0 where
  pub creator : JsString
  pub rollup_id : JsString
  pub reason : JsString

abbrev pub empty : MsgPauseRollup
empty = record { creator = []; rollup_id = []; reason = [] }

unfoldable pub encode : Wire → MsgPauseRollup → List ℕ → List ℕ
encode wire message writer =
    let w1 = string_field wire 10 message.creator writer in
    let w2 = string_field wire 18 message.rollup_id w1 in string_field wire 26 message.reason w2

unfoldable pub pause_rollup_switch : Wire → Switch MsgPauseRollup
pause_rollup_switch wire message tag bytes =
    if tag / 8 == 1
    then read_into (wire.get_string bytes) (λ v. record message { creator = v })
    else if tag / 8 == 2
    then read_into (wire.get_string bytes) (λ v. record message { rollup_id = v })
    else if tag / 8 == 3
    then read_into (wire.get_string bytes) (λ v. record message { reason = v })
    else skipping (wire.skip_type (tag % 8) bytes) message

unfoldable pub decode : Wire → BinaryReader → Option ℕ → Result DecodeFailure MsgPauseRollup
decode wire reader len = decode_with wire (pause_rollup_switch wire) empty reader len

-- `Partial<MsgPauseRollup>`.
pub record Partial : Type 0 where
  pub creator : Option JsString
  pub rollup_id : Option JsString
  pub reason : Option JsString

unfoldable pub from_partial : Partial → MsgPauseRollup
from_partial object = record {
  creator = get_or object.creator [];
  rollup_id = get_or object.rollup_id [];
  reason = get_or object.reason [];
}

-- The strings have an encoding and the numbers fit their fields.
pub record IsEncodable (message : MsgPauseRollup) : Type 0 where
  pub creator_fits : well_formed message.creator ≡ true
  pub rollup_id_fits : well_formed message.rollup_id ≡ true
  pub reason_fits : well_formed message.reason ≡ true

module _ (wire : Wire) (laws : WireLaws wire) where
  pub pause_rollup_switch-IsSwitch : IsSwitch (pause_rollup_switch wire)
  unfolding pause_rollup_switch
  pause_rollup_switch-IsSwitch message tag bytes =
      if-IsRound (tag / 8 == 1) _ _ bytes (read-IsRound wire.get_string _ bytes laws.string_shrinks)
        (if-IsRound (tag / 8 == 2) _ _ bytes
          (read-IsRound wire.get_string _ bytes laws.string_shrinks)
          (if-IsRound (tag / 8 == 3) _ _ bytes
            (read-IsRound wire.get_string _ bytes laws.string_shrinks)
            (skip-IsRound message wire.skip_type (tag % 8) bytes laws.skip_shrinks)))

  pub pause_rollup-Carries :
      (message : MsgPauseRollup)
      → IsEncodable message
      → Carries wire (pause_rollup_switch wire) (encode wire message []) empty message
  unfolding encode pause_rollup_switch
  pause_rollup-Carries m fits =
      let m1 : MsgPauseRollup = record empty { creator = m.creator } in
      let m2 : MsgPauseRollup = record m1 { rollup_id = m.rollup_id } in
      string-Carries wire laws (pause_rollup_switch wire) 26 (omega arith) _ empty m.reason
        (λ v. record m2 { reason = v }) (λ b. refl) fits.reason_fits
        (string-Carries wire laws (pause_rollup_switch wire) 18 (omega arith) _ empty m.rollup_id
          (λ v. record m1 { rollup_id = v }) (λ b. refl) fits.rollup_id_fits
          (string-Carries wire laws (pause_rollup_switch wire) 10 (omega arith) _ empty m.creator
            (λ v. record empty { creator = v }) (λ b. refl) fits.creator_fits (λ tail m2 p. p)))

  -- A message that can be encoded is decoded from its own encoding.
  pub pause_rollup_round_trip :
      (message : MsgPauseRollup)
      → IsEncodable message
      → decode wire (new_reader (encode wire message [])) none ≡ ok message
  unfolding decode
  pause_rollup_round_trip message fits =
      decode-Carries wire laws (pause_rollup_switch wire) pause_rollup_switch-IsSwitch empty message
        (encode wire message []) (pause_rollup-Carries message fits)
