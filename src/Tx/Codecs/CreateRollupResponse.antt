-- ===== src/Tx/Codecs/CreateRollupResponse.antt =====
-- The codec of packages/ts/src/tx/codecs.ts for MsgCreateRollupResponse: the message, its encoder, its decoder and
-- `fromPartial`; what is encoded is decoded to the same message.
use qorechain_rdk.Prelude.{
  ◌/◌, ◌%◌, ℕ, ◌≡◌, refl, true, Option, none, List, [], arith, ◌==◌, if◌then◌else◌, Result, ok,
}
use qorechain_rdk.Tx.Wire.Parses.{skip-IsRound, read-IsRound, if-IsRound, IsSwitch}
use qorechain_rdk.Tx.Wire.{
  decode_with, skipping, DecodeFailure, read_into, new_reader, Switch, well_formed, BinaryReader,
  string_field, Wire, WireLaws,
}
use qorechain_rdk.Tx.Wire.Fields.{decode-Carries, string-Carries, Carries}
use qorechain_rdk.Text.{JsString}
use mathlib.Core.Option.{get_or}

pub record MsgCreateRollupResponse : Type 0 where
  pub rollup_id : JsString

abbrev pub empty : MsgCreateRollupResponse
empty = record { rollup_id = [] }

unfoldable pub encode : Wire → MsgCreateRollupResponse → List ℕ → List ℕ
encode wire message writer = string_field wire 10 message.rollup_id writer

unfoldable pub create_rollup_response_switch : Wire → Switch MsgCreateRollupResponse
create_rollup_response_switch wire message tag bytes =
    if tag / 8 == 1
    then read_into (wire.get_string bytes) (λ v. record message { rollup_id = v })
    else skipping (wire.skip_type (tag % 8) bytes) message

unfoldable pub decode :
    Wire → BinaryReader → Option ℕ → Result DecodeFailure MsgCreateRollupResponse
decode wire reader len = decode_with wire (create_rollup_response_switch wire) empty reader len

-- `Partial<MsgCreateRollupResponse>`.
pub record Partial : Type 0 where
  pub rollup_id : Option JsString

unfoldable pub from_partial : Partial → MsgCreateRollupResponse
from_partial object = record { rollup_id = get_or object.rollup_id [] }

-- The strings have an encoding and the numbers fit their fields.
pub record IsEncodable (message : MsgCreateRollupResponse) : Type 0 where
  pub rollup_id_fits : well_formed message.rollup_id ≡ true

module _ (wire : Wire) (laws : WireLaws wire) where
  pub create_rollup_response_switch-IsSwitch : IsSwitch (create_rollup_response_switch wire)
  unfolding create_rollup_response_switch
  create_rollup_response_switch-IsSwitch message tag bytes =
      if-IsRound (tag / 8 == 1) _ _ bytes (read-IsRound wire.get_string _ bytes laws.string_shrinks)
        (skip-IsRound message wire.skip_type (tag % 8) bytes laws.skip_shrinks)

  pub create_rollup_response-Carries :
      (message : MsgCreateRollupResponse)
      → IsEncodable message
      → Carries wire (create_rollup_response_switch wire) (encode wire message []) empty message
  unfolding encode create_rollup_response_switch
  create_rollup_response-Carries m fits =
      string-Carries wire laws (create_rollup_response_switch wire) 10 (omega arith) _ empty
        m.rollup_id (λ v. record empty { rollup_id = v }) (λ b. refl) fits.rollup_id_fits
        (λ tail m2 p. p)

  -- A message that can be encoded is decoded from its own encoding.
  pub create_rollup_response_round_trip :
      (message : MsgCreateRollupResponse)
      → IsEncodable message
      → decode wire (new_reader (encode wire message [])) none ≡ ok message
  unfolding decode
  create_rollup_response_round_trip message fits =
      decode-Carries wire laws (create_rollup_response_switch wire)
        create_rollup_response_switch-IsSwitch empty message (encode wire message [])
        (create_rollup_response-Carries message fits)
