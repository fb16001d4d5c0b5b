-- ===== src/Tx/Codecs/CreateRollup.antt =====
-- The codec of packages/ts/src/tx/codecs.ts for MsgCreateRollup: the message, its encoder, its decoder and
-- `fromPartial`; what is encoded is decoded to the same message.
use qorechain_rdk.Prelude.{
  ◌/◌, ◌%◌, ℕ, ◌≡◌, refl, true, Option, none, List, [], arith, ◌==◌, if◌then◌else◌, Result, ok,
}
use qorechain_rdk.Tx.Wire.Parses.{skip-IsRound, read-IsRound, if-IsRound, IsSwitch}
use qorechain_rdk.Prelude.Int.{pos, ℤ}
use qorechain_rdk.Tx.Wire.{
  skipping, decode_with, int64_field, IsInt64, DecodeFailure, read_into, string_field, Switch,
  well_formed, new_reader, BinaryReader, Wire, WireLaws,
}
use qorechain_rdk.Tx.Wire.Fields.{decode-Carries, string-Carries, int64-Carries, Carries}
use qorechain_rdk.Text.{JsString}
use mathlib.Core.Option.{get_or}

pub record MsgCreateRollup : Type 0 where
  pub creator : JsString
  pub rollup_id : JsString
  pub profile : JsString
  pub vm_type : JsString
  pub stake_amount : ℤ

abbrev pub empty : MsgCreateRollup
empty = record { creator = []; rollup_id = []; profile = []; vm_type = []; stake_amount = pos 0 }

unfoldable pub encode : Wire → MsgCreateRollup → List ℕ → List ℕ
encode wire message writer =
    let w1 = string_field wire 10 message.creator writer in
    let w2 = string_field wire 18 message.rollup_id w1 in
    let w3 = string_field wire 26 message.profile w2 in
    let w4 = string_field wire 34 message.vm_type w3 in int64_field wire 40 message.stake_amount w4

unfoldable pub create_rollup_switch : Wire → Switch MsgCreateRollup
create_rollup_switch wire message tag bytes =
    if tag / 8 == 1
    then read_into (wire.get_string bytes) (λ v. record message { creator = v })
    else if tag / 8 == 2
    then read_into (wire.get_string bytes) (λ v. record message { rollup_id = v })
    else if tag / 8 == 3
    then read_into (wire.get_string bytes) (λ v. record message { profile = v })
    else if tag / 8 == 4
    then read_into (wire.get_string bytes) (λ v. record message { vm_type = v })
    else if tag / 8 == 5
    then read_into (wire.get_int64 bytes) (λ v. record message { stake_amount = v })
    else skipping (wire.skip_type (tag % 8) bytes) message

unfoldable pub decode : Wire → BinaryReader → Option ℕ → Result DecodeFailure MsgCreateRollup
decode wire reader len = decode_with wire (create_rollup_switch wire) empty reader len

-- `Partial<MsgCreateRollup>`.
pub record Partial : Type 0 where
  pub creator : Option JsString
  pub rollup_id : Option JsString
  pub profile : Option JsString
  pub vm_type : Option JsString
  pub stake_amount : Option ℤ

unfoldable pub from_partial : Partial → MsgCreateRollup
from_partial object = record {
  creator = get_or object.creator [];
  rollup_id = get_or object.rollup_id [];
  profile = get_or object.profile [];
  vm_type = get_or object.vm_type [];
  stake_amount = get_or object.stake_amount (pos 0);
}

-- The strings have an encoding and the numbers fit their fields.
pub record IsEncodable (message : MsgCreateRollup) : Type 0 where
  pub creator_fits : well_formed message.creator ≡ true
  pub rollup_id_fits : well_formed message.rollup_id ≡ true
  pub profile_fits : well_formed message.profile ≡ true
  pub vm_type_fits : well_formed message.vm_type ≡ true
  pub stake_amount_fits : IsInt64 message.stake_amount

module _ (wire : Wire) (laws : WireLaws wire) where
  pub create_rollup_switch-IsSwitch : IsSwitch (create_rollup_switch wire)
  unfolding create_rollup_switch
  create_rollup_switch-IsSwitch message tag bytes =
      if-IsRound (tag / 8 == 1) _ _ bytes (read-IsRound wire.get_string _ bytes laws.string_shrinks)
        (if-IsRound (tag / 8 == 2) _ _ bytes
          (read-IsRound wire.get_string _ bytes laws.string_shrinks)
          (if-IsRound (tag / 8 == 3) _ _ bytes
            (read-IsRound wire.get_string _ bytes laws.string_shrinks)
            (if-IsRound (tag / 8 == 4) _ _ bytes
              (read-IsRound wire.get_string _ bytes laws.string_shrinks)
              (if-IsRound (tag / 8 == 5) _ _ bytes
                (read-IsRound wire.get_int64 _ bytes laws.int64_shrinks)
                (skip-IsRound message wire.skip_type (tag % 8) bytes laws.skip_shrinks)))))

  pub create_rollup-Carries :
      (message : MsgCreateRollup)
      → IsEncodable message
      → Carries wire (create_rollup_switch wire) (encode wire message []) empty message
  unfolding encode create_rollup_switch
  create_rollup-Carries m fits =
      let m1 : MsgCreateRollup = record empty { creator = m.creator } in
      let m2 : MsgCreateRollup = record m1 { rollup_id = m.rollup_id } in
      let m3 : MsgCreateRollup = record m2 { profile = m.profile } in
      let m4 : MsgCreateRollup = record m3 { vm_type = m.vm_type } in
      int64-Carries wire laws (create_rollup_switch wire) 40 (omega arith) _ empty m.stake_amount
        (λ v. record m4 { stake_amount = v }) (λ b. refl) fits.stake_amount_fits
        (string-Carries wire laws (create_rollup_switch wire) 34 (omega arith) _ empty m.vm_type
          (λ v. record m3 { vm_type = v }) (λ b. refl) fits.vm_type_fits
          (string-Carries wire laws (create_rollup_switch wire) 26 (omega arith) _ empty m.profile
            (λ v. record m2 { profile = v }) (λ b. refl) fits.profile_fits
            (string-Carries wire laws (create_rollup_switch wire) 18 (omega arith) _ empty
              m.rollup_id (λ v. record m1 { rollup_id = v }) (λ b. refl) fits.rollup_id_fits
              (string-Carries wire laws (create_rollup_switch wire) 10 (omega arith) _ empty
                m.creator (λ v. record empty { creator = v }) (λ b. refl) fits.creator_fits
                (λ tail m2 p. p)))))

  -- A message that can be encoded is decoded from its own encoding.
  pub create_rollup_round_trip :
      (message : MsgCreateRollup)
      → IsEncodable message
      → decode wire (new_reader (encode wire message [])) none ≡ ok message
  unfolding decode
  create_rollup_round_trip message fits =
      decode-Carries wire laws (create_rollup_switch wire) create_rollup_switch-IsSwitch empty
        message (encode wire message []) (create_rollup-Carries message fits)
