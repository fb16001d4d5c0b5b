-- ===== src/CrossVm/Tests.antt =====
-- The cross-VM calls at small inputs, with a hash of one byte.
use qorechain_rdk.Prelude.{
  ◌+◌, ◌^◌, ◌≤◌, ◌<◌, ◌≡◌, refl, ◌↔◌, true, none, some, [], ◌∷◌, ◌++◌, arith, length, take, drop,
  replicate, ok, err,
}
use qorechain_rdk.CrossVm.Calls.{decode_cross_vm_result_iff, encode_cross_vm_calldata_reads}
use qorechain_rdk.CrossVm.Words.{argument_at}
use qorechain_rdk.Bytes.Hex.{raw, to_bytes}
use qorechain_rdk.QoreHash.Toy.{toy_hash}
use qorechain_rdk.Text.Encoder.{utf8}
use qorechain_rdk.Bytes.{big_endian, Bytes}
use qorechain_rdk.Text.{whole, js}
use qorechain_rdk.CrossVm.{
  ServedParams, pad_right_32, chunk_of, tuple_loop, read_word, unsupported_target,
  cross_vm_default_signature, encode_dynamic_tuple, decode_cross_vm_result, u256be, json_text,
  function_selector, encode_cross_vm_calldata, CrossVmCall,
}

abbrev ping : CrossVmCall
ping = record { contract = js "qor1x"; msg = json_text (js "{}"); target_vm = none }

abbrev selector_ping : Bytes
selector_ping = toy_hash (utf8 cross_vm_default_signature)

abbrev ping_data : Bytes
ping_data = take 4 selector_ping ++ (u256be 1 ++ encode_dynamic_tuple (js "qor1x" ∷ js "{}" ∷ []) 1)

ping_encoded : encode_cross_vm_calldata toy_hash ping ≡ ok ping_data
unfolding encode_cross_vm_calldata function_selector utf8
ping_encoded = refl

ping_short : length ping_data < 256 ^ 32
unfolding u256be encode_dynamic_tuple tuple_loop chunk_of pad_right_32 big_endian utf8
ping_short = omega arith

encode_cross_vm_calldata_reads_example :
    let selector = function_selector toy_hash cross_vm_default_signature in
    let arguments = drop (length selector) ping_data in
    (1 ≤ 1)
    × (ping_data ≡ selector ++ arguments)
    × (read_word arguments 0 ≡ 1)
    × (argument_at arguments 32 ≡ utf8 (js "qor1x"))
    × (argument_at arguments 64 ≡ utf8 (js "{}"))
encode_cross_vm_calldata_reads_example =
    encode_cross_vm_calldata_reads toy_hash ping ping_data ping_encoded ping_short

bad_target :
    encode_cross_vm_calldata toy_hash (record ping { target_vm = some 2 })
    ≡ err (unsupported_target 2)
unfolding encode_cross_vm_calldata
bad_target = refl

-- The offset 32, the length 1, and the one byte.
abbrev one_byte : Bytes
one_byte = replicate 31 0 ++ (32 ∷ (replicate 31 0 ++ (1 ∷ 7 ∷ [])))

one_byte_read : decode_cross_vm_result (raw one_byte) ≡ ok (7 ∷ [])
unfolding decode_cross_vm_result to_bytes
one_byte_read = refl

decode_cross_vm_result_iff_example : (decode_cross_vm_result (raw one_byte) ≡ ok (7 ∷ [])) ↔ (
    (64 ≤ length one_byte)
    × (read_word one_byte 0 + 32 + read_word one_byte (read_word one_byte 0) ≤ length one_byte)
    × (7 ∷ [] ≡ argument_at one_byte 0))
decode_cross_vm_result_iff_example = decode_cross_vm_result_iff one_byte (7 ∷ [])

abbrev open_params : ServedParams
open_params = record {
  enabled = some true;
  bridge_allowed_targets = some (js "cosmwasm:qor1x" ∷ []);
  max_message_size = some (whole 64);
}
