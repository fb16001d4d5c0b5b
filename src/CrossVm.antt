-- ===== src/CrossVm.antt =====
-- packages/ts/src/crossvm/index.ts: the call data of the cross-VM precompile, what comes back of it, and
-- whether a call would reach its target. `keccak256` is the library's hash and `decode_text` the
-- runtime's TextDecoder.
pub mod Words
pub mod Tuple
pub mod Calls
mod Tests
use qorechain_rdk.Prelude.{
  ◌+◌, ◌-◌, ◌*◌, ◌/◌, ℕ, Bool, true, false, not, ◌&&◌, ◌||◌, Option, none, some, List, [], ◌∷◌,
  ◌++◌, map, ltb, ◌==◌, if◌then◌else◌, length, take, drop, replicate, Result, ok, err, ◌>>=◌,
}
use qorechain_rdk.Text.Encoder.{utf8}
use qorechain_rdk.QoreHash.{concat_parts}
use qorechain_rdk.Bytes.{big_endian, Bytes}
use qorechain_rdk.Receipts.{lower_unit}
use qorechain_rdk.Bytes.Hex.{bytes_to_hex, to_bytes, BytesInput, HexError}
use qorechain_rdk.Text.{JsNumber, whole, str_eq, JsString, js, includes}
use mathlib.Core.Option.{get_or}

unfoldable pub u256be : ℕ → Bytes
u256be value = big_endian 32 value

-- `Math.ceil(n / 32) * 32`.
abbrev pub ceil_32 : ℕ → ℕ
ceil_32 n = (n + 31) / 32 * 32

unfoldable pub pad_right_32 : Bytes → Bytes
pad_right_32 content = content ++ replicate (ceil_32 (length content) - length content) 0

-- One item of the tail: its length and its padded bytes.
unfoldable pub chunk_of : Bytes → Bytes
chunk_of item = u256be (length item) ++ pad_right_32 item

-- The loop over the items: the offsets of the head, and the chunks of the tail.
unfoldable pub tuple_loop : ℕ → ℕ → List Bytes → List Bytes × List Bytes
tuple_loop head_len running [] = ([], [])
tuple_loop head_len running (item ∷ items) =
    let rest = tuple_loop head_len (running + length (chunk_of item)) items in
    (u256be (head_len + running) ∷ rest.0, chunk_of item ∷ rest.1)

unfoldable pub encode_dynamic_tuple : List Bytes → ℕ → Bytes
unfolding tuple_loop
encode_dynamic_tuple items head_words =
    let parts = tuple_loop ((head_words + length items) * 32) 0 items in
    concat_parts (parts.0 ++ parts.1)

-- `string | Uint8Array`: a string is sent as its UTF-8.
pub data CallMessage : Type 0 where
  json_text : JsString → CallMessage
  raw_message : Bytes → CallMessage

pub record CrossVmCall : Type 0 where
  pub contract : JsString
  pub msg : CallMessage
  pub target_vm : Option ℕ

abbrev pub message_bytes : CallMessage → Bytes
message_bytes (json_text s) = utf8 s
message_bytes (raw_message b) = b

abbrev pub cross_vm_default_signature : JsString
cross_vm_default_signature = js "executeCrossVMCall(uint8,string,bytes)"

pub data CrossVmError : Type 0 where
  unsupported_target : ℕ → CrossVmError
  bad_hex : HexError → CrossVmError
  empty_return out_of_range too_short : CrossVmError
  too_few_bytes : ℕ → CrossVmError

module _ (keccak256 : Bytes → Bytes) where
  -- Without the "0x".
  unfoldable pub function_selector : JsString → Bytes
  function_selector signature = take 4 (keccak256 (utf8 signature))

  -- The bytes whose hex text, after "0x", is the call data.
  unfoldable pub encode_cross_vm_calldata : CrossVmCall → Result CrossVmError Bytes
  unfolding encode_dynamic_tuple function_selector
  encode_cross_vm_calldata call =
      let target = get_or call.target_vm 1 in
      if not (target == 0) && not (target == 1)
      then err (unsupported_target target)
      else ok (
          function_selector cross_vm_default_signature
          ++ (u256be target
              ++ encode_dynamic_tuple (utf8 call.contract ∷ message_bytes call.msg ∷ []) 1))

-- `readWord`: 32 bytes from `at` on, as a number.
unfoldable pub read_bytes : ℕ → Bytes → ℕ
read_bytes v [] = v
read_bytes v (b ∷ bs) = read_bytes (v * 256 + b) bs

unfoldable pub read_word : Bytes → ℕ → ℕ
unfolding read_bytes
read_word b start = read_bytes 0 (take 32 (drop start b))

-- Where an offset or a length is no safe integer it is larger than any buffer, and the same test fails.
unfoldable pub slice_at : Bytes → Result CrossVmError Bytes
unfolding read_word
slice_at b =
    let offset = read_word b 0 in
    let len = read_word b offset in
    if ltb (length b) (offset + 32)
    then err out_of_range
    else if ltb (length b) (offset + 32 + len)
    then err too_short
    else ok (take len (drop (offset + 32) b))

abbrev pub unhexed : Result HexError Bytes → Result CrossVmError Bytes
unhexed (err e) = err (bad_hex e)
unhexed (ok b) = ok b

unfoldable pub decode_cross_vm_result : BytesInput → Result CrossVmError Bytes
unfolding slice_at
decode_cross_vm_result ret = do
  b ← unhexed (to_bytes ret)
  if length b == 0
      then err empty_return
      else if ltb (length b) 64
      then err (too_few_bytes (length b))
      else slice_at b

abbrev pub text_of : (Bytes → JsString) → Result CrossVmError Bytes → Option JsString
text_of decode_text (err e) = none
text_of decode_text (ok b) = some (decode_text b)

unfoldable pub decode_revert_reason :
    (Bytes → JsString) → BytesInput → Result CrossVmError (Option JsString)
unfolding slice_at
decode_revert_reason decode_text revert = do
  b ← unhexed (to_bytes revert)
  if ltb (length b) 68 || not (str_eq (bytes_to_hex (take 4 b)) (js "08c379a0"))
      then ok none
      else ok (text_of decode_text (slice_at (drop 4 b)))

abbrev pub cross_vm_precompile : JsString
cross_vm_precompile = js "0x0000000000000000000000000000000000000901"

-- What a node answers to a GET: an HTTP status that is no success, or the part of the body that is read.
pub data Answer {ℓ} (A : Type ℓ) : Type ℓ where
  refused : ℕ → Answer A
  body : A → Answer A

pub data PrecompileReason : Type 0 where
  listed none_active : PrecompileReason
  unread : ℕ → PrecompileReason
  not_among : ℕ → PrecompileReason

pub record CrossVmPrecompileStatus : Type 0 where
  pub active : Bool
  pub active_precompiles : List JsString
  pub reason : PrecompileReason

-- `Array.isArray(x) ? x : []`, where what is no array is `none`.
abbrev pub array_or_empty : Option (List JsString) → List JsString
array_or_empty none = []
array_or_empty (some entries) = entries

-- The body is `params.active_static_precompiles`, each entry as its text.
unfoldable pub is_cross_vm_precompile_active :
    Answer (Option (List JsString)) → CrossVmPrecompileStatus
is_cross_vm_precompile_active (refused status) = record {
  active = false;
  active_precompiles = [];
  reason = unread status;
}
is_cross_vm_precompile_active (body raw) =
    let entries = map (map lower_unit) (array_or_empty raw) in
    let active = includes entries (map lower_unit cross_vm_precompile) in
    record {
      active = active;
      active_precompiles = entries;
      reason =
          if active
          then listed
          else if length entries == 0
          then none_active
          else not_among (length entries);
    }

pub record CrossVmParams : Type 0 where
  pub enabled : Bool
  pub bridge_allowed_targets : List JsString
  pub max_message_size : JsNumber

-- The fields that are read of `params`, or of the body where it has none: a field that is absent or of
-- another type is `none`, and the size is what `Number` makes of it.
pub record ServedParams : Type 0 where
  pub enabled : Option Bool
  pub bridge_allowed_targets : Option (List JsString)
  pub max_message_size : Option JsNumber

abbrev pub is_true : Option Bool → Bool
is_true none = false
is_true (some b) = b

unfoldable pub get_cross_vm_params : Answer ServedParams → Result ℕ CrossVmParams
get_cross_vm_params (refused status) = err status
get_cross_vm_params (body p) = ok (record {
  enabled = is_true p.enabled;
  bridge_allowed_targets = array_or_empty p.bridge_allowed_targets;
  max_message_size = get_or p.max_message_size (whole 0);
})

pub data ReadyReason : Type 0 where
  precompile_off : PrecompileReason → ReadyReason
  params_unread : ℕ → ReadyReason
  bridge_disabled : ReadyReason
  allowlisted not_allowlisted : JsString → ReadyReason

abbrev pub target_by : JsString → Result ℕ CrossVmParams → Bool × ReadyReason
target_by contract (err status) = (false, params_unread status)
target_by contract (ok params) =
    let target = js "cosmwasm:" ++ contract in
    if not params.enabled
    then (false, bridge_disabled)
    else if includes params.bridge_allowed_targets target
    then (true, allowlisted target)
    else (false, not_allowlisted target)

unfoldable pub cross_vm_target_ready :
    Answer (Option (List JsString)) → Answer ServedParams → JsString → Bool × ReadyReason
unfolding is_cross_vm_precompile_active get_cross_vm_params
cross_vm_target_ready precompiles params contract =
    let precompile = is_cross_vm_precompile_active precompiles in
    if not precompile.active
    then (false, precompile_off precompile.reason)
    else target_by contract (get_cross_vm_params params)
