-- ===== src/CrossVm/Calls.antt =====
-- What the call data and the return data of packages/ts/src/crossvm/index.ts mean to a decoder of the
-- contract ABI, and when a call would reach its target.
use qorechain_rdk.Prelude.{
  ◌+◌, ◌-◌, ◌*◌, ◌^◌, ◌≤◌, ◌<◌, ℕ, ◌≡◌, refl, sym, ap, ◌∙◌, subst, ◌↔◌, true, Option, some, List,
  [], ◌∷◌, ◌++◌, map, arith, ltb, ◌==◌, if◌then◌else◌, length, get_elem?, length-append, take, drop,
  replicate, drop-append, Result, ok, err,
}
use qorechain_rdk.Receipts.{lower_unit}
use qorechain_rdk.Text.{js, JsString}
use qorechain_rdk.CrossVm.Tuple.{length-offsets, tuple_reads}
use qorechain_rdk.Text.Encoder.{utf8}
use qorechain_rdk.CrossVm.Words.{read_word-u256be, length-u256be, argument_at}
use qorechain_rdk.Bytes.Hex.{raw, to_bytes}
use qorechain_rdk.QoreHash.{concat_parts}
use qorechain_rdk.Bytes.{Bytes}
use qorechain_rdk.CrossVm.{
  is_true, array_or_empty, ServedParams, ceil_32, refused, cross_vm_precompile, body, too_short,
  out_of_range, Answer, too_few_bytes, get_cross_vm_params, is_cross_vm_precompile_active,
  pad_right_32, empty_return, chunk_of, CrossVmError, cross_vm_target_ready, u256be, message_bytes,
  read_word, slice_at, tuple_loop, cross_vm_default_signature, function_selector,
  encode_dynamic_tuple, decode_cross_vm_result, encode_cross_vm_calldata, CrossVmCall,
}
use mathlib.Core.Option
use qorechain_rdk.Text.{includes}
use mathlib.Core.List.{append-nil, append_assoc}

concat_parts-append :
    (ps qs : List Bytes) → concat_parts (ps ++ qs) ≡ concat_parts ps ++ concat_parts qs
concat_parts-append [] qs = refl
concat_parts-append (p ∷ ps) qs =
    rw (concat_parts-append ps qs) (sym (append_assoc p (concat_parts ps) (concat_parts qs)))

-- Behind a head of `head_words` words, the decoder reads each item of the tuple at its place, where the
-- whole is shorter than a word can count.
pub encode_dynamic_tuple_reads :
    (items : List Bytes) (i : ℕ) (item head : Bytes) (head_words : ℕ)
    → get_elem? items i ≡ some item
    → length head ≡ 32 * head_words
    → length (head ++ encode_dynamic_tuple items head_words) < 256 ^ 32
    → argument_at (head ++ encode_dynamic_tuple items head_words) (32 * (head_words + i)) ≡ item
unfolding encode_dynamic_tuple
encode_dynamic_tuple_reads items i item head head_words g e h =
    let head_len = (head_words + length items) * 32 in
    let offs = (tuple_loop head_len 0 items).0 in
    let tail = (tuple_loop head_len 0 items).1 in
    let split = concat_parts-append offs tail in
    let whole : length head + (length (concat_parts offs) + length (concat_parts tail)) < 256 ^ 32 =
      omega (
        arith,
        length-append {0} head (concat_parts (offs ++ tail)),
        ap (λ (b : Bytes). length b) split,
        length-append {0} (concat_parts offs) (concat_parts tail),
        h,
      ) in
    let place : length head + 32 * i ≡ 32 * (head_words + i) = omega (arith, e) in
    rw split (
      subst (λ (p : ℕ). argument_at (head ++ (concat_parts offs ++ concat_parts tail)) p ≡ item)
        place
        (tuple_reads items i item head_len 0 head [] g (omega (arith, e))
          (omega (arith, length-offsets head_len 0 items, e))))

-- Call data is only made for the targets 0 and 1. Where its length fits a word, it is the selector, the
-- target's word, and a tuple from which a decoder reads the contract's name and the message.
pub encode_cross_vm_calldata_reads :
    (keccak256 : Bytes → Bytes) (call : CrossVmCall) (calldata : Bytes)
    → encode_cross_vm_calldata keccak256 call ≡ ok calldata
    → length calldata < 256 ^ 32
    → let target = Option.get_or call.target_vm 1 in
      let selector = function_selector keccak256 cross_vm_default_signature in
      let arguments = drop (length selector) calldata in
      (target ≤ 1)
      × (calldata ≡ selector ++ arguments)
      × (read_word arguments 0 ≡ target)
      × (argument_at arguments 32 ≡ utf8 call.contract)
      × (argument_at arguments 64 ≡ message_bytes call.msg)
unfolding encode_cross_vm_calldata
encode_cross_vm_calldata_reads keccak256 call calldata h short =
    let target = Option.get_or call.target_vm 1 in
    let selector = function_selector keccak256 cross_vm_default_signature in
    let items : List Bytes = utf8 call.contract ∷ message_bytes call.msg ∷ [] in
    let tuple = encode_dynamic_tuple items 1 in
    let known : target ≤ 1 = ground arith in
    let made : selector ++ (u256be target ++ tuple) ≡ calldata = ground arith in
    let arguments : drop (length selector) calldata ≡ u256be target ++ tuple =
      ap (drop (length selector)) (sym made)
      ∙ drop-append selector (u256be target ++ tuple) (length selector) refl in
    let small : length (u256be target ++ tuple) < 256 ^ 32 = omega (
      arith,
      ap (λ (b : Bytes). length b) made,
      length-append {0} selector (u256be target ++ tuple),
      short,
    ) in
    let head : length (u256be target) ≡ 32 * 1 = omega (arith, length-u256be target) in
    (
      known,
      rw arguments (sym made),
      rw arguments (read_word-u256be [] target tuple 0 refl (omega arith)),
      rw arguments (
          encode_dynamic_tuple_reads items 0 (utf8 call.contract) (u256be target) 1 refl head
            small),
      rw arguments (
          encode_dynamic_tuple_reads items 1 (message_bytes call.msg) (u256be target) 1 refl head
            small),
    )

-- The tests of the decoder over what they read.
checks :
    (n offset len : ℕ) (content r : Bytes)
    → (◌≡◌ {A = Result CrossVmError Bytes}
        (if n == 0
          then err empty_return
          else if ltb n 64
          then err (too_few_bytes n)
          else if ltb n (offset + 32)
          then err out_of_range
          else if ltb n (offset + 32 + len)
          then err too_short
          else ok content)
        (ok r))
      ↔ ((64 ≤ n) × (offset + 32 + len ≤ n) × (r ≡ content))
checks n offset len content r =
    (λ h. (ground arith, ground arith, ground arith), λ h. let (a, b, c) = h in ground arith)

-- Return data is accepted exactly when it holds at least two words and the content that its offset and
-- length name, and then that content is the answer.
pub decode_cross_vm_result_iff :
    (ret r : Bytes)
    → (decode_cross_vm_result (raw ret) ≡ ok r) ↔ (
        (64 ≤ length ret)
        × (read_word ret 0 + 32 + read_word ret (read_word ret 0) ≤ length ret)
        × (r ≡ argument_at ret 0))
unfolding decode_cross_vm_result to_bytes slice_at argument_at
decode_cross_vm_result_iff ret r =
    checks (length ret) (read_word ret 0) (read_word ret (read_word ret 0))
      (take (read_word ret (read_word ret 0)) (drop (read_word ret 0 + 32) ret)) r

one_item :
    (payload : Bytes)
    → encode_dynamic_tuple (payload ∷ []) 0
      ≡ u256be 32 ++ (u256be (length payload) ++ pad_right_32 payload)
unfolding encode_dynamic_tuple tuple_loop chunk_of
one_item payload = simp append-nil

length-one_item :
    (payload : Bytes)
    → 64 + length payload ≤ length (u256be 32 ++ (u256be (length payload) ++ pad_right_32 payload))
unfolding pad_right_32
length-one_item payload =
    let zeros : Bytes = replicate (ceil_32 (length payload) - length payload) 0 in
    omega (
      arith,
      length-append {0} (u256be 32) (u256be (length payload) ++ (payload ++ zeros)),
      length-append {0} (u256be (length payload)) (payload ++ zeros),
      length-append {0} payload zeros,
      length-u256be 32,
      length-u256be (length payload),
    )

-- The encoding of one `bytes` value, where its length fits a word, is decoded to that value.
pub decode_cross_vm_result_back :
    (payload : Bytes)
    → length (encode_dynamic_tuple (payload ∷ []) 0) < 256 ^ 32
    → decode_cross_vm_result (raw (encode_dynamic_tuple (payload ∷ []) 0)) ≡ ok payload
decode_cross_vm_result_back payload short =
    let b = u256be 32 ++ (u256be (length payload) ++ pad_right_32 payload) in
    let size = ap (λ (t : Bytes). length t) (one_item payload) in
    let offset : read_word b 0 ≡ 32 =
      read_word-u256be [] 32 (u256be (length payload) ++ pad_right_32 payload) 0 refl
        (omega arith) in
    let len : read_word b 32 ≡ length payload =
      read_word-u256be (u256be 32) (length payload) (pad_right_32 payload) 32
        (sym (length-u256be 32)) (omega (arith, length-one_item payload)) in
    let fits : read_word b 0 + 32 + read_word b (read_word b 0) ≤ length b =
      rw (offset, len) (omega (arith, length-one_item payload)) in
    (decode_cross_vm_result_iff (encode_dynamic_tuple (payload ∷ []) 0) payload).1 (
      omega (arith, length-one_item payload, size),
      subst (λ t. read_word t 0 + 32 + read_word t (read_word t 0) ≤ length t)
          (sym (one_item payload)) fits,
      sym (encode_dynamic_tuple_reads (payload ∷ []) 0 payload [] 0 refl refl short),
    )

-- A call reaches a contract exactly when a node lists the precompile, serves the parameters, and these
-- enable the bridge and allow the contract.
pub cross_vm_target_ready_iff :
    (precompiles : Answer (Option (List JsString))) (params : Answer ServedParams)
    (contract : JsString)
    → ((cross_vm_target_ready precompiles params contract).0 ≡ true) ↔ (
        (entries : Option (List JsString)) × (p : ServedParams) × (precompiles ≡ body entries)
        × (params ≡ body p)
        × (includes (map (map lower_unit) (array_or_empty entries)) cross_vm_precompile ≡ true)
        × (is_true p.enabled ≡ true)
        × (includes (array_or_empty p.bridge_allowed_targets) (js "cosmwasm:" ++ contract) ≡ true))
unfolding cross_vm_target_ready is_cross_vm_precompile_active get_cross_vm_params
cross_vm_target_ready_iff (refused s) params contract = (λ h. absurd (cc), λ h. absurd (cc h.2))
cross_vm_target_ready_iff (body entries) (refused s) contract =
    (λ h. absurd (ground arith), λ h. absurd (cc h.3))
cross_vm_target_ready_iff (body entries) (body p) contract = (
  λ h. (entries, p, refl, refl, ground arith, ground arith, ground arith),
  λ h.
      let same : h.0 ≡ entries = cc h.2 in
      let same' : h.1 ≡ p = cc h.3 in
      let on : includes (map (map lower_unit) (array_or_empty entries)) cross_vm_precompile ≡ true =
        subst
          (λ (t : Option (List JsString)).
            includes (map (map lower_unit) (array_or_empty t)) cross_vm_precompile ≡ true)
          same h.4 in
      let enabled : is_true p.enabled ≡ true =
        subst (λ (t : ServedParams). is_true t.enabled ≡ true) same' h.5 in
      let allowed : includes (array_or_empty p.bridge_allowed_targets) (js "cosmwasm:" ++ contract)
          ≡ true =
        subst
          (λ (t : ServedParams).
            includes (array_or_empty t.bridge_allowed_targets) (js "cosmwasm:" ++ contract) ≡ true)
          same' h.6 in
      rw (on, enabled, allowed) refl,
)
