-- ===== src/Transition.antt =====
-- packages/ts/src/transition/index.ts: the batch transition root under both bindings, which binding a
-- batch is judged by, and the fraud proof. `shake` is the hash library's SHAKE-256 with 32 bytes.
pub mod Preimage
pub mod Binding
pub mod Cases
pub mod Version
mod Tests
use qorechain_rdk.Prelude.{
  ◌>>=◌, ℕ, Bool, true, false, not, ◌&&◌, ◌||◌, Option, none, some, List, [], ◌∷◌, ◌++◌, ltb, leb,
  ◌==◌, if◌then◌else◌, length, Result, ok, err,
}
use qorechain_rdk.Text.{JsString, js, is_empty}
use qorechain_rdk.Text.Encoder.{utf8}
use qorechain_rdk.Bytes.{Bytes, u64be, u32be}
use qorechain_rdk.Bytes.Hex.{HexError, BytesInput, to_bytes}
use qorechain_rdk.QoreHash.{qorehash}
use qorechain_rdk.Views.{Rest}

pub data TransitionRootVersion : Type 0 where
  v1 v2 : TransitionRootVersion

-- An absent chain id or rollup id is `none`; an empty one is falsy too.
pub record TransitionInput : Type 0 where
  pub prev_state_root : BytesInput
  pub data_hash : Option BytesInput
  pub tx_count : ℕ
  pub chain_id : Option JsString
  pub rollup_id : Option JsString
  pub withdrawals_root : Option BytesInput

pub data TransitionError : Type 0 where
  hex_error : HexError → TransitionError
  missing_ids : TransitionError
  withdrawals_root_length : ℕ → TransitionError
  proof_roots_length : TransitionError

abbrev pub rethrow {ℓ} : {A : Type ℓ} → Result HexError A → Result TransitionError A
rethrow (ok a) = ok a
rethrow (err e) = err (hex_error e)

unfoldable pub bytes_of : Option BytesInput → Result TransitionError Bytes
unfolding to_bytes
bytes_of none = ok []
bytes_of (some b) = rethrow (to_bytes b)

-- `[u32be(b.length), b]`.
abbrev pub field : Bytes → List Bytes
field b = u32be (length b) ∷ b ∷ []

module _ (shake : Bytes → Bytes) where
  unfoldable pub batch_transition_root_v1 : TransitionInput → Result TransitionError Bytes
  batch_transition_root_v1 input = do
    prev ← bytes_of (some input.prev_state_root)
    hash ← bytes_of input.data_hash
    ok (qorehash shake (prev ∷ hash ∷ u64be input.tx_count ∷ []))

-- The parts that the v2 root hashes.
abbrev pub v2_parts : JsString → JsString → Bytes → Bytes → ℕ → Bytes → List Bytes
v2_parts chain rollup prev hash count withdrawals =
    field (utf8 (js "qorechain-rdk-transition/v2"))
    ++ (field (utf8 chain)
        ++ (field (utf8 rollup)
            ++ (field prev ++ (field hash ++ (u64be count ∷ field withdrawals)))))

-- A string that is there and not empty.
abbrev pub truthy : Option JsString → Bool
truthy none = false
truthy (some s) = not (is_empty s)

abbrev pub given : Option JsString → JsString
given none = []
given (some s) = s

module _ (shake : Bytes → Bytes) where
  unfoldable pub batch_transition_root_v2 : TransitionInput → Result TransitionError Bytes
  batch_transition_root_v2 input =
      if not (truthy input.chain_id) || not (truthy input.rollup_id) then err missing_ids else do
        withdrawals ← bytes_of input.withdrawals_root
        if not (length withdrawals == 0) && not (length withdrawals == 32)
            then err (withdrawals_root_length (length withdrawals))
            else do
              prev ← bytes_of (some input.prev_state_root)
              hash ← bytes_of input.data_hash
              ok (
                  qorehash shake (
                    v2_parts (given input.chain_id) (given input.rollup_id) prev hash input.tx_count
                      withdrawals))

  unfoldable pub batch_transition_root :
      TransitionInput → TransitionRootVersion → Result TransitionError Bytes
  unfolding batch_transition_root_v1 batch_transition_root_v2
  batch_transition_root input v2 = batch_transition_root_v2 input
  batch_transition_root input v1 = batch_transition_root_v1 shake input

abbrev pub feature_rdk_withdrawals_binding : JsString
feature_rdk_withdrawals_binding = js "rdk-withdrawals-binding"

abbrev pub withdrawals_binding_upgrade : JsString
withdrawals_binding_upgrade = js "v3.2.5"

unfoldable pub transition_root_version_for : Rest → Result JsString TransitionRootVersion
transition_root_version_for rest = do
  enabled ← rest.is_protocol_feature_enabled feature_rdk_withdrawals_binding
  ok (if enabled then v2 else v1)

abbrev pub is_true : Option Bool → Bool
is_true (some true) = true
is_true _ = false

unfoldable pub transition_root_version_for_batch :
    Rest → ℕ → Option Bool → Result JsString TransitionRootVersion
transition_root_version_for_batch rest submitted_at withdrawals_bound =
    if is_true withdrawals_bound then ok v2 else do
      applied ← rest.get_applied_plan_height withdrawals_binding_upgrade
      ok (if ltb 0 applied && leb applied submitted_at then v2 else v1)

unfoldable pub fraud_proof : BytesInput → BytesInput → Result TransitionError Bytes
unfolding to_bytes
fraud_proof prev_state_root correct_state_root = do
  prev ← rethrow (to_bytes prev_state_root)
  correct ← rethrow (to_bytes correct_state_root)
  if not (length prev == 32) || not (length correct == 32)
      then err proof_roots_length
      else ok (prev ++ correct)
