-- ===== src/Tx/Client/Refusals.antt =====
-- packages/ts/src/tx/client.ts: what the other operations have checked by the time that they send.
mod Tests
use qorechain_rdk.Prelude.{
  ◌≡◌, refl, sym, ap, ◌∙◌, subst, ◌≢◌, ◌⊎◌, inl, inr, true, Option, none, some, [], ◌∷◌, arith,
  Bool-cases, ok, ◌>>=◌, ok-injective, >>=-eq-ok,
}
use qorechain_rdk.Tx.Client.Carried.{big-ok}
use qorechain_rdk.Tx.Client.Creator.{built-ok}
use qorechain_rdk.Tx.Client.Submission.{refuse-ok}
use qorechain_rdk.Tx.Client.Guards.{broadcast_sends, messages_of}
use qorechain_rdk.Rules.Id.{rollup_id_error_iff, matches_grammar}
use qorechain_rdk.Rules.{rollup_id_error, stop_rollup_error, WithdrawalForValidation}
use mathlib.Core.Option
use qorechain_rdk.Text.{str_eq→eq, str_eq, JsString, js}
use qorechain_rdk.Views.{Rest, BatchView}
use qorechain_rdk.Lifecycle
use qorechain_rdk.Lifecycle.{
  assert_rollup_action, can_perform_rollup_action, RollupStatus, RollupAction,
}
use qorechain_rdk.Tx.Messages.{
  big, vm_type_wire_value, stop_rollup_msg, CreateRollupInput, ExecuteWithdrawalInput,
  create_rollup_msg,
}
use qorechain_rdk.Tx.Messages
use qorechain_rdk.Tx.Codecs.CreateRollup
use qorechain_rdk.Tx.Codecs.CreateRollup.{MsgCreateRollup}
use qorechain_rdk.Tx.Codecs.StopRollup
use qorechain_rdk.Tx.Codecs.ExecuteWithdrawal
use qorechain_rdk.Tx.Client.{
  built, not_stoppable, bad_id, refuse, feature_rdk_challenge_settlement, Sdk, TxClient, TxOptions,
  Request,
}
use qorechain_rdk.Tx.Client.Operations

-- The wire value of a VM type: "native" is sent as "cosmwasm", any other as it is.
abbrev pub Wired : JsString → JsString → Type 0
Wired vm sent = ((vm ≡ js "native") × (sent ≡ js "cosmwasm")) ⊎ ((vm ≢ js "native") × (sent ≡ vm))

wire_value : (vm : JsString) → Wired vm (vm_type_wire_value vm)
unfolding vm_type_wire_value
wire_value vm = elim (Bool-cases (str_eq vm (js "native"))) [
  | inl same ↦ rw same (inl (str_eq→eq vm (js "native") same, refl))
  | inr other ↦ rw other (inr (λ e. cc (other, ap (λ t. str_eq t (js "native")) e), refl))
]

-- A rollup is created only under an id of the chain's grammar, by the client's address or by the creator
-- that the input names although its type leaves it out. Profile and stake are the input's, and so is
-- the VM type, but "cosmwasm" stands for "native", which the chain does not know.
pub create_rollup_sends :
    (sdk : Sdk) (client : TxClient) (own : Option JsString) (input : CreateRollupInput)
    (opts : TxOptions) (request : Request)
    → Operations.create_rollup sdk client own input opts ≡ ok request
    → (matches_grammar input.rollup_id ≡ true)
      × (m : MsgCreateRollup) × (messages_of request ≡ Messages.create_rollup m ∷ [])
      × (m.creator ≡ Operations.sender_of sdk client own)
      × (m.rollup_id ≡ input.rollup_id)
      × (m.profile ≡ input.profile)
      × Wired input.vm_type m.vm_type
      × (some m.stake_amount ≡ input.stake_amount)
unfolding Operations.create_rollup Operations.send create_rollup_msg CreateRollup.from_partial
create_rollup_sends sdk client own input opts request h =
    let (u, id_ok, h1) = >>=-eq-ok (refuse bad_id (rollup_id_error input.rollup_id)) _ h in
    let (object, object_ok, h2) =
      >>=-eq-ok
        (built (create_rollup_msg (record input { creator = Operations.sender_of sdk client own })))
        _ h1 in
    let (stake, stake_ok, h3) =
      >>=-eq-ok (big input.stake_amount) _ (built-ok _ object object_ok) in
    let (sent, lane) = broadcast_sends sdk client (object ∷ []) opts request h2 in
    (
      (rollup_id_error_iff input.rollup_id).0
          (refuse-ok bad_id (rollup_id_error input.rollup_id) id_ok),
      _,
      sent ∙ ap (λ o. o ∷ []) (sym (ok-injective h3)),
      refl,
      refl,
      refl,
      wire_value input.vm_type,
      sym (big-ok input.stake_amount stake stake_ok),
    )

allowed-ok :
    (a : RollupAction) (s : RollupStatus)
    → Operations.allowed (assert_rollup_action a s) ≡ ok tt
    → can_perform_rollup_action a s ≡ true
unfolding assert_rollup_action
allowed-ok a s h = ground arith

module _ (sdk : Sdk) (client : TxClient) (rollup_id : JsString) where
  latest_checked :
      (rest : Rest) (batch : BatchView)
      → rest.is_protocol_feature_enabled feature_rdk_challenge_settlement ≡ ok true
      → rest.get_latest_batch rollup_id ≡ ok batch
      → Operations.stop_by sdk client (some rest) rollup_id ≡ ok tt
      → stop_rollup_error (some batch.status) ≡ none
  latest_checked rest batch on read h =
      refuse-ok not_stoppable (stop_rollup_error (some batch.status)) (ground (arith, on, read))

  status_checked :
      (current : Option RollupStatus) (s : RollupStatus)
      → current ≡ some s
      → Operations.check_action sdk client Lifecycle.stop current ≡ ok tt
      → can_perform_rollup_action Lifecycle.stop s ≡ true
  status_checked none s e h = absurd (cc)
  status_checked (some t) s e h =
      subst (λ (o : RollupStatus). can_perform_rollup_action Lifecycle.stop o ≡ true) (cc)
        (allowed-ok Lifecycle.stop t h)

-- A rollup is stopped only from a status that allows it, where the caller names the status, and, where
-- the chain can be asked and settles challenges, only if its latest batch, if there is one, is settled.
pub stop_rollup_sends :
    (sdk : Sdk) (client : TxClient) (rollup_id : JsString) (current : Option RollupStatus)
    (opts : TxOptions) (request : Request)
    → Operations.stop_rollup sdk client rollup_id current opts ≡ ok request
    → (messages_of request
        ≡ Messages.stop_rollup (record { creator = client.address; rollup_id = rollup_id }) ∷ [])
      × ((s : RollupStatus) → current ≡ some s → can_perform_rollup_action Lifecycle.stop s ≡ true)
      × ((rest : Rest) (batch : BatchView)
          → Operations.hybrid_rest client.hybrid ≡ some rest
          → rest.is_protocol_feature_enabled feature_rdk_challenge_settlement ≡ ok true
          → rest.get_latest_batch rollup_id ≡ ok batch
          → stop_rollup_error (some batch.status) ≡ none)
unfolding Operations.stop_rollup Operations.send stop_rollup_msg StopRollup.from_partial
stop_rollup_sends sdk client rollup_id current opts request h =
    let (u, status_ok, h1) =
      >>=-eq-ok (Operations.check_action sdk client Lifecycle.stop current) _ h in
    let (u', latest_ok, h2) =
      >>=-eq-ok (Operations.stop_by sdk client (Operations.hybrid_rest client.hybrid) rollup_id) _
        h1 in
    let (sent, lane) =
      broadcast_sends sdk client
        (Messages.stop_rollup (record { creator = client.address; rollup_id = rollup_id }) ∷ [])
        opts request h2 in
    (
      sent,
      λ s e. status_checked sdk client rollup_id current s e status_ok,
      λ rest batch has on read.
          latest_checked sdk client rollup_id rest batch on read
            (subst (λ o. Operations.stop_by sdk client o rollup_id ≡ ok tt) has latest_ok),
    )

-- The withdrawal that the rules judge is the one sent: with the same submitter.
abbrev pub judged :
    Sdk → TxClient → Option JsString → ExecuteWithdrawalInput → WithdrawalForValidation
judged sdk client own input = record {
  submitter = Operations.sender_of sdk client own;
  rollup_id = input.rollup_id;
  recipient = input.recipient;
  denom = input.denom;
  amount = input.amount;
  proof = input.proof;
}
