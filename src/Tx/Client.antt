-- ===== src/Tx/Client.antt =====
-- packages/ts/src/tx/client.ts: the transaction client. Its operations answer with what is handed to
-- the wallet library for signing and broadcast, or with what they throw before that.
pub mod Broadcast
pub mod Anchor
pub mod Operations
pub mod Creator
pub mod Verified
pub mod Guards
pub mod Carried
pub mod Submission
pub mod Refusals
pub mod Toy
mod Tests
use qorechain_rdk.Prelude.{ℕ, Bool, Option, none, some, List, Result, ok, err}
use qorechain_rdk.Rules.{
  WithdrawalRuleError, StopError, DataHashError, WithdrawalsRootError, IdError,
}
use qorechain_rdk.Bytes.{Bytes}
use qorechain_rdk.Text.{JsString, js}
use qorechain_rdk.Views.{Rest}
use qorechain_rdk.Lifecycle.{ActionError}
use qorechain_rdk.Tx.Messages.{MessageError, EncodeObject}

abbrev pub feature_rdk_challenge_settlement : JsString
feature_rdk_challenge_settlement = js "rdk-challenge-settlement"

pub record StdFee : Type 0 where
  pub amount : List (JsString × JsString)
  pub gas : JsString

-- A gas price stands for the text that it was made from.
pub data TxFee : Type 0 where
  std_fee : StdFee → TxFee
  gas_limit : ℕ → TxFee
  auto : TxFee

pub record PqcKeypair : Type 0 where
  pub public_key : Bytes
  pub secret_key : Bytes

-- The libraries' part: pricing a gas limit, the ML-DSA-87 signature by a secret key (it may throw),
-- and whether a text is a bech32 address.
pub record Sdk : Type 0 where
  pub calculate_fee : ℕ → JsString → StdFee
  pub pqc_sign : Bytes → Bytes → Result JsString Bytes
  pub is_bech32 : JsString → Bool

-- The connected client by its optional methods, with what they answer or throw.
pub record Transport : Type 0 where
  pub get_chain_id : Option (Result JsString JsString)
  pub get_sequence : Option (JsString → Result JsString (ℕ × ℕ))
  pub has_broadcast_tx : Bool
  pub simulate : Option (JsString → List EncodeObject → Option JsString → Result JsString ℕ)

-- `rest` is the read client at the URL given, `none` where that is absent or empty.
pub record HybridConfig : Type 0 where
  pub pqc_keypair : PqcKeypair
  pub rest : Option Rest
  pub sign_bytes_version : Option JsString
  pub include_pqc_public_key : Option Bool

pub record TxClient : Type 0 where
  pub transport : Transport
  pub address : JsString
  pub hybrid : Option HybridConfig
  pub gas_price : Option JsString

pub record TxOptions : Type 0 where
  pub fee : Option TxFee
  pub memo : Option JsString

-- What goes to `signAndBroadcastHybrid`.
pub record HybridRequest : Type 0 where
  pub keypair : PqcKeypair
  pub messages : List EncodeObject
  pub fee : StdFee
  pub memo : JsString
  pub chain_id : JsString
  pub account_number : ℕ
  pub sequence : ℕ
  pub include_pqc_public_key : Option Bool
  pub sign_bytes_version : JsString

-- What goes to `signAndBroadcast`, or to the hybrid signer.
pub data Request : Type 0 where
  classical : JsString → List EncodeObject → TxFee → JsString → Request
  post_quantum : HybridRequest → Request

-- Why a batch goes unanchored.
pub data NoAnchor : Type 0 where
  not_hybrid no_rest no_chain_id no_layer_id : NoAnchor
  rollup_unreadable : JsString → NoAnchor
  not_creator : JsString → NoAnchor

pub data TxError : Type 0 where
  no_direct_signer signer_needed no_accounts : TxError
  no_simulation no_gas_price no_hybrid_transport : TxError
  thrown : JsString → TxError
  bad_message : MessageError → TxError
  bad_id : IdError → TxError
  bad_withdrawals_root : WithdrawalsRootError → TxError
  bad_data_hash : DataHashError → TxError
  not_allowed : ActionError → TxError
  not_stoppable : StopError → TxError
  bad_withdrawal : List WithdrawalRuleError → TxError
  not_anchored : NoAnchor → TxError

abbrev pub thrown_by {ℓ} : {A : Type ℓ} → Result JsString A → Result TxError A
thrown_by (err e) = err (thrown e)
thrown_by (ok a) = ok a

abbrev pub built {ℓ} : {A : Type ℓ} → Result MessageError A → Result TxError A
built (err e) = err (bad_message e)
built (ok a) = ok a

-- `if (error) throw`.
abbrev pub refuse {ℓ} : {E : Type ℓ} → (E → TxError) → Option E → Result TxError (Unit {0})
refuse wrap none = ok tt
refuse wrap (some e) = err (wrap e)
