-- ===== src/Tx/Client/Broadcast.antt =====
-- packages/ts/src/tx/client.ts: connecting, simulation, the fee and the two ways of broadcasting.
use qorechain_rdk.Prelude.{
  ◌+◌, ◌*◌, ◌/◌, ℕ, Bool, Option, none, some, List, [], ◌∷◌, if◌then◌else◌, Result, ok, err, ◌>>=◌,
}
use qorechain_rdk.Text.{JsString, js}
use qorechain_rdk.Views.{Rest}
use qorechain_rdk.Tx.Messages.{EncodeObject}
use qorechain_rdk.Tx.Client.{
  gas_limit, post_quantum, std_fee, no_gas_price, signer_needed, no_hybrid_transport, thrown,
  thrown_by, no_direct_signer, StdFee, PqcKeypair, classical, auto, no_simulation, TxFee,
  no_accounts, Sdk, TxClient, TxOptions, Request, TxError, Transport, HybridConfig,
}
use mathlib.Core.Option.{get_or}

-- A signer: whether it has `signDirect`, and its accounts.
pub record OfflineSigner : Type 0 where
  pub has_sign_direct : Bool
  pub accounts : List JsString

-- The gas price is what `GasPrice.fromString` makes of a text.
pub record ConnectOptions : Type 0 where
  pub pqc_keypair : Option PqcKeypair
  pub rest : Option Rest
  pub sign_bytes_version : Option JsString
  pub include_pqc_public_key : Option Bool
  pub gas_price : Option (Result JsString JsString)

unfoldable pub as_direct_signer : OfflineSigner → Result TxError OfflineSigner
as_direct_signer signer = if signer.has_sign_direct then ok signer else err no_direct_signer

abbrev pub hybrid_of :
    OfflineSigner → ConnectOptions → PqcKeypair → Result TxError (Option HybridConfig)
hybrid_of signer options keypair = do
  direct ← as_direct_signer signer
  ok (
      some (record {
        pqc_keypair = keypair;
        rest = options.rest;
        sign_bytes_version = options.sign_bytes_version;
        include_pqc_public_key = options.include_pqc_public_key;
      }))

abbrev pub when_keypair :
    Option PqcKeypair
    → (PqcKeypair → Result TxError (Option HybridConfig))
    → Result TxError (Option HybridConfig)
when_keypair none f = ok none
when_keypair (some keypair) f = f keypair

unfoldable pub hybrid_config_from :
    OfflineSigner → ConnectOptions → Result TxError (Option HybridConfig)
unfolding as_direct_signer
hybrid_config_from signer options = when_keypair options.pqc_keypair (hybrid_of signer options)

abbrev pub price_of : Option (Result JsString JsString) → Result TxError (Option JsString)
price_of none = ok none
price_of (some (err e)) = err (thrown e)
price_of (some (ok p)) = ok (some p)

abbrev pub first_account : List JsString → Result TxError JsString
first_account [] = err no_accounts
first_account (a ∷ more) = ok a

-- `connectWithSigner` answers a client or throws.
unfoldable pub connect :
    Result JsString Transport → OfflineSigner → ConnectOptions → Result TxError TxClient
unfolding hybrid_config_from
connect connected signer options = do
  gas_price ← price_of options.gas_price
  hybrid ← hybrid_config_from signer options
  transport ← thrown_by connected
  address ← first_account signer.accounts
  ok (record { transport = transport; address = address; hybrid = hybrid; gas_price = gas_price })

abbrev pub hybrid_with :
    Option OfflineSigner → ConnectOptions → PqcKeypair → Result TxError (Option HybridConfig)
hybrid_with none options keypair = err signer_needed
hybrid_with (some signer) options keypair = hybrid_config_from signer options

unfoldable pub from_client :
    Transport → JsString → ConnectOptions → Option OfflineSigner → Result TxError TxClient
unfolding hybrid_config_from
from_client transport address options signer = do
  gas_price ← price_of options.gas_price
  hybrid ← when_keypair options.pqc_keypair (hybrid_with signer options)
  ok (record { transport = transport; address = address; hybrid = hybrid; gas_price = gas_price })

abbrev pub estimate_by :
    Option (JsString → List EncodeObject → Option JsString → Result JsString ℕ)
    → JsString
    → List EncodeObject
    → Option JsString
    → Result TxError ℕ
estimate_by none address messages memo = err no_simulation
estimate_by (some estimate) address messages memo = thrown_by (estimate address messages memo)

unfoldable pub simulate : TxClient → List EncodeObject → Option JsString → Result TxError ℕ
simulate client messages memo = estimate_by client.transport.simulate client.address messages memo

abbrev pub with_price : Option JsString → (JsString → Result TxError StdFee) → Result TxError StdFee
with_price none f = err no_gas_price
with_price (some price) f = f price

-- `Math.round(gas * 1.4)`: the product ends in an even tenth, so no half is rounded, and up to 2 ^ 48
-- the floating-point product is nearer to it than a tenth.
unfoldable pub with_margin : ℕ → ℕ
with_margin gas = (gas * 14 + 5) / 10

unfoldable pub resolve_fee :
    Sdk → TxClient → List EncodeObject → TxFee → Option JsString → Result TxError StdFee
unfolding simulate with_margin
resolve_fee sdk client messages (std_fee fee) memo = ok fee
resolve_fee sdk client messages (gas_limit gas) memo =
    with_price client.gas_price (λ price. ok (sdk.calculate_fee gas price))
resolve_fee sdk client messages auto memo = with_price client.gas_price (λ price. do
  gas ← simulate client messages memo
  ok (sdk.calculate_fee (with_margin gas) price))

-- The methods that the hybrid path asks for.
abbrev pub pick :
    Option (Result JsString JsString)
    → Option (JsString → Result JsString (ℕ × ℕ))
    → Bool
    → (Result JsString JsString → (JsString → Result JsString (ℕ × ℕ)) → Result TxError Request)
    → Result TxError Request
pick none sequence_read sends f = err no_hybrid_transport
pick (some chain_id_read) none sends f = err no_hybrid_transport
pick (some chain_id_read) (some sequence_read) sends f =
    if sends then f chain_id_read sequence_read else err no_hybrid_transport

module _ (sdk : Sdk) (client : TxClient) (hybrid : HybridConfig) (messages : List EncodeObject)
    (opts : TxOptions) where
  unfoldable pub send_hybrid :
      Result JsString JsString → (JsString → Result JsString (ℕ × ℕ)) → Result TxError Request
  unfolding resolve_fee
  send_hybrid chain_id_read sequence_read = do
    fee ← resolve_fee sdk client messages (get_or opts.fee auto) opts.memo
    chain_id ← thrown_by chain_id_read
    account ← thrown_by (sequence_read client.address)
    ok (
        post_quantum (record {
          keypair = hybrid.pqc_keypair;
          messages = messages;
          fee = fee;
          memo = get_or opts.memo [];
          chain_id = chain_id;
          account_number = account.0;
          sequence = account.1;
          include_pqc_public_key = hybrid.include_pqc_public_key;
          sign_bytes_version = get_or hybrid.sign_bytes_version (js "auto");
        }))

  unfoldable pub broadcast_hybrid : Result TxError Request
  unfolding send_hybrid
  broadcast_hybrid =
      pick client.transport.get_chain_id client.transport.get_sequence
        client.transport.has_broadcast_tx send_hybrid

abbrev pub broadcast_by :
    Sdk → TxClient → Option HybridConfig → List EncodeObject → TxOptions → Result TxError Request
broadcast_by sdk client none messages opts =
    ok (classical client.address messages (get_or opts.fee auto) (get_or opts.memo []))
broadcast_by sdk client (some hybrid) messages opts =
    broadcast_hybrid sdk client hybrid messages opts

unfoldable pub broadcast : Sdk → TxClient → List EncodeObject → TxOptions → Result TxError Request
unfolding broadcast_hybrid
broadcast sdk client messages opts = broadcast_by sdk client client.hybrid messages opts
