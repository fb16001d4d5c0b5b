-- ===== src/Tx/Client/Guards.antt =====
-- packages/ts/src/tx/client.ts: what an operation has checked by the time that it sends, and what it
-- sends.
use qorechain_rdk.Prelude.{
  ℕ, ◌≡◌, sym, ap, ◌≢◌, ◌⊎◌, Bool, true, false, Option, none, some, List, [], Result, ok,
  ok-injective, >>=-eq-ok,
}
use qorechain_rdk.Tx.Client.Broadcast.{
  resolve_fee, broadcast, send_hybrid, broadcast_by, pick, broadcast_hybrid,
}
use mathlib.Core.Option
use qorechain_rdk.Tx.Client.{auto}
use qorechain_rdk.Text.{JsString}
use qorechain_rdk.Tx.Messages.{bytes_or_empty, SubmitBatchInput, EncodeObject, given}
use qorechain_rdk.Tx.Client.{
  Bytes, thrown_by, post_quantum, classical, Sdk, TxClient, TxOptions, Request, HybridConfig,
}
use qorechain_rdk.Tx.Client.Operations.{AnchorMode}
use qorechain_rdk.Tx.Client.Creator.{SignedByCreator}

abbrev pub messages_of : Request → List EncodeObject
messages_of (classical address messages fee memo) = messages
messages_of (post_quantum request) = request.messages

abbrev pub is_post_quantum : Request → Bool
is_post_quantum (classical address messages fee memo) = false
is_post_quantum (post_quantum request) = true

abbrev pub signs_hybrid : Option HybridConfig → Bool
signs_hybrid none = false
signs_hybrid (some hybrid) = true

module _ (sdk : Sdk) (client : TxClient) (messages : List EncodeObject) (opts : TxOptions)
    (request : Request) where
  hybrid_sent :
      (hybrid : HybridConfig) (c : Result JsString JsString)
      (s : JsString → Result JsString (ℕ × ℕ))
      → send_hybrid sdk client hybrid messages opts c s ≡ ok request
      → (messages_of request ≡ messages) × (is_post_quantum request ≡ true)
  unfolding send_hybrid
  hybrid_sent hybrid c s h =
      let (fee, h1, h2) =
        >>=-eq-ok (resolve_fee sdk client messages (Option.get_or opts.fee auto) opts.memo) _ h in
      let (chain, h3, h4) = >>=-eq-ok (thrown_by c) _ h2 in
      let (account, h5, h6) = >>=-eq-ok (thrown_by (s client.address)) _ h4 in
      let same = ok-injective h6 in (ap messages_of (sym same), ap is_post_quantum (sym same))

  hybrid_sends :
      (hybrid : HybridConfig) (c : Option (Result JsString JsString))
      (s : Option (JsString → Result JsString (ℕ × ℕ))) (b : Bool)
      → pick c s b (send_hybrid sdk client hybrid messages opts) ≡ ok request
      → (messages_of request ≡ messages) × (is_post_quantum request ≡ true)
  hybrid_sends hybrid none s b h = absurd (cc)
  hybrid_sends hybrid (some c) none b h = absurd (cc)
  hybrid_sends hybrid (some c) (some s) false h = absurd (cc)
  hybrid_sends hybrid (some c) (some s) true h = hybrid_sent hybrid c s h

  by_sends :
      (hybrid : Option HybridConfig)
      → broadcast_by sdk client hybrid messages opts ≡ ok request
      → (messages_of request ≡ messages) × (is_post_quantum request ≡ signs_hybrid hybrid)
  unfolding broadcast_hybrid
  by_sends none h =
      let same = ok-injective h in (ap messages_of (sym same), ap is_post_quantum (sym same))
  by_sends (some hybrid) h =
      hybrid_sends hybrid client.transport.get_chain_id client.transport.get_sequence
        client.transport.has_broadcast_tx h

  -- What is sent is the messages given, signed post-quantum exactly where the client has a key for it.
  pub broadcast_sends :
      broadcast sdk client messages opts ≡ ok request
      → (messages_of request ≡ messages) × (is_post_quantum request ≡ signs_hybrid client.hybrid)
  unfolding broadcast
  broadcast_sends h = by_sends client.hybrid h

-- What a submitted batch carries for its anchor: the signature given; else the one that the client
-- makes as the rollup's creator; else none, where the mode allows that.
abbrev pub AnchorSent : Sdk → TxClient → SubmitBatchInput → AnchorMode → Bytes → Type 0
AnchorSent sdk client input mode sent =
    ((given input.anchor_signature ≡ true) × (bytes_or_empty input.anchor_signature ≡ ok sent))
    ⊎ (((given input.anchor_signature ≡ false) × SignedByCreator sdk client input sent)
        ⊎ ((given input.anchor_signature ≡ false) × (mode ≢ AnchorMode.require) × (sent ≡ [])))
