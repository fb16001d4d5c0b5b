-- ===== src/Tx/Client/Creator.antt =====
-- packages/ts/src/tx/client.ts: when the client signs a batch's anchor of its own accord, and what
-- that signature is worth to a verifier of settlement receipts.
use qorechain_rdk.Prelude.{
  ◌≡◌, refl, sym, ap, ◌∙◌, subst, ◌↔◌, inl, inr, true, false, Option, none, some, arith, Bool-cases,
  Result, ok, err, >>=-eq-ok,
}
use qorechain_rdk.Text.{str_eq_refl, str_eq→eq, str_eq, is_empty, JsString}
use qorechain_rdk.Views.{Rest, RollupView}
use qorechain_rdk.Tx.Messages.{SubmitBatchInput}
use qorechain_rdk.Tx.Client.{built, thrown_by, Bytes, MessageError, Sdk, TxClient, HybridConfig}
use qorechain_rdk.Tx.Client.Anchor.{
  anchor_hybrid, anchor_rest, try_anchor_signature, anchor_chain, sign_anchor,
  anchor_sign_bytes_for_batch, anchor_rollup, signed,
}

-- What it takes: a post-quantum key, a node that reports the rollup, a layer to anchor to, the
-- rollup's creator as the client's address, and a signature over the anchor bytes of this batch.
pub record SignedByCreator (sdk : Sdk) (client : TxClient) (input : SubmitBatchInput)
    (signature : Bytes) : Type 0 where
  pub hybrid : HybridConfig
  pub rest : Rest
  pub chain_id : JsString
  pub rollup : RollupView
  pub message : Bytes
  pub hybrid_given : client.hybrid ≡ some hybrid
  pub rest_given : hybrid.rest ≡ some rest
  pub chain_id_read : client.transport.get_chain_id ≡ some (ok chain_id)
  pub rollup_read : rest.get_rollup input.rollup_id ≡ ok rollup
  pub layer_given : is_empty rollup.layer_id ≡ false
  pub is_creator : rollup.creator ≡ client.address
  pub message_built :
      anchor_sign_bytes_for_batch chain_id rollup.layer_id input.batch_index input.state_root
        input.tx_count input.validator_set_hash
      ≡ ok message
  pub signature_made : sdk.pqc_sign hybrid.pqc_keypair.secret_key message ≡ ok signature

pub built-ok {ℓ} : {A : Type ℓ} (r : Result MessageError A) (a : A) → built r ≡ ok a → r ≡ ok a
built-ok (err e) a h = absurd (cc)
built-ok (ok b) a h = cc

pub thrown_by-ok {ℓ} : {A : Type ℓ} (r : Result JsString A) (a : A) → thrown_by r ≡ ok a → r ≡ ok a
thrown_by-ok (err e) a h = absurd (cc)
thrown_by-ok (ok b) a h = cc

module _ (sdk : Sdk) (client : TxClient) (input : SubmitBatchInput) (signature : Bytes) where
  from_sign :
      (hybrid : HybridConfig) (rest : Rest) (rollup : RollupView) (read : Result JsString JsString)
      → client.hybrid ≡ some hybrid
      → hybrid.rest ≡ some rest
      → client.transport.get_chain_id ≡ some read
      → rest.get_rollup input.rollup_id ≡ ok rollup
      → is_empty rollup.layer_id ≡ false
      → rollup.creator ≡ client.address
      → sign_anchor sdk client.address input hybrid.pqc_keypair rollup read ≡ ok (signed signature)
      → SignedByCreator sdk client input signature
  from_sign hybrid rest rollup read hg rg cg rr lg ic h =
      let (chain, hc, h1) = >>=-eq-ok (thrown_by read) _ h in
      let (message, hm, h2) = >>=-eq-ok (built _) _ h1 in
      let (sig, hs, h3) = >>=-eq-ok (thrown_by _) _ h2 in
      let same : sig ≡ signature = cc h3 in
      record {
        hybrid = hybrid;
        rest = rest;
        chain_id = chain;
        rollup = rollup;
        message = message;
        hybrid_given = hg;
        rest_given = rg;
        chain_id_read = cg ∙ ap some (thrown_by-ok read chain hc);
        rollup_read = rr;
        layer_given = lg;
        is_creator = ic;
        message_built = built-ok _ message hm;
        signature_made = thrown_by-ok _ sig hs ∙ ap ok same;
      }

  from_rollup :
      (hybrid : HybridConfig) (rest : Rest) (read : Result JsString JsString)
      (found : Result JsString RollupView)
      → client.hybrid ≡ some hybrid
      → hybrid.rest ≡ some rest
      → client.transport.get_chain_id ≡ some read
      → rest.get_rollup input.rollup_id ≡ found
      → anchor_rollup sdk client.address input hybrid.pqc_keypair read found ≡ ok (signed signature)
      → SignedByCreator sdk client input signature
  from_rollup hybrid rest read (err m) hg rg cg rr h = absurd (cc)
  from_rollup hybrid rest read (ok rollup) hg rg cg rr h =
      elim (Bool-cases (is_empty rollup.layer_id)) [
        | inl none_ ↦ absurd (ground arith)
        | inr layer ↦ elim (Bool-cases (str_eq rollup.creator client.address)) [
          | inl creator ↦
              from_sign hybrid rest rollup read hg rg cg rr layer (str_eq→eq _ _ creator)
                (ground arith)
          | inr other ↦ absurd (ground arith)
        ]
      ]

  from_chain :
      (hybrid : HybridConfig) (rest : Rest) (read : Option (Result JsString JsString))
      → client.hybrid ≡ some hybrid
      → hybrid.rest ≡ some rest
      → client.transport.get_chain_id ≡ read
      → anchor_chain sdk client.address input hybrid.pqc_keypair rest read ≡ ok (signed signature)
      → SignedByCreator sdk client input signature
  from_chain hybrid rest none hg rg cg h = absurd (cc)
  from_chain hybrid rest (some read) hg rg cg h =
      from_rollup hybrid rest read (rest.get_rollup input.rollup_id) hg rg cg refl h

  from_rest :
      (hybrid : HybridConfig) (rest : Option Rest)
      → client.hybrid ≡ some hybrid
      → hybrid.rest ≡ rest
      → anchor_rest sdk client.address input hybrid.pqc_keypair rest client.transport.get_chain_id
        ≡ ok (signed signature)
      → SignedByCreator sdk client input signature
  from_rest hybrid none hg rg h = absurd (cc)
  from_rest hybrid (some rest) hg rg h =
      from_chain hybrid rest client.transport.get_chain_id hg rg refl h

  from_hybrid :
      (hybrid : Option HybridConfig)
      → client.hybrid ≡ hybrid
      → anchor_hybrid sdk client.address input hybrid client.transport.get_chain_id
        ≡ ok (signed signature)
      → SignedByCreator sdk client input signature
  from_hybrid none hg h = absurd (cc)
  from_hybrid (some hybrid) hg h = from_rest hybrid hybrid.rest hg refl h

  signs :
      SignedByCreator sdk client input signature
      → try_anchor_signature sdk client input ≡ ok (signed signature)
  unfolding try_anchor_signature
  signs s =
      let creator : str_eq s.rollup.creator client.address ≡ true =
        subst (λ (t : JsString). str_eq t client.address ≡ true) (sym s.is_creator)
          (str_eq_refl client.address) in
      ground (
        arith, s.hybrid_given, s.rest_given, s.chain_id_read, s.rollup_read, s.layer_given,
        s.message_built, s.signature_made, creator,
      )

-- The client signs a batch's anchor, with the signature named, exactly when it has a post-quantum key and
-- a node, the rollup is read and has a layer, its creator is the client's address, the chain id is read, the
-- v2 anchor bytes of the batch are built, and the key signs them to that signature.
pub try_anchor_signature_iff :
    (sdk : Sdk) (client : TxClient) (input : SubmitBatchInput) (signature : Bytes)
    → (try_anchor_signature sdk client input ≡ ok (signed signature))
      ↔ SignedByCreator sdk client input signature
unfolding try_anchor_signature
try_anchor_signature_iff sdk client input signature =
    (from_hybrid sdk client input signature client.hybrid refl, signs sdk client input signature)
