-- ===== src/Receipts/Build.antt =====
-- `buildSettlementReceipt` of packages/ts/src/receipts/index.ts, and what a receipt was built from.
pub mod Verifies
use qorechain_rdk.Prelude.{
  find, ℕ, ◌≡◌, sym, ap, inl, inr, Bool, false, not, ◌&&◌, Option, none, some, List, arith,
  if◌then◌else◌, Bool-cases, Result, ok, err, ◌>>=◌, ok-injective, Result-cases, >>=-eq-ok,
}
use qorechain_rdk.Text.{JsString, str_eq, is_empty}
use qorechain_rdk.Bytes.{Bytes}
use qorechain_rdk.Bytes.Hex.{HexError}
use qorechain_rdk.Views.{AnchorView, BatchView, RollupView, RdkClient}
use qorechain_rdk.Receipts.{SettlementReceipt, receipt_from_parts}
use qorechain_rdk.Receipts.Verify.{batch_root_hex}

pub data BuildError : Type 0 where
  no_layer : BuildError
  read_failed : JsString → BuildError
  batch_root_not_decoded : HexError → BuildError
  no_state_anchor : BuildError
  not_anchored_yet : ℕ → BuildError

abbrev pub read {ℓ} : {A : Type ℓ} → Result JsString A → Result BuildError A
read (ok a) = ok a
read (err e) = err (read_failed e)

abbrev pub decoded : Result HexError JsString → Result BuildError JsString
decoded (ok s) = ok s
decoded (err e) = err (batch_root_not_decoded e)

-- `a.stateRoot && a.stateRoot === batchStateRootHex`.
abbrev pub covers : JsString → AnchorView → Bool
covers root a = not (is_empty a.state_root) && str_eq a.state_root root

-- `covering ?? (await client.rest.getLatestAnchor(…))`, and what follows when nothing covers.
unfoldable pub covered_by : RdkClient → JsString → Option AnchorView → Result BuildError AnchorView
covered_by client layer_id (some covering) = ok covering
covered_by client layer_id none = do
  anchor ← read (client.rest.get_latest_anchor layer_id)
  err (if is_empty anchor.state_root then no_state_anchor else not_anchored_yet anchor.layer_height)

module _ (base64_to_bytes : JsString → Bytes) where
  unfoldable pub build_settlement_receipt :
      RdkClient → JsString → ℕ → Result BuildError SettlementReceipt
  build_settlement_receipt client rollup_id batch_index = do
    rollup ← read (client.rest.get_rollup rollup_id)
    if is_empty rollup.layer_id then err no_layer else do
      batch ← read (client.rest.get_batch rollup_id batch_index)
      root ← decoded (batch_root_hex base64_to_bytes batch)
      anchors ← read (client.rest.get_anchors rollup.layer_id)
      anchor ← covered_by client rollup.layer_id (find (covers root) anchors)
      ok (
          receipt_from_parts rollup_id rollup.layer_id batch_index rollup.creator anchor root
            client.chain_id)

  -- What a receipt was built from.
  pub record BuiltFrom (client : RdkClient) (rollup_id : JsString) (batch_index : ℕ)
      (receipt : SettlementReceipt) : Type 0 where
    pub rollup : RollupView
    pub batch : BatchView
    pub root : JsString
    pub anchors : List AnchorView
    pub anchor : AnchorView
    pub rollup_read : client.rest.get_rollup rollup_id ≡ ok rollup
    pub layer_given : is_empty rollup.layer_id ≡ false
    pub batch_read : client.rest.get_batch rollup_id batch_index ≡ ok batch
    pub root_read : batch_root_hex base64_to_bytes batch ≡ ok root
    pub anchors_read : client.rest.get_anchors rollup.layer_id ≡ ok anchors
    pub anchor_found : find (covers root) anchors ≡ some anchor
    pub built :
        receipt
        ≡ receipt_from_parts rollup_id rollup.layer_id batch_index rollup.creator anchor root
            client.chain_id

  covered_by-ok :
      (client : RdkClient) (layer_id : JsString) (o : Option AnchorView) (a : AnchorView)
      → covered_by client layer_id o ≡ ok a
      → o ≡ some a
  unfolding covered_by
  covered_by-ok client layer_id (some c) a e = cc e
  covered_by-ok client layer_id none a e =
      elim (Result-cases (client.rest.get_latest_anchor layer_id)) [
        | inl (l, h) ↦ absurd (ground (arith, (rw h at e)))
        | inr (x, h) ↦ absurd (ground (arith, (rw h at e)))
      ]

  read-ok {ℓ} : {A : Type ℓ} (r : Result JsString A) (a : A) → read r ≡ ok a → r ≡ ok a
  read-ok (ok b) a e = ap ok (ok-injective e)
  read-ok (err x) a e = cc

  decoded-ok : (r : Result HexError JsString) (a : JsString) → decoded r ≡ ok a → r ≡ ok a
  decoded-ok (ok b) a e = ap ok (ok-injective e)
  decoded-ok (err x) a e = cc

  pub built_from :
      (client : RdkClient) (rollup_id : JsString) (batch_index : ℕ) (receipt : SettlementReceipt)
      → build_settlement_receipt client rollup_id batch_index ≡ ok receipt
      → BuiltFrom client rollup_id batch_index receipt
  unfolding build_settlement_receipt
  built_from client rollup_id batch_index receipt e =
      let (rollup, e1, h1) = >>=-eq-ok (read (client.rest.get_rollup rollup_id)) _ e in
      elim (Bool-cases (is_empty rollup.layer_id)) [
        | inl n ↦ absurd (ground (arith, (rw n at h1)))
        | inr n ↦
            let (batch, e2, h2) =
              >>=-eq-ok (read (client.rest.get_batch rollup_id batch_index)) _ (rw n at h1) in
            let (root, e3, h3) = >>=-eq-ok (decoded (batch_root_hex base64_to_bytes batch)) _ h2 in
            let (anchors, e4, h4) =
              >>=-eq-ok (read (client.rest.get_anchors rollup.layer_id)) _ h3 in
            let (anchor, e5, h5) =
              >>=-eq-ok (covered_by client rollup.layer_id (find (covers root) anchors)) _ h4 in
            record {
              rollup = rollup;
              batch = batch;
              root = root;
              anchors = anchors;
              anchor = anchor;
              rollup_read = read-ok _ _ e1;
              layer_given = n;
              batch_read = read-ok _ _ e2;
              root_read = decoded-ok _ _ e3;
              anchors_read = read-ok _ _ e4;
              anchor_found = covered_by-ok client rollup.layer_id _ anchor e5;
              built = sym (ok-injective h5);
            }
      ]
