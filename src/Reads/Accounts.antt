-- ===== src/Reads/Accounts.antt =====
-- The reads of packages/ts/src/client/rest.ts that are about anchors, accounts, transactions and the
-- advisory service, and the read client as the interface that the other parts take.
use qorechain_rdk.Prelude.{ℕ, Option, none, some, List, [], ◌++◌, if◌then◌else◌, Result, ok, ◌>>=◌}
use qorechain_rdk.Amounts.{to_string}
use qorechain_rdk.Text.{JsString, js, JsNumber, is_empty}
use qorechain_rdk.Bytes.{Bytes}
use qorechain_rdk.Views.{AnchorView, PqcAccountView, Rest}
use qorechain_rdk.Views.Json.{Items, json_null, Json}
use qorechain_rdk.Views.Mappers.{map_anchor_view, map_pqc_account_view}
use qorechain_rdk.Reads.Requests.{
  FetchLike, get, prop, or_else, wrapped, as_array, map_items, said, encode_uri_component,
  as_record,
}
use qorechain_rdk.Reads.Client.{
  string_or, Balance, balance_of, get_rollup, get_batch, get_latest_batch, applied_plan_height,
  protocol_feature_enabled,
}

-- An amount that is a text as it is, else what `String` makes of it.
abbrev pub amount_of : Option Json → JsString
amount_of value = string_or (js "0") value

abbrev pub urgency_query : Option JsString → JsString
urgency_query none = []
urgency_query (some urgency) =
    if is_empty urgency then [] else js "?urgency=" ++ encode_uri_component urgency

module _ (base64_to_bytes : JsString → Bytes) (other : JsString → Option JsNumber)
    (fetch : FetchLike) (base : JsString) where
  unfoldable pub get_anchor : JsString → Result JsString AnchorView
  get_anchor layer_id = do
    body ← get fetch base (js "/qorechain/multilayer/v1/anchor/" ++ encode_uri_component layer_id)
    said (map_anchor_view base64_to_bytes other (wrapped "anchor" body))

  abbrev pub get_latest_anchor : JsString → Result JsString AnchorView
  get_latest_anchor layer_id = get_anchor layer_id

  unfoldable pub get_anchors : JsString → Result JsString (List AnchorView)
  get_anchors layer_id = do
    body ← get fetch base (js "/qorechain/multilayer/v1/anchors/" ++ encode_uri_component layer_id)
    map_items (λ r. said (map_anchor_view base64_to_bytes other r)) (as_array (prop "anchors" body))

  unfoldable pub get_pqc_account : JsString → Result JsString PqcAccountView
  get_pqc_account address = do
    body ← get fetch base (js "/qorechain/pqc/v1/account/" ++ encode_uri_component address)
    said (map_pqc_account_view base64_to_bytes other (wrapped "account" body))

  -- The read client that the other parts take, with this client's reads.
  unfoldable pub rest_client : JsString → Rest
  rest_client other_text = record {
    get_rollup = get_rollup base64_to_bytes other other_text fetch base;
    get_batch = get_batch base64_to_bytes other other_text fetch base;
    get_latest_batch = get_latest_batch base64_to_bytes other other_text fetch base;
    get_anchors = get_anchors;
    get_latest_anchor = get_latest_anchor;
    get_pqc_account = get_pqc_account;
    is_protocol_feature_enabled =
        protocol_feature_enabled base64_to_bytes other other_text fetch base;
    get_applied_plan_height = applied_plan_height base64_to_bytes other other_text fetch base;
  }

module _ (fetch : FetchLike) (base : JsString) where
  unfoldable pub get_blob : JsString → ℕ → Result JsString Json
  get_blob rollup_id blob_index = get fetch base (
      js "/qorechain/rdk/v1/blob/"
      ++ (encode_uri_component rollup_id ++ (js "/" ++ to_string blob_index)))

  unfoldable pub get_fee_estimate : Option JsString → Result JsString Json
  get_fee_estimate urgency =
      get fetch base (js "/qorechain/ai/v1/fee-estimate" ++ urgency_query urgency)

  abbrev pub get_network_recommendations : Result JsString Json
  get_network_recommendations = get fetch base (js "/qorechain/ai/v1/network/recommendations")

  -- The elements are handed on as they are.
  unfoldable pub get_fraud_investigations : Result JsString Items
  get_fraud_investigations = do
    body ← get fetch base (js "/qorechain/ai/v1/fraud/investigations")
    ok (as_array (some (or_else (prop "investigations" body) (or_else (prop "data" body) body))))

  abbrev pub get_fraud_investigation : JsString → Result JsString Json
  get_fraud_investigation id =
      get fetch base (js "/qorechain/ai/v1/fraud/investigations/" ++ encode_uri_component id)

  abbrev pub get_circuit_breakers : Result JsString Json
  get_circuit_breakers = get fetch base (js "/qorechain/ai/v1/circuit-breakers")

  unfoldable pub get_balance : JsString → JsString → Result JsString JsString
  get_balance address denom = do
    body ← get fetch base (
        js "/cosmos/bank/v1beta1/balances/"
        ++ (encode_uri_component address ++ (js "/by_denom?denom=" ++ encode_uri_component denom)))
    let balance = as_record (or_else (prop "balance" body) json_null)
    ok (amount_of (prop "amount" balance))

  unfoldable pub get_all_balances : JsString → Result JsString (List Balance)
  get_all_balances address = do
    body ← get fetch base (js "/cosmos/bank/v1beta1/balances/" ++ encode_uri_component address)
    map_items balance_of (as_array (prop "balances" body))

  abbrev pub get_tx : JsString → Result JsString Json
  get_tx hash = get fetch base (js "/cosmos/tx/v1beta1/txs/" ++ encode_uri_component hash)
