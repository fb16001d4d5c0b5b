-- ===== src/Reads/Client.antt =====
-- The reads of packages/ts/src/client/rest.ts, each over `get`.
use qorechain_rdk.Prelude.{
  ℕ, Bool, false, ◌&&◌, ◌||◌, Option, none, some, List, [], ◌∷◌, ◌++◌, if◌then◌else◌, Result, ok,
  ◌>>=◌,
}
use qorechain_rdk.Bytes.{Bytes}
use qorechain_rdk.Text.{JsString, js, JsNumber, whole, other_number, is_empty}
use qorechain_rdk.Amounts.{to_string}
use qorechain_rdk.Views.{RollupView, BatchView, ParamsView}
use qorechain_rdk.Views.Json.{
  json_number, no_items, item, item, json_bool, Items, Json, lookup, string_of, number_of,
}
use qorechain_rdk.Views.Fields.{RawRecord, present}
use qorechain_rdk.Views.Mappers.{map_batch_view, map_rollup_view, map_params_view}
use qorechain_rdk.Reads.{
  BatchesPage, list_batches, ProtocolFeature, is_protocol_feature_enabled, get_applied_plan_height,
}
use qorechain_rdk.Reads.Requests.{
  FetchLike, get, prop, or_else, wrapped, as_array, map_items, said, encode_uri_component,
  as_record,
}

abbrev pub string_or : JsString → Option Json → JsString
string_or fallback value = elim (present value) [ none ↦ fallback | some v ↦ string_of v ]

abbrev pub feature_of : Json → ProtocolFeature
feature_of f = record {
  name = string_or [] (prop "name" f);
  enabled = elim (prop "enabled" f) [ some (json_bool b) ↦ b | _ ↦ false ];
}

abbrev pub features_of : Items → List ProtocolFeature
features_of no_items = []
features_of (item f more) = feature_of (as_record f) ∷ features_of more

pub record Balance : Type 0 where
  pub denom : JsString
  pub amount : JsString

abbrev pub balance_of : RawRecord → Result JsString Balance
balance_of c = ok (record {
  denom = string_or [] (lookup (js "denom") c);
  amount = string_or (js "0") (lookup (js "amount") c);
})

-- `Number(body.next_index ?? body.nextIndex ?? 0)`.
abbrev pub next_of : (JsString → Option JsNumber) → Json → JsNumber
next_of other body =
    let picked =
      or_else (prop "next_index" body) (or_else (prop "nextIndex" body) (json_number 0)) in
    elim (number_of other picked) [ some n ↦ n | none ↦ other_number ]

-- `Number(h)` is not finite, or `h`.
abbrev pub height_in : (JsString → Option JsNumber) → Json → JsNumber
height_in other body = elim (number_of other (or_else (prop "height" body) (json_number 0))) [
  | some n ↦ n
  | none ↦ other_number
]

-- `base64_to_bytes` is the runtime's decoder, `other` what `Number` makes of a text that is not only digits,
-- and `other_text` the text of a start index that is no natural number.
module _ (base64_to_bytes : JsString → Bytes) (other : JsString → Option JsNumber)
    (other_text : JsString) (fetch : FetchLike) (base : JsString) where
  unfoldable pub get_params : Result JsString ParamsView
  get_params = do
    body ← get fetch base (js "/qorechain/rdk/v1/params")
    said (map_params_view base64_to_bytes other (wrapped "params" body))

  unfoldable pub get_rollup : JsString → Result JsString RollupView
  get_rollup rollup_id = do
    body ← get fetch base (js "/qorechain/rdk/v1/rollup/" ++ encode_uri_component rollup_id)
    said (map_rollup_view base64_to_bytes other (wrapped "rollup" body))

  unfoldable pub list_rollups : Result JsString (List RollupView)
  list_rollups = do
    body ← get fetch base (js "/qorechain/rdk/v1/rollups")
    map_items (λ r. said (map_rollup_view base64_to_bytes other r)) (as_array (prop "rollups" body))

  unfoldable pub get_batch : JsString → ℕ → Result JsString BatchView
  get_batch rollup_id batch_index = do
    body ← get fetch base (
        js "/qorechain/rdk/v1/batch/"
        ++ (encode_uri_component rollup_id ++ (js "/" ++ to_string batch_index)))
    said (map_batch_view base64_to_bytes other (wrapped "batch" body))

  abbrev pub index_text : JsNumber → JsString
  index_text (whole n) = to_string n
  index_text other_number = other_text

  abbrev pub start_query : Option JsNumber → JsString
  start_query none = []
  start_query (some n) = js "start_index=" ++ index_text n

  abbrev pub limit_query : Option ℕ → JsString
  limit_query none = []
  limit_query (some n) = js "limit=" ++ to_string n

  abbrev pub query_of : JsString → JsString → JsString
  query_of a b =
      if is_empty a && is_empty b
      then []
      else if is_empty a || is_empty b
      then b'?' ∷ (a ++ b)
      else b'?' ∷ (a ++ b'&' ∷ b)

  unfoldable pub list_batches_page :
      JsString → Option JsNumber → Option ℕ → Result JsString BatchesPage
  list_batches_page rollup_id start limit = do
    body ← get fetch base (
        js "/qorechain/rdk/v1/batches/"
        ++ (encode_uri_component rollup_id ++ query_of (start_query start) (limit_query limit)))
    batches ←
        map_items (λ r. said (map_batch_view base64_to_bytes other r))
          (as_array (prop "batches" body))
    ok (record { batches = batches; next_index = next_of other body })

  -- The pages of the loop, from a node that does not change between two requests.
  unfoldable pub list_all_batches : JsString → Option JsNumber → Result JsString (List BatchView)
  list_all_batches rollup_id start =
      list_batches (λ asked s. list_batches_page rollup_id s (some 100)) start

  unfoldable pub get_latest_batch : JsString → Result JsString BatchView
  get_latest_batch rollup_id = do
    body ← get fetch base (js "/qorechain/rdk/v1/latest_batch/" ++ encode_uri_component rollup_id)
    said (map_batch_view base64_to_bytes other (wrapped "batch" body))

  unfoldable pub get_protocol_features : Result JsString (List ProtocolFeature)
  get_protocol_features = do
    body ← get fetch base (js "/qorechain/pqc/v1/protocol_features")
    ok (features_of (as_array (prop "features" body)))

  unfoldable pub protocol_feature_enabled : JsString → Result JsString Bool
  protocol_feature_enabled name = is_protocol_feature_enabled get_protocol_features name

  unfoldable pub applied_plan_height : JsString → Result JsString ℕ
  applied_plan_height name = get_applied_plan_height (do
    body ← get fetch base (js "/cosmos/upgrade/v1beta1/applied_plan/" ++ encode_uri_component name)
    ok (height_in other body))
