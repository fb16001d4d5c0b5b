-- ===== src/Reads/Serves.antt =====
-- What the reads of packages/ts/src/client/rest.ts give against a node that serves JSON, or refuses to.
use qorechain_rdk.Prelude.{
  ℕ, ◌≡◌, refl, sym, subst, ◌⊎◌, inl, inr, Bool, true, false, Option, none, some, List, [], ◌∷◌,
  ◌++◌, map, ok, err,
}
use qorechain_rdk.Views.Fields.{RawRecord}
use qorechain_rdk.Views.RoundTrip.{batch_read, anchor_read}
use Prim.Native.String.{String}
use qorechain_rdk.Text.{JsString, js, JsNumber}
use qorechain_rdk.Bytes.{Bytes}
use qorechain_rdk.Amounts.{to_string}
use qorechain_rdk.Views.{AnchorView, BatchView}
use qorechain_rdk.Views.Json.{
  Items, item, no_items, json_array, Json, entry, no_fields, json_object,
}
use qorechain_rdk.Views.RoundTrip.{
  IsHexText, anchor_json, map-anchor_json, Spelling, Style, batch_json, IsServed, map-batch_json,
}
use qorechain_rdk.Reads.Requests.{
  said, map_items, refusal, FetchLike, HttpResponse, get, wrapped, strip_slashes, as_record,
  encode_uri_component,
}
use qorechain_rdk.Reads.Accounts.{get_anchors}
use qorechain_rdk.Views.Mappers.{map_anchor_view}
use qorechain_rdk.Reads.{names_unserved, is_protocol_feature_enabled}
use qorechain_rdk.Amounts.{print_digits}
use qorechain_rdk.Views.RoundTrip.{snake_case, camel_case}
use qorechain_rdk.Reads.Client.{get_protocol_features, get_batch, protocol_feature_enabled}

-- The node answers a request for the address with a success and the value.
pub record Answers (fetch : FetchLike) (address : JsString) (value : Json) : Type 0 where
  pub response : HttpResponse
  pub fetched : fetch address ≡ ok response
  pub succeeds : response.is_ok ≡ true
  pub body_read : response.json ≡ ok value

get-Answers :
    (fetch : FetchLike) (base path : JsString) (value : Json)
    → Answers fetch (strip_slashes base ++ path) value
    → get fetch base path ≡ ok (as_record value)
unfolding get
get-Answers fetch base path value a = rw (a.fetched, a.succeeds, a.body_read) refl

-- The body of an answer: the object itself, or wrapped as the value of a key.
abbrev pub body_of : String → Bool → RawRecord → Json
body_of key true raw = json_object (entry (js key) (json_object raw) no_fields)
body_of key false raw = json_object raw

abbrev pub batch_address : JsString → JsString → ℕ → JsString
batch_address base rollup_id batch_index =
    strip_slashes base
    ++ (js "/qorechain/rdk/v1/batch/"
        ++ (encode_uri_component rollup_id ++ (js "/" ++ to_string batch_index)))

wrapped_bound :
    (nested : Bool) (case : Spelling) (style : Style) (batch : BatchView) (bound : Option Bool)
    → let raw = batch_json case style (record batch { withdrawals_bound = bound }) in
      wrapped "batch" (as_record (body_of "batch" nested raw)) ≡ raw
unfolding batch_json
wrapped_bound true case style batch bound = refl
wrapped_bound false snake_case style batch none = refl
wrapped_bound false snake_case style batch (some true) = refl
wrapped_bound false snake_case style batch (some false) = refl
wrapped_bound false camel_case style batch none = refl
wrapped_bound false camel_case style batch (some true) = refl
wrapped_bound false camel_case style batch (some false) = refl

-- A batch that the node serves at its address is read as that batch: in both spellings of the keys, with integers
-- as numbers or as texts, as the whole body or as the value of "batch" in it, where the batch's flag is set or
-- not there. A text of an integer is rounded to a double, and is 0 beyond the doubles.
pub get_batch_served :
    (base64_to_bytes : JsString → Bytes) (other : JsString → Option JsNumber)
    (other_text : JsString) (fetch : FetchLike) (base rollup_id : JsString) (batch_index : ℕ)
    (nested : Bool) (case : Spelling) (style : Style) (batch : BatchView)
    → IsServed batch.withdrawals_bound
    → Answers fetch
        (batch_address base rollup_id batch_index)
        (body_of "batch" nested (batch_json case style batch))
    → get_batch base64_to_bytes other other_text fetch base rollup_id batch_index
      ≡ ok (batch_read style batch)
unfolding get_batch
get_batch_served b64 other other_text fetch base rollup_id batch_index nested case style batch s a =
    rw
      (
        get-Answers fetch base _ _ a,
        wrapped_bound nested case style batch batch.withdrawals_bound,
        map-batch_json b64 other case style batch s,
      )
      refl

abbrev features_path : JsString
features_path = js "/qorechain/pqc/v1/protocol_features"

-- The pattern finds the status in the message, whatever the status text.
status_named :
    (response : HttpResponse)
    → (response.status ≡ 404) ⊎ (response.status ≡ 501)
    → names_unserved false (refusal features_path response) ≡ true
unfolding names_unserved print_digits
status_named response (inl s) =
    subst
      (λ n. names_unserved false (refusal features_path (record response { status = n })) ≡ true)
      (sym s) refl
status_named response (inr s) =
    subst
      (λ n. names_unserved false (refusal features_path (record response { status = n })) ≡ true)
      (sym s) refl

-- Where the node refuses the route of the features with a 404 or a 501, whatever its text says, each feature
-- reads as off, and no error is raised.
pub protocol_feature_unserved :
    (base64_to_bytes : JsString → Bytes) (other : JsString → Option JsNumber)
    (other_text : JsString) (fetch : FetchLike) (base name : JsString) (response : HttpResponse)
    → fetch (strip_slashes base ++ features_path) ≡ ok response
    → response.is_ok ≡ false
    → (response.status ≡ 404) ⊎ (response.status ≡ 501)
    → protocol_feature_enabled base64_to_bytes other other_text fetch base name ≡ ok false
unfolding protocol_feature_enabled is_protocol_feature_enabled
protocol_feature_unserved b64 other other_text fetch base name response fetched fails unserved =
    rw (refused_features, status_named response unserved) refl
  where
    refused_features :
        get_protocol_features b64 other other_text fetch base ≡ err (refusal features_path response)
    refused_features = unfold get_protocol_features get in (rw (fetched, fails) refl)

abbrev pub IsHexAnchor : AnchorView → Type 0
IsHexAnchor anchor =
    IsHexText anchor.state_root
    × IsHexText anchor.validator_set_hash
    × IsHexText anchor.pqc_signature
    × IsHexText anchor.compressed_state_proof

abbrev pub AreHexAnchors : List AnchorView → Type 0
AreHexAnchors [] = Unit
AreHexAnchors (anchor ∷ anchors) = IsHexAnchor anchor × AreHexAnchors anchors

abbrev pub anchor_items : Spelling → Style → List AnchorView → Items
anchor_items case style [] = no_items
anchor_items case style (anchor ∷ anchors) =
    item (json_object (anchor_json case style anchor)) (anchor_items case style anchors)

map_items-anchors :
    (base64_to_bytes : JsString → Bytes) (other : JsString → Option JsNumber) (case : Spelling)
    (style : Style) (anchors : List AnchorView)
    → AreHexAnchors anchors
    → map_items
        (λ r. said (map_anchor_view base64_to_bytes other r))
        (anchor_items case style anchors)
      ≡ ok (map (anchor_read style) anchors)
unfolding map_items
map_items-anchors b64 other case style [] h = refl
map_items-anchors b64 other case style (anchor ∷ anchors) ((root, set, signature, proof), h) =
    rw
      (
        map-anchor_json b64 other case style anchor root set signature proof,
        map_items-anchors b64 other case style anchors h,
      )
      refl

-- The anchors of a layer, sent by the node as a list in JSON with their bytes in hex, are read as they are and
-- in their order, in both spellings, and with integers as numbers or as texts. A text of an
-- integer is rounded to a double, and is 0 beyond the doubles.
pub get_anchors_served :
    (base64_to_bytes : JsString → Bytes) (other : JsString → Option JsNumber) (fetch : FetchLike)
    (base layer_id : JsString) (case : Spelling) (style : Style) (anchors : List AnchorView)
    → AreHexAnchors anchors
    → Answers fetch
        (strip_slashes base
          ++ (js "/qorechain/multilayer/v1/anchors/" ++ encode_uri_component layer_id))
        (json_object
          (entry (js "anchors") (json_array (anchor_items case style anchors)) no_fields))
    → get_anchors base64_to_bytes other fetch base layer_id ≡ ok (map (anchor_read style) anchors)
unfolding get_anchors
get_anchors_served b64 other fetch base layer_id case style anchors hex a =
    rw
      (
        get-Answers fetch base
            (js "/qorechain/multilayer/v1/anchors/" ++ encode_uri_component layer_id)
            (json_object
              (entry (js "anchors") (json_array (anchor_items case style anchors)) no_fields))
            a,
        map_items-anchors b64 other case style anchors hex,
      )
      refl
