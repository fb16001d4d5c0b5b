-- ===== src/Reads/Tests.antt =====
-- The reads at small inputs.
use qorechain_rdk.Prelude.{
  ◌<◌, ℕ, zero, suc, ◌≡◌, refl, inr, true, false, Option, none, List, [], ◌∷◌, map, arith, drop, ok,
  err,
}
use qorechain_rdk.Reads.Paging.{list_batches_all, paging_node}
use qorechain_rdk.Text.{JsString, JsNumber, js, whole}
use qorechain_rdk.Text.Encoder.{utf8}
use qorechain_rdk.Bytes.{Bytes}
use qorechain_rdk.Bytes.Hex.{bytes_to_hex}
use qorechain_rdk.Amounts.{print_digits}
use qorechain_rdk.Views.Json.{Json, json_object, json_array, entry, no_fields}
use qorechain_rdk.Views.RoundTrip.{
  batch_read, anchor_read, batch_json, snake_case, camel_case, as_text, as_number,
}
use qorechain_rdk.Reads.Requests.{FetchLike, HttpResponse, strip_slashes, encode_uri_component}
use qorechain_rdk.Reads.Client.{get_batch, protocol_feature_enabled}
use qorechain_rdk.Reads.Accounts.{get_anchors}
use qorechain_rdk.Reads.Serves.{
  get_batch_served, get_anchors_served, protocol_feature_unserved, body_of, batch_address,
  anchor_items, IsHexAnchor,
}
use qorechain_rdk.Views.{BatchView, AnchorView}
use qorechain_rdk.Tx.Client.Toy.{settled_batch}
use qorechain_rdk.Reads.{is_protocol_feature_enabled, list_pages, list_batches}

abbrev three_batches : List BatchView
three_batches =
    settled_batch
    ∷ record settled_batch { batch_index = 6 }
    ∷ record settled_batch { batch_index = 7 }
    ∷ []

-- Pages of one batch after one of two.
abbrev two_then_one : ℕ → ℕ → ℕ
two_then_one zero s = 2
two_then_one (suc asked) s = 1

two_then_one_some : (asked s : ℕ) → 0 < two_then_one asked s
two_then_one_some zero s = omega arith
two_then_one_some (suc asked) s = omega arith

list_batches_all_example :
    list_batches (paging_node three_batches two_then_one) none ≡ ok (drop 0 three_batches)
list_batches_all_example =
    list_batches_all three_batches two_then_one none two_then_one_some (omega arith)

-- A node that promises more and sends nothing is not asked again.
empty_promise :
    list_batches (λ asked start. ok (record { batches = []; next_index = whole 9 })) none ≡ ok []
unfolding list_batches list_pages
empty_promise = refl

route_absent :
    is_protocol_feature_enabled (err (js "REST GET /x failed: 501 Not Implemented")) (js "f")
    ≡ ok false
unfolding is_protocol_feature_enabled
route_absent = refl

-- A number that only contains the digits of the code is another error.
other_failure :
    is_protocol_feature_enabled (err (js "failed: 5010 odd")) (js "f") ≡ err (js "failed: 5010 odd")
unfolding is_protocol_feature_enabled
other_failure = refl

abbrev answering : Json → FetchLike
answering value address =
    ok (record { is_ok = true; status = 200; status_text = js "OK"; json = ok value })

abbrev no_base64 : JsString → Bytes
no_base64 s = []

abbrev no_number : JsString → Option JsNumber
no_number s = none

get_batch_served_example :
    get_batch no_base64 no_number
      (js "NaN")
      (answering (body_of "batch" true (batch_json camel_case as_text settled_batch)))
      (js "http://node/")
      (js "r 1")
      5
    ≡ ok (batch_read as_text settled_batch)
get_batch_served_example =
    get_batch_served no_base64 no_number (js "NaN")
      (answering (body_of "batch" true (batch_json camel_case as_text settled_batch)))
      (js "http://node/") (js "r 1") 5 true camel_case as_text settled_batch tt
      (record {
        response = record {
          is_ok = true;
          status = 200;
          status_text = js "OK";
          json = ok (body_of "batch" true (batch_json camel_case as_text settled_batch));
        };
        fetched = refl;
        succeeds = refl;
        body_read = refl;
      })

address_of_batch :
    batch_address (js "http://node/") (js "r 1") 5 ≡ js "http://node/qorechain/rdk/v1/batch/r%201/5"
unfolding strip_slashes encode_uri_component utf8 print_digits
address_of_batch = refl

abbrev small_anchor : AnchorView
small_anchor = record {
  layer_id = js "layer-1";
  layer_height = 7;
  state_root = js "0a";
  validator_set_hash = [];
  main_chain_height = 9;
  anchored_at = 9;
  pqc_signature = js "ff";
  transaction_count = 2;
  compressed_state_proof = [];
}

abbrev anchors_body : Json
anchors_body = json_object (
    entry (js "anchors") (json_array (anchor_items snake_case as_number (small_anchor ∷ [])))
      no_fields)

hex_anchor : IsHexAnchor small_anchor
unfolding bytes_to_hex
hex_anchor = (
  (10 ∷ [], (omega arith, tt), refl),
  ([], tt, refl),
  (255 ∷ [], (omega arith, tt), refl),
  ([], tt, refl),
)

get_anchors_served_example :
    get_anchors no_base64 no_number (answering anchors_body) (js "http://node") (js "layer-1")
    ≡ ok (map (anchor_read as_number) (small_anchor ∷ []))
get_anchors_served_example =
    get_anchors_served no_base64 no_number (answering anchors_body) (js "http://node")
      (js "layer-1") snake_case as_number (small_anchor ∷ []) (hex_anchor, tt)
      (record {
        response = record {
          is_ok = true;
          status = 200;
          status_text = js "OK";
          json = ok anchors_body;
        };
        fetched = refl;
        succeeds = refl;
        body_read = refl;
      })

abbrev not_implemented : HttpResponse
not_implemented = record {
  is_ok = false;
  status = 501;
  status_text = js "Not Implemented";
  json = err (js "no body");
}

protocol_feature_unserved_example :
    protocol_feature_enabled no_base64 no_number
      (js "NaN")
      (λ address. ok not_implemented)
      (js "http://node")
      (js "f")
    ≡ ok false
protocol_feature_unserved_example =
    protocol_feature_unserved no_base64 no_number (js "NaN") (λ address. ok not_implemented)
      (js "http://node") (js "f") not_implemented refl refl (inr refl)
