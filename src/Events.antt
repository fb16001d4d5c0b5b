-- ===== src/Events.antt =====
-- packages/ts/src/events/decode.ts: the events of the rdk module in a transaction's events.
pub mod Attributes
mod Tests
use qorechain_rdk.Prelude.{Bool, not, Option, none, some, List, [], ◌∷◌, if◌then◌else◌}
use qorechain_rdk.Text.{str_eq, JsString, js, includes}

abbrev pub rdk_event_types : List JsString
rdk_event_types =
    js "rollup_created"
    ∷ js "rollup_paused"
    ∷ js "rollup_resumed"
    ∷ js "rollup_stopped"
    ∷ js "batch_submitted"
    ∷ js "batch_challenged"
    ∷ js "batch_finalized"
    ∷ js "batch_rejected"
    ∷ js "da_blob_stored"
    ∷ js "da_blob_pruned"
    ∷ js "profile_suggested"
    ∷ []

pub record RawEvent : Type 0 where
  pub event_type : JsString
  pub attributes : List (JsString × JsString)

-- The attributes are an object's own properties, in no order that the code uses.
pub record DecodedRdkEvent : Type 0 where
  pub event_type : JsString
  pub attributes : List (JsString × JsString)

abbrev pub is_rdk_event_type : JsString → Bool
is_rdk_event_type t = includes rdk_event_types t

abbrev pub get_attribute : JsString → List (JsString × JsString) → Option JsString
get_attribute key [] = none
get_attribute key ((k, v) ∷ more) =
    let rest = get_attribute key more in if str_eq k key then some v else rest

-- `attributes[key] = value`: setting "__proto__" to a string does nothing to an object.
unfoldable pub set_attribute :
    JsString → JsString → List (JsString × JsString) → List (JsString × JsString)
set_attribute key value attributes =
    if str_eq key (js "__proto__") then attributes else (key, value) ∷ attributes

unfoldable pub attributes_loop :
    List (JsString × JsString) → List (JsString × JsString) → List (JsString × JsString)
attributes_loop attributes [] = attributes
attributes_loop attributes ((key, value) ∷ more) =
    attributes_loop (set_attribute key value attributes) more

unfoldable pub decode_rdk_events : List RawEvent → List DecodedRdkEvent
unfolding attributes_loop
decode_rdk_events [] = []
decode_rdk_events (event ∷ events) =
    let rest = decode_rdk_events events in
    if not (is_rdk_event_type event.event_type)
    then rest
    else record { event_type = event.event_type; attributes = attributes_loop [] event.attributes }
      ∷ rest

abbrev pub first_of_type : JsString → List DecodedRdkEvent → Option DecodedRdkEvent
first_of_type t [] = none
first_of_type t (event ∷ events) =
    let rest = first_of_type t events in if str_eq event.event_type t then some event else rest

unfoldable pub find_rdk_event : List RawEvent → JsString → Option DecodedRdkEvent
unfolding decode_rdk_events
find_rdk_event events t = first_of_type t (decode_rdk_events events)
