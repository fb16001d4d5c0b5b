-- ===== src/Events/Attributes.antt =====
-- What a decoded event says of an attribute, and which event is found.
use qorechain_rdk.Prelude.{
  ◌≡◌, refl, ap, ◌∙◌, subst, inl, inr, Bool, true, false, Option, none, some, List, [], ◌∷◌, arith,
  if◌then◌else◌, Bool-cases,
}
use qorechain_rdk.Text.{str_eq→eq, js, str_eq, JsString}
use qorechain_rdk.Events.{
  is_rdk_event_type, RawEvent, decode_rdk_events, set_attribute, find_rdk_event, get_attribute,
  attributes_loop,
}

-- The value of the last attribute with the key, else what was there.
pub last_value : JsString → Option JsString → List (JsString × JsString) → Option JsString
last_value key before [] = before
last_value key before ((k, v) ∷ more) =
    last_value key (if str_eq k key then some v else before) more

-- Texts that a test tells apart are not equal.
told_apart :
    (test : JsString → Bool) (s t : JsString) → test s ≡ true → test t ≡ false → str_eq s t ≡ false
told_apart test s t passes fails = elim (Bool-cases (str_eq s t)) [
  | inl same ↦
      let still : test t ≡ true = subst (λ x. test x ≡ true) (str_eq→eq s t same) passes in
      absurd (ground (arith, still, fails))
  | inr other ↦ other
]

get-set :
    (key k v : JsString) (attributes : List (JsString × JsString))
    → str_eq key (js "__proto__") ≡ false
    → get_attribute key (set_attribute k v attributes)
      ≡ (if str_eq k key then some v else get_attribute key attributes)
unfolding set_attribute
get-set key k v attributes h = elim (Bool-cases (str_eq k (js "__proto__"))) [
  | inl proto ↦
      let other : str_eq k key ≡ false =
        told_apart (λ t. str_eq t (js "__proto__")) k key proto h in
      rw (proto, other) refl
  | inr own ↦ rw own refl
]

-- An attribute of a decoded event has the value of the last attribute with its key; the key "__proto__"
-- is apart.
pub get-attributes_loop :
    (key : JsString) (attributes raw : List (JsString × JsString))
    → str_eq key (js "__proto__") ≡ false
    → get_attribute key (attributes_loop attributes raw)
      ≡ last_value key (get_attribute key attributes) raw
unfolding attributes_loop last_value
get-attributes_loop key attributes [] h = refl
get-attributes_loop key attributes ((k, v) ∷ raw) h =
    get-attributes_loop key (set_attribute k v attributes) raw h
    ∙ ap (λ before. last_value key before raw) (get-set key k v attributes h)

-- Looking for a type that is none of the module's finds nothing.
pub find_rdk_event_foreign :
    (events : List RawEvent) (t : JsString)
    → is_rdk_event_type t ≡ false
    → find_rdk_event events t ≡ none
unfolding find_rdk_event decode_rdk_events
find_rdk_event_foreign [] t h = refl
find_rdk_event_foreign (event ∷ events) t h =
    elim (Bool-cases (is_rdk_event_type event.event_type)) [
      | inl ours ↦
          let other : str_eq event.event_type t ≡ false =
            told_apart is_rdk_event_type event.event_type t ours h in
          rw (ours, other) (find_rdk_event_foreign events t h)
      | inr foreign ↦ rw foreign (find_rdk_event_foreign events t h)
    ]
