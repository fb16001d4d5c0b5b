-- ===== src/Reads.antt =====
-- packages/ts/src/client/rest.ts: the reads that are more than one request, or that interpret what they
-- get. A request's answer is an input, and may change from one request to the next.
pub mod Paging
pub mod Requests
pub mod Client
pub mod Accounts
pub mod Serves
mod Tests
use qorechain_rdk.Prelude.{
  ◌+◌, ℕ, zero, suc, Bool, true, false, not, ◌&&◌, ◌||◌, Option, some, List, [], ◌∷◌, ◌++◌, leb,
  ◌==◌, if◌then◌else◌, drop, Result, ok, err, ◌>>=◌,
}
use qorechain_rdk.Text.{starts_with, str_eq, is_empty, JsString, js, JsNumber, whole, other_number}
use qorechain_rdk.Views.{BatchView}

pub record BatchesPage : Type 0 where
  pub batches : List BatchView
  pub next_index : JsNumber

-- What the node answers to the request that follows so many others, by the start index asked for.
abbrev pub PageServer : Type 0
PageServer = ℕ → Option JsNumber → Result JsString BatchesPage

abbrev pub ends_paging : JsNumber → List BatchView → Bool
ends_paging (whole n) batches = n == 0 || is_empty batches
ends_paging other_number batches = is_empty batches

-- The loop over pages, with the number that it may still ask for.
unfoldable pub list_pages :
    PageServer → ℕ → ℕ → Option JsNumber → List BatchView → Result JsString (List BatchView)
list_pages serve zero asked start out = ok out
list_pages serve (suc left) asked start out = serve asked start >>= λ (page : BatchesPage).
    elim (ends_paging page.next_index page.batches) [
      | true ↦ ok (out ++ page.batches)
      | false ↦ list_pages serve left (asked + 1) (some page.next_index) (out ++ page.batches)
    ]

abbrev pub max_pages : ℕ
max_pages = 100000

unfoldable pub list_batches : PageServer → Option JsNumber → Result JsString (List BatchView)
list_batches serve start_index = list_pages serve max_pages 0 start_index []

pub record ProtocolFeature : Type 0 where
  pub name : JsString
  pub enabled : Bool

-- `\b(404|501)\b`: the three digits with no word character before or behind them.
abbrev pub is_word : ℕ → Bool
is_word c =
    leb b'0' c && leb c b'9' || leb b'a' c && leb c b'z' || leb b'A' c && leb c b'Z' || c == b'_'

abbrev pub starts_word : JsString → Bool
starts_word [] = false
starts_word (c ∷ s) = is_word c

abbrev pub is_code : JsString → Bool
is_code s = (starts_with s (js "404") || starts_with s (js "501")) && not (starts_word (drop 3 s))

unfoldable pub names_unserved : Bool → JsString → Bool
names_unserved after_word [] = false
names_unserved after_word (c ∷ s) =
    let rest = names_unserved (is_word c) s in (not after_word && is_code (c ∷ s)) || rest

abbrev pub some_enabled : JsString → List ProtocolFeature → Bool
some_enabled name [] = false
some_enabled name (f ∷ fs) = str_eq f.name name && f.enabled || some_enabled name fs

unfoldable pub is_protocol_feature_enabled :
    Result JsString (List ProtocolFeature) → JsString → Result JsString Bool
unfolding names_unserved
is_protocol_feature_enabled (ok features) name = ok (some_enabled name features)
is_protocol_feature_enabled (err message) name =
    if names_unserved false message then ok false else err message

-- `Number.isFinite(h) && h > 0 ? h : 0`.
abbrev pub height_of : JsNumber → ℕ
height_of (whole h) = h
height_of other_number = 0

unfoldable pub get_applied_plan_height : Result JsString JsNumber → Result JsString ℕ
get_applied_plan_height height = do h ← height; ok (height_of h)
