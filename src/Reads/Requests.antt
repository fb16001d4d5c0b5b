-- ===== src/Reads/Requests.antt =====
-- `RestClient.get` of packages/ts/src/client/rest.ts, over `fetch`, and how the client takes a body apart.
-- The method and the headers of a request are always the same, and are left out.
use qorechain_rdk.Prelude.{
  ◌+◌, ◌/◌, ◌%◌, ℕ, Bool, not, ◌&&◌, ◌||◌, Option, none, some, List, [], ◌∷◌, ◌++◌, ltb, leb, ◌==◌,
  if◌then◌else◌, Result, ok, err, ◌>>=◌,
}
use Prim.Native.String.{String}
use qorechain_rdk.Text.{JsString, js}
use qorechain_rdk.Text.Encoder.{utf8}
use qorechain_rdk.Amounts.{to_string}
use qorechain_rdk.Views.Json.{
  item, no_items, Items, no_fields, Json, lookup, json_object, json_null, json_array,
}
use qorechain_rdk.Bytes.Hex.{invalid_hex_string}
use qorechain_rdk.Views.Fields.{hex_refused, RawRecord, ViewError, no_natural}

pub record HttpResponse : Type 0 where
  pub is_ok : Bool
  pub status : ℕ
  pub status_text : JsString
  pub json : Result JsString Json

abbrev pub FetchLike : Type 0
FetchLike = JsString → Result JsString HttpResponse

-- `encodeURIComponent`, on texts without lone surrogates.
abbrev pub is_unreserved : ℕ → Bool
is_unreserved c =
    leb b'a' c && leb c b'z'
    || leb b'A' c && leb c b'Z'
    || leb b'0' c && leb c b'9'
    || c == b'-'
    || c == b'_'
    || c == b'.'
    || c == b'!'
    || c == b'~'
    || c == b'*'
    || c == 39
    || c == b'('
    || c == b')'

abbrev pub upper_digit : ℕ → ℕ
upper_digit n = if ltb n 10 then 48 + n else 55 + n

abbrev pub percent : ℕ → JsString
percent b =
    if is_unreserved b then b ∷ [] else b'%' ∷ upper_digit (b / 16) ∷ upper_digit (b % 16) ∷ []

abbrev pub percent_all : List ℕ → JsString
percent_all [] = []
percent_all (b ∷ bs) = percent b ++ percent_all bs

unfoldable pub encode_uri_component : JsString → JsString
encode_uri_component s = percent_all (utf8 s)

-- `replace(/\/+$/, "")`.
abbrev pub drop_slash : ℕ → JsString → JsString
drop_slash c [] = if c == b'/' then [] else c ∷ []
drop_slash c (d ∷ s) = c ∷ d ∷ s

unfoldable pub strip_slashes : JsString → JsString
strip_slashes [] = []
strip_slashes (c ∷ s) = drop_slash c (strip_slashes s)

-- `asRecord`: an object, or an array, which is one.
abbrev pub as_record : Json → Json
as_record (json_object o) = json_object o
as_record (json_array a) = json_array a
as_record v = json_object no_fields

-- The keys that the client reads are none of an array's.
abbrev pub fields_of : Json → RawRecord
fields_of (json_object o) = o
fields_of v = no_fields

abbrev pub prop : String → Json → Option Json
prop key v = lookup (js key) (fields_of v)

-- `x ?? y`.
abbrev pub or_else : Option Json → Json → Json
or_else none v = v
or_else (some json_null) v = v
or_else (some w) v = w

-- `asRecord(body.key ?? body)`.
abbrev pub wrapped : String → Json → RawRecord
wrapped key body = fields_of (as_record (or_else (prop key body) body))

abbrev pub as_array : Option Json → Items
as_array (some (json_array items)) = items
as_array v = no_items

-- An element that is null throws where a field of it is read.
abbrev pub element : Json → Result JsString RawRecord
element json_null = err (js "Cannot read properties of null")
element v = ok (fields_of v)

unfoldable pub map_items {ℓ} :
    {A : Type ℓ} → (RawRecord → Result JsString A) → Items → Result JsString (List A)
map_items read no_items = ok []
map_items read (item x more) = do
  raw ← element x
  a ← read raw
  rest ← map_items read more
  ok (a ∷ rest)

-- The messages of what the mappers throw; `no_natural` is none of them.
abbrev pub said {ℓ} : {A : Type ℓ} → Result ViewError A → Result JsString A
said (ok a) = ok a
said (err (hex_refused (invalid_hex_string hex))) =
    err (js "invalid hex string: \"" ++ (hex ++ js "\""))
said (err no_natural) = err (js "not a natural number")

abbrev pub refusal : JsString → HttpResponse → JsString
refusal path res =
    js "REST GET "
    ++ (path ++ (js " failed: " ++ (to_string res.status ++ (js " " ++ res.status_text))))

unfoldable pub get : FetchLike → JsString → JsString → Result JsString Json
get fetch base path = do
  res ← fetch (strip_slashes base ++ path)
  if not res.is_ok then err (refusal path res) else (do body ← res.json; ok (as_record body))
