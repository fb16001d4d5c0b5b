-- ===== src/Rules/Id.antt =====
-- The id rule against the grammar of an id, `^[a-z0-9][a-z0-9._-]{2,63}$`.
use qorechain_rdk.Prelude.{
  ◌<◌, ℕ, suc, ◌≡◌, refl, ◌≢◌, ◌↔◌, inl, inr, Bool, true, false, ◌&&◌, ◌||◌, none, [], ◌∷◌, arith,
  leb, lt→ltb, Bool-cases, length,
}
use qorechain_rdk.Text.Encoder.{utf8_ascii, IsAscii}
use qorechain_rdk.Text.{JsString}
use qorechain_rdk.Rules.{rollup_id_error, scan_id, is_lower_or_digit, is_mark}

abbrev pub is_id_character : ℕ → Bool
is_id_character c = is_lower_or_digit c || is_mark c

abbrev pub are_id_characters : JsString → Bool
are_id_characters [] = true
are_id_characters (c ∷ id) = is_id_character c && are_id_characters id

-- The grammar: a letter or digit, then letters, digits and marks, 3 to 64 characters in all.
abbrev pub matches_grammar : JsString → Bool
matches_grammar [] = false
matches_grammar (c ∷ id) =
    is_lower_or_digit c && are_id_characters id && leb 2 (length id) && leb (length id) 63

scan_rest : (i : ℕ) (id : JsString) → (scan_id (suc i) id ≡ none) ↔ (are_id_characters id ≡ true)
unfolding scan_id
scan_rest i [] = (λ h. refl, λ h. refl)
scan_rest i (c ∷ id) =
    let (there, back) = scan_rest (suc i) id in
    elim (Bool-cases (is_lower_or_digit c)) [
      | inl l ↦ rw l (there, back)
      | inr l ↦ elim (Bool-cases (is_mark c)) [
        | inl m ↦ rw (l, m, lt→ltb 0 (suc i) (omega arith)) (there, back)
        | inr m ↦ rw (l, m) (λ h. cc, λ h. cc)
      ]
    ]

scan_whole :
    (c : ℕ) (id : JsString)
    → (scan_id 0 (c ∷ id) ≡ none) ↔ ((is_lower_or_digit c && are_id_characters id) ≡ true)
unfolding scan_id
scan_whole c id =
    let (there, back) = scan_rest 0 id in
    elim (Bool-cases (is_lower_or_digit c)) [
      | inl l ↦ rw l (there, back)
      | inr l ↦ elim (Bool-cases (is_mark c)) [
        | inl m ↦ rw (l, m) (λ h. cc, λ h. cc)
        | inr m ↦ rw (l, m) (λ h. cc, λ h. cc)
      ]
    ]

id_character_ascii : (c : ℕ) → is_id_character c ≡ true → c < 128
id_character_ascii c h = ground arith

id_characters-IsAscii : (id : JsString) → are_id_characters id ≡ true → IsAscii id
id_characters-IsAscii [] h = tt
id_characters-IsAscii (c ∷ id) h =
    (id_character_ascii c (ground arith), id_characters-IsAscii id (ground arith))

lower_character : (c : ℕ) → is_lower_or_digit c ≡ true → is_id_character c ≡ true
lower_character c h = ground arith

-- The id rule accepts exactly the ids of the chain's grammar: 3 to 64 characters, lowercase letters,
-- digits, dots, underscores and dashes, with a letter or a digit first.
pub rollup_id_error_iff :
    (id : JsString) → (rollup_id_error id ≡ none) ↔ (matches_grammar id ≡ true)
unfolding rollup_id_error
rollup_id_error_iff [] = rw (utf8_ascii [] tt) (λ h. cc, λ h. cc)
rollup_id_error_iff (c ∷ id) = elim (Bool-cases (is_lower_or_digit c && are_id_characters id)) [
  | inl g ↦
      let first : is_id_character c ≡ true = lower_character c (ground arith) in
      let rest : are_id_characters id ≡ true = ground arith in
      let e = utf8_ascii (c ∷ id) (id_character_ascii c first, id_characters-IsAscii id rest) in
      let (there, back) = scan_whole c id in rw (e, back g) (ground arith)
  | inr g ↦
      let scanned : scan_id 0 (c ∷ id) ≢ none = λ h. cc (g, (scan_whole c id).0 h) in
      (λ h. absurd (scanned (ground arith)), λ h. absurd (ground arith))
]
