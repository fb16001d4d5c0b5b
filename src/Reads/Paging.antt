-- ===== src/Reads/Paging.antt =====
-- `listBatches` of packages/ts/src/client/rest.ts against a node that holds a list of batches and serves
-- it in pages of any sizes.
use qorechain_rdk.Prelude.{
  ◌+◌, ◌-◌, ◌≤◌, ◌<◌, ℕ, zero, suc, ◌≡◌, refl, sym, ap, ◌∙◌, subst, inl, inr, Bool, true, false,
  Option, none, some, List, [], ◌∷◌, ◌++◌, arith, ltb, if◌then◌else◌, ltb→lt, Bool-cases, length,
  take, drop, take-append-drop, length-drop, Result, ok,
}
use mathlib.Core.List.{append_assoc, append-nil}
use qorechain_rdk.Text.{JsString, is_empty, JsNumber, whole, other_number}
use qorechain_rdk.Views.{BatchView}
use qorechain_rdk.Reads.{max_pages, list_batches, list_pages, ends_paging, BatchesPage, PageServer}

abbrev pub start_of : Option JsNumber → ℕ
start_of none = 0
start_of (some (whole n)) = n
start_of (some other_number) = 0

-- The page of `n` batches from `s` on, and where the next one starts: 0 after the last.
abbrev pub page_at : List BatchView → ℕ → ℕ → BatchesPage
page_at stored n s = record {
  batches = take n (drop s stored);
  next_index = whole (if ltb (s + n) (length stored) then s + n else 0);
}

-- The size of each page is the node's choice.
abbrev pub paging_node : List BatchView → (ℕ → ℕ → ℕ) → PageServer
paging_node stored size asked start =
    ok (page_at stored (size asked (start_of start)) (start_of start))

drop-[] : {A : Type 0} (n : ℕ) → ◌≡◌ {A = List A} (drop n []) []
drop-[] zero = refl
drop-[] (suc n) = refl

drop-drop : {A : Type 0} (n m : ℕ) (xs : List A) → drop m (drop n xs) ≡ drop (n + m) xs
drop-drop zero m xs = ap (λ (k : ℕ). drop k xs) (omega arith)
drop-drop {A = A} (suc n) m [] = drop-[] {A = A} m ∙ sym (drop-[] {A = A} (suc n + m))
drop-drop (suc n) m (x ∷ xs) =
    let e : suc (n + m) ≡ suc n + m = omega arith in
    subst (λ (k : ℕ). drop m (drop n xs) ≡ drop k (x ∷ xs)) e (drop-drop n m xs)

-- A page that is not the last leaves the rest; one that is empty or the last holds all that is left.
whole_page : {A : Type 0} (n : ℕ) (d : List A) → length d ≤ n → take n d ≡ d
whole_page zero [] h = refl
whole_page zero (x ∷ d) h = absurd (omega arith)
whole_page (suc n) [] h = refl
whole_page (suc n) (x ∷ d) h = ap (λ t. x ∷ t) (whole_page n d (omega arith))

empty_page : {A : Type 0} (n : ℕ) (d : List A) → 0 < n → is_empty (take n d) ≡ true → d ≡ []
empty_page zero d h e = absurd (omega arith)
empty_page (suc n) [] h e = refl
empty_page (suc n) (x ∷ d) h e = absurd (cc)

none_left : {A : Type 0} (d : List A) → length d ≡ 0 → d ≡ []
none_left [] h = refl
none_left (x ∷ d) h = absurd (omega (arith, h))

module _ (stored : List BatchView) (size : ℕ → ℕ → ℕ)
    (some_each : (asked s : ℕ) → 0 < size asked s) where
  last_page :
      (n s : ℕ)
      → 0 < n
      → ends_paging (page_at stored n s).next_index (page_at stored n s).batches ≡ true
      → take n (drop s stored) ≡ drop s stored
  last_page n s pos_n h = elim (Bool-cases (is_empty (take n (drop s stored)))) [
    | inl none_ ↦
        let all = empty_page n (drop s stored) pos_n none_ in
        subst (λ (t : List BatchView). take n t ≡ t) (sym all) (whole_page n [] (omega arith))
    | inr some_ ↦ elim (Bool-cases (ltb (s + n) (length stored))) [
      | inl more ↦ absurd (ground arith)
      | inr over ↦ whole_page n (drop s stored) (ground (arith, length-drop s stored))
    ]
  ]

  next_start :
      (n s : ℕ)
      → 0 < n
      → ends_paging (page_at stored n s).next_index (page_at stored n s).batches ≡ false
      → (s + n < length stored) × (start_of (some (page_at stored n s).next_index) ≡ s + n)
  next_start n s pos_n h = elim (Bool-cases (ltb (s + n) (length stored))) [
    | inl more ↦ (ltb→lt (s + n) (length stored) more, rw more refl)
    | inr over ↦ absurd (ground arith)
  ]

  rest_of_pages :
      (n s s' : ℕ) (out : List BatchView)
      → s' ≡ s + n
      → (out ++ take n (drop s stored)) ++ drop s' stored ≡ out ++ drop s stored
  rest_of_pages n s s' out e =
      append_assoc out (take n (drop s stored)) (drop s' stored)
      ∙ ap (λ t. out ++ t)
          (ap (λ (k : ℕ). take n (drop s stored) ++ drop k stored) e
            ∙ (ap (λ t. take n (drop s stored) ++ t) (sym (drop-drop s n stored))
                ∙ take-append-drop n (drop s stored)))

  pages_all :
      (left asked : ℕ) (start : Option JsNumber) (out : List BatchView)
      → length stored - start_of start ≤ left
      → list_pages (paging_node stored size) left asked start out
        ≡ ok (out ++ drop (start_of start) stored)
  unfolding list_pages
  pages_all zero asked start out h =
      let none_ =
        none_left (drop (start_of start) stored)
          (omega (arith, length-drop (start_of start) stored)) in
      rw none_ (ap ok (sym (append-nil out)))
  pages_all (suc left) asked start out h =
      let s = start_of start in
      let n = size asked s in
      let page = page_at stored n s in
      let goes_on =
        list_pages (paging_node stored size) left (asked + 1) (some page.next_index)
          (out ++ page.batches) in
      elim (Bool-cases (ends_paging page.next_index page.batches)) [
        | inl ends ↦
            subst
              (λ (b : Bool).
                ◌≡◌ {A = Result JsString (List BatchView)}
                  (elim b [ true ↦ ok (out ++ page.batches) | false ↦ goes_on ])
                  (ok (out ++ drop s stored)))
              (sym ends) (ap (λ t. ok (out ++ t)) (last_page n s (some_each asked s) ends))
        | inr more ↦
            let next : (s + n < length stored) × (start_of (some page.next_index) ≡ s + n) =
              next_start n s (some_each asked s) more in
            subst
              (λ (b : Bool).
                ◌≡◌ {A = Result JsString (List BatchView)}
                  (elim b [ true ↦ ok (out ++ page.batches) | false ↦ goes_on ])
                  (ok (out ++ drop s stored)))
              (sym more)
              (pages_all left (asked + 1) (some page.next_index) (out ++ page.batches)
                  (omega (arith, some_each asked s, next.0, next.1))
                ∙ ap ok (rest_of_pages n s (start_of (some page.next_index)) out next.1))
      ]

-- The whole of the list from the start index on comes back, whatever sizes of at least 1 the node gives its
-- pages, as long as it has at most as many batches from there on as the loop may ask for pages.
pub list_batches_all :
    (stored : List BatchView) (size : ℕ → ℕ → ℕ) (start : Option JsNumber)
    → ((asked s : ℕ) → 0 < size asked s)
    → length stored - start_of start ≤ max_pages
    → list_batches (paging_node stored size) start ≡ ok (drop (start_of start) stored)
unfolding list_batches
list_batches_all stored size start some_each h =
    pages_all stored size some_each max_pages 0 start [] h
