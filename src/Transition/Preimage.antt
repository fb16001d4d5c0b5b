-- ===== src/Transition/Preimage.antt =====
-- The byte string that the v2 root hashes, as length-prefixed fields, and what it determines.
use qorechain_rdk.Prelude.{◌^◌, ◌<◌, ℕ, ◌≡◌, refl, sym, ◌∙◌, List, [], ◌∷◌, ◌++◌, length}
use mathlib.Core.List.{append_assoc}
use qorechain_rdk.Text.{JsString, js}
use qorechain_rdk.Text.Encoder.{utf8}
use qorechain_rdk.Bytes.{Bytes, u64be, u32be, lp32}
use qorechain_rdk.Bytes.Layout.{lp32_cancel, u64be_cancel, append_cancel}
use qorechain_rdk.QoreHash.{concat_parts}
use qorechain_rdk.Transition.{field, v2_parts}

abbrev tag : Bytes
tag = utf8 (js "qorechain-rdk-transition/v2")

-- The lengths fit their 4-byte prefix and the count its 8 bytes.
abbrev pub FitsFields : JsString → JsString → Bytes → Bytes → ℕ → Bytes → Type 0
FitsFields chain rollup prev hash count withdrawals =
    (length (utf8 chain) < 2 ^ 32)
    × (length (utf8 rollup) < 2 ^ 32)
    × (length prev < 2 ^ 32)
    × (length hash < 2 ^ 32)
    × (count < 2 ^ 64)
    × (length withdrawals < 2 ^ 32)

pub concat_parts-append :
    (ps qs : List Bytes) → concat_parts (ps ++ qs) ≡ concat_parts ps ++ concat_parts qs
concat_parts-append [] qs = refl
concat_parts-append (p ∷ ps) qs =
    rw (concat_parts-append ps qs) (sym (append_assoc p (concat_parts ps) (concat_parts qs)))

pub concat_parts-field :
    (b : Bytes) (ps : List Bytes) → concat_parts (field b ++ ps) ≡ lp32 b ++ concat_parts ps
unfolding lp32
concat_parts-field b ps = sym (append_assoc (u32be (length b)) b (concat_parts ps))

pub v2_preimage :
    (chain rollup : JsString) (prev hash : Bytes) (count : ℕ) (withdrawals : Bytes)
    → concat_parts (v2_parts chain rollup prev hash count withdrawals)
      ≡ lp32 tag
        ++ (lp32 (utf8 chain)
            ++ (lp32 (utf8 rollup)
                ++ (lp32 prev ++ (lp32 hash ++ (u64be count ++ (lp32 withdrawals ++ []))))))
unfolding lp32
v2_preimage chain rollup prev hash count withdrawals = simp append_assoc

-- What a v2 preimage determines.
pub v2_preimage_inj :
    (chain chain' rollup rollup' : JsString) (prev prev' hash hash' : Bytes) (count count' : ℕ)
    (withdrawals withdrawals' : Bytes)
    → FitsFields chain rollup prev hash count withdrawals
    → FitsFields chain' rollup' prev' hash' count' withdrawals'
    → concat_parts (v2_parts chain rollup prev hash count withdrawals)
      ≡ concat_parts (v2_parts chain' rollup' prev' hash' count' withdrawals')
    → (utf8 chain ≡ utf8 chain')
      × (utf8 rollup ≡ utf8 rollup')
      × (prev ≡ prev')
      × (hash ≡ hash')
      × (count ≡ count')
      × (withdrawals ≡ withdrawals')
v2_preimage_inj chain chain' rollup rollup' prev prev' hash hash' count count' w w' f g e =
    let e0 =
      sym (v2_preimage chain rollup prev hash count w)
      ∙ e
      ∙ v2_preimage chain' rollup' prev' hash' count' w' in
    let e1 = (append_cancel (lp32 tag) (lp32 tag) _ _ refl e0).1 in
    let (p1, e2) = lp32_cancel (utf8 chain) (utf8 chain') _ _ f.0 g.0 e1 in
    let (p2, e3) = lp32_cancel (utf8 rollup) (utf8 rollup') _ _ f.1 g.1 e2 in
    let (p3, e4) = lp32_cancel prev prev' _ _ f.2 g.2 e3 in
    let (p4, e5) = lp32_cancel hash hash' _ _ f.3 g.3 e4 in
    let (p5, e6) = u64be_cancel count count' _ _ f.4 g.4 e5 in
    let (p6, _) = lp32_cancel w w' _ _ f.5 g.5 e6 in (p1, p2, p3, p4, p5, p6)
