-- ===== src/Withdrawal/Leaf.antt =====
-- What a withdrawal leaf commits to, under both layouts.
use qorechain_rdk.Prelude.{
  ◌^◌, ◌<◌, ◌≡◌, refl, sym, ◌∙◌, ◌≢◌, ◌⊎◌, inl, inr, [], ◌∷◌, ◌++◌, arith, length, ok, ok-injective,
}
use mathlib.Core.List.{append_assoc}
use qorechain_rdk.Text.{JsString, js}
use qorechain_rdk.Text.Encoder.{utf8}
use qorechain_rdk.Bytes.{Bytes, u64be, lp32}
use qorechain_rdk.Bytes.Layout.{lp32_cancel, u64be_cancel, append_cancel}
use qorechain_rdk.QoreHash.{qorehash, concat_parts, Collision, hash_binds}
use qorechain_rdk.Withdrawal.{
  WithdrawalLeafInput, v1_leaf_parts, v2_leaf_parts, withdrawal_leaf_v1, withdrawal_leaf_v2,
}

-- No byte of a text is zero.
abbrev pub NoZero : Bytes → Type 0
NoZero [] = Unit
NoZero (b ∷ bs) = (b ≢ 0) × NoZero bs

-- A text without zero bytes ends at the first zero.
zero_cancel : (a b r s : Bytes) → NoZero a → NoZero b → a ++ 0 ∷ r ≡ b ++ 0 ∷ s → (a ≡ b) × (r ≡ s)
zero_cancel [] [] r s h k e = (refl, cc e)
zero_cancel [] (y ∷ b) r s h k e = absurd (ground arith)
zero_cancel (x ∷ a) [] r s h k e = absurd (ground arith)
zero_cancel (x ∷ a) (y ∷ b) r s h k e = let (p, q) = zero_cancel a b r s h.1 k.1 (cc e) in (cc, q)

-- Two withdrawals that the chain reads alike: texts are compared by their UTF-8 bytes.
pub record SameWithdrawal (a b : WithdrawalLeafInput) : Type 0 where
  pub rollup : utf8 a.rollup_id ≡ utf8 b.rollup_id
  pub index : a.withdrawal_index ≡ b.withdrawal_index
  pub recipient : utf8 a.recipient ≡ utf8 b.recipient
  pub denom : utf8 a.denom ≡ utf8 b.denom
  pub amount : a.amount ≡ b.amount

-- Index and amount fit 8 bytes, and no text holds a zero byte.
abbrev pub FitsLeafV1 : WithdrawalLeafInput → Type 0
FitsLeafV1 w =
    NoZero (utf8 w.rollup_id)
    × (w.withdrawal_index < 2 ^ 64)
    × NoZero (utf8 w.recipient)
    × NoZero (utf8 w.denom)
    × (w.amount < 2 ^ 64)

-- Index and amount fit 8 bytes, and the lengths of the texts 4.
abbrev pub FitsLeafV2 : JsString → WithdrawalLeafInput → Type 0
FitsLeafV2 chain w =
    (length (utf8 chain) < 2 ^ 32)
    × (length (utf8 w.rollup_id) < 2 ^ 32)
    × (w.withdrawal_index < 2 ^ 64)
    × (length (utf8 w.recipient) < 2 ^ 32)
    × (length (utf8 w.denom) < 2 ^ 32)
    × (w.amount < 2 ^ 64)

v1_leaf_inj :
    (a b : WithdrawalLeafInput)
    → FitsLeafV1 a
    → FitsLeafV1 b
    → concat_parts (v1_leaf_parts a) ≡ concat_parts (v1_leaf_parts b)
    → SameWithdrawal a b
v1_leaf_inj a b f g e =
    let (p1, e1) = zero_cancel (utf8 a.rollup_id) (utf8 b.rollup_id) _ _ f.0 g.0 e in
    let (p2, e2) = u64be_cancel a.withdrawal_index b.withdrawal_index _ _ f.1 g.1 e1 in
    let (p3, e3) = zero_cancel (utf8 a.recipient) (utf8 b.recipient) _ _ f.2 g.2 e2 in
    let (p4, e4) = zero_cancel (utf8 a.denom) (utf8 b.denom) _ _ f.3 g.3 e3 in
    let (p5, _) = u64be_cancel a.amount b.amount _ _ f.4 g.4 e4 in
    record { rollup = p1; index = p2; recipient = p3; denom = p4; amount = p5 }

-- Two v1 leaves with the same hash are leaves of the same withdrawal of one rollup, where no text holds
-- a zero byte, or the hash has a collision. The network is not part of it.
pub withdrawal_leaf_v1_binds :
    (shake : Bytes → Bytes) (a b : WithdrawalLeafInput)
    → FitsLeafV1 a
    → FitsLeafV1 b
    → withdrawal_leaf_v1 shake a ≡ withdrawal_leaf_v1 shake b
    → SameWithdrawal a b ⊎ Collision shake
unfolding withdrawal_leaf_v1 qorehash
withdrawal_leaf_v1_binds shake a b f g e =
    elim (hash_binds shake (concat_parts (v1_leaf_parts a)) (concat_parts (v1_leaf_parts b)) e) [
      | inl same ↦ inl (v1_leaf_inj a b f g same)
      | inr c ↦ inr c
    ]

abbrev tag : Bytes
tag = utf8 (js "qorechain-rdk-withdrawal/v2")

v2_leaf_preimage :
    (chain : JsString) (w : WithdrawalLeafInput)
    → concat_parts (v2_leaf_parts chain w)
      ≡ lp32 tag
        ++ (lp32 (utf8 chain)
            ++ (lp32 (utf8 w.rollup_id)
                ++ (u64be w.withdrawal_index
                    ++ (lp32 (utf8 w.recipient)
                        ++ (lp32 (utf8 w.denom) ++ (u64be w.amount ++ []))))))
unfolding lp32
v2_leaf_preimage chain w = simp append_assoc

v2_leaf_inj :
    (chain chain' : JsString) (a b : WithdrawalLeafInput)
    → FitsLeafV2 chain a
    → FitsLeafV2 chain' b
    → concat_parts (v2_leaf_parts chain a) ≡ concat_parts (v2_leaf_parts chain' b)
    → (utf8 chain ≡ utf8 chain') × SameWithdrawal a b
v2_leaf_inj chain chain' a b f g e =
    let e0 = sym (v2_leaf_preimage chain a) ∙ e ∙ v2_leaf_preimage chain' b in
    let e1 = (append_cancel (lp32 tag) (lp32 tag) _ _ refl e0).1 in
    let (p0, e2) = lp32_cancel (utf8 chain) (utf8 chain') _ _ f.0 g.0 e1 in
    let (p1, e3) = lp32_cancel (utf8 a.rollup_id) (utf8 b.rollup_id) _ _ f.1 g.1 e2 in
    let (p2, e4) = u64be_cancel a.withdrawal_index b.withdrawal_index _ _ f.2 g.2 e3 in
    let (p3, e5) = lp32_cancel (utf8 a.recipient) (utf8 b.recipient) _ _ f.3 g.3 e4 in
    let (p4, e6) = lp32_cancel (utf8 a.denom) (utf8 b.denom) _ _ f.4 g.4 e5 in
    let (p5, _) = u64be_cancel a.amount b.amount _ _ f.5 g.5 e6 in
    (p0, record { rollup = p1; index = p2; recipient = p3; denom = p4; amount = p5 })

pub v2_leaf_hash :
    (shake : Bytes → Bytes) (chain : JsString) (w : WithdrawalLeafInput) (leaf : Bytes)
    → withdrawal_leaf_v2 shake chain w ≡ ok leaf
    → leaf ≡ shake (concat_parts (v2_leaf_parts chain w))
unfolding withdrawal_leaf_v2 qorehash
v2_leaf_hash shake [] w leaf e = cc
v2_leaf_hash shake (c ∷ chain) w leaf e = sym (ok-injective e)

-- Two v2 leaves with the same hash name the same network and the same withdrawal, or the hash has a
-- collision.
pub withdrawal_leaf_v2_binds :
    (shake : Bytes → Bytes) (chain chain' : JsString) (a b : WithdrawalLeafInput) (leaf : Bytes)
    → FitsLeafV2 chain a
    → FitsLeafV2 chain' b
    → withdrawal_leaf_v2 shake chain a ≡ ok leaf
    → withdrawal_leaf_v2 shake chain' b ≡ ok leaf
    → ((utf8 chain ≡ utf8 chain') × SameWithdrawal a b) ⊎ Collision shake
withdrawal_leaf_v2_binds shake chain chain' a b leaf f g ea eb =
    elim (hash_binds shake (concat_parts (v2_leaf_parts chain a))
      (concat_parts (v2_leaf_parts chain' b))
      (sym (v2_leaf_hash shake chain a leaf ea) ∙ v2_leaf_hash shake chain' b leaf eb)) [
        | inl same ↦ inl (v2_leaf_inj chain chain' a b f g same)
        | inr c ↦ inr c
      ]
