-- ===== src/Health/Oldest.antt =====
-- `oldestUnsettledBefore` of packages/ts/src/health/index.ts: sorting and taking the first finds the
-- batch of the least index.
use qorechain_rdk.Prelude.{
  ◌≤◌, ℕ, ◌≡◌, refl, sym, ap, subst, ◌↔◌, ◌⊎◌, inl, inr, Bool, true, false, none, some, List, [],
  ◌∷◌, arith, leb, leb→le, Bool-cases,
}
use qorechain_rdk.Views.{BatchView}
use qorechain_rdk.Health.{
  filter, insert_by_index, sort_by_index, is_pending_before, first_of, oldest_of,
}

abbrev pub Among : BatchView → List BatchView → Type 0
Among b [] = ⊥
Among b (x ∷ xs) = (b ≡ x) ⊎ Among b xs

-- One element more, kept or left.
Among-filter_step :
    (keeps : BatchView → Bool) (x : BatchView) (xs : List BatchView) (b : BatchView)
    → Among b (filter keeps xs) ↔ (Among b xs × (keeps b ≡ true))
    → Among b (filter keeps (x ∷ xs)) ↔ (Among b (x ∷ xs) × (keeps b ≡ true))
Among-filter_step keeps x xs b ih = elim (Bool-cases (keeps x)) [
  | inl kept ↦ rw kept (there kept, back)
  | inr left ↦ rw left (λ h. let (a, k) = ih.0 h in (inr a, k), dropped left)
]
  where
    there :
        keeps x ≡ true
        → (b ≡ x) ⊎ Among b (filter keeps xs)
        → ((b ≡ x) ⊎ Among b xs) × (keeps b ≡ true)
    there kept (inl e) = (inl e, subst (λ (t : BatchView). keeps t ≡ true) (sym e) kept)
    there kept (inr a) = let (a', k) = ih.0 a in (inr a', k)

    back : ((b ≡ x) ⊎ Among b xs) × (keeps b ≡ true) → (b ≡ x) ⊎ Among b (filter keeps xs)
    back (inl e, k) = inl e
    back (inr a, k) = inr (ih.1 (a, k))

    dropped :
        keeps x ≡ false → ((b ≡ x) ⊎ Among b xs) × (keeps b ≡ true) → Among b (filter keeps xs)
    dropped left (inl e, k) = absurd (cc (subst (λ (t : BatchView). keeps t ≡ true) e k))
    dropped left (inr a, k) = ih.1 (a, k)

pub Among-filter :
    (keeps : BatchView → Bool) (xs : List BatchView) (b : BatchView)
    → Among b (filter keeps xs) ↔ (Among b xs × (keeps b ≡ true))
Among-filter keeps [] b = (λ h. absurd h, λ h. absurd h.0)
Among-filter keeps (x ∷ xs) b = Among-filter_step keeps x xs b (Among-filter keeps xs b)

-- A list that is not empty is sorted to one that begins with a batch of the least index.
abbrev Begins : List BatchView → List BatchView → Type 0
Begins sorted bs =
    (m : BatchView) × (rest : List BatchView) × (sorted ≡ m ∷ rest)
    × Among m bs
    × ((b : BatchView) → Among b bs → m.batch_index ≤ b.batch_index)

inserted :
    (b : BatchView) (bs sorted : List BatchView)
    → Begins sorted bs
    → Begins (insert_by_index b sorted) (b ∷ bs)
inserted b bs sorted (m, rest, e, among, least) =
    elim (Bool-cases (leb b.batch_index m.batch_index)) [
      | inl before ↦
          (b, m ∷ rest, rw (e, before) refl, inl refl, λ c. first_least (leb→le _ _ before) c)
      | inr behind ↦ (
        m,
        insert_by_index b rest,
        rw (e, behind) refl,
        inr among,
        λ c. later_least (ground arith) c,
      )
    ]
  where
    first_least :
        b.batch_index ≤ m.batch_index
        → (c : BatchView) → (c ≡ b) ⊎ Among c bs
        → b.batch_index ≤ c.batch_index
    first_least h c (inl same) =
        subst (λ (t : BatchView). b.batch_index ≤ t.batch_index) (sym same) (omega arith)
    first_least h c (inr a) = omega (arith, h, least c a)

    later_least :
        m.batch_index ≤ b.batch_index
        → (c : BatchView) → (c ≡ b) ⊎ Among c bs
        → m.batch_index ≤ c.batch_index
    later_least h c (inl same) =
        subst (λ (t : BatchView). m.batch_index ≤ t.batch_index) (sym same) h
    later_least h c (inr a) = least c a

sort-Begins : (bs : List BatchView) → (bs ≡ []) ⊎ Begins (sort_by_index bs) bs
unfolding sort_by_index
sort-Begins [] = inl refl
sort-Begins (b ∷ bs) = elim (sort-Begins bs) [
  | inl none_ ↦ rw none_ (inr (b, [], refl, inl refl, λ c. only c))
  | inr begins ↦ inr (inserted b bs (sort_by_index bs) begins)
]
  where
    only : (c : BatchView) → (c ≡ b) ⊎ ⊥ → b.batch_index ≤ c.batch_index
    only c (inl same) =
        subst (λ (t : BatchView). b.batch_index ≤ t.batch_index) (sym same) (omega arith)
    only c (inr a) = absurd a

-- Either there is no result and no batch of the list before the latest is unsettled, or the result is the
-- index and status of one of those that are, and no other of them has a smaller index.
pub oldest_of_cases :
    (latest : ℕ) (batches : List BatchView)
    → ((oldest_of latest batches ≡ none)
        × ((b : BatchView) → Among b batches → is_pending_before latest b ≡ false))
      ⊎ ((m : BatchView) × (oldest_of latest batches ≡ some (m.batch_index, m.status))
          × Among m batches
          × (is_pending_before latest m ≡ true)
          × ((b : BatchView)
              → Among b batches
              → is_pending_before latest b ≡ true
              → m.batch_index ≤ b.batch_index))
unfolding oldest_of
oldest_of_cases latest batches = elim (sort-Begins (filter (is_pending_before latest) batches)) [
  | inl none_ ↦ inl (rw none_ nothing, λ b a. not_pending none_ b a)
  | inr (m, rest, e, among, least) ↦
      let (a, k) = (Among-filter (is_pending_before latest) batches m).0 among in
      inr (
        m,
        ap first_of e,
        a,
        k,
        λ b a' k'. least b ((Among-filter (is_pending_before latest) batches b).1 (a', k')),
      )
]
  where
    nothing : first_of (sort_by_index []) ≡ none
    nothing = refl

    not_pending :
        filter (is_pending_before latest) batches ≡ []
        → (b : BatchView) → Among b batches
        → is_pending_before latest b ≡ false
    not_pending none_ b a = elim (Bool-cases (is_pending_before latest b)) [
      | inr no_ ↦ no_
      | inl pending ↦ absurd (
          subst (λ t. Among b t) none_
            ((Among-filter (is_pending_before latest) batches b).1 (a, pending)))
    ]
