-- ===== src/Transition/Version.antt =====
-- Which binding a batch is judged by, and the layout of a fraud proof.
use qorechain_rdk.Prelude.{
  ◌≤◌, ◌<◌, ℕ, ◌≡◌, refl, sym, ap, ◌∙◌, ◌≢◌, ◌⊎◌, inl, inr, Bool, true, false, not, ◌&&◌, ◌||◌,
  Option, none, some, ◌++◌, arith, ltb, leb, ◌==◌, if◌then◌else◌, ==_iff, Bool-cases, length,
  length-append, take, drop, take-append, drop-append, Result, ok, err, ok-injective, Result-cases,
  >>=-eq-ok,
}
use qorechain_rdk.Transition.{
  JsString, Rest, Bytes, v1, v2, TransitionError, rethrow, proof_roots_length, is_true,
  withdrawals_binding_upgrade, transition_root_version_for_batch, fraud_proof,
}
use qorechain_rdk.Bytes.Hex.{HexError, to_bytes, BytesInput}

not_true : (b : Option Bool) → is_true b ≡ false → b ≢ some true
not_true none h = λ e. cc
not_true (some true) h = cc
not_true (some false) h = λ e. cc

is_bound : (b : Option Bool) → is_true b ≡ true → b ≡ some true
is_bound none h = cc
is_bound (some true) h = refl
is_bound (some false) h = cc

-- An existing batch is judged by v2 where the node says that it is bound, or the upgrade was applied at
-- a height, not 0, that is at most the one the batch was submitted at; by v1 where the node does not say
-- so and the upgrade was not applied by then. The height is read only where the node does not say so,
-- and an error of that read is passed on.
pub transition_root_version_for_batch_cases :
    (rest : Rest) (at : ℕ) (bound : Option Bool)
    → let result = transition_root_version_for_batch rest at bound in
      let applied = rest.get_applied_plan_height withdrawals_binding_upgrade in
      ((result ≡ ok v2) × (bound ≡ some true))
      ⊎ ((h : ℕ) × (result ≡ ok v2) × (applied ≡ ok h) × (bound ≢ some true) × (0 < h) × (h ≤ at))
      ⊎ ((h : ℕ) × (result ≡ ok v1) × (applied ≡ ok h) × (bound ≢ some true) × ((h ≡ 0) ⊎ (at < h)))
      ⊎ ((e : JsString) × (result ≡ err e) × (applied ≡ err e) × (bound ≢ some true))
unfolding transition_root_version_for_batch
transition_root_version_for_batch_cases rest at bound = elim (Bool-cases (is_true bound)) [
  | inl yes_bound ↦ inl (ground arith, is_bound bound yes_bound)
  | inr unbound ↦ elim (Result-cases (rest.get_applied_plan_height withdrawals_binding_upgrade)) [
    | inr (e, he) ↦ inr (inr (inr (e, ground arith, he, not_true bound unbound)))
    | inl (h, hh) ↦ elim (Bool-cases (ltb 0 h && leb h at)) [
      | inl late ↦
          inr (inl (h, ground arith, hh, not_true bound unbound, ground arith, ground arith))
      | inr early ↦ inr (inr (inl (h, ground arith, hh, not_true bound unbound, ground arith)))
    ]
  ]
]

rethrow_read : (r : Result HexError Bytes) {b : Bytes} → rethrow r ≡ ok b → r ≡ ok b
rethrow_read (ok a) h = cc
rethrow_read (err e) h = cc

joined :
    (p c proof : Bytes) (a b : Bool)
    → ◌≡◌ {A = Result TransitionError Bytes}
        (if not a || not b then err proof_roots_length else ok (p ++ c))
        (ok proof)
    → (a ≡ true) × (b ≡ true) × (p ++ c ≡ proof)
joined p c proof true true e = (refl, refl, ok-injective e)
joined p c proof true false e = cc
joined p c proof false b e = cc

-- A fraud proof is two roots of 32 bytes, one after the other: its halves are what was given.
pub fraud_proof_halves :
    (prev correct : BytesInput) (proof : Bytes)
    → fraud_proof prev correct ≡ ok proof
    → (length proof ≡ 64)
      × (to_bytes prev ≡ ok (take 32 proof))
      × (to_bytes correct ≡ ok (drop 32 proof))
unfolding fraud_proof
fraud_proof_halves prev correct proof e =
    let (p, hp, e') = >>=-eq-ok (rethrow (to_bytes prev)) _ e in
    let (c, hc, e'') = >>=-eq-ok (rethrow (to_bytes correct)) _ e' in
    let (long, long', whole) = joined p c proof (length p == 32) (length c == 32) e'' in
    let same = (==_iff (length p) 32).0 long in
    let same' = (==_iff (length c) 32).0 long' in
    rw (← whole) (
      omega (arith, length-append p c, same, same'),
      rethrow_read (to_bytes prev) hp ∙ ap ok (sym (take-append p c 32 same)),
      rethrow_read (to_bytes correct) hc ∙ ap ok (sym (drop-append p c 32 same)),
    )
