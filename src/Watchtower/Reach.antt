-- ===== src/Watchtower/Reach.antt =====
-- The watchtower polls on from the oldest batch listed that can still be challenged.

use qorechain_rdk.Prelude.{
  ◌≤◌, ◌<◌, ℕ, ◌≡◌, refl, subst, ◌⊎◌, inl, inr, Bool, true, false, not, ◌&&◌, Option, none, some,
  List, [], ◌∷◌, arith, ltb, leb, Bool-cases,
}
use qorechain_rdk.Views.{BatchView}
use qorechain_rdk.Lifecycle.{ChainTip}
use qorechain_rdk.Watchtower
use qorechain_rdk.Watchtower.{
  stop_if, near_deadline, Watch, Settings, Pass, Stops, key_of, has, Ending, BatchDeadline,
  deadline_for, is_live, is_window_open,
}
use qorechain_rdk.Watchtower.Poll.{
  visit_all, resume_at, visit_unless, advance, report, alert, then_ended, older,
}
use qorechain_rdk.Watchtower.Grows.{Grows, Grows-refl, Grows-trans, advance-Grows, report-Grows}

older_least :
    (n : Option ℕ) (i : ℕ)
    → (j : ℕ) × (older n i ≡ some j) × (j ≤ i) × ((k : ℕ) → n ≡ some k → j ≤ k)
older_least none i = (i, refl, omega arith, λ k e. cc)
older_least (some k) i = elim (Bool-cases (ltb i k)) [
  | inl h ↦ (i, rw h refl, omega arith, λ l e. ground arith)
  | inr h ↦ (k, rw h refl, ground arith, λ l e. ground arith)
]

-- The oldest open batch is at most the index.
abbrev pub AtMost : Option ℕ → ℕ → Type 0
AtMost n i = (j : ℕ) × (n ≡ some j) × (j ≤ i)

abbrev pub is_challengeable : BatchView → BatchDeadline → Bool
is_challengeable b info = is_live b && is_window_open info.window

alert-Grows :
    (settings : Settings) (b : BatchView) (now : Bool) (info : BatchDeadline) (w : Watch)
    (n : Option ℕ)
    → let p = alert settings b now info w n in
      Grows w n p.watch p.oldest_open
      × ((is_challengeable b info ≡ false) ⊎ AtMost p.oldest_open b.batch_index)
unfolding alert
alert-Grows settings b now info w n =
    let due =
      near_deadline settings info.window
      && not (has w.warned (key_of b))
      && not (stop_if now w).stopped in
    let (j, e, least, less) = older_least n b.batch_index in
    elim (Bool-cases (is_challengeable b info)) [
      | inr o ↦ rw o (Grows-refl w w n refl refl refl, inl refl)
      | inl o ↦ elim (Bool-cases due) [
        | inl d ↦
            rw (o, d)
              (
                record {
                  seen = λ k x. x;
                  next = omega arith;
                  secs = refl;
                  oldest = λ i x. (j, e, less i x);
                },
                inr (j, e, least),
              )
        | inr d ↦
            rw (o, d)
              (
                record {
                  seen = λ k x. x;
                  next = omega arith;
                  secs = refl;
                  oldest = λ i x. (j, e, less i x);
                },
                inr (j, e, least),
              )
      ]
    ]

-- A batch was dealt with: it was seen, the next poll starts past it, or, where it can still be
-- challenged, at it or before.
abbrev pub Reaches : Option ChainTip → Option ℕ → BatchView → Watch → Option ℕ → Type 0
Reaches tip secs b v m =
    (has v.seen (key_of b) ≡ true)
    × (b.batch_index < v.next_start)
    × ((is_challengeable b (deadline_for secs tip b) ≡ false) ⊎ AtMost m b.batch_index)

Reaches-on :
    (tip : Option ChainTip) (secs : Option ℕ) (b : BatchView) (v w : Watch) (m n : Option ℕ)
    → Reaches tip secs b v m
    → Grows v m w n
    → Reaches tip secs b w n
Reaches-on tip secs b v w m n (s, x, inl c) g =
    (g.seen (key_of b) s, omega (arith, x, g.next), inl c)
Reaches-on tip secs b v w m n (s, x, inr (j, e, le)) g =
    let (k, f, le') = g.oldest j e in
    (g.seen (key_of b) s, omega (arith, x, g.next), inr (k, f, omega (arith, le, le')))

then_running :
    (end : Ending) (p : Pass) (next : Watch → Option ℕ → Pass)
    → p.ended ≡ end
    → (then_ended end p next).ended ≡ Watchtower.running
    → let q = next p.watch p.oldest_open in
      (p.ended ≡ Watchtower.running)
      × (q.ended ≡ Watchtower.running)
      × ((then_ended end p next).watch ≡ q.watch)
      × ((then_ended end p next).oldest_open ≡ q.oldest_open)
unfolding then_ended
then_running Watchtower.running p next e h = (e, h, refl, refl)
then_running Watchtower.returned p next e h = cc
then_running (Watchtower.threw x) p next e h = cc

advance_past : (b : BatchView) (w : Watch) → b.batch_index < (advance b w).next_start
advance_past b w = elim (Bool-cases (leb w.next_start b.batch_index)) [
  | inl h ↦ rw h (omega arith)
  | inr h ↦ rw h (ground arith)
]

visit-Reaches :
    (stopped : Bool) (settings : Settings) (tip : Option ChainTip) (b : BatchView) (stops : Stops)
    (w : Watch) (n : Option ℕ)
    → let p = visit_unless stopped settings tip b stops w n in
      p.ended ≡ Watchtower.running
      → Grows w n p.watch p.oldest_open × Reaches tip w.window_secs b p.watch p.oldest_open
unfolding visit_unless
visit-Reaches true settings tip b stops w n h = cc
visit-Reaches false settings tip b stops w n h =
    let w1 = advance b w in
    let info = deadline_for w1.window_secs tip b in
    let r = report settings b stops.at_verdict info w1 n in
    let next : Watch → Option ℕ → Pass = λ w2 o. alert settings b stops.at_deadline info w2 o in
    let a = next r.watch r.oldest_open in
    let (er, ea, ew, eo) = then_running r.ended r next refl h in
    let g1 = advance-Grows b w n in
    let (g2, seen) = report-Grows settings b stops.at_verdict info w1 n in
    let (g3, opened) = alert-Grows settings b stops.at_deadline info r.watch r.oldest_open in
    let past = advance_past b w in
    let g23 = Grows-trans w1 r.watch a.watch n r.oldest_open a.oldest_open g2 g3 in
    let g = Grows-trans w w1 a.watch n n a.oldest_open g1 g23 in
    let reached : Reaches tip w.window_secs b a.watch a.oldest_open = (
      g3.seen (key_of b) seen,
      omega (arith, past, g23.next),
      subst
          (λ x.
            (is_challengeable b (deadline_for x tip b) ≡ false)
            ⊎ AtMost a.oldest_open b.batch_index)
          g1.secs opened,
    ) in
    rw (ew, eo) (g, reached)

abbrev pub AllReach :
    Option ChainTip → Option ℕ → List (BatchView × Stops) → Watch → Option ℕ → Type 0
AllReach tip secs [] v m = Unit
AllReach tip secs ((b, stops) ∷ bs) v m = Reaches tip secs b v m × AllReach tip secs bs v m

visit_all-AllReach :
    (settings : Settings) (tip : Option ChainTip) (bs : List (BatchView × Stops)) (w : Watch)
    (n : Option ℕ)
    → let p = visit_all settings tip bs w n in
      p.ended ≡ Watchtower.running
      → Grows w n p.watch p.oldest_open × AllReach tip w.window_secs bs p.watch p.oldest_open
unfolding visit_all
visit_all-AllReach settings tip [] w n h = (Grows-refl w w n refl refl refl, tt)
visit_all-AllReach settings tip ((b, stops) ∷ bs) w n h =
    let w0 = stop_if stops.at_batch w in
    let p = visit_unless w0.stopped settings tip b stops w0 n in
    let next : Watch → Option ℕ → Pass = λ w' o. visit_all settings tip bs w' o in
    let q = next p.watch p.oldest_open in
    let (ep, eq, ew, eo) = then_running p.ended p next refl h in
    let (g, reached) = visit-Reaches w0.stopped settings tip b stops w0 n ep in
    let (k, rest) = visit_all-AllReach settings tip bs p.watch p.oldest_open eq in
    let g' : Grows w n p.watch p.oldest_open = record {
      seen = g.seen;
      next = g.next;
      secs = g.secs;
      oldest = g.oldest;
    } in
    let both : AllReach tip w.window_secs ((b, stops) ∷ bs) q.watch q.oldest_open = (
      Reaches-on tip w.window_secs b p.watch q.watch p.oldest_open q.oldest_open reached k,
      subst (λ x. AllReach tip x bs q.watch q.oldest_open) g.secs rest,
    ) in
    rw (ew, eo) (Grows-trans w p.watch q.watch n p.oldest_open q.oldest_open g' k, both)

-- Each batch was seen and lies before the next start, and where it can still be challenged the next
-- poll starts at it or before.
abbrev pub NoneMissed : Option ChainTip → Option ℕ → List (BatchView × Stops) → Watch → Type 0
NoneMissed tip secs [] v = Unit
NoneMissed tip secs ((b, stops) ∷ bs) v =
    ((has v.seen (key_of b) ≡ true)
      × (b.batch_index < v.next_start)
      × ((is_challengeable b (deadline_for secs tip b) ≡ false) ⊎ (v.poll_from ≤ b.batch_index)))
    × NoneMissed tip secs bs v

resumed :
    (tip : ChainTip) (secs : Option ℕ) (bs : List (BatchView × Stops)) (v : Watch) (m : Option ℕ)
    → AllReach (some tip) secs bs v m
    → NoneMissed (some tip) secs bs (resume_at (some tip) m v)
unfolding resume_at
resumed tip secs [] v m h = tt
resumed tip secs ((b, stops) ∷ bs) v m ((s, x, inl c), rest) =
    ((s, x, inl c), resumed tip secs bs v m rest)
resumed tip secs ((b, stops) ∷ bs) v m ((s, x, inr (j, e, le)), rest) =
    ((s, x, inr (rw e le)), resumed tip secs bs v m rest)

-- Where the loop of a poll runs to its end with the chain's tip known, every batch that the node listed
-- was seen, and the next poll starts at or before each of them that can still be challenged.
pub visit_all-NoneMissed :
    (settings : Settings) (tip : ChainTip) (bs : List (BatchView × Stops)) (w : Watch)
    → (visit_all settings (some tip) bs w none).ended ≡ Watchtower.running
    → let p = visit_all settings (some tip) bs w none in
      NoneMissed (some tip) w.window_secs bs (resume_at (some tip) p.oldest_open p.watch)
visit_all-NoneMissed settings tip bs w h =
    let p = visit_all settings (some tip) bs w none in
    let (g, reached) = visit_all-AllReach settings (some tip) bs w none h in
    resumed tip w.window_secs bs p.watch p.oldest_open reached
