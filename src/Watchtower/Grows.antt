-- ===== src/Watchtower/Grows.antt =====
-- What the loop of a poll never takes back: seen batches, the next start, the oldest open batch.
use qorechain_rdk.Prelude.{
  ◌≤◌, ℕ, ◌≡◌, refl, sym, ◌∙◌, inl, inr, Bool, true, Option, none, some, List, ◌∷◌, arith, leb,
  leb→le, Bool-cases, Result, ok, err,
}
use qorechain_rdk.Text.{str_eq_refl, JsString}
use qorechain_rdk.Views.{BatchView}
use qorechain_rdk.Watchtower.{stop_if, Watch, Settings, key_of, has, Key, BatchDeadline}
use qorechain_rdk.Watchtower.Poll.{advance, report, verdict, asked}

-- From the watch `w` and the oldest open batch `n` to `v` and `m`.
pub record Grows (w : Watch) (n : Option ℕ) (v : Watch) (m : Option ℕ) : Type 0 where
  pub seen : (k : Key) → has w.seen k ≡ true → has v.seen k ≡ true
  pub next : w.next_start ≤ v.next_start
  pub secs : v.window_secs ≡ w.window_secs
  pub oldest : (i : ℕ) → n ≡ some i → (j : ℕ) × (m ≡ some j) × (j ≤ i)

pub Grows-refl :
    (w v : Watch) (n : Option ℕ)
    → w.seen ≡ v.seen
    → w.next_start ≡ v.next_start
    → w.window_secs ≡ v.window_secs
    → Grows w n v n
Grows-refl w v n s e f = record {
  seen = λ k h. rw (← s) h;
  next = omega (arith, e);
  secs = sym f;
  oldest = λ i h. (i, h, omega arith);
}

pub Grows-trans : (u v w : Watch) (l m n : Option ℕ) → Grows u l v m → Grows v m w n → Grows u l w n
Grows-trans u v w l m n g h = record {
  seen = λ k x. h.seen k (g.seen k x);
  next = omega (arith, g.next, h.next);
  secs = h.secs ∙ g.secs;
  oldest = λ i x.
      let (j, e, le) = g.oldest i x in
      let (k, f, le') = h.oldest j e in (k, f, omega (arith, le, le'));
}

pub advance-Grows : (b : BatchView) (w : Watch) (n : Option ℕ) → Grows w n (advance b w) n
advance-Grows b w n = elim (Bool-cases (leb w.next_start b.batch_index)) [
  | inl h ↦ rw h (record {
    seen = λ k x. x;
    next = ground (arith, leb→le w.next_start b.batch_index h);
    secs = refl;
    oldest = λ i x. (i, x, omega arith);
  })
  | inr h ↦ rw h (Grows-refl w w n refl refl refl)
]

verdict-Grows :
    (o : Option (Result JsString Bool)) (now : Bool) (info : BatchDeadline) (w : Watch)
    (n : Option ℕ)
    → let p = verdict o now info w n in Grows w n p.watch p.oldest_open
unfolding verdict
verdict-Grows none now info w n = Grows-refl w w n refl refl refl
verdict-Grows (some (err e)) now info w n = Grows-refl w w n refl refl refl
verdict-Grows (some (ok v)) now info w n = Grows-refl w (stop_if now w) n refl refl refl

key_itself : (b : BatchView) (ks : List Key) → has (key_of b ∷ ks) (key_of b) ≡ true
key_itself b ks = ground (arith, str_eq_refl b.state_root)

pub report-Grows :
    (settings : Settings) (b : BatchView) (now : Bool) (info : BatchDeadline) (w : Watch)
    (n : Option ℕ)
    → let p = report settings b now info w n in
      Grows w n p.watch p.oldest_open × (has p.watch.seen (key_of b) ≡ true)
unfolding report
report-Grows settings b now info w n = elim (Bool-cases (has w.seen (key_of b))) [
  | inl s ↦ rw s (Grows-refl w w n refl refl refl, s)
  | inr s ↦
      let w' = record w { seen = key_of b ∷ w.seen } in
      let g = verdict-Grows (asked settings b) now info w' n in
      let step : Grows w n w' n = record {
        seen = λ k x. ground (arith, x);
        next = omega arith;
        secs = refl;
        oldest = λ i x. (i, x, omega arith);
      } in
      let p = verdict (asked settings b) now info w' n in
      rw s
        (Grows-trans w w' p.watch n n p.oldest_open step g, g.seen (key_of b) (key_itself b w.seen))
]
