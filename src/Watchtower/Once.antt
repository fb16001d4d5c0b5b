-- ===== src/Watchtower/Once.antt =====
-- The watchtower reports each batch once and warns of each deadline once.
use qorechain_rdk.Prelude.{
  ℕ, ◌≡◌, refl, ap, inl, inr, Bool, true, false, not, ◌&&◌, ◌||◌, Option, none, some, List, [], ◌∷◌,
  ◌++◌, arith, leb, Bool-cases, Result, ok, err, Result-cases,
}
use qorechain_rdk.Watchtower.Track.{
  Track-append, Track-count, deadline_key, bit, batch_key, times_named, Track,
}
use qorechain_rdk.Text.{JsString}
use qorechain_rdk.Views.{BatchView}
use qorechain_rdk.Lifecycle.{ChainTip}
use qorechain_rdk.Watchtower.{
  watch_start, on_error, threw, near_deadline, stop_if, Ending, is_window_open, is_live,
  deadline_for, BatchDeadline, Watch, WatchEvent, Settings, Pass, Stops, key_of, has, Key,
}
use qorechain_rdk.Watchtower
use qorechain_rdk.Watchtower.Poll.{
  read_window, with_window, watch_run, still, with_batches, tick_unless, with_tip, Answers, failed,
  settle, resume_at, visit_unless, then_ended, advance, asked, alert, verdict, report, visit,
  visit_all,
}

-- Both properties of the events between two states of the watch.
abbrev pub Once : Watch → List WatchEvent → Watch → Type 0
Once w es v = Track batch_key w.seen es v.seen × Track deadline_key w.warned es v.warned

Once-append :
    (u v w : Watch) (es fs : List WatchEvent) → Once u es v → Once v fs w → Once u (es ++ fs) w
Once-append u v w es fs h k = (
  Track-append batch_key u.seen v.seen w.seen es fs h.0 k.0,
  Track-append deadline_key u.warned v.warned w.warned es fs h.1 k.1,
)

verdict-Once :
    (o : Option (Result JsString Bool)) (now : Bool) (info : BatchDeadline) (w : Watch)
    (n : Option ℕ)
    → Once w (verdict o now info w n).events (verdict o now info w n).watch
unfolding verdict
verdict-Once none now info w n = (refl, refl)
verdict-Once (some (err e)) now info w n = (refl, refl)
verdict-Once (some (ok true)) now info w n = (refl, refl)
verdict-Once (some (ok false)) now info w n = elim (Bool-cases (w.stopped || now)) [
  | inl s ↦ rw s (refl, refl)
  | inr s ↦ rw s ((tt, refl), (tt, refl))
]

report-Once :
    (settings : Settings) (b : BatchView) (now : Bool) (info : BatchDeadline) (w : Watch)
    (n : Option ℕ)
    → Once w (report settings b now info w n).events (report settings b now info w n).watch
unfolding report
report-Once settings b now info w n = elim (Bool-cases (has w.seen (key_of b))) [
  | inl s ↦ rw s (refl, refl)
  | inr s ↦
      let (h, k) =
        verdict-Once (asked settings b) now info (record w { seen = key_of b ∷ w.seen }) n in
      rw s ((s, h), (tt, k))
]

deadline_for_batch :
    (secs : Option ℕ) (tip : Option ChainTip) (b : BatchView) → (deadline_for secs tip b).batch ≡ b
unfolding deadline_for
deadline_for_batch (some secs) (some tip) b = refl
deadline_for_batch (some secs) none b = refl
deadline_for_batch none tip b = refl

both_tests : (x y z : Bool) → (x && not y && z) ≡ true → y ≡ false
both_tests x y z h = ground arith

alert-Once :
    (settings : Settings) (b : BatchView) (now : Bool) (info : BatchDeadline) (w : Watch)
    (n : Option ℕ)
    → info.batch ≡ b
    → Once w (alert settings b now info w n).events (alert settings b now info w n).watch
unfolding alert
alert-Once settings b now info w n e =
    let idle = not (is_live b && is_window_open info.window) in
    let due =
      near_deadline settings info.window
      && not (has w.warned (key_of b))
      && not (stop_if now w).stopped in
    elim (Bool-cases idle) [
      | inl s ↦ rw s (refl, refl)
      | inr s ↦ elim (Bool-cases due) [
        | inl d ↦
            let new =
              both_tests (near_deadline settings info.window) (has w.warned (key_of b))
                (not (stop_if now w).stopped) d in
            rw (s, d) ((tt, refl), (rw e new, ap (λ x. key_of x ∷ w.warned) e))
        | inr d ↦ rw (s, d) (refl, refl)
      ]
    ]

then-Once :
    (u : Watch) (p : Pass) (end : Ending) (next : Watch → Option ℕ → Pass)
    → Once u p.events p.watch
    → ((v : Watch) (n : Option ℕ) → Once v (next v n).events (next v n).watch)
    → Once u (then_ended end p next).events (then_ended end p next).watch
unfolding then_ended
then-Once u p Watchtower.running next h k =
    let q = next p.watch p.oldest_open in
    Once-append u p.watch q.watch p.events q.events h (k p.watch p.oldest_open)
then-Once u p Watchtower.returned next h k = h
then-Once u p (Watchtower.threw e) next h k = h

advance-Once : (b : BatchView) (w : Watch) → Once w [] (advance b w)
advance-Once b w = elim (Bool-cases (leb w.next_start b.batch_index)) [
  | inl h ↦ rw h (refl, refl)
  | inr h ↦ rw h (refl, refl)
]

visit-Once :
    (stopped : Bool) (settings : Settings) (tip : Option ChainTip) (b : BatchView) (stops : Stops)
    (w : Watch) (n : Option ℕ)
    → let p = visit_unless stopped settings tip b stops w n in Once w p.events p.watch
unfolding visit_unless
visit-Once true settings tip b stops w n = (refl, refl)
visit-Once false settings tip b stops w n =
    let w1 = advance b w in
    let info = deadline_for w1.window_secs tip b in
    let p = report settings b stops.at_verdict info w1 n in
    let q = then_ended p.ended p (λ w2 o. alert settings b stops.at_deadline info w2 o) in
    Once-append w w1 q.watch [] q.events (advance-Once b w) (
      then-Once w1 p p.ended (λ w2 o. alert settings b stops.at_deadline info w2 o)
        (report-Once settings b stops.at_verdict info w1 n)
        (λ v o.
          alert-Once settings b stops.at_deadline info v o
            (deadline_for_batch w1.window_secs tip b)))

visit_all-Once :
    (settings : Settings) (tip : Option ChainTip) (bs : List (BatchView × Stops)) (w : Watch)
    (n : Option ℕ)
    → Once w (visit_all settings tip bs w n).events (visit_all settings tip bs w n).watch
unfolding visit_all
visit_all-Once settings tip [] w n = (refl, refl)
visit_all-Once settings tip ((b, stops) ∷ bs) w n =
    let p = visit settings tip b stops w n in
    then-Once w p p.ended (λ v o. visit_all settings tip bs v o)
      (visit-Once (stop_if stops.at_batch w).stopped settings tip b stops (stop_if stops.at_batch w)
        n)
      (λ v o. visit_all-Once settings tip bs v o)

failed-Once :
    (answers : Answers) (e : JsString) (w : Watch)
    → let (v, events) = failed answers e w in Once w events v
unfolding failed
failed-Once answers e w = elim (Bool-cases (stop_if answers.stop_at_error w).stopped) [
  | inl s ↦ rw s (refl, refl)
  | inr s ↦ rw s ((tt, refl), (tt, refl))
]

settle-Once :
    (answers : Answers) (tip : Option ChainTip) (w : Watch) (p : Pass) (end : Ending)
    → Once w p.events p.watch
    → let (v, events) = settle answers tip p end in Once w events v
unfolding settle resume_at
settle-Once answers none w p Watchtower.running h = h
settle-Once answers (some tip) w p Watchtower.running h = h
settle-Once answers tip w p Watchtower.returned h = h
settle-Once answers tip w p (Watchtower.threw e) h =
    let (v, events) = failed answers e p.watch in
    Once-append w p.watch v p.events events h (failed-Once answers e p.watch)

still-Once :
    (w : Watch) (stopped : Bool) (e : JsString)
    → Once w (still stopped (on_error e)) (record w { stopped = stopped })
still-Once w true e = (refl, refl)
still-Once w false e = ((tt, refl), (tt, refl))

with_tip-Once :
    (settings : Settings) (answers : Answers) (bs : List (BatchView × Stops))
    (tip : Result JsString ChainTip) (w : Watch)
    → let (v, events) = with_tip settings answers bs tip w in Once w events v
unfolding with_tip
with_tip-Once settings answers bs (ok tip) w =
    let p = visit_all settings (some tip) bs w none in
    settle-Once answers (some tip) w p p.ended (visit_all-Once settings (some tip) bs w none)
with_tip-Once settings answers bs (err e) w =
    let w' = stop_if answers.stop_at_tip w in
    let p = visit_all settings none bs w' none in
    let (v, events) = settle answers none p p.ended in
    let h = settle-Once answers none w' p p.ended (visit_all-Once settings none bs w' none) in
    Once-append w w' v (still w'.stopped (on_error e)) events (still-Once w w'.stopped e) h

with_batches-Once :
    (settings : Settings) (answers : Answers) (bs : Result JsString (List (BatchView × Stops)))
    (w : Watch)
    → let (v, events) = with_batches settings answers bs w in Once w events v
unfolding with_batches
with_batches-Once settings answers (err e) w = failed-Once answers e w
with_batches-Once settings answers (ok bs) w = with_tip-Once settings answers bs answers.tip w

tick-Once :
    (stopped : Bool) (settings : Settings) (answers : Answers) (w : Watch)
    → let (v, events) = tick_unless stopped settings answers w in Once w events v
unfolding tick_unless with_window
tick-Once true settings answers w = (refl, refl)
tick-Once false settings answers w = elim (Result-cases (read_window answers w.window_secs)) [
  | inl (secs, h) ↦ rw h (
      with_batches-Once settings answers (answers.batches w.poll_from)
        (record w { window_secs = some secs }))
  | inr (e, h) ↦ rw h (failed-Once answers e w)
]

watch_run-Once :
    (settings : Settings) (polls : List Answers) (w : Watch)
    → let (v, events) = watch_run settings polls w in Once w events v
unfolding watch_run
watch_run-Once settings [] w = (refl, refl)
watch_run-Once settings (a ∷ polls) w =
    let w0 = stop_if a.stop_at_start w in
    let (v, events) = tick_unless w0.stopped settings a w0 in
    let (u, later) = watch_run settings polls v in
    Once-append w v u events later (tick-Once w0.stopped settings a w0)
      (watch_run-Once settings polls v)

-- Over any polls, with a stop or an error wherever it falls: for each batch, by its index and state
-- root, the watch reports it once if it is among the batches seen at the end and never otherwise, and
-- warns of its deadline once if it is among those warned of and never otherwise.
pub watch_run_reports_once :
    (settings : Settings) (polls : List Answers) (window_secs : Option ℕ) (k : Key)
    → let (v, events) = watch_run settings polls (watch_start window_secs) in
      (times_named batch_key k events ≡ bit (has v.seen k))
      × (times_named deadline_key k events ≡ bit (has v.warned k))
watch_run_reports_once settings polls window_secs k =
    let w = watch_start window_secs in
    let (v, events) = watch_run settings polls w in
    let (h, d) = watch_run-Once settings polls w in
    let a = Track-count batch_key k [] v.seen events h in
    let b = Track-count deadline_key k [] v.warned events d in (omega (arith, a), omega (arith, b))
