-- ===== src/Watchtower/Poll.antt =====
-- `tick` of packages/ts/src/watchtower/index.ts: one poll, and a run of polls.
use qorechain_rdk.Prelude.{
  ◌+◌, ℕ, Bool, true, false, not, ◌&&◌, Option, none, some, List, [], ◌∷◌, ◌++◌, ltb, leb,
  if◌then◌else◌, Result, ok, err, ◌>>=◌,
}
use mathlib.Core.Option
use qorechain_rdk.Text.{JsString}
use qorechain_rdk.Views.{BatchView, RollupView}
use qorechain_rdk.Lifecycle.{ChainTip}
use qorechain_rdk.Watchtower.{
  on_deadline, on_invalid, near_deadline, threw, deadline_for, is_window_open, on_batch, on_error,
  Ending, running, returned, is_live, BatchDeadline, Watch, WatchEvent, Settings, Pass, Stops,
  stop_if, key_of, has,
}

-- `if (batch.batchIndex >= nextStart) nextStart = batch.batchIndex + 1`.
abbrev pub advance : BatchView → Watch → Watch
advance b w =
    if leb w.next_start b.batch_index then record w { next_start = b.batch_index + 1 } else w

abbrev pub still : Bool → WatchEvent → List WatchEvent
still stopped event = if stopped then [] else event ∷ []

-- After a batch was reported for the first time: its validity, when a predicate is given.
unfoldable pub verdict :
    Option (Result JsString Bool) → Bool → BatchDeadline → Watch → Option ℕ → Pass
verdict none now info w oldest = record {
  watch = w;
  oldest_open = oldest;
  events = [];
  ended = running;
}
verdict (some (err e)) now info w oldest = record {
  watch = w;
  oldest_open = oldest;
  events = [];
  ended = threw e;
}
verdict (some (ok is_valid)) now info w oldest =
    let w' = stop_if now w in
    record {
      watch = w';
      oldest_open = oldest;
      events = if is_valid then [] else still w'.stopped (on_invalid info);
      ended = running;
    }

abbrev pub asked : Settings → BatchView → Option (Result JsString Bool)
asked settings b = if is_live b then Option.map (λ f. f b) settings.validate else none

-- The first `if` of the loop: a batch that was not seen.
unfoldable pub report : Settings → BatchView → Bool → BatchDeadline → Watch → Option ℕ → Pass
report settings b now info w oldest =
    if has w.seen (key_of b)
    then record { watch = w; oldest_open = oldest; events = []; ended = running }
    else let p =
        verdict (asked settings b) now info (record w { seen = key_of b ∷ w.seen }) oldest in
      record p { events = on_batch b ∷ p.events }

abbrev pub older : Option ℕ → ℕ → Option ℕ
older none i = some i
older (some j) i = if ltb i j then some i else some j

-- The second `if` of the loop: a live batch whose window is open.
unfoldable pub alert : Settings → BatchView → Bool → BatchDeadline → Watch → Option ℕ → Pass
alert settings b now info w oldest =
    if not (is_live b && is_window_open info.window)
    then record { watch = w; oldest_open = oldest; events = []; ended = running }
    else let w' = stop_if now w in
      if near_deadline settings info.window && not (has w.warned (key_of b)) && not w'.stopped
      then record {
        watch = record w' { warned = key_of b ∷ w.warned };
        oldest_open = older oldest b.batch_index;
        events = on_deadline info ∷ [];
        ended = running;
      }
      else record {
        watch = w';
        oldest_open = older oldest b.batch_index;
        events = [];
        ended = running;
      }

-- What follows a part of the loop that ended as `running`.
unfoldable pub then_ended : Ending → Pass → (Watch → Option ℕ → Pass) → Pass
then_ended running p next =
    let q = next p.watch p.oldest_open in record q { events = p.events ++ q.events }
then_ended returned p next = p
then_ended (threw e) p next = p

abbrev pub then_pass : Pass → (Watch → Option ℕ → Pass) → Pass
then_pass p next = then_ended p.ended p next

-- The body of the loop, after `if (stopped) return`.
unfoldable pub visit_unless :
    Bool → Settings → Option ChainTip → BatchView → Stops → Watch → Option ℕ → Pass
visit_unless true settings tip b stops w oldest = record {
  watch = w;
  oldest_open = oldest;
  events = [];
  ended = returned;
}
visit_unless false settings tip b stops w oldest =
    let w1 = advance b w in
    let info = deadline_for w1.window_secs tip b in
    then_pass (report settings b stops.at_verdict info w1 oldest)
      (λ w2 o. alert settings b stops.at_deadline info w2 o)

abbrev pub visit : Settings → Option ChainTip → BatchView → Stops → Watch → Option ℕ → Pass
visit settings tip b stops w oldest =
    let w0 = stop_if stops.at_batch w in visit_unless w0.stopped settings tip b stops w0 oldest

unfoldable pub visit_all :
    Settings → Option ChainTip → List (BatchView × Stops) → Watch → Option ℕ → Pass
visit_all settings tip [] w oldest = record {
  watch = w;
  oldest_open = oldest;
  events = [];
  ended = running;
}
visit_all settings tip ((b, stops) ∷ bs) w oldest =
    then_pass (visit settings tip b stops w oldest) (λ w' o. visit_all settings tip bs w' o)

-- What the node answers during one poll, and when `stop` is called.
pub record Answers : Type 0 where
  pub rollup : Result JsString RollupView
  pub default_window : Result JsString ℕ
  pub batches : ℕ → Result JsString (List (BatchView × Stops))
  pub tip : Result JsString ChainTip
  pub stop_at_start : Bool
  pub stop_at_tip : Bool
  pub stop_at_error : Bool

-- The outer `catch`.
unfoldable pub failed : Answers → JsString → Watch → Watch × List WatchEvent
failed answers e w = let w' = stop_if answers.stop_at_error w in (w', still w'.stopped (on_error e))

abbrev pub window_or_default : Answers → Option ℕ → Result JsString ℕ
window_or_default answers (some secs) = ok secs
window_or_default answers none = answers.default_window

abbrev pub read_window : Answers → Option ℕ → Result JsString ℕ
read_window answers (some secs) = ok secs
read_window answers none = do
  rollup ← answers.rollup
  window_or_default answers rollup.challenge_window_sec

-- `pollFrom = tip ? (oldestOpen ?? nextStart) : pollFrom`.
unfoldable pub resume_at : Option ChainTip → Option ℕ → Watch → Watch
resume_at none oldest w = w
resume_at (some tip) oldest w = record w { poll_from = Option.get_or oldest w.next_start }

unfoldable pub settle : Answers → Option ChainTip → Pass → Ending → Watch × List WatchEvent
settle answers tip p running = (resume_at tip p.oldest_open p.watch, p.events)
settle answers tip p returned = (p.watch, p.events)
settle answers tip p (threw e) =
    let (w, events) = failed answers e p.watch in (w, p.events ++ events)

abbrev pub settled : Answers → Option ChainTip → Pass → Watch × List WatchEvent
settled answers tip p = settle answers tip p p.ended

-- The tip is read; an error of that read is reported and the loop runs without a tip.
unfoldable pub with_tip :
    Settings
    → Answers
    → List (BatchView × Stops)
    → Result JsString ChainTip
    → Watch
    → Watch × List WatchEvent
with_tip settings answers bs (ok tip) w =
    settled answers (some tip) (visit_all settings (some tip) bs w none)
with_tip settings answers bs (err e) w =
    let w' = stop_if answers.stop_at_tip w in
    let (w'', events) = settled answers none (visit_all settings none bs w' none) in
    (w'', still w'.stopped (on_error e) ++ events)

unfoldable pub with_batches :
    Settings
    → Answers
    → Result JsString (List (BatchView × Stops))
    → Watch
    → Watch × List WatchEvent
with_batches settings answers (err e) w = failed answers e w
with_batches settings answers (ok bs) w = with_tip settings answers bs answers.tip w

unfoldable pub with_window :
    Settings → Answers → Result JsString ℕ → Watch → Watch × List WatchEvent
with_window settings answers (err e) w = failed answers e w
with_window settings answers (ok secs) w =
    with_batches settings answers (answers.batches w.poll_from)
      (record w { window_secs = some secs })

-- The body of `tick`, after `if (stopped) return`.
unfoldable pub tick_unless : Bool → Settings → Answers → Watch → Watch × List WatchEvent
tick_unless true settings answers w = (w, [])
tick_unless false settings answers w =
    with_window settings answers (read_window answers w.window_secs) w

abbrev pub tick : Settings → Answers → Watch → Watch × List WatchEvent
tick settings answers w =
    let w0 = stop_if answers.stop_at_start w in tick_unless w0.stopped settings answers w0

-- The polls of a watch, in order, and all their events.
unfoldable pub watch_run : Settings → List Answers → Watch → Watch × List WatchEvent
watch_run settings [] w = (w, [])
watch_run settings (a ∷ later) w =
    let (w', events) = tick settings a w in
    let (w'', rest) = watch_run settings later w' in (w'', events ++ rest)
