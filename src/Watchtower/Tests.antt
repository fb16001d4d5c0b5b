-- ===== src/Watchtower/Tests.antt =====
-- A watch of two polls over two batches, one of them seen twice and one of them fraudulent.
use qorechain_rdk.Prelude.{
  ◌%◌, ℕ, ◌≡◌, refl, ◌≢◌, ◌⊎◌, true, false, none, some, List, [], ◌∷◌, ◌++◌, ◌==◌, length,
  replicate, ok, err,
}
use qorechain_rdk.Watchtower.Reach.{visit_all-NoneMissed, NoneMissed}
use qorechain_rdk.Watchtower.Track.{deadline_key, bit, batch_key, times_named}
use qorechain_rdk.Watchtower.Judge.{
  fraud_proof_for_batch_cases, no_root, fraud_proof_for_batch, transition_root_validator,
  canonical_root_for,
}
use qorechain_rdk.Text.{JsString, js}
use qorechain_rdk.Text.Encoder.{utf8}
use qorechain_rdk.Bytes.{Bytes, u64be, u32be, big_endian}
use qorechain_rdk.Bytes.Hex.{to_bytes, decode_wire_bytes, hex_to_bytes, strip_0x, parse_pairs}
use qorechain_rdk.Transition.{
  batch_transition_root_v2, proof_roots_length, batch_transition_root,
  transition_root_version_for_batch, bytes_of,
}
use qorechain_rdk.QoreHash.{qorehash}
use qorechain_rdk.Lifecycle.{ChainTip, batch_challenge_window}
use qorechain_rdk.Prelude.Int.{◌-ℤ◌}
use qorechain_rdk.Views.{Rest, BatchView, RdkClient}
use qorechain_rdk.Watchtower
use qorechain_rdk.Watchtower.{
  near_deadline, deadline_for, Watch, WatchEvent, Settings, Stops, key_of, has, watch_start,
}
use qorechain_rdk.Watchtower.Poll.{
  verdict, alert, report, then_ended, visit_unless, visit_all, resume_at, settle, with_tip,
  with_batches, with_window, tick_unless, Answers, watch_run,
}
use qorechain_rdk.Watchtower.Once.{watch_run_reports_once}

abbrev small_batch : ℕ → BatchView
small_batch i = record {
  rollup_id = js "r";
  batch_index = i;
  state_root = js "ab";
  prev_state_root = js "cd";
  tx_count = 2;
  data_hash = [];
  proof_type = js "fraud";
  status = js "submitted";
  submitted_at = 90;
  finalized_at = 0;
  withdrawals_root = [];
  withdrawals_bound = some true;
  submitted_time = 0;
}

abbrev no_stop : Stops
no_stop = record { at_batch = false; at_verdict = false; at_deadline = false }

abbrev small_poll : Answers
small_poll = record {
  rollup = err (js "none");
  default_window = ok 600;
  batches = λ from. ok ((small_batch 0, no_stop) ∷ (small_batch 1, no_stop) ∷ []);
  tip = ok (record { height = 150; time_secs = 1000 });
  stop_at_start = false;
  stop_at_tip = false;
  stop_at_error = false;
}

abbrev small_settings : Settings
small_settings = record {
  warn_secs = 300;
  warn_blocks = 50;
  validate = some (λ b. ok (b.batch_index == 0));
}

abbrev two_polls : Watch × List WatchEvent
two_polls = watch_run small_settings (small_poll ∷ small_poll ∷ []) (watch_start (some 600))

-- Both batches are reported, warned of once each, and the second is invalid.
two_polls_events : length two_polls.1 ≡ 5
unfolding watch_run tick_unless with_window with_batches with_tip settle resume_at visit_all
    visit_unless then_ended report alert verdict deadline_for near_deadline batch_challenge_window
    ◌-ℤ◌
two_polls_events = refl

watch_run_reports_once_example :
    (times_named batch_key (key_of (small_batch 1)) two_polls.1
      ≡ bit (has two_polls.0.seen (key_of (small_batch 1))))
    × (times_named deadline_key (key_of (small_batch 1)) two_polls.1
        ≡ bit (has two_polls.0.warned (key_of (small_batch 1))))
watch_run_reports_once_example =
    watch_run_reports_once small_settings (small_poll ∷ small_poll ∷ []) (some 600)
      (key_of (small_batch 1))

abbrev small_tip : ChainTip
small_tip = record { height = 150; time_secs = 1000 }

abbrev two_batches : List (BatchView × Stops)
two_batches = (small_batch 0, no_stop) ∷ (small_batch 1, no_stop) ∷ []

small_pass_ended :
    (visit_all small_settings (some small_tip) two_batches (watch_start (some 600)) none).ended
    ≡ Watchtower.running
unfolding visit_all visit_unless then_ended report alert verdict deadline_for near_deadline
    batch_challenge_window ◌-ℤ◌
small_pass_ended = refl

visit_all-NoneMissed_example :
    let p = visit_all small_settings (some small_tip) two_batches (watch_start (some 600)) none in
    NoneMissed
      (some small_tip)
      (some 600)
      two_batches
      (resume_at (some small_tip) p.oldest_open p.watch)
visit_all-NoneMissed_example =
    visit_all-NoneMissed small_settings small_tip two_batches (watch_start (some 600))
      small_pass_ended

abbrev wide_hash : Bytes → Bytes
wide_hash b = replicate 32 (length b % 256)

abbrev no_base64 : JsString → Bytes
no_base64 s = []

abbrev small_rest : Rest
small_rest = record {
  get_rollup = λ id. err [];
  get_batch = λ id i. err [];
  get_latest_batch = λ _. err [];
  get_anchors = λ id. err [];
  get_latest_anchor = λ id. err [];
  get_pqc_account = λ a. err [];
  is_protocol_feature_enabled = λ f. err [];
  get_applied_plan_height = λ p. err [];
}

abbrev small_client : RdkClient
small_client = record { rest = small_rest; chain_id = js "q"; anchor_sign_v2_height = 0 }

abbrev wide_batch : BatchView
wide_batch = record (small_batch 4) {
  prev_state_root = js "0101010101010101010101010101010101010101010101010101010101010101";
}

wide_canonical :
    canonical_root_for wide_hash no_base64 small_client (js "r") wide_batch ≡ ok (replicate 32 93)
unfolding canonical_root_for transition_root_version_for_batch batch_transition_root
    batch_transition_root_v2 bytes_of to_bytes decode_wire_bytes hex_to_bytes strip_0x parse_pairs
    utf8 u64be u32be big_endian qorehash
wide_canonical = refl

abbrev published_bytes : Bytes
published_bytes = 171 ∷ []

abbrev prev_bytes : Bytes
prev_bytes = replicate 32 1

abbrev canonical_bytes : Bytes
canonical_bytes = replicate 32 93

wide_published : decode_wire_bytes no_base64 wide_batch.state_root ≡ ok published_bytes
unfolding decode_wire_bytes hex_to_bytes strip_0x parse_pairs
wide_published = refl

wide_prev : decode_wire_bytes no_base64 wide_batch.prev_state_root ≡ ok (replicate 32 1)
unfolding decode_wire_bytes hex_to_bytes strip_0x parse_pairs
wide_prev = refl

fraud_proof_for_batch_cases_example :
    let valid = transition_root_validator wide_hash no_base64 small_client (js "r") wide_batch in
    let proof = fraud_proof_for_batch wide_hash no_base64 small_client (js "r") wide_batch in
    ((published_bytes ≡ canonical_bytes) × (valid ≡ ok true) × (proof ≡ ok none))
    ⊎ ((published_bytes ≢ canonical_bytes)
        × (valid ≡ ok false)
        × (((length prev_bytes ≡ 32)
              × (length canonical_bytes ≡ 32)
              × (proof ≡ ok (some (prev_bytes ++ canonical_bytes))))
            ⊎ (((length prev_bytes ≢ 32) ⊎ (length canonical_bytes ≢ 32))
                × (proof ≡ err (no_root proof_roots_length)))))
fraud_proof_for_batch_cases_example =
    fraud_proof_for_batch_cases wide_hash no_base64 small_client (js "r") wide_batch published_bytes
      prev_bytes canonical_bytes wide_published wide_prev wide_canonical
