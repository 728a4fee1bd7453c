-- ===== src/Tests/Health.antt =====
-- The refresh of the health status, the detectors and the waits at a concrete node.
use chainplane.Adapters.Status.{SyncStatus}
use chainplane.Prelude.{
  ℕ, ◌+◌, ◌-◌, ◌*◌, ◌/◌, ◌≡◌, ◌≢◌, ◌≤◌, ◌<◌, ◌^◌, inr, ◌↔◌, refl, ap, ◌∙◌, sym, String, true, none,
  some, arith, eq_iff, get, if◌then◌else◌, ltb,
}
use chainplane.Errors.{Result, ok, err, annotation_missing}
use chainplane.Time.{second, minute}
use chainplane.Kube.{World, patch_status, update_instance}
use chainplane.Health.Traffic.{wait_with_progress}
use chainplane.Health.Traffic.Progress.{Ended, wait_with_progress-Ended}
use chainplane.Controller.Conditions.{set_condition, upsert, refreshed, sync_stall_threshold}
use chainplane.Controller.HealthStatus.{
  Environment, annotation_last_sync_block, detect_height_stall, restart_if_degraded_too_long,
  stall_message, persist_annotations, note_degraded, track, clear_degraded_tracking,
}
use chainplane.Controller.HealthStatus.Refresh.{
  refresh_status, apply_report, apply_degraded_from_error, apply_healthy_or_syncing, take_report,
  follow_up,
}
use chainplane.Controller.HealthStatus.Stall.{
  IsFrozenSince, stall_iff, observed, later, stall_watch,
}
use chainplane.Controller.HealthStatus.Restart.{degraded_watch, shifted_delay}
use chainplane.Controller.HealthStatus.Phases.{Agrees}
use chainplane.Controller.HealthStatus.Settled.{refresh-Agrees}
use chainplane.Controller.HealthStatus.Marks.{degrade}
use chainplane.Controller.HealthStatus.Eta.{SyncTools}
use chainplane.Tests.Evaluator.{small_float}
use chainplane.Tests.Data.{tally_format, marks, count_marks, count_marks-marks, steady, running_pod}
use chainplane.Adapters.Session.{send}
use chainplane.Adapters.Rpc.{syncing_pseudo, syncing_at, pseudo_block}
use chainplane.Controller.HealthStatus.Syncing.{
  apply_syncing_status, check_stall, keep_syncing, enriched, marked_syncing,
}
use chainplane.Adapters.Get.{got_of, http_request}
use chainplane.Adapters.Rest.{near_from_answer, near_health_check}
use chainplane.Adapters.Checks.{health_check, near}
use chainplane.Controller.HealthStatus.Outage.{check_and_refresh, IsNotReady, outage-IsNotReady}
use chainplane.Tests.Adapters.{adapter_tools, down_node, down_node-IsDown}
use chainplane.Tests.Replacement.{after}

marks-injective : (a b : ℕ) → marks a ≡ marks b → a ≡ b
marks-injective a b h = sym (count_marks-marks a) ∙ ap count_marks h ∙ count_marks-marks b

abbrev surroundings : Environment
surroundings = record {
  time = tally_format;
  show = marks;
  show-injective = marks-injective;
  show_error = λ _. "error";
  show_duration = λ _. "a while";
  public_tip = λ _ _. some 7;
}

new_height : get steady.node.annotations annotation_last_sync_block ≢ surroundings.show 5
new_height = ground (arith, eq_iff "" "sssss")

stall_watch_example :
    let v = observed surroundings 5 steady in
    let u = observed surroundings 5 (later (4 * second) v) in
    (detect_height_stall surroundings 5 (later (400 * second) u)).0 ≡ (
      if ltb (400 * second) (4 * second / second * second + sync_stall_threshold "ethereum")
      then ok none
      else ok (some (stall_message surroundings (later (400 * second) u).node 5)))
stall_watch_example =
    stall_watch surroundings 5 (4 * second) (400 * second) steady (λ k. refl) refl new_height

stall_iff_example :
    ((m : String) × ((detect_height_stall surroundings 5 steady).0 ≡ ok (some m))) ↔ (
      (at : ℕ) × IsFrozenSince surroundings 5 at steady
      × (at * second + sync_stall_threshold "ethereum" ≤ 3 * second))
stall_iff_example = stall_iff surroundings 5 steady

degraded_watch_example :
    let v = record (restart_if_degraded_too_long surroundings steady).1 { now = 1000 * second } in
    ((restart_if_degraded_too_long surroundings v).1.pods "eth-0" ≡ none)
    ↔ (3 * second / second * second + (15 * minute + 2 ^ 63) ≤ 1000 * second + 2 ^ 63)
degraded_watch_example =
    degraded_watch surroundings (1000 * second) 15 steady (running_pod true) (λ k. refl) refl
      (inr (refl, refl)) (omega arith) refl refl

-- The product of 200000000 minutes is negative, and so is that of -1 minute.
large_timeout_is_negative : shifted_delay 200000000 < 2 ^ 63
large_timeout_is_negative = omega arith

minus_one_minute : shifted_delay (2 ^ 32 - 1) + minute ≡ 2 ^ 63
minus_one_minute = refl

-- The health check fails.
abbrev sync_tools : SyncTools ℕ
sync_tools = record {
  float = small_float;
  seconds_between = λ at now. (now - at) / 100000;
  parse_int = λ text. some (count_marks text);
  round = λ d unit. d / unit * unit;
  show_word = marks;
  log_lines = λ now node. none;
  after_mark = λ line. none;
  scan_float = λ text. none;
}

abbrev failing : Result (SyncStatus ℕ)
failing = err annotation_missing

refresh_succeeds :
    refresh_status sync_tools surroundings failing steady
    ≡ (ok tt, after (refresh_status sync_tools surroundings failing) steady)
unfolding refresh_status apply_report apply_degraded_from_error degrade set_condition upsert
    refreshed follow_up restart_if_degraded_too_long note_degraded persist_annotations
    update_instance patch_status
refresh_succeeds = refl

refresh-Agrees_example :
    ((after (refresh_status sync_tools surroundings failing) steady).stored
      ≡ some (after (refresh_status sync_tools surroundings failing) steady).node)
    × Agrees (after (refresh_status sync_tools surroundings failing) steady).node.status
refresh-Agrees_example =
    refresh-Agrees sync_tools surroundings failing steady
      (after (refresh_status sync_tools surroundings failing) steady) refresh_succeeds

-- The node answers no request of the health check.
abbrev outage : World → Result (Unit {0}) × World
outage = check_and_refresh sync_tools surroundings adapter_tools down_node near "default"

outage_succeeds : outage steady ≡ (ok tt, after outage steady)
unfolding refresh_status apply_report apply_degraded_from_error degrade set_condition upsert
    refreshed follow_up restart_if_degraded_too_long note_degraded persist_annotations
    update_instance patch_status check_and_refresh health_check near_health_check near_from_answer
    http_request got_of send apply_healthy_or_syncing syncing_pseudo syncing_at apply_syncing_status
    check_stall detect_height_stall take_report pseudo_block track keep_syncing enriched
    marked_syncing clear_degraded_tracking
outage_succeeds = refl

outage-IsNotReady_example :
    ((after outage steady).stored ≡ some (after outage steady).node)
    × IsNotReady (after outage steady).node.status
outage-IsNotReady_example =
    outage-IsNotReady sync_tools surroundings adapter_tools down_node near "default" steady
      (after outage steady) down_node-IsDown outage_succeeds

wait_with_progress-Ended_example :
    Ended (3 * second + 12 * second) (wait_with_progress (12 * second) steady)
wait_with_progress-Ended_example = wait_with_progress-Ended (12 * second) steady
