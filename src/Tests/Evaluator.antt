-- ===== src/Tests/Evaluator.antt =====
-- The evaluator at a concrete metric backend.
use chainplane.Prelude.{
  ℕ, ◌≡◌, ◌↔◌, refl, ◌*◌, ◌/◌, ◌-◌, ◌^◌, ◌⊎◌, String, Bool, true, false, Option, none, List, [],
  ltb, leb, ◌==◌,
}
use chainplane.Errors.{ok}
use chainplane.Float.{Float}
use chainplane.Kube.{Fault}
use chainplane.Health.Chain.{ethereum}
use chainplane.Health.Trigger.{TriggerName, is_healthy}
use chainplane.Health.Thresholds.{default_thresholds}
use chainplane.Health.Evaluator.{
  Reply, value, MetricQuerier, MatrixSeries, Checker, new_checker, check_all,
}
use chainplane.Health.Evaluator.Firing.{Fires, healthy_iff}
use chainplane.Health.Replacement.{verifying, monitor_replacement}
use chainplane.Health.Replacement.Monitor.{IsVerifying, IsTimedOut}
use chainplane.Health.Replacement.Unmonitored.{IsRunning, checking, unmonitored_ready_iff}
use chainplane.Tests.Data.{tally_format, marks, parse_marks, short_config, replacing}

-- Numbers in steps of 0.0001 that are not negative.
abbrev pub small_float : Float ℕ
small_float = record {
  decimal = λ m k. m * 10000 / 10 ^ k;
  is_zero = λ v. v == 0;
  greater = λ a b. ltb b a;
  at_least = λ a b. leb b a;
  minus = λ a b. a - b;
  times = λ a b. a * b / 10000;
  over = λ a b. a * 10000 / b;
  fixed = λ k v. marks (v / 10000);
  parse = parse_marks;
  show = λ v. marks (v / 10000);
  whole = λ v. v / 10000;
}

abbrev still : ℕ → String → ℕ → ℕ → String → Reply (List MatrixSeries)
still now query start end step = value []

-- Every query of a value is answered with 3.
abbrev answering : Bool → MetricQuerier ℕ
answering up = record {
  healthy = λ now. up;
  instant_value = λ now query. value 30000;
  sustained = λ now query threshold minutes. value false;
  range_values = still;
}

abbrev watching : Bool → Checker ℕ
watching up = new_checker small_float (answering up) (default_thresholds small_float)

healthy_iff_example :
    (is_healthy (check_all small_float marks (watching true) 5 "eth-0" ethereum) ≡ true) ↔ (
      ((watching true).m.healthy 5 ≡ false)
      ⊎ ((n : TriggerName) → ¬ (Fires small_float marks (watching true) 5 "eth-0" ethereum n)))
healthy_iff_example = healthy_iff small_float marks (watching true) 5 "eth-0" ethereum

unmonitored_ready_iff_example :
    ((monitor_replacement
        (checking small_float marks (watching false) none short_config tally_format)
        (replacing true verifying)).0
      ≡ ok true)
    ↔ (IsVerifying (replacing true verifying)
        × IsRunning (replacing true verifying)
        × (◌≡◌ {A = Option Fault} none none)
        × (¬ IsTimedOut
            (checking small_float marks (watching false) none short_config tally_format)
            (replacing true verifying)))
unfolding new_checker
unmonitored_ready_iff_example =
    unmonitored_ready_iff small_float marks (watching false) none short_config tally_format
      (replacing true verifying) refl
