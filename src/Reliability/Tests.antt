-- ===== src/Reliability/Tests.antt =====
-- Runs of the reliability components on small data.
use execution_aware_scanner.Prelude.{
  ◌+◌, ◌≤◌, ◌≡◌, refl, true, false, some, none, List, [], ◌∷◌, arith, leb, if◌then◌else◌,
}
use mathlib.Core.List.{reverse}
use execution_aware_scanner.Text.{codes}
use execution_aware_scanner.Clock.{secs}
use execution_aware_scanner.Float.Fixed.{fixed_float}
use execution_aware_scanner.Containers.Order.{text_ord}
use execution_aware_scanner.Reliability.Config.{ReliabilityConfig, default_config}
use execution_aware_scanner.Reliability.Backpressure.{
  BackpressureController, check_all, settled, check_all-settled,
}
use execution_aware_scanner.Reliability.Breaker.{
  CircuitBreaker, closed, open_, half_open, Call, proceeds, fails, succeeds, should_proceed, step,
  run,
}
use execution_aware_scanner.Reliability.Breaker
use execution_aware_scanner.Reliability.Breaker.Invariant.{ProbeDecides, run-new_probe}
use execution_aware_scanner.Reliability.Breaker.Window.{opens_at_threshold}
use execution_aware_scanner.Reliability.Watchdog.{Watchdog}
use execution_aware_scanner.Reliability.Metrics.{
  ReliabilityMetrics, processed, Reach, here, next, processes, runs, record_processed, run_task,
}
use execution_aware_scanner.Reliability.Metrics
use execution_aware_scanner.Reliability.Metrics.Conservation.{IsConserved, Reach-IsConserved}
use execution_aware_scanner.Reliability.Health.{HealthMonitor}

abbrev queue : BackpressureController
queue = record { config = default_config; current_load = 0; in_backpressure = false }

check_all-settled_example :
    check_all queue (9000 ∷ 6000 ∷ [])
    ≡ record queue { in_backpressure = settled 8000 5000 false (reverse (9000 ∷ 6000 ∷ [])) }
check_all-settled_example = check_all-settled queue (9000 ∷ 6000 ∷ []) (omega arith)

queue_stays_under_pressure : settled 8000 5000 false (reverse (9000 ∷ 6000 ∷ [])) ≡ true
unfolding settled
queue_stays_under_pressure = refl

-- Two failures open this breaker for ten seconds.
abbrev quick : ReliabilityConfig
quick = record default_config { circuit_breaker_threshold = 2; circuit_breaker_recovery_secs = 10 }

abbrev quick_breaker : CircuitBreaker
quick_breaker = record { config = quick; state = closed; failure_count = 0; last_failure = none }

abbrev open_breaker : CircuitBreaker
open_breaker = record quick_breaker {
  state = open_;
  failure_count = 2;
  last_failure = some (secs 2);
}

abbrev trips : List Call
trips = fails (secs 1) ∷ fails (secs 2) ∷ []

abbrev probes : List Call
probes = fails (secs 1) ∷ fails (secs 2) ∷ proceeds (secs 20) ∷ []

probes_half_open : (run (Breaker.new quick) probes).state ≡ half_open
unfolding run step Breaker.new should_proceed
probes_half_open = refl

run-new_probe_example : (2 ≤ 2) × ProbeDecides (run (Breaker.new quick) probes) (secs 21)
run-new_probe_example = run-new_probe quick probes (secs 21) (omega arith) probes_half_open

opens_at_threshold_example :
    ((run quick_breaker (fails (secs 1) ∷ [])).state ≡ closed)
    × ((run quick_breaker (fails (secs 1) ∷ [])).failure_count ≡ 0 + 1)
    × ((should_proceed (run quick_breaker (fails (secs 1) ∷ [])) (secs 2)).1 ≡ true)
    × ((step (run quick_breaker (fails (secs 1) ∷ [])) (fails (secs 2))).state
        ≡ (if leb 2 (0 + 1 + 1) then open_ else closed))
    × ((step (run quick_breaker (fails (secs 1) ∷ [])) (fails (secs 2))).last_failure
        ≡ some (secs 2))
opens_at_threshold_example =
    opens_at_threshold quick_breaker (fails (secs 1) ∷ []) (secs 2) refl (omega arith) (omega arith)

abbrev dog : Watchdog
dog = record { config = default_config; last_heartbeat = 0; consecutive_errors = 9 }

-- One event, whose task has run.
abbrev one_event : ReliabilityMetrics
one_event = record (record_processed (Metrics.new 0) (codes "net")) {
  metrics =
      run_task (processed (codes "net")) 7 (record_processed (Metrics.new 0) (codes "net")).metrics;
  pending = [];
}

one_event_reached : Reach (Metrics.new 0) one_event
unfolding record_processed Metrics.new
one_event_reached =
    next (next here (processes (codes "net"))) (runs [] [] (processed (codes "net")) 7 refl)

Reach-IsConserved_example : IsConserved one_event
Reach-IsConserved_example = Reach-IsConserved 0 one_event_reached

abbrev monitor : HealthMonitor
monitor = record { metrics = Metrics.new 0; watchdogs = (codes "bpf", dog) ∷ [] }
