-- ===== src/Reliability/Watchdog.antt =====
-- `Watchdog` of scanner-agent/src/reliability.rs.
use execution_aware_scanner.Prelude.{
  ℕ, suc, ◌+◌, ◌%◌, ◌≤◌, ◌<◌, ◌≡◌, ◌↔◌, Bool, true, false, arith, ltb, leb, if◌then◌else◌,
}
use execution_aware_scanner.Clock.{elapsed_secs, u64_mod}
use execution_aware_scanner.Reliability.Config.{ReliabilityConfig}

pub record Watchdog : Type 0 where
  pub config : ReliabilityConfig
  pub last_heartbeat : ℕ
  pub consecutive_errors : ℕ

unfoldable pub new : ReliabilityConfig → ℕ → Watchdog
new config now = record { config = config; last_heartbeat = now; consecutive_errors = 0 }

unfoldable pub heartbeat : Watchdog → ℕ → Watchdog
heartbeat w now = record w { last_heartbeat = now; consecutive_errors = 0 }

unfoldable pub is_healthy : Watchdog → ℕ → Bool
is_healthy w now =
    let elapsed = elapsed_secs now w.last_heartbeat in
    if ltb w.config.watchdog_timeout_secs elapsed
    then false
    else if leb w.config.max_consecutive_errors w.consecutive_errors
    then false
    else true

unfoldable pub record_error : Watchdog → Watchdog
record_error w = record w { consecutive_errors = (w.consecutive_errors + 1) % u64_mod }

unfoldable pub record_errors : ℕ → Watchdog → Watchdog
unfolding record_error
record_errors ℕ.zero w = w
record_errors (suc n) w = record_errors n (record_error w)

record_errors_lem :
    (n : ℕ) (w : Watchdog)
    → w.consecutive_errors + n < u64_mod
    → record_errors n w ≡ record w { consecutive_errors = w.consecutive_errors + n }
unfolding record_errors
record_errors_lem ℕ.zero w h = ground arith
record_errors_lem (suc n) w h = ground (arith, record_errors_lem n (record_error w))

healthy_iff :
    (w : Watchdog) (now : ℕ)
    → (is_healthy w now ≡ true) ↔ (
        (elapsed_secs now w.last_heartbeat ≤ w.config.watchdog_timeout_secs)
        × (w.consecutive_errors < w.config.max_consecutive_errors))
unfolding is_healthy
healthy_iff w now = (λ h. ground arith, λ h. ground arith)

-- After a heartbeat and then `n` errors, too few to wrap the counter, a watchdog is healthy exactly
-- as long as the time since the heartbeat is within the timeout and `n` is under the maximum,
-- whatever happened before the heartbeat.
healthy_since_heartbeat :
    (w : Watchdog) (beat n now : ℕ)
    → n < u64_mod
    → (is_healthy (record_errors n (heartbeat w beat)) now ≡ true) ↔ (
        (elapsed_secs now beat ≤ w.config.watchdog_timeout_secs)
        × (n < w.config.max_consecutive_errors))
unfolding heartbeat
healthy_since_heartbeat w beat n now h =
    let zero_add : 0 + n ≡ n = omega arith in
    rw (record_errors_lem n (heartbeat w beat) (omega arith), zero_add)
      (healthy_iff (record w { last_heartbeat = beat; consecutive_errors = n }) now)
