-- ===== src/Reliability/Config.antt =====
-- `ReliabilityConfig` of scanner-agent/src/reliability.rs.
use execution_aware_scanner.Prelude.{ℕ, Bool, true}

pub record ReliabilityConfig : Type 0 where
  pub channel_buffer_size : ℕ
  pub channel_high_water : ℕ
  pub channel_low_water : ℕ
  pub watchdog_timeout_secs : ℕ
  pub max_consecutive_errors : ℕ
  pub circuit_breaker_threshold : ℕ
  pub circuit_breaker_recovery_secs : ℕ
  pub health_check_interval_secs : ℕ
  pub enable_degradation : Bool

-- The water marks are `10000 * 0.8` and `10000 * 0.5`, which `f64` computes exactly.
abbrev pub default_config : ReliabilityConfig
default_config = record {
  channel_buffer_size = 10000;
  channel_high_water = 8000;
  channel_low_water = 5000;
  watchdog_timeout_secs = 60;
  max_consecutive_errors = 5;
  circuit_breaker_threshold = 10;
  circuit_breaker_recovery_secs = 60;
  health_check_interval_secs = 30;
  enable_degradation = true;
}
