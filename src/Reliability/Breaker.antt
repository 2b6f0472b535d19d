-- ===== src/Reliability/Breaker.antt =====
-- `CircuitBreaker` of scanner-agent/src/reliability.rs. Each method is one step: the locks that it
-- takes one after another are taken as one.
pub mod Invariant
pub mod Window
use execution_aware_scanner.Prelude.{
  ℕ, suc, ◌+◌, ◌%◌, ◌≡◌, Bool, true, false, Option, none, some, List, [], ◌∷◌, leb, if◌then◌else◌,
}
use execution_aware_scanner.Clock.{elapsed_secs, u64_mod}
use execution_aware_scanner.Reliability.Config.{ReliabilityConfig}

pub data CircuitState : Type 0 where
  closed open_ half_open : CircuitState

pub record CircuitBreaker : Type 0 where
  pub config : ReliabilityConfig
  pub state : CircuitState
  pub failure_count : ℕ
  pub last_failure : Option ℕ

unfoldable pub new : ReliabilityConfig → CircuitBreaker
new config = record { config = config; state = closed; failure_count = 0; last_failure = none }

try_recover : CircuitBreaker → ℕ → ℕ → CircuitBreaker × Bool
try_recover c last_time now =
    if leb c.config.circuit_breaker_recovery_secs (elapsed_secs now last_time)
    then (record c { state = half_open }, true)
    else (c, false)

-- `should_proceed`, at a reading of the clock
unfoldable pub should_proceed : CircuitBreaker → ℕ → CircuitBreaker × Bool
unfolding try_recover
should_proceed c now = elim c.state [
  | closed ↦ (c, true)
  | open_ ↦ elim c.last_failure [ some last_time ↦ try_recover c last_time now | none ↦ (c, true) ]
  | half_open ↦ (c, true)
]

unfoldable pub record_success : CircuitBreaker → CircuitBreaker
record_success c = elim c.state [
  | half_open ↦ record c { state = closed; failure_count = 0 }
  | _ ↦ c
]

-- `fetch_add(1) + 1` on an `AtomicU64`, which wraps
unfoldable pub record_failure : CircuitBreaker → ℕ → CircuitBreaker
record_failure c now =
    let count = (c.failure_count + 1) % u64_mod in
    record c {
      state = if leb c.config.circuit_breaker_threshold count then open_ else c.state;
      failure_count = count;
      last_failure = some now;
    }

pub data Call : Type 0 where
  proceeds fails : ℕ → Call
  succeeds : Call

unfoldable pub step : CircuitBreaker → Call → CircuitBreaker
unfolding should_proceed record_success record_failure
step c (proceeds now) = (should_proceed c now).0
step c (fails now) = record_failure c now
step c succeeds = record_success c

unfoldable pub run : CircuitBreaker → List Call → CircuitBreaker
unfolding step
run c [] = c
run c (x ∷ xs) = run (step c x) xs
