-- ===== src/Reliability/Health.antt =====
-- `HealthMonitor` and the health check's results of scanner-agent/src/reliability.rs.
use execution_aware_scanner.Prelude.{
  ℕ, ◌≡◌, refl, Bool, true, false, not, ◌&&◌, Option, none, some, [], ◌∷◌, ◌++◌, arith,
  if◌then◌else◌, any,
}
use mathlib.Core.Option
use execution_aware_scanner.Text.{Text, codes, decimal}
use execution_aware_scanner.Containers.Order.{text_ord}
use execution_aware_scanner.Containers.OrdMap.{OrdMap, lookup, insert}
use execution_aware_scanner.Float.{Float}
use execution_aware_scanner.Reliability.Watchdog.{Watchdog, is_healthy}
use execution_aware_scanner.Reliability.Metrics.{ReliabilityMetrics, drop_rate, uptime_secs}

pub data HealthStatus : Type 0 where
  healthy degraded unhealthy : HealthStatus

pub record ComponentHealth : Type 0 where
  pub status : HealthStatus
  pub message : Option Text

pub record HealthCheck (F : Type 0) : Type 0 where
  pub status : HealthStatus
  pub components : OrdMap Text ComponentHealth
  pub uptime_secs : ℕ
  pub drop_rate : F
  pub total_processed : ℕ
  pub total_dropped : ℕ

pub record HealthMonitor : Type 0 where
  pub metrics : ReliabilityMetrics
  pub watchdogs : OrdMap Text Watchdog

unfoldable pub register_watchdog : HealthMonitor → Text → Watchdog → HealthMonitor
register_watchdog h name watchdog = record h { watchdogs = insert name watchdog h.watchdogs }

abbrev pub component_health : Watchdog → ℕ → ComponentHealth
component_health watchdog now = record {
  status = if is_healthy watchdog now then healthy else unhealthy;
  message =
      if is_healthy watchdog now
      then none
      else some (decimal watchdog.consecutive_errors ++ codes " errors");
}

-- The loop over the watchdogs. Their names are distinct, so each insertion adds an entry, and the
-- entries stand in the order of the names.
unfoldable pub check_components : OrdMap Text Watchdog → ℕ → OrdMap Text ComponentHealth
check_components [] now = []
check_components ((name, watchdog) ∷ ws) now =
    (name, component_health watchdog now) ∷ check_components ws now

abbrev pub has_status : HealthStatus → ComponentHealth → Bool
has_status unhealthy c = elim c.status [ unhealthy ↦ true | _ ↦ false ]
has_status degraded c = elim c.status [ degraded ↦ true | _ ↦ false ]
has_status healthy c = elim c.status [ healthy ↦ true | _ ↦ false ]

unfoldable pub overall_status : OrdMap Text ComponentHealth → HealthStatus
overall_status components =
    if any (λ (e : Text × ComponentHealth). has_status unhealthy e.1) components
    then unhealthy
    else if any (λ (e : Text × ComponentHealth). has_status degraded e.1) components
    then degraded
    else healthy

unfoldable pub check_health : {F : Type 0} ⦃f : Float F⦄ → HealthMonitor → ℕ → HealthCheck F
unfolding check_components overall_status
check_health h now = record {
  status = overall_status (check_components h.watchdogs now);
  components = check_components h.watchdogs now;
  uptime_secs = uptime_secs h.metrics now;
  drop_rate = drop_rate h.metrics;
  total_processed = h.metrics.total_processed;
  total_dropped = h.metrics.total_dropped;
}

-- Whether every registered watchdog is healthy.
abbrev pub all_healthy : OrdMap Text Watchdog → ℕ → Bool
all_healthy [] now = true
all_healthy ((name, w) ∷ ws) now = is_healthy w now && all_healthy ws now

any_unhealthy :
    (ws : OrdMap Text Watchdog) (now : ℕ)
    → (any (λ (e : Text × ComponentHealth). has_status unhealthy e.1) (check_components ws now)
        ≡ not (all_healthy ws now))
      × (any (λ (e : Text × ComponentHealth). has_status degraded e.1) (check_components ws now)
          ≡ false)
unfolding check_components
any_unhealthy [] now = (refl, refl)
any_unhealthy ((name, w) ∷ ws) now = ground (arith, any_unhealthy ws now)

lookup-check_components :
    (name : Text) (ws : OrdMap Text Watchdog) (now : ℕ)
    → lookup name (check_components ws now)
      ≡ Option.map (λ w. component_health w now) (lookup name ws)
unfolding check_components lookup
lookup-check_components name [] now = refl
lookup-check_components name ((j, w) ∷ ws) now = ground (arith, lookup-check_components name ws now)

-- A health check is healthy if every registered watchdog is, and unhealthy otherwise, never
-- degraded; and it reports of each registered name what its own watchdog says at that time.
check_health_lem :
    (F : Type 0) ⦃f : Float F⦄ (h : HealthMonitor) (now : ℕ) (name : Text)
    → ((check_health {F = F} h now).status
        ≡ (if all_healthy h.watchdogs now then healthy else unhealthy))
      × (lookup name (check_health {F = F} h now).components
          ≡ Option.map (λ w. component_health w now) (lookup name h.watchdogs))
unfolding check_health overall_status
check_health_lem F h now name =
    (ground (arith, any_unhealthy h.watchdogs now), lookup-check_components name h.watchdogs now)
