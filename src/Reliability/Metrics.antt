-- ===== src/Reliability/Metrics.antt =====
-- `ReliabilityMetrics` of scanner-agent/src/reliability.rs. A recording adds to an atomic total at
-- once, and spawns a task that adds to the component's entry when the scheduler runs it.
pub mod Conservation
use execution_aware_scanner.Prelude.{
  ℕ, ◌+◌, ◌%◌, ◌≡◌, Option, none, some, List, [], ◌∷◌, ◌++◌, ◌==◌, if◌then◌else◌,
}
use execution_aware_scanner.Text.{Text}
use execution_aware_scanner.Clock.{elapsed_secs, u64_mod}
use execution_aware_scanner.Containers.Order.{text_ord}
use execution_aware_scanner.Containers.OrdMap.{OrdMap, lookup, update}
use execution_aware_scanner.Float.{Float, lit, ◌⊘◌}

pub record ComponentMetrics : Type 0 where
  pub events_processed : ℕ
  pub events_dropped : ℕ
  pub events_queued : ℕ
  pub errors : ℕ
  pub latency_ms : ℕ
  pub last_event_time : Option ℕ

-- `#[derive(Default)]`
abbrev pub no_metrics : ComponentMetrics
no_metrics = record {
  events_processed = 0;
  events_dropped = 0;
  events_queued = 0;
  errors = 0;
  latency_ms = 0;
  last_event_time = none;
}

-- The closures that the recording methods spawn.
pub data Task : Type 0 where
  processed : Text → Task
  dropped : Text → ℕ → Task
  failed : Text → Task

pub record ReliabilityMetrics : Type 0 where
  pub metrics : OrdMap Text ComponentMetrics
  pub total_dropped : ℕ
  pub total_processed : ℕ
  pub start_time : ℕ
  pub pending : List Task

unfoldable pub new : ℕ → ReliabilityMetrics
new now = record {
  metrics = [];
  total_dropped = 0;
  total_processed = 0;
  start_time = now;
  pending = [];
}

unfoldable pub record_processed : ReliabilityMetrics → Text → ReliabilityMetrics
record_processed m component = record m {
  total_processed = (m.total_processed + 1) % u64_mod;
  pending = m.pending ++ processed component ∷ [];
}

unfoldable pub record_dropped : ReliabilityMetrics → Text → ℕ → ReliabilityMetrics
record_dropped m component count = record m {
  total_dropped = (m.total_dropped + count) % u64_mod;
  pending = m.pending ++ dropped component count ∷ [];
}

unfoldable pub record_error : ReliabilityMetrics → Text → ReliabilityMetrics
record_error m component = record m { pending = m.pending ++ failed component ∷ [] }

-- What a task does to its component's entry. (A `u64` sum wraps in a release build.)
abbrev pub count_processed : ℕ → ComponentMetrics → ComponentMetrics
count_processed timestamp cm = record cm {
  events_processed = (cm.events_processed + 1) % u64_mod;
  last_event_time = some timestamp;
}

abbrev pub count_dropped : ℕ → ComponentMetrics → ComponentMetrics
count_dropped count cm = record cm { events_dropped = (cm.events_dropped + count) % u64_mod }

abbrev pub count_error : ComponentMetrics → ComponentMetrics
count_error cm = record cm { errors = (cm.errors + 1) % u64_mod }

-- The body of a spawned task, run at a time in seconds.
unfoldable pub run_task : Task → ℕ → OrdMap Text ComponentMetrics → OrdMap Text ComponentMetrics
run_task (processed component) timestamp = update component no_metrics (count_processed timestamp)
run_task (dropped component count) timestamp = update component no_metrics (count_dropped count)
run_task (failed component) timestamp = update component no_metrics count_error

unfoldable pub drop_rate : {F : Type 0} ⦃f : Float F⦄ → ReliabilityMetrics → F
drop_rate ⦃f⦄ m =
    let seen = (m.total_processed + m.total_dropped) % u64_mod in
    if seen == 0 then lit 0 else f.of_nat m.total_dropped ⊘ f.of_nat seen

unfoldable pub uptime_secs : ReliabilityMetrics → ℕ → ℕ
uptime_secs m now = elapsed_secs now m.start_time

unfoldable pub get_component_metrics : ReliabilityMetrics → Text → Option ComponentMetrics
get_component_metrics m component = lookup component m.metrics

-- What may happen next: a call of a recording method, or the scheduler runs any one of the tasks.
pub data Step (m : ReliabilityMetrics) : ReliabilityMetrics → Type 0 where
  processes : (component : Text) → Step m (record_processed m component)
  drops : (component : Text) (count : ℕ) → Step m (record_dropped m component count)
  fails : (component : Text) → Step m (record_error m component)
  runs :
      (before after : List Task) (task : Task) (timestamp : ℕ)
      → m.pending ≡ before ++ task ∷ after
      → Step m (record m { metrics = run_task task timestamp m.metrics; pending = before ++ after })

pub data Reach (m : ReliabilityMetrics) : ReliabilityMetrics → Type 0 where
  here : Reach m m
  next : {n k : ReliabilityMetrics} → Reach m n → Step n k → Reach m k
