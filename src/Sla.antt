-- ===== src/Sla.antt =====
-- scanner-agent/src/sla_tracker.rs: how long operations take against their targets.
pub mod Tracking
pub mod Status
mod Tests
use execution_aware_scanner.Prelude.{
  ℕ, ◌+◌, ◌-◌, Bool, Option, none, some, List, [], ◌∷◌, ◌++◌, length, if◌then◌else◌,
}
use execution_aware_scanner.Text.{Text, codes}
use execution_aware_scanner.Containers.Order.{text_ord}
use execution_aware_scanner.Containers.OrdMap.{OrdMap, lookup, insert, remove, update}
use execution_aware_scanner.Float.{Float, lit, ◌<?◌, ◌⊘◌}

pub record SlaTarget (F : Type 0) : Type 0 where
  pub operation : Text
  pub max_duration_secs : F
  pub description : Text

pub record TrackedOperation : Type 0 where
  pub operation : Text
  pub started_at : ℕ
  pub metadata : OrdMap Text Text

-- The calls of `Metrics`, which only counts and shows them.
pub data MetricCall (F : Type 0) : Type 0 where
  record_response_time set_sla_compliance : Text → F → MetricCall F
  inc_sla_violation : Text → MetricCall F

pub record SlaTracker (F : Type 0) : Type 0 where
  pub targets : OrdMap Text (SlaTarget F)
  pub in_flight : OrdMap Text TrackedOperation
  pub metrics : List (MetricCall F)

pub data SlaResult (F : Type 0) : Type 0 where
  compliant : (operation : Text) (duration_secs : F) → SlaResult F
  violation :
      (operation : Text) (duration_secs target_secs : F) (metadata : OrdMap Text Text) → SlaResult F
  not_found : SlaResult F

pub record SlaStatus : Type 0 where
  pub in_flight_count : ℕ
  pub operations_by_type : OrdMap Text ℕ
  pub timestamp : ℕ

module _ {F : Type 0} ⦃f : Float F⦄ where
  abbrev target : Text → F → Text → SlaTarget F
  target operation max_duration_secs description = record {
    operation = operation;
    max_duration_secs = max_duration_secs;
    description = description;
  }

  abbrev pub default_sla_targets : List (SlaTarget F)
  default_sla_targets =
      target (codes "finding_notification") (lit 3000)
        (codes "Critical finding notification within 30 seconds")
      ∷ target (codes "enforcement_action") (lit 6000)
          (codes "Enforcement action within 60 seconds")
      ∷ target (codes "intel_refresh") (lit 30000)
          (codes "Intel refresh propagation within 5 minutes")
      ∷ target (codes "event_processing") (lit 10) (codes "Event processing latency under 100ms")
      ∷ []

  -- `collect` into a map, to which the targets are added one after another
  unfoldable pub collect :
      OrdMap Text (SlaTarget F) → List (SlaTarget F) → OrdMap Text (SlaTarget F)
  collect targets [] = targets
  collect targets (t ∷ ts) = collect (insert t.operation t targets) ts

  unfoldable pub new : SlaTracker F
  unfolding collect
  new = record { targets = collect [] default_sla_targets; in_flight = []; metrics = [] }

-- The loop of `status`.
unfoldable pub count_types : OrdMap Text ℕ → OrdMap Text TrackedOperation → OrdMap Text ℕ
count_types counts [] = counts
count_types counts ((id, tracked) ∷ m) =
    count_types (update tracked.operation 0 (λ n. n + 1) counts) m

module _ {F : Type 0} where
  unfoldable pub start_operation : SlaTracker F → Text → Text → OrdMap Text Text → ℕ → SlaTracker F
  start_operation t operation_id operation metadata now = record t {
    in_flight =
        insert operation_id
          (record { operation = operation; started_at = now; metadata = metadata }) t.in_flight;
  }

  unfoldable pub status : SlaTracker F → ℕ → SlaStatus
  unfolding count_types
  status t now = record {
    in_flight_count = length t.in_flight;
    operations_by_type = count_types [] t.in_flight;
    timestamp = now;
  }

-- `as_secs_f64` of a duration in nanoseconds is a parameter.
module _ {F : Type 0} ⦃f : Float F⦄ (as_secs_f64 : ℕ → F) where
  -- What becomes of an operation that has been taken out, by its target.
  abbrev pub judge : TrackedOperation → F → Option (SlaTarget F) → List (MetricCall F) × SlaResult F
  judge tracked secs none = ([], compliant tracked.operation secs)
  judge tracked secs (some target) =
      if target.max_duration_secs <? secs
      then (
        inc_sla_violation tracked.operation
            ∷ set_sla_compliance tracked.operation (target.max_duration_secs ⊘ secs)
            ∷ [],
        violation tracked.operation secs target.max_duration_secs tracked.metadata,
      )
      else ([], compliant tracked.operation secs)

  unfoldable pub complete_operation : SlaTracker F → Text → ℕ → SlaTracker F × SlaResult F
  complete_operation t operation_id now = elim (lookup operation_id t.in_flight) [
    | none ↦ (t, not_found)
    | some tracked ↦
        let secs = as_secs_f64 (now - tracked.started_at) in
        let (calls, result) = judge tracked secs (lookup tracked.operation t.targets) in
        (
          record t {
            in_flight = remove operation_id t.in_flight;
            metrics = t.metrics ++ record_response_time tracked.operation secs ∷ calls;
          },
          result,
        )
  ]

-- Calls, with their readings of the clock.
pub data Call : Type 0 where
  starts : (operation_id operation : Text) (metadata : OrdMap Text Text) (now : ℕ) → Call
  completes : (operation_id : Text) (now : ℕ) → Call

abbrev pub id_of : Call → Text
id_of (starts operation_id operation metadata now) = operation_id
id_of (completes operation_id now) = operation_id

module _ {F : Type 0} ⦃f : Float F⦄ (as_secs_f64 : ℕ → F) where
  unfoldable pub step : SlaTracker F → Call → SlaTracker F
  unfolding start_operation complete_operation
  step t (starts operation_id operation metadata now) =
      start_operation t operation_id operation metadata now
  step t (completes operation_id now) = (complete_operation as_secs_f64 t operation_id now).0

  unfoldable pub run : SlaTracker F → List Call → SlaTracker F
  unfolding step
  run t [] = t
  run t (x ∷ xs) = run (step t x) xs
