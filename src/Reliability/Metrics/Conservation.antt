-- ===== src/Reliability/Metrics/Conservation.antt =====
-- No recorded event is lost between the atomic totals, the tasks under way and the components.
use execution_aware_scanner.Prelude.{ℕ, ◌+◌, ◌%◌, ◌≡◌, refl, ap, List, [], ◌∷◌, ◌++◌, arith}
use execution_aware_scanner.Text.{Text}
use execution_aware_scanner.Clock.{u64_mod}
use execution_aware_scanner.Containers.Order.{text_ord}
use execution_aware_scanner.Containers.OrdMap.{OrdMap}
use execution_aware_scanner.Containers.Totals.{total, total-update}
use execution_aware_scanner.Reliability.Metrics.{
  ComponentMetrics, no_metrics, count_processed, count_dropped, count_error, Task, processed,
  dropped, failed, ReliabilityMetrics, new, record_processed, record_dropped, record_error,
  run_task, Step, processes, drops, fails, runs, Reach, here, next,
}

abbrev pub pending_processed : List Task → ℕ
pending_processed [] = 0
pending_processed (processed c ∷ ts) = 1 + pending_processed ts
pending_processed (dropped c n ∷ ts) = pending_processed ts
pending_processed (failed c ∷ ts) = pending_processed ts

abbrev pub pending_dropped : List Task → ℕ
pending_dropped [] = 0
pending_dropped (processed c ∷ ts) = pending_dropped ts
pending_dropped (dropped c n ∷ ts) = n + pending_dropped ts
pending_dropped (failed c ∷ ts) = pending_dropped ts

abbrev pub processed_by : OrdMap Text ComponentMetrics → ℕ
processed_by = total (λ cm. cm.events_processed)

abbrev pub dropped_by : OrdMap Text ComponentMetrics → ℕ
dropped_by = total (λ cm. cm.events_dropped)

-- The totals are what the components have counted and the spawned tasks still will, as `u64` sums.
pub record IsConserved (m : ReliabilityMetrics) : Type 0 where
  pub of_processed :
      m.total_processed ≡ (processed_by m.metrics + pending_processed m.pending) % u64_mod
  pub of_dropped : m.total_dropped ≡ (dropped_by m.metrics + pending_dropped m.pending) % u64_mod

pending_processed-append :
    (xs ys : List Task) → pending_processed (xs ++ ys) ≡ pending_processed xs + pending_processed ys
pending_processed-append [] ys = omega arith
pending_processed-append (processed c ∷ xs) ys = omega (arith, pending_processed-append xs ys)
pending_processed-append (dropped c n ∷ xs) ys = omega (arith, pending_processed-append xs ys)
pending_processed-append (failed c ∷ xs) ys = omega (arith, pending_processed-append xs ys)

pending_dropped-append :
    (xs ys : List Task) → pending_dropped (xs ++ ys) ≡ pending_dropped xs + pending_dropped ys
pending_dropped-append [] ys = omega arith
pending_dropped-append (processed c ∷ xs) ys = omega (arith, pending_dropped-append xs ys)
pending_dropped-append (dropped c n ∷ xs) ys = omega (arith, pending_dropped-append xs ys)
pending_dropped-append (failed c ∷ xs) ys = omega (arith, pending_dropped-append xs ys)

run_task_processed :
    (t : Task) (timestamp : ℕ) (m : OrdMap Text ComponentMetrics)
    → processed_by (run_task t timestamp m) % u64_mod
      ≡ (processed_by m + pending_processed (t ∷ [])) % u64_mod
unfolding run_task
run_task_processed (processed c) timestamp m = omega (
  arith,
  total-update (λ (cm : ComponentMetrics). cm.events_processed) c no_metrics
      (count_processed timestamp) m refl,
)
run_task_processed (dropped c n) timestamp m = omega (
  arith,
  total-update (λ (cm : ComponentMetrics). cm.events_processed) c no_metrics (count_dropped n) m
      refl,
)
run_task_processed (failed c) timestamp m = omega (
  arith,
  total-update (λ (cm : ComponentMetrics). cm.events_processed) c no_metrics count_error m refl,
)

run_task_dropped :
    (t : Task) (timestamp : ℕ) (m : OrdMap Text ComponentMetrics)
    → dropped_by (run_task t timestamp m) % u64_mod
      ≡ (dropped_by m + pending_dropped (t ∷ [])) % u64_mod
unfolding run_task
run_task_dropped (processed c) timestamp m = omega (
  arith,
  total-update (λ (cm : ComponentMetrics). cm.events_dropped) c no_metrics
      (count_processed timestamp) m refl,
)
run_task_dropped (dropped c n) timestamp m = omega (
  arith,
  total-update (λ (cm : ComponentMetrics). cm.events_dropped) c no_metrics (count_dropped n) m refl,
)
run_task_dropped (failed c) timestamp m = omega (
  arith,
  total-update (λ (cm : ComponentMetrics). cm.events_dropped) c no_metrics count_error m refl,
)

task_first :
    (t : Task) (ts : List Task)
    → (pending_processed (t ∷ ts) ≡ pending_processed (t ∷ []) + pending_processed ts)
      × (pending_dropped (t ∷ ts) ≡ pending_dropped (t ∷ []) + pending_dropped ts)
task_first (processed c) ts = omega arith
task_first (dropped c n) ts = omega arith
task_first (failed c) ts = omega arith

Step-IsConserved : {m n : ReliabilityMetrics} → Step m n → IsConserved m → IsConserved n
unfolding record_processed record_dropped record_error
Step-IsConserved {m} (processes c) h = omega (
  arith,
  pending_processed-append m.pending (processed c ∷ []),
  pending_dropped-append m.pending (processed c ∷ []),
)
Step-IsConserved {m} (drops c n) h = omega (
  arith,
  pending_processed-append m.pending (dropped c n ∷ []),
  pending_dropped-append m.pending (dropped c n ∷ []),
)
Step-IsConserved {m} (fails c) h = omega (
  arith,
  pending_processed-append m.pending (failed c ∷ []),
  pending_dropped-append m.pending (failed c ∷ []),
)
Step-IsConserved {m} (runs before after task timestamp e) h = omega (
  arith,
  ap pending_processed e,
  ap pending_dropped e,
  task_first task after,
  pending_processed-append before (task ∷ after),
  pending_dropped-append before (task ∷ after),
  pending_processed-append before after,
  pending_dropped-append before after,
  run_task_processed task timestamp m.metrics,
  run_task_dropped task timestamp m.metrics,
)

-- In every state that calls and tasks reach from a new collector, in any order, the two totals are
-- what the components' entries have counted together with what the tasks under way will add to
-- them, as sums that wrap at 64 bits.
pub Reach-IsConserved : (now : ℕ) {m : ReliabilityMetrics} → Reach (new now) m → IsConserved m
unfolding new
Reach-IsConserved now here = omega arith
Reach-IsConserved now (next r s) = Step-IsConserved s (Reach-IsConserved now r)
