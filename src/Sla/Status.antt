-- ===== src/Sla/Status.antt =====
-- The counts that `SlaTracker::status` reports.
use execution_aware_scanner.Prelude.{ℕ, ◌+◌, ◌≡◌, refl, [], ◌∷◌, arith, length}
use execution_aware_scanner.Text.{Text}
use execution_aware_scanner.Containers.Order.{text_ord}
use execution_aware_scanner.Containers.OrdMap.{OrdMap, update}
use execution_aware_scanner.Containers.Totals.{total, total-update}
use execution_aware_scanner.Sla.{TrackedOperation, SlaTracker, count_types, status}

total-count_types :
    (counts : OrdMap Text ℕ) (m : OrdMap Text TrackedOperation)
    → total (λ (n : ℕ). n) (count_types counts m) ≡ total (λ (n : ℕ). n) counts + length m
unfolding count_types
total-count_types counts [] = omega arith
total-count_types counts ((id, tracked) ∷ m) = omega (
  arith,
  total-count_types (update tracked.operation 0 (λ n. n + 1) counts) m,
  total-update (λ (n : ℕ). n) tracked.operation 0 (λ n. n + 1) counts refl,
)

-- The counts by type that a status reports add up to the number of operations in flight.
status_lem :
    {F : Type 0} (t : SlaTracker F) (now : ℕ)
    → total (λ (n : ℕ). n) (status t now).operations_by_type ≡ (status t now).in_flight_count
unfolding status
status_lem t now = omega (arith, total-count_types [] t.in_flight)
