-- ===== src/Sla/Tests.antt =====
-- An operation that takes too long, with another one between.
use execution_aware_scanner.Prelude.{ℕ, ◌/◌, some, List, [], ◌∷◌}
use execution_aware_scanner.Text.{codes}
use execution_aware_scanner.Clock.{secs}
use execution_aware_scanner.Containers.Order.{text_ord}
use execution_aware_scanner.Float.Fixed.{Fixed, fixed_float}
use execution_aware_scanner.Sla
use execution_aware_scanner.Sla.{
  SlaTracker, judge, not_found, start_operation, complete_operation, status, Call, starts, run,
}

-- Hundredths of a second.
abbrev as_secs : ℕ → Fixed
as_secs n = some (n / 10_000_000)

abbrev tracker : SlaTracker Fixed
tracker = Sla.new

abbrev another : List Call
another = starts (codes "op-2") (codes "intel_refresh") [] (secs 2) ∷ []
