-- ===== src/Correlation/Evidence.antt =====
-- What scanner-agent/src/runtime_correlation.rs finds.
use execution_aware_scanner.Prelude.{Bool, List, [], keep, any, if◌then◌else◌}
use execution_aware_scanner.Text.{Text}
use execution_aware_scanner.Containers.Order.{text_ord}
use execution_aware_scanner.Containers.OrdSet.{OrdSet, contains as set_contains}
use execution_aware_scanner.Float.{Float, ◌⊕◌}
use execution_aware_scanner.State.Workload.{RuntimeSignal, WorkloadState}
use execution_aware_scanner.Correlation.{
  RuntimeMatch, library_matches_package, is_empty, is_related,
}

abbrev pub matches_any : Text → List Text → Bool
matches_any package_ paths = any (λ (p : Text). library_matches_package p package_) paths

module _ {F : Type 0} ⦃f : Float F⦄ where
  abbrev pub weigh : F → RuntimeSignal F → F
  weigh w s = w ⊕ s.weight

  abbrev pub related_signals : WorkloadState F → RuntimeMatch F → List (RuntimeSignal F)
  related_signals w m =
      if is_empty m.observed_paths then [] else keep (is_related m.observed_paths w) w.signals
