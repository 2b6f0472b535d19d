-- ===== src/Consumer/Flush/Tests.antt =====
-- A flush of one event of each kind.
use execution_aware_scanner.Prelude.{◌≡◌, ◌≢◌, refl, true, [], ◌∷◌, ◌++◌, All}
use execution_aware_scanner.Text.{Text, codes, compare_text, starts_with}
use execution_aware_scanner.Common.CString.{c_string}
use execution_aware_scanner.Common.Kind.{mmap}
use execution_aware_scanner.Common.Events.{FileEvent}
use execution_aware_scanner.Float.Fixed.{Fixed, fixed_float}
use execution_aware_scanner.Cgroup.{new}
use execution_aware_scanner.Consumer.Intake.{EventConsumer}
use execution_aware_scanner.Consumer.Tests.{zeros, bash_start, web_request, passwd_open, consumer}
use execution_aware_scanner.Consumer.Flush.{
  Bus, process_node, lib_node, net_node, flush_all, is_shared_library,
}
use execution_aware_scanner.Consumer.Flush.Edges.{targets, flush_all_targets}
use execution_aware_scanner.Consumer.Flush.Names.{sources, started_node, flush_all_unlinked}

abbrev library_map : FileEvent
library_map = record passwd_open { path = codes "/usr/lib/libssl.so" ++ zeros 238; kind = mmap }

abbrev batched : EventConsumer
batched = record consumer {
  exec_batch = bash_start ∷ [];
  file_batch = passwd_open ∷ library_map ∷ [];
  net_batch = web_request ∷ [];
}

abbrev silent_bus : Bus Fixed
silent_bus = record { resolver = new (codes "/proc"); walks = []; emitted = [] }

flush_all_targets_example :
    (targets (flush_all true 9 batched silent_bus).1.emitted
      ≡ process_node 10 (codes "bash")
        ∷ lib_node (codes "/usr/lib/libssl.so")
        ∷ net_node web_request
        ∷ [])
    × (((flush_all true 9 batched silent_bus).0.exec_batch ≡ [])
        × (((flush_all true 9 batched silent_bus).0.file_batch ≡ [])
            × ((flush_all true 9 batched silent_bus).0.net_batch ≡ [])))
unfolding c_string is_shared_library execution_aware_scanner.Text.ends_with
flush_all_targets_example = flush_all_targets 9 batched silent_bus

flush_all_unlinked_example :
    All
      (λ from. All (λ e. started_node e ≢ from) (bash_start ∷ []))
      (sources (flush_all true 9 batched silent_bus).1.emitted)
unfolding compare_text c_string starts_with
flush_all_unlinked_example = flush_all_unlinked true 9 batched silent_bus (refl, tt) refl
