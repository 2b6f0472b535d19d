-- ===== src/State/Workload.antt =====
-- `WorkloadState` and the tests on paths and commands of scanner-agent/src/state.rs.
use execution_aware_scanner.Prelude.{
  ℕ, Bool, not, ◌&&◌, ◌||◌, List, [], ◌∷◌, foldl, leb, if◌then◌else◌, length, any, keep,
}
use execution_aware_scanner.Text.{Text, codes, starts_with, ends_with, contains}
use execution_aware_scanner.Containers.Order.{text_ord}
use execution_aware_scanner.Containers.OrdSet.{OrdSet, insert, contains as set_contains}
use execution_aware_scanner.Containers.Ring.{push_capped}
use execution_aware_scanner.Float.{Float, lit, ◌⊕◌, ◌<?◌}

abbrev pub max_signals : ℕ
max_signals = 1000

abbrev pub max_set_entries : ℕ
max_set_entries = 5000

-- 1 TB
abbrev pub max_data_bytes : ℕ
max_data_bytes = 1_099_511_627_776

pub data SignalType : Type 0 where
  library_loaded large_data_transfer malicious_ip sensitive_file_access mprotect_exec
        suspicious_exec :
      SignalType

pub record RuntimeSignal (F : Type 0) : Type 0 where
  pub signal_type : SignalType
  pub weight : F
  pub timestamp_ns : ℕ
  pub details : Text

pub record WorkloadState (F : Type 0) : Type 0 where
  pub observed_paths : OrdSet Text
  pub observed_syscalls : OrdSet Text
  pub commands : OrdSet Text
  pub network_flows : OrdSet Text
  pub loaded_libraries : OrdSet Text
  pub signals : List (RuntimeSignal F)
  pub data_transferred_bytes : ℕ

-- `#[derive(Default)]`
abbrev pub default_workload : {F : Type 0} → WorkloadState F
default_workload = record {
  observed_paths = [];
  observed_syscalls = [];
  commands = [];
  network_flows = [];
  loaded_libraries = [];
  signals = [];
  data_transferred_bytes = 0;
}

module _ {F : Type 0} ⦃f : Float F⦄ where
  unfoldable pub signal_weight : WorkloadState F → F
  signal_weight w = foldl (λ acc (s : RuntimeSignal F). acc ⊕ s.weight) (lit 0) w.signals

  unfoldable pub risk_boosting_signals : WorkloadState F → List (RuntimeSignal F)
  risk_boosting_signals w = keep (λ (s : RuntimeSignal F). lit 100 <? s.weight) w.signals

unfoldable pub library_load_count : {F : Type 0} → WorkloadState F → ℕ
library_load_count w = length w.loaded_libraries

-- At capacity the oldest signal goes first.
unfoldable pub push_signal : {F : Type 0} → WorkloadState F → RuntimeSignal F → WorkloadState F
push_signal w signal = record w { signals = push_capped max_signals w.signals signal }

-- At capacity a value that is new is not added.
unfoldable pub capped_insert : OrdSet Text → Text → OrdSet Text
capped_insert set value =
    if leb max_set_entries (length set) && not (set_contains value set)
    then set
    else insert value set

unfoldable pub is_shared_library : Text → Bool
is_shared_library path = ends_with path (codes ".so") || contains path (codes ".so.")

unfoldable pub is_sensitive_path : Text → Bool
is_sensitive_path path =
    any (λ p. starts_with path p)
      (codes "/etc/passwd"
        ∷ codes "/etc/shadow"
        ∷ codes "/etc/ssh"
        ∷ codes "/.dockerenv"
        ∷ codes "/.kube"
        ∷ codes "/var/run/secrets"
        ∷ [])

unfoldable pub is_suspicious_command : Text → Bool
is_suspicious_command cmd =
    any (λ s. contains cmd s)
      (codes "nc"
        ∷ codes "ncat"
        ∷ codes "bash -i"
        ∷ codes "python"
        ∷ codes "perl"
        ∷ codes "ruby"
        ∷ [])
