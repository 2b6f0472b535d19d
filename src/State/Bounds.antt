-- ===== src/State/Bounds.antt =====
-- Every workload's state stays within the limits, whatever the kernel reports.
use execution_aware_scanner.Prelude.{
  ℕ, ◌≤◌, ◌≡◌, some, ◌&&◌, Bool, Bool-cases, inl, inr, ltb, true, false, List, [], ◌∷◌, arith,
  length,
}
use execution_aware_scanner.Text.{Text, codes}
use execution_aware_scanner.Common.Events.{ExecEvent, FileEvent, NetEvent}
use execution_aware_scanner.Common.CString.{c_string}
use execution_aware_scanner.Containers.Order.{nat_ord, text_ord}
use execution_aware_scanner.Containers.OrdSet.{OrdSet, length-insert}
use execution_aware_scanner.Containers.OrdMap.{Values, Values-update, Values-lookup}
use execution_aware_scanner.Containers.Ring.{length-push_capped}
use execution_aware_scanner.Float.{Float}
use execution_aware_scanner.State.Workload.{
  RuntimeSignal, WorkloadState, default_workload, push_signal, capped_insert, max_signals,
  max_set_entries, max_data_bytes, is_suspicious_command, is_shared_library, is_sensitive_path,
}
use execution_aware_scanner.State.Store.{
  StateStore, new_store, push_if, is_mmap, is_mprotect, file_syscall, net_syscall, flow,
  load_library, exec_entry, file_entry, net_entry, apply_exec, apply_file, apply_net, Event,
  exec_event, file_event, net_event, apply, apply_all, workload,
}

pub record IsBounded {F : Type 0} (w : WorkloadState F) : Type 0 where
  pub signals : length w.signals ≤ max_signals
  pub observed_paths : length w.observed_paths ≤ max_set_entries
  pub observed_syscalls : length w.observed_syscalls ≤ max_set_entries
  pub commands : length w.commands ≤ max_set_entries
  pub network_flows : length w.network_flows ≤ max_set_entries
  pub loaded_libraries : length w.loaded_libraries ≤ max_set_entries
  pub transferred : w.data_transferred_bytes ≤ max_data_bytes

capped_insert_bound :
    (set : OrdSet Text) (value : Text)
    → length set ≤ max_set_entries
    → length (capped_insert set value) ≤ max_set_entries
unfolding capped_insert
capped_insert_bound set value h = ground (arith, length-insert value set)

module _ {F : Type 0} where
  push_signal-IsBounded :
      (w : WorkloadState F) (s : RuntimeSignal F) → IsBounded w → IsBounded (push_signal w s)
  unfolding push_signal
  push_signal-IsBounded w s b =
      omega (arith, length-push_capped max_signals w.signals s (omega arith) b.signals)

  push_if-IsBounded :
      (test : Bool) (s : RuntimeSignal F) (w : WorkloadState F)
      → IsBounded w
      → IsBounded (push_if test s w)
  push_if-IsBounded true s w b = push_signal-IsBounded w s b
  push_if-IsBounded false s w b = b

module _ {F : Type 0} ⦃f : Float F⦄ where
  exec_entry-IsBounded :
      (e : ExecEvent) (w : WorkloadState F) → IsBounded w → IsBounded (exec_entry e w)
  unfolding exec_entry
  exec_entry-IsBounded e w b =
      let cmd = c_string e.command in
      push_if-IsBounded (is_suspicious_command cmd) _ _ (
        omega (
          arith,
          capped_insert_bound w.commands cmd b.commands,
          capped_insert_bound w.observed_syscalls (codes "execve") b.observed_syscalls,
        ))

  load_library-IsBounded :
      (e : FileEvent) (path : Text) (w : WorkloadState F)
      → IsBounded w
      → IsBounded (load_library e path w)
  load_library-IsBounded e path w b = elim (Bool-cases (is_mmap e.kind && is_shared_library path)) [
    | inl library ↦ rw library (
        push_signal-IsBounded _ _
          (omega (arith, capped_insert_bound w.loaded_libraries path b.loaded_libraries)))
    | inr other ↦ rw other b
  ]

  file_entry-IsBounded :
      (e : FileEvent) (w : WorkloadState F) → IsBounded w → IsBounded (file_entry e w)
  unfolding file_entry
  file_entry-IsBounded e w b =
      let path = c_string e.path in
      push_if-IsBounded (is_mprotect e.kind) _ _ (
        push_if-IsBounded (is_sensitive_path path) _ _ (
          load_library-IsBounded e path _ (
            omega (
              arith,
              capped_insert_bound w.observed_paths path b.observed_paths,
              capped_insert_bound w.observed_syscalls (file_syscall e.kind) b.observed_syscalls,
            ))))

  net_entry-IsBounded :
      (e : NetEvent) (w : WorkloadState F) → IsBounded w → IsBounded (net_entry e w)
  unfolding net_entry
  net_entry-IsBounded e w b = push_if-IsBounded (ltb 1024 e.data_size) _ _ (record {
    signals = b.signals;
    observed_paths = b.observed_paths;
    observed_syscalls =
        capped_insert_bound w.observed_syscalls (net_syscall e.kind) b.observed_syscalls;
    commands = b.commands;
    network_flows = capped_insert_bound w.network_flows (flow e) b.network_flows;
    loaded_libraries = b.loaded_libraries;
    transferred = ground arith;
  })

  -- Every workload of a store is within the limits.
  abbrev pub AllBounded : StateStore F → Type 0
  AllBounded s = Values IsBounded s.by_cgroup

  default-IsBounded : IsBounded (default_workload {F = F})
  default-IsBounded = omega arith

  apply-AllBounded : (s : StateStore F) (e : Event) → AllBounded s → AllBounded (apply s e)
  unfolding apply apply_exec apply_file apply_net
  apply-AllBounded s (exec_event e) b =
      Values-update IsBounded e.cgroup_id default_workload (exec_entry e) s.by_cgroup
        default-IsBounded (exec_entry-IsBounded e) b
  apply-AllBounded s (file_event e) b =
      Values-update IsBounded e.cgroup_id default_workload (file_entry e) s.by_cgroup
        default-IsBounded (file_entry-IsBounded e) b
  apply-AllBounded s (net_event e) b =
      Values-update IsBounded e.cgroup_id default_workload (net_entry e) s.by_cgroup
        default-IsBounded (net_entry-IsBounded e) b

  apply_all-AllBounded :
      (s : StateStore F) (es : List Event) → AllBounded s → AllBounded (apply_all s es)
  unfolding apply_all
  apply_all-AllBounded s [] b = b
  apply_all-AllBounded s (e ∷ es) b = apply_all-AllBounded (apply s e) es (apply-AllBounded s e b)

  -- Whatever events a new store has taken in, each workload in it has at most 1000 signals and 5000
  -- entries in each set, and a transfer count of at most 1 TB.
  pub workload-IsBounded :
      (es : List Event) (cgroup : ℕ) {w : WorkloadState F}
      → workload (apply_all new_store es) cgroup ≡ some w
      → IsBounded w
  unfolding workload
  workload-IsBounded es cgroup e =
      Values-lookup IsBounded cgroup _ (apply_all-AllBounded new_store es tt) e
