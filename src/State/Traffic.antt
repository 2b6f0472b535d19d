-- ===== src/State/Traffic.antt =====
-- The transfer count and the signals of a workload, as what its events add up to.
use execution_aware_scanner.Prelude.{
  ℕ, ◌+◌, ◌^◌, ◌≤◌, ◌<◌, ◌≡◌, refl, ap, ◌∙◌, Option, true, false, Bool, Bool-cases, inl, inr, List,
  [], ◌∷◌, ◌++◌, ◌&&◌, arith, All, if◌then◌else◌, leb, ltb,
}
use execution_aware_scanner.Text.{codes, decimal}
use execution_aware_scanner.Common.Events.{FileEvent}
use execution_aware_scanner.Common.CString.{c_string}
use execution_aware_scanner.Containers.OrdMap.{or_default, lookup}
use execution_aware_scanner.Containers.Ring.{push_all, newest, push_all-newest, push_all-append}
use execution_aware_scanner.Float.{Float, lit}
use execution_aware_scanner.State.Workload.{
  RuntimeSignal, WorkloadState, default_workload, library_loaded, large_data_transfer,
  sensitive_file_access, mprotect_exec, suspicious_exec, push_signal, max_data_bytes, max_signals,
  is_shared_library, is_sensitive_path, is_suspicious_command,
}
use execution_aware_scanner.State.Store.{
  StateStore, new_store, exec_entry, file_entry, net_entry, Event, exec_event, file_event,
  net_event, apply, apply_all, workload, push_if, load_library, is_mmap, is_mprotect,
}
use execution_aware_scanner.State.Isolation.{own, entry, apply-own, apply_others}

abbrev pub min_nat : ℕ → ℕ → ℕ
min_nat a b = if leb a b then a else b

-- `data_size` is a `u32`.
abbrev pub FitsU32 : Event → Type 0
FitsU32 (exec_event e) = Unit
FitsU32 (file_event e) = Unit
FitsU32 (net_event e) = e.data_size < 2 ^ 32

abbrev pub size_of : Event → ℕ
size_of (exec_event e) = 0
size_of (file_event e) = 0
size_of (net_event e) = e.data_size

-- The bytes that the network events of a control group report.
abbrev pub sent_by : ℕ → List Event → ℕ
sent_by cgroup [] = 0
sent_by cgroup (e ∷ es) = (if own cgroup e then size_of e else 0) + sent_by cgroup es

module _ {F : Type 0} ⦃f : Float F⦄ where
  -- The count of a control group that is not known yet is zero.
  abbrev pub count_of : Option (WorkloadState F) → ℕ
  count_of o = (or_default default_workload o).data_transferred_bytes

  abbrev pub transferred : StateStore F → ℕ → ℕ
  transferred s cgroup = count_of (workload s cgroup)

  entry_transferred :
      (e : Event) (w : WorkloadState F)
      → FitsU32 e
      → w.data_transferred_bytes ≤ max_data_bytes
      → (entry e w).data_transferred_bytes
        ≡ min_nat (w.data_transferred_bytes + size_of e) max_data_bytes
  unfolding exec_entry file_entry net_entry push_signal
  entry_transferred (exec_event e) w u h = ground arith
  entry_transferred (file_event e) w u h = ground arith
  entry_transferred (net_event e) w u h = ground arith

  apply_transferred :
      (s : StateStore F) (e : Event) (cgroup : ℕ)
      → FitsU32 e
      → transferred s cgroup ≤ max_data_bytes
      → transferred (apply s e) cgroup
        ≡ min_nat (transferred s cgroup + (if own cgroup e then size_of e else 0)) max_data_bytes
  apply_transferred s e cgroup u h = elim (Bool-cases (own cgroup e)) [
    | inl mine ↦
        ap count_of (apply-own s e cgroup mine)
        ∙ rw mine (entry_transferred e (or_default default_workload (workload s cgroup)) u h)
    | inr other ↦ ap count_of (apply_others s e cgroup other) ∙ rw other (ground arith)
  ]

  -- The transfer count of a control group after any events is what it was, plus the bytes of its own
  -- network events, cut off at 1 TB: no sum wraps, and once at the limit it stays there. (Sizes are
  -- 32-bit, and the count starts within the limit.)
  transferred-apply_all :
      (s : StateStore F) (es : List Event) (cgroup : ℕ)
      → All FitsU32 es
      → transferred s cgroup ≤ max_data_bytes
      → transferred (apply_all s es) cgroup
        ≡ min_nat (transferred s cgroup + sent_by cgroup es) max_data_bytes
  unfolding apply_all
  transferred-apply_all s [] cgroup u h = ground arith
  transferred-apply_all s (e ∷ es) cgroup u h =
      let first = apply_transferred s e cgroup u.0 h in
      ground (arith, first, transferred-apply_all (apply s e) es cgroup u.1)

  abbrev pub when : Bool → RuntimeSignal F → List (RuntimeSignal F)
  when test signal = if test then signal ∷ [] else []

  abbrev pub loads : FileEvent → List (RuntimeSignal F)
  loads e = when (is_mmap e.kind && is_shared_library (c_string e.path)) (record {
    signal_type = library_loaded;
    weight = lit 200;
    timestamp_ns = e.timestamp_ns;
    details = codes "Library loaded: " ++ c_string e.path;
  })

  abbrev pub touches : FileEvent → List (RuntimeSignal F)
  touches e = when (is_sensitive_path (c_string e.path)) (record {
    signal_type = sensitive_file_access;
    weight = lit 100;
    timestamp_ns = e.timestamp_ns;
    details = codes "Sensitive file: " ++ c_string e.path;
  })

  abbrev pub protects : FileEvent → List (RuntimeSignal F)
  protects e = when (is_mprotect e.kind) (record {
    signal_type = mprotect_exec;
    weight = lit 150;
    timestamp_ns = e.timestamp_ns;
    details = codes "Memory protection changed";
  })

  -- The signals that an event raises, whatever is known of the workload.
  abbrev pub raised : Event → List (RuntimeSignal F)
  raised (exec_event e) = when (is_suspicious_command (c_string e.command)) (record {
    signal_type = suspicious_exec;
    weight = lit 150;
    timestamp_ns = e.timestamp_ns;
    details = codes "Suspicious command: " ++ c_string e.command;
  })
  raised (file_event e) = loads e ++ (touches e ++ protects e)
  raised (net_event e) = when (ltb 1024 e.data_size) (record {
    signal_type = large_data_transfer;
    weight = lit 150;
    timestamp_ns = e.timestamp_ns;
    details =
        codes "Large transfer: "
        ++ decimal e.data_size
        ++ codes " bytes to "
        ++ decimal e.daddr
        ++ codes ":"
        ++ decimal e.dport;
  })

  abbrev pub raised_by : ℕ → List Event → List (RuntimeSignal F)
  raised_by cgroup [] = []
  raised_by cgroup (e ∷ es) = (if own cgroup e then raised e else []) ++ raised_by cgroup es

  push_if_signals :
      (test : Bool) (signal : RuntimeSignal F) (w : WorkloadState F)
      → (push_if test signal w).signals ≡ push_all max_signals w.signals (when test signal)
  unfolding push_signal push_all
  push_if_signals true signal w = refl
  push_if_signals false signal w = refl

  load_library_signals :
      (e : FileEvent) (w : WorkloadState F)
      → (load_library e (c_string e.path) w).signals ≡ push_all max_signals w.signals (loads e)
  unfolding push_signal push_all
  load_library_signals e w =
      elim (Bool-cases (is_mmap e.kind && is_shared_library (c_string e.path))) [
        | inl library ↦ rw library
        | inr other ↦ rw other
      ]

  entry_signals :
      (e : Event) (w : WorkloadState F)
      → (entry e w).signals ≡ push_all max_signals w.signals (raised e)
  unfolding exec_entry file_entry net_entry
  entry_signals (exec_event e) w = push_if_signals (is_suspicious_command (c_string e.command)) _ _
  entry_signals (file_event e) w =
      push_if_signals (is_mprotect e.kind) _ _
      ∙ rw
          (
            push_all-append max_signals w.signals (loads e) (touches e ++ protects e),
            push_all-append max_signals (push_all max_signals w.signals (loads e)) (touches e)
                (protects e),
          )
          (ap (λ xs. push_all max_signals xs (protects e))
            (push_if_signals (is_sensitive_path (c_string e.path)) _ _
              ∙ ap (λ xs. push_all max_signals xs (touches e)) (load_library_signals e _)))
  entry_signals (net_event e) w = push_if_signals (ltb 1024 e.data_size) _ _

  abbrev pub signals_of : Option (WorkloadState F) → List (RuntimeSignal F)
  signals_of o = (or_default default_workload o).signals

  signals_apply_all :
      (s : StateStore F) (es : List Event) (cgroup : ℕ)
      → signals_of (workload (apply_all s es) cgroup)
        ≡ push_all max_signals (signals_of (workload s cgroup)) (raised_by cgroup es)
  unfolding apply_all push_all
  signals_apply_all s [] cgroup = refl
  signals_apply_all s (e ∷ es) cgroup = elim (Bool-cases (own cgroup e)) [
    | inl mine ↦
        rw
          (
            mine,
            push_all-append max_signals (signals_of (workload s cgroup)) (raised e)
                (raised_by cgroup es),
          )
          (signals_apply_all (apply s e) es cgroup
            ∙ ap (λ xs. push_all max_signals xs (raised_by cgroup es))
                (ap signals_of (apply-own s e cgroup mine)
                  ∙ entry_signals e (or_default default_workload (workload s cgroup))))
    | inr other ↦ rw other (
        signals_apply_all (apply s e) es cgroup
        ∙ ap (λ xs. push_all max_signals xs (raised_by cgroup es))
            (ap signals_of (apply_others s e cgroup other)))
  ]

  -- The signals that a new store holds of a control group after any events are the newest 1000 of
  -- those that the group's own events raise, oldest first.
  pub signals-newest :
      (es : List Event) (cgroup : ℕ)
      → signals_of (workload (apply_all new_store es) cgroup)
        ≡ newest max_signals (raised_by cgroup es)
  unfolding workload lookup push_all
  signals-newest es cgroup =
      signals_apply_all new_store es cgroup
      ∙ push_all-newest max_signals [] (raised_by cgroup es) (omega arith)
