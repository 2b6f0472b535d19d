-- ===== src/State/Store.antt =====
-- `StateStore` of scanner-agent/src/state.rs: one handler for each kind of event.
use execution_aware_scanner.Prelude.{
  ℕ, ◌+◌, ◌-◌, ◌^◌, Bool, true, false, ◌&&◌, Option, List, [], ◌∷◌, ◌++◌, ltb, leb, if◌then◌else◌,
}
use execution_aware_scanner.Text.{Text, codes, decimal}
use execution_aware_scanner.Common.Kind.{
  EventKind, mmap, open_, mprotect, connect, bind, tcp_send, tcp_recv, udp_send, udp_recv,
}
use execution_aware_scanner.Common.Events.{ExecEvent, FileEvent, NetEvent}
use execution_aware_scanner.Common.CString.{c_string}
use execution_aware_scanner.Containers.Order.{nat_ord}
use execution_aware_scanner.Containers.OrdMap.{OrdMap, lookup, update}
use execution_aware_scanner.Float.{Float, lit}
use execution_aware_scanner.State.Workload.{
  RuntimeSignal, WorkloadState, default_workload, library_loaded, large_data_transfer,
  sensitive_file_access, mprotect_exec, suspicious_exec, push_signal, capped_insert,
  is_shared_library, is_sensitive_path, is_suspicious_command, max_data_bytes,
}

pub record StateStore (F : Type 0) : Type 0 where
  pub by_cgroup : OrdMap ℕ (WorkloadState F)

abbrev pub new_store : {F : Type 0} → StateStore F
new_store = record { by_cgroup = [] }

-- `if test { entry.push_signal(…) }`
abbrev pub push_if : {F : Type 0} → Bool → RuntimeSignal F → WorkloadState F → WorkloadState F
push_if test signal w = if test then push_signal w signal else w

abbrev pub is_mmap : EventKind → Bool
is_mmap mmap = true
is_mmap _ = false

abbrev pub is_mprotect : EventKind → Bool
is_mprotect mprotect = true
is_mprotect _ = false

abbrev pub file_syscall : EventKind → Text
file_syscall mmap = codes "mmap"
file_syscall open_ = codes "openat"
file_syscall mprotect = codes "mprotect"
file_syscall _ = codes "unknown"

abbrev pub net_syscall : EventKind → Text
net_syscall connect = codes "connect"
net_syscall bind = codes "bind"
net_syscall tcp_send = codes "tcp_sendmsg"
net_syscall tcp_recv = codes "tcp_recvmsg"
net_syscall udp_send = codes "udp_sendmsg"
net_syscall udp_recv = codes "udp_recvmsg"
net_syscall _ = codes "unknown"

-- `u64::saturating_add`
abbrev pub saturating_add : ℕ → ℕ → ℕ
saturating_add a b = if leb (a + b) (2 ^ 64 - 1) then a + b else 2 ^ 64 - 1

abbrev pub flow : NetEvent → Text
flow e =
    decimal e.saddr
    ++ codes ":"
    ++ decimal e.sport
    ++ codes "->"
    ++ decimal e.daddr
    ++ codes ":"
    ++ decimal e.dport

module _ {F : Type 0} ⦃f : Float F⦄ where
  unfoldable pub exec_entry : ExecEvent → WorkloadState F → WorkloadState F
  exec_entry e w =
      let cmd = c_string e.command in
      push_if (is_suspicious_command cmd)
        (record {
          signal_type = suspicious_exec;
          weight = lit 150;
          timestamp_ns = e.timestamp_ns;
          details = codes "Suspicious command: " ++ cmd;
        })
        (record w {
          commands = capped_insert w.commands cmd;
          observed_syscalls = capped_insert w.observed_syscalls (codes "execve");
        })

  unfoldable pub apply_exec : StateStore F → ExecEvent → StateStore F
  unfolding exec_entry
  apply_exec s e = record s {
    by_cgroup = update e.cgroup_id default_workload (exec_entry e) s.by_cgroup;
  }

  -- A mapped library is entered and signalled.
  abbrev pub load_library : FileEvent → Text → WorkloadState F → WorkloadState F
  load_library e path w =
      if is_mmap e.kind && is_shared_library path
      then push_signal (record w { loaded_libraries = capped_insert w.loaded_libraries path })
          (record {
            signal_type = library_loaded;
            weight = lit 200;
            timestamp_ns = e.timestamp_ns;
            details = codes "Library loaded: " ++ path;
          })
      else w

  unfoldable pub file_entry : FileEvent → WorkloadState F → WorkloadState F
  file_entry e w =
      let path = c_string e.path in
      let noted : WorkloadState F = record w {
        observed_paths = capped_insert w.observed_paths path;
        observed_syscalls = capped_insert w.observed_syscalls (file_syscall e.kind);
      } in
      let loaded = load_library e path noted in
      let sensitive =
        push_if (is_sensitive_path path)
          (record {
            signal_type = sensitive_file_access;
            weight = lit 100;
            timestamp_ns = e.timestamp_ns;
            details = codes "Sensitive file: " ++ path;
          })
          loaded in
      push_if (is_mprotect e.kind)
        (record {
          signal_type = mprotect_exec;
          weight = lit 150;
          timestamp_ns = e.timestamp_ns;
          details = codes "Memory protection changed";
        })
        sensitive

  unfoldable pub apply_file : StateStore F → FileEvent → StateStore F
  unfolding file_entry
  apply_file s e = record s {
    by_cgroup = update e.cgroup_id default_workload (file_entry e) s.by_cgroup;
  }

  unfoldable pub net_entry : NetEvent → WorkloadState F → WorkloadState F
  net_entry e w =
      let total = saturating_add w.data_transferred_bytes e.data_size in
      push_if (ltb 1024 e.data_size)
        (record {
          signal_type = large_data_transfer;
          weight = lit 150;
          timestamp_ns = e.timestamp_ns;
          details =
              codes "Large transfer: "
              ++ decimal e.data_size
              ++ codes " bytes to "
              ++ decimal e.daddr
              ++ codes ":"
              ++ decimal e.dport;
        })
        (record w {
          network_flows = capped_insert w.network_flows (flow e);
          observed_syscalls = capped_insert w.observed_syscalls (net_syscall e.kind);
          data_transferred_bytes = if leb total max_data_bytes then total else max_data_bytes;
        })

  unfoldable pub apply_net : StateStore F → NetEvent → StateStore F
  unfolding net_entry
  apply_net s e = record s {
    by_cgroup = update e.cgroup_id default_workload (net_entry e) s.by_cgroup;
  }

unfoldable pub workload : {F : Type 0} → StateStore F → ℕ → Option (WorkloadState F)
workload s cgroup_id = lookup cgroup_id s.by_cgroup

unfoldable pub clear : {F : Type 0} → StateStore F → StateStore F
clear s = record s { by_cgroup = [] }

pub data Event : Type 0 where
  exec_event : ExecEvent → Event
  file_event : FileEvent → Event
  net_event : NetEvent → Event

abbrev pub cgroup_of : Event → ℕ
cgroup_of (exec_event e) = e.cgroup_id
cgroup_of (file_event e) = e.cgroup_id
cgroup_of (net_event e) = e.cgroup_id

module _ {F : Type 0} ⦃f : Float F⦄ where
  unfoldable pub apply : StateStore F → Event → StateStore F
  unfolding apply_exec apply_file apply_net
  apply s (exec_event e) = apply_exec s e
  apply s (file_event e) = apply_file s e
  apply s (net_event e) = apply_net s e

  unfoldable pub apply_all : StateStore F → List Event → StateStore F
  unfolding apply
  apply_all s [] = s
  apply_all s (e ∷ es) = apply_all (apply s e) es
