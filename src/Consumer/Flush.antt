-- ===== src/Consumer/Flush.antt =====
-- `flush_all` of scanner-agent/src/event_consumer.rs, with the loops over the three batches and what
-- they send to the streaming engine.
pub mod Edges
pub mod Names
pub mod Sent
mod Tests
use execution_aware_scanner.Prelude.{
  ℕ, ◌+◌, ◌%◌, Bool, true, false, ◌&&◌, ◌||◌, Option, none, some, List, [], ◌∷◌, ◌++◌, foldl, any,
  ◌==◌, if◌then◌else◌,
}
use execution_aware_scanner.Text.{Text, codes, decimal, starts_with, ends_with, contains}
use execution_aware_scanner.Clock.{u64_mod}
use execution_aware_scanner.Float.{Float, lit}
use execution_aware_scanner.Common.CString.{c_string}
use execution_aware_scanner.Common.Kind.{EventKind, mmap, connect}
use execution_aware_scanner.Common.Events.{ExecEvent, FileEvent, NetEvent}
use execution_aware_scanner.Cgroup.{CgroupResolver, Proc, resolve}
use execution_aware_scanner.State.Workload.{is_sensitive_path}
use execution_aware_scanner.Attack.Nodes.{
  GraphUpdate, edge_added, process_created, library_loaded, network_connection, dotted,
}
use execution_aware_scanner.Streaming.Engine.{StreamEvent, bpf_event, graph_update}
use execution_aware_scanner.Consumer.Intake.{EventConsumer}

-- What the loops share with others: the resolver, what its next walks of /proc meet, and what was sent
-- so far.
pub record Bus (F : Type 0) : Type 0 where
  pub resolver : CgroupResolver
  pub walks : List Proc
  pub emitted : List (StreamEvent F)

unfoldable pub is_suspicious_destination : ℕ → ℕ → Bool
is_suspicious_destination addr port =
    any (λ (p : ℕ). p == port) (4444 ∷ 5555 ∷ 6666 ∷ 8888 ∷ 9999 ∷ 31337 ∷ [])

unfoldable pub is_shared_library : Text → Bool
is_shared_library path =
    ends_with path (codes ".so")
    || contains path (codes ".so.")
    || ends_with path (codes ".so.1")
    || ends_with path (codes ".so.2")
    || contains path (codes "/lib/")
    || contains path (codes "/usr/lib/")

abbrev pub is_mmap : EventKind → Bool
is_mmap mmap = true
is_mmap _ = false

abbrev pub is_connect : EventKind → Bool
is_connect connect = true
is_connect _ = false

unfoldable pub process_node : ℕ → Text → Text
process_node pid name = codes "proc:" ++ decimal pid ++ codes ":" ++ name

abbrev pub cgroup_node : ℕ → Text
cgroup_node cgroup_id = codes "cgroup:" ++ decimal cgroup_id

abbrev pub lib_node : Text → Text
lib_node path = codes "lib:" ++ path

abbrev pub net_node : NetEvent → Text
net_node e = codes "net:" ++ dotted e.daddr ++ codes ":" ++ decimal e.dport

unfoldable pub process_name : Option (Text × ℕ) → Text
process_name none = codes "unknown"
process_name (some (container_id, pid)) = codes "pid-" ++ decimal pid

abbrev next_walk : List Proc → Proc
next_walk [] = none
next_walk (w ∷ ws) = w

abbrev later_walks : List Proc → List Proc
later_walks [] = []
later_walks (w ∷ ws) = ws

abbrev pub loads_library : FileEvent → Bool
loads_library e = is_mmap e.kind && is_shared_library (c_string e.path)

abbrev pub is_empty : {A : Type 0} → List A → Bool
is_empty [] = true
is_empty (_ ∷ _) = false

abbrev pub is_idle : EventConsumer → Bool
is_idle c = is_empty c.exec_batch && is_empty c.file_batch && is_empty c.net_batch

abbrev pub flushed : EventConsumer → ℕ → EventConsumer
flushed c now = record c {
  exec_batch = [];
  file_batch = [];
  net_batch = [];
  last_flush = now;
  batches_processed = (c.batches_processed + 1) % u64_mod;
}

module _ {F : Type 0} where
  -- Each call of the resolver has a walk of its own, whether it needs one or not.
  unfoldable pub resolve_on : Bus F → ℕ → Bus F × Option (Text × ℕ)
  resolve_on b cgroup_id =
      let (resolver, found) = resolve (next_walk b.walks) b.resolver cgroup_id in
      (record b { resolver = resolver; walks = later_walks b.walks }, found)

  -- `emit_bpf_event` and `emit_graph_update`: without a sender nothing is sent.
  unfoldable pub emit : Bool → StreamEvent F → Bus F → Bus F
  emit has_sender e b = if has_sender then record b { emitted = b.emitted ++ e ∷ [] } else b

module _ {F : Type 0} ⦃f : Float F⦄ where
  abbrev pub exec_edge : ExecEvent → GraphUpdate F
  exec_edge e =
      edge_added (cgroup_node e.cgroup_id) (process_node e.pid (c_string e.command))
        (process_created e.timestamp_ns (lit 100))

  abbrev pub lib_edge : FileEvent → Text → GraphUpdate F
  lib_edge e name =
      edge_added (process_node e.pid name) (lib_node (c_string e.path))
        (library_loaded e.timestamp_ns (lit 100))

  abbrev pub net_edge : NetEvent → Text → GraphUpdate F
  net_edge e name =
      edge_added (process_node e.pid name) (net_node e)
        (network_connection e.timestamp_ns e.data_size 1 (lit 100))

  unfoldable pub process_exec : Bool → Bus F → ExecEvent → Bus F
  process_exec has_sender b e =
      let (resolved, found) = resolve_on b e.cgroup_id in
      emit has_sender (graph_update (exec_edge e)) (
        emit has_sender
          (bpf_event e.timestamp_ns (codes "exec")
            (codes "pid=" ++ decimal e.pid ++ codes " command=" ++ c_string e.command))
          resolved)

  -- The first part of the loop's body over files
  unfoldable pub report_sensitive : Bool → Bus F → FileEvent → Bus F
  report_sensitive has_sender b e =
      if is_sensitive_path (c_string e.path)
      then emit has_sender
          (bpf_event e.timestamp_ns (codes "file") (codes "sensitive: " ++ c_string e.path)) b
      else b

  -- The second part
  unfoldable pub report_load : Bool → Bus F → FileEvent → Bus F
  report_load has_sender b e =
      let (resolved, found) = resolve_on b e.cgroup_id in
      let name = process_name found in
      if loads_library e
      then emit has_sender (graph_update (lib_edge e name)) (
          emit has_sender
            (bpf_event e.timestamp_ns (codes "library_load")
              (name ++ codes " -> " ++ c_string e.path))
            resolved)
      else b

  unfoldable pub process_file : Bool → Bus F → FileEvent → Bus F
  process_file has_sender b e = report_load has_sender (report_sensitive has_sender b e) e

  unfoldable pub report_suspicious : Bool → Bus F → NetEvent → Bus F
  report_suspicious has_sender b e =
      if is_suspicious_destination e.daddr e.dport
      then emit has_sender
          (bpf_event e.timestamp_ns (codes "suspicious_net")
            (dotted e.daddr ++ codes ":" ++ decimal e.dport))
          b
      else b

  unfoldable pub report_connection : Bool → Bus F → NetEvent → Bus F
  report_connection has_sender b e =
      let (resolved, found) = resolve_on b e.cgroup_id in
      if is_connect e.kind
      then emit has_sender (graph_update (net_edge e (process_name found))) resolved
      else b

  unfoldable pub process_net : Bool → Bus F → NetEvent → Bus F
  process_net has_sender b e = report_connection has_sender (report_suspicious has_sender b e) e

  unfoldable pub process_exec_batch : Bool → List ExecEvent → Bus F → Bus F
  process_exec_batch has_sender batch b = foldl (process_exec has_sender) b batch

  unfoldable pub process_file_batch : Bool → List FileEvent → Bus F → Bus F
  process_file_batch has_sender batch b = foldl (process_file has_sender) b batch

  unfoldable pub process_net_batch : Bool → List NetEvent → Bus F → Bus F
  process_net_batch has_sender batch b = foldl (process_net has_sender) b batch

  -- Whether there is a sender, and the time after the batches are processed.
  unfoldable pub flush_all : Bool → ℕ → EventConsumer → Bus F → EventConsumer × Bus F
  flush_all has_sender now c b = if is_idle c then (c, b) else (
    flushed c now,
    process_net_batch has_sender c.net_batch
        (process_file_batch has_sender c.file_batch (process_exec_batch has_sender c.exec_batch b)),
  )
