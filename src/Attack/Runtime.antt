-- ===== src/Attack/Runtime.antt =====
-- `RuntimeAttackGraph` of scanner-agent/src/runtime_attack_graph_v2.rs: what an event or a CVE does to
-- the graph.
pub mod Identity
pub mod Traffic
use execution_aware_scanner.Prelude.{
  ℕ, ◌+◌, ◌-◌, ◌*◌, ◌/◌, ◌%◌, Bool, true, false, ◌&&◌, ◌||◌, Option, none, some, List, [], ◌∷◌,
  ◌++◌, ltb, foldl, if◌then◌else◌,
}
use execution_aware_scanner.Text.{Text, codes, decimal, contains}
use execution_aware_scanner.Text.Parts.{to_ascii_lowercase, trim_start_matches, before, after_last}
use execution_aware_scanner.Clock.{secs, u64_mod, u32_mod}
use execution_aware_scanner.Common.Kind.{EventKind, tcp_send, tcp_recv, udp_send, udp_recv}
use execution_aware_scanner.Common.Events.{NetEvent}
use execution_aware_scanner.Containers.Order.{Ord, nat_ord, text_ord, pair_ord, ◌=?◌}
use execution_aware_scanner.Containers.OrdMap.{OrdMap, lookup, insert, update, or_default}
use execution_aware_scanner.Float.{Float, lit, ◌⊕◌, ◌⊗◌, min}
use execution_aware_scanner.Attack.DiGraph.{DiGraph}
use execution_aware_scanner.Attack.Nodes.{
  AttackGraphConfig, RuntimeNode, process, library, network, vulnerability, VulnerabilityNode,
  RuntimeEdge, library_loaded, vulnerable, network_connection, exploitation_attempt,
  AttackPathMetrics, GraphUpdate, edge_added, edge_updated, node_id, process_id, library_id,
  network_id, dotted,
}

pub record RuntimeAttackGraph (F G : Type 0) : Type 0 where
  pub graph : G
  pub node_indices : OrdMap Text ℕ
  -- path and time of the libraries that a process has loaded
  pub process_libraries : OrdMap ℕ (List (Text × ℕ))
  pub process_connections : OrdMap ℕ (List (NetEvent × ℕ))
  pub cve_to_library : OrdMap Text (List Text)
  pub config : AttackGraphConfig F
  pub metrics : AttackPathMetrics F
  pub update_queue : List (GraphUpdate F)
  -- by process and destination port
  pub last_network_update : OrdMap (ℕ × ℕ) ℕ

-- `Duration::from_secs(n).as_nanos() as u64`
abbrev pub window_ns : ℕ → ℕ
window_ns n = secs n % u64_mod

-- Later than the earlier time, by less than the window.
abbrev pub is_within : ℕ → ℕ → ℕ → Bool
is_within window earlier now = ltb earlier now && ltb (now - earlier) window

abbrev pub protocol_name : EventKind → Text
protocol_name tcp_send = codes "TCP"
protocol_name tcp_recv = codes "TCP"
protocol_name udp_send = codes "UDP"
protocol_name udp_recv = codes "UDP"
protocol_name _ = codes "UNKNOWN"

unfoldable pub library_matches_package : Text → Text → Bool
library_matches_package path package_ =
    let path_lc = to_ascii_lowercase path in
    let package_lc = to_ascii_lowercase package_ in
    let file_name = after_last path_lc b'/' in
    let lib_stem = before (trim_start_matches file_name (codes "lib")) (codes ".so") in
    contains path_lc package_lc
    || contains package_lc file_name
    || contains package_lc lib_stem
    || (package_lc =? codes "openssl" && lib_stem =? codes "ssl")
    || (package_lc =? codes "openssl" && lib_stem =? codes "crypto")

abbrev pub or_else : {A B : Type 0} → B → (A → B) → Option A → B
or_else b h none = b
or_else b h (some a) = h a

-- The edge with another event on it, if it is one of a connection
abbrev pub collapse : {F : Type 0} ⦃f : Float F⦄ → ℕ → RuntimeEdge F → Option (RuntimeEdge F)
collapse size (network_connection time total_bytes event_count confidence) = some (
    network_connection time ((total_bytes + size) % u64_mod) ((event_count + 1) % u32_mod)
      (min (confidence ⊕ lit 5) (lit 95)))
collapse size _ = none

module _ {F G : Type 0} ⦃f : Float F⦄ ⦃g : DiGraph (RuntimeNode F) (RuntimeEdge F) G⦄ where
  unfoldable pub new : AttackGraphConfig F → RuntimeAttackGraph F G
  new config = record {
    graph = g.empty;
    node_indices = [];
    process_libraries = [];
    process_connections = [];
    cve_to_library = [];
    config = config;
    metrics = record {
      paths_total = 0;
      high_confidence_paths = 0;
      avg_confidence = lit 0;
      paths_per_pid = [];
      burst_events_collapsed = 0;
    };
    update_queue = [];
    last_network_update = [];
  }

  unfoldable pub add_node : RuntimeAttackGraph F G → RuntimeNode F → RuntimeAttackGraph F G × ℕ
  add_node s node = elim (lookup (node_id node) s.node_indices) [
    | some idx ↦ (s, idx)
    | none ↦
        let (graph, idx) = g.add_node node s.graph in
        (record s { graph = graph; node_indices = insert (node_id node) idx s.node_indices }, idx)
  ]

  abbrev pub add_edge : RuntimeAttackGraph F G → ℕ → ℕ → RuntimeEdge F → RuntimeAttackGraph F G
  add_edge s a b e = record s { graph = g.add_edge a b e s.graph }

  abbrev pub queue_update : RuntimeAttackGraph F G → GraphUpdate F → RuntimeAttackGraph F G
  queue_update s u = record s { update_queue = s.update_queue ++ u ∷ [] }

  unfoldable pub process_library_load :
      RuntimeAttackGraph F G → ℕ → Text → ℕ → Text → ℕ → RuntimeAttackGraph F G
  unfolding add_node
  process_library_load s pid process_name cgroup_id lib_path time =
      let (s1, process_idx) = add_node s (process pid process_name cgroup_id) in
      let (s2, lib_idx) = add_node s1 (library lib_path []) in
      let s3 = add_edge s2 process_idx lib_idx (library_loaded time (lit 100)) in
      let s4 : RuntimeAttackGraph F G = record s3 {
        process_libraries =
            update pid [] (λ libs. libs ++ (lib_path, time) ∷ []) s3.process_libraries;
      } in
      queue_update s4
        (edge_added (process_id pid) (library_id lib_path) (library_loaded time (lit 100)))

  abbrev pub collapse_edge :
      RuntimeAttackGraph F G → ℕ → NetEvent → ℕ → Option (RuntimeEdge F) → RuntimeAttackGraph F G
  collapse_edge s pid event edge_idx none = s
  collapse_edge s pid event edge_idx (some e) =
      queue_update (record s { graph = g.set_weight edge_idx e s.graph })
        (edge_updated (process_id pid) (network_id (dotted event.daddr) event.dport)
          event.data_size)

  unfoldable pub aggregate_network_event :
      RuntimeAttackGraph F G → ℕ → NetEvent → RuntimeAttackGraph F G
  aggregate_network_event s pid event =
      or_else s
        (λ process_idx.
          or_else s
            (λ net_idx.
              or_else s
                (λ edge_idx.
                  or_else s
                    (λ edge. collapse_edge s pid event edge_idx (collapse event.data_size edge))
                    (g.edge_weight edge_idx s.graph))
                (g.find_edge process_idx net_idx s.graph))
            (lookup (network_id (dotted event.daddr) event.dport) s.node_indices))
        (lookup (process_id pid) s.node_indices)

  -- One round of the loop over the libraries of the process
  unfoldable pub correlate_library :
      ℕ → NetEvent → F → RuntimeAttackGraph F G → Text × ℕ → RuntimeAttackGraph F G
  correlate_library net_idx event confidence s (lib_path, load_time) =
      if is_within (window_ns s.config.mmap_window_secs) load_time event.timestamp_ns
      then or_else s
          (λ lib_idx. add_edge s lib_idx net_idx (
            exploitation_attempt (confidence ⊗ lit 80) (
              codes "Library "
              ++ lib_path
              ++ codes " loaded "
              ++ decimal ((event.timestamp_ns - load_time) / 1_000_000_000)
              ++ codes "s before network activity")))
          (lookup (library_id lib_path) s.node_indices)
      else s

  unfoldable pub correlate_with_libraries :
      RuntimeAttackGraph F G → ℕ → ℕ → NetEvent → F → RuntimeAttackGraph F G
  unfolding correlate_library
  correlate_with_libraries s pid net_idx event confidence =
      foldl (correlate_library net_idx event confidence) s
        (or_default [] (lookup pid s.process_libraries))

  -- Within the window of the last event of the process to that port, whatever the address
  abbrev pub is_collapsed : RuntimeAttackGraph F G → ℕ → NetEvent → Bool
  is_collapsed s pid event =
      s.config.dedup_enabled
      && or_else false
          (λ last_time.
            is_within (window_ns s.config.network_window_secs) last_time event.timestamp_ns)
          (lookup (pid, event.dport) s.last_network_update)

  abbrev pub count_collapsed : RuntimeAttackGraph F G → RuntimeAttackGraph F G
  count_collapsed s = record s {
    metrics = record s.metrics {
      burst_events_collapsed = (s.metrics.burst_events_collapsed + 1) % u64_mod;
    };
  }

  abbrev pub confidence_of : RuntimeAttackGraph F G → NetEvent → F
  confidence_of s event =
      if ltb s.config.min_bytes_threshold event.data_size then lit 90 else lit 70

  abbrev pub connection : RuntimeAttackGraph F G → NetEvent → RuntimeEdge F
  connection s event =
      network_connection event.timestamp_ns event.data_size 1 (confidence_of s event)

  -- The two nodes and the edge of a connection, with the index of the address
  unfoldable pub add_connection :
      RuntimeAttackGraph F G → ℕ → Text → ℕ → NetEvent → RuntimeAttackGraph F G × ℕ
  unfolding add_node
  add_connection s pid process_name cgroup_id event =
      let s0 : RuntimeAttackGraph F G = record s {
        last_network_update = insert (pid, event.dport) event.timestamp_ns s.last_network_update;
      } in
      let (s1, process_idx) = add_node s0 (process pid process_name cgroup_id) in
      let (s2, net_idx) =
        add_node s1 (network (dotted event.daddr) event.dport (protocol_name event.kind)) in
      (add_edge s2 process_idx net_idx (connection s event), net_idx)

  -- What is done for an event that is not collapsed
  unfoldable pub connect : RuntimeAttackGraph F G → ℕ → Text → ℕ → NetEvent → RuntimeAttackGraph F G
  unfolding add_connection correlate_with_libraries
  connect s pid process_name cgroup_id event =
      let (s3, net_idx) = add_connection s pid process_name cgroup_id event in
      let s4 = correlate_with_libraries s3 pid net_idx event (confidence_of s event) in
      let s5 : RuntimeAttackGraph F G = record s4 {
        process_connections =
            update pid [] (λ events. events ++ (event, event.timestamp_ns) ∷ [])
              s4.process_connections;
      } in
      queue_update s5 (
        edge_added (process_id pid) (network_id (dotted event.daddr) event.dport)
          (connection s event))

  unfoldable pub process_network_event :
      RuntimeAttackGraph F G → ℕ → Text → ℕ → NetEvent → RuntimeAttackGraph F G
  unfolding aggregate_network_event connect
  process_network_event s pid process_name cgroup_id event =
      if is_collapsed s pid event
      then count_collapsed (aggregate_network_event s pid event)
      else connect s pid process_name cgroup_id event

  -- One round of the loop over all nodes
  unfoldable pub link_library : ℕ → Text → RuntimeAttackGraph F G → ℕ → RuntimeAttackGraph F G
  unfolding library_matches_package
  link_library vuln_idx package_ s idx = elim (g.node_weight idx s.graph) [
    | some (library path cve_ids) ↦
        if library_matches_package path package_
        then add_edge s vuln_idx idx (vulnerable (lit 95))
        else s
    | _ ↦ s
  ]

  unfoldable pub associate_cve_with_library :
      RuntimeAttackGraph F G → Text → Text → F → F → Bool → RuntimeAttackGraph F G
  unfolding add_node link_library
  associate_cve_with_library s cve_id package_ cvss epss kev =
      let (s1, vuln_idx) = add_node s (
        vulnerability
          (record { cve_id = cve_id; package_ = package_; cvss = cvss; epss = epss; kev = kev })) in
      let s2 = foldl (link_library vuln_idx package_) s1 (g.node_indices s1.graph) in
      record s2 {
        cve_to_library = update cve_id [] (λ packages. packages ++ package_ ∷ []) s2.cve_to_library;
      }

  -- `std::mem::take` of the queue
  abbrev pub drain_updates : RuntimeAttackGraph F G → RuntimeAttackGraph F G × List (GraphUpdate F)
  drain_updates s = (record s { update_queue = [] }, s.update_queue)
