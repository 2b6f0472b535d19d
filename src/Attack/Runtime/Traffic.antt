-- ===== src/Attack/Runtime/Traffic.antt =====
-- The bytes on the edges of scanner-agent/src/runtime_attack_graph_v2.rs against the events that were
-- seen.
use execution_aware_scanner.Prelude.{
  ℕ, zero, suc, ◌+◌, ◌%◌, ◌<◌, ◌≡◌, refl, Bool, false, not, ◌&&◌, some, List, [], ◌∷◌, ◌++◌, arith,
  foldl, ap, ◌∙◌, if◌then◌else◌, Bool-cases, Option-cases, inl, inr, get_elem?,
}
use execution_aware_scanner.Text.{Text}
use execution_aware_scanner.Clock.{u64_mod}
use execution_aware_scanner.Common.Events.{NetEvent}
use execution_aware_scanner.Containers.Order.{nat_ord, pair_ord, text_ord}
use execution_aware_scanner.Containers.OrdMap.{lookup, insert, or_default}
use execution_aware_scanner.Float.{Float}
use execution_aware_scanner.Attack.DiGraph.{DiGraph, IsDiGraph, reweigh}
use execution_aware_scanner.Attack.Nodes.{
  RuntimeNode, RuntimeEdge, process, network, edge_bytes, is_network, network_connection,
  process_created, process_id, network_id, library_id, dotted,
}
use execution_aware_scanner.Attack.Runtime.{
  RuntimeAttackGraph, add_node, add_edge, aggregate_network_event, correlate_library,
  correlate_with_libraries, add_connection, connection, confidence_of, connect,
  process_network_event, is_collapsed, or_else, collapse, collapse_edge, protocol_name, is_within,
  window_ns,
}

-- The bytes on all edges, as a `u64` counts them.
abbrev pub bytes_on : {F : Type 0} → List (ℕ × ℕ × RuntimeEdge F) → ℕ
bytes_on [] = 0
bytes_on ((a, b, e) ∷ es) = (edge_bytes e + bytes_on es) % u64_mod

module _ {F : Type 0} where
  pub bytes_on-append :
      (es : List (ℕ × ℕ × RuntimeEdge F)) (a b : ℕ) (e : RuntimeEdge F)
      → bytes_on (es ++ (a, b, e) ∷ []) ≡ (bytes_on es + edge_bytes e) % u64_mod
  bytes_on-append [] a b e = omega arith
  bytes_on-append ((a', b', e') ∷ es) a b e = omega (arith, bytes_on-append es a b e)

  bytes_on-reweigh :
      (es : List (ℕ × ℕ × RuntimeEdge F)) (i a b : ℕ) (e e' : RuntimeEdge F) (n : ℕ)
      → get_elem? es i ≡ some (a, b, e)
      → edge_bytes e' ≡ (edge_bytes e + n) % u64_mod
      → bytes_on (reweigh es i e') ≡ (bytes_on es + n) % u64_mod
  bytes_on-reweigh [] i a b e e' n h he = cc
  bytes_on-reweigh ((a', b', e'') ∷ es) zero a b e e' n h he =
      let same : e'' ≡ e = cc in rw same (omega (arith, he))
  bytes_on-reweigh (x ∷ es) (suc i) a b e e' n h he =
      omega (arith, bytes_on-reweigh es i a b e e' n h he)

  pub bytes_on_lt : (es : List (ℕ × ℕ × RuntimeEdge F)) → bytes_on es < u64_mod
  bytes_on_lt [] = omega arith
  bytes_on_lt ((a, b, e) ∷ es) = omega arith

module _ {F G : Type 0} ⦃f : Float F⦄ ⦃g : DiGraph (RuntimeNode F) (RuntimeEdge F) G⦄ where
  abbrev pub bytes_of : RuntimeAttackGraph F G → ℕ
  bytes_of s = bytes_on (g.edge_references s.graph)

  -- The edge of a connection that an event to its address would be added to.
  abbrev pub known_connection : RuntimeAttackGraph F G → ℕ → NetEvent → Bool
  known_connection s pid event =
      or_else false
        (λ process_idx.
          or_else false
            (λ net_idx.
              or_else false (λ edge_idx. or_else false is_network (g.edge_weight edge_idx s.graph))
                (g.find_edge process_idx net_idx s.graph))
            (lookup (network_id (dotted event.daddr) event.dport) s.node_indices))
        (lookup (process_id pid) s.node_indices)

  module _ (laws : IsDiGraph (RuntimeNode F) (RuntimeEdge F) G) where
    add_node-bytes :
        (s : RuntimeAttackGraph F G) (n : RuntimeNode F) → bytes_of (add_node s n).0 ≡ bytes_of s
    unfolding add_node
    add_node-bytes s n = ground (arith, ap bytes_on (laws.edge_references-add_node n s.graph))

    add_edge-bytes :
        (s : RuntimeAttackGraph F G) (a b : ℕ) (e : RuntimeEdge F)
        → bytes_of (add_edge s a b e) ≡ (bytes_of s + edge_bytes e) % u64_mod
    add_edge-bytes s a b e =
        ap bytes_on (laws.edge_references-add_edge a b e s.graph)
        ∙ bytes_on-append (g.edge_references s.graph) a b e

    -- An edge of another kind carries none.
    add_other-bytes :
        (s : RuntimeAttackGraph F G) (a b : ℕ) (e : RuntimeEdge F)
        → edge_bytes e ≡ 0
        → bytes_of (add_edge s a b e) ≡ bytes_of s
    add_other-bytes s a b e h =
        omega (arith, add_edge-bytes s a b e, h, bytes_on_lt (g.edge_references s.graph))

    correlate_library-bytes :
        (net_idx : ℕ) (event : NetEvent) (confidence : F) (s : RuntimeAttackGraph F G)
        (lib : Text × ℕ)
        → bytes_of (correlate_library net_idx event confidence s lib) ≡ bytes_of s
    unfolding correlate_library
    correlate_library-bytes net_idx event confidence s (lib_path, load_time) =
        elim (Bool-cases
          (is_within (window_ns s.config.mmap_window_secs) load_time event.timestamp_ns)) [
            | inr apart ↦ rw (apart, correlate_library)
            | inl within ↦ elim (Option-cases (lookup (library_id lib_path) s.node_indices)) [
              | inl new_ ↦ rw (within, new_, correlate_library)
              | inr (lib_idx, known) ↦
                  rw (within, known, correlate_library) (add_other-bytes s lib_idx net_idx _ refl)
            ]
          ]

    correlate-bytes :
        (net_idx : ℕ) (event : NetEvent) (confidence : F) (s : RuntimeAttackGraph F G)
        (libs : List (Text × ℕ))
        → bytes_of (foldl (correlate_library net_idx event confidence) s libs) ≡ bytes_of s
    correlate-bytes net_idx event confidence s [] = refl
    correlate-bytes net_idx event confidence s (lib ∷ libs) =
        correlate-bytes net_idx event confidence (correlate_library net_idx event confidence s lib)
          libs
        ∙ correlate_library-bytes net_idx event confidence s lib

    add_connection-bytes :
        (s : RuntimeAttackGraph F G) (pid : ℕ) (process_name : Text) (cgroup_id : ℕ)
        (event : NetEvent)
        → bytes_of (add_connection s pid process_name cgroup_id event).0
          ≡ (bytes_of s + event.data_size) % u64_mod
    unfolding add_connection
    add_connection-bytes s pid process_name cgroup_id event =
        let s0 : RuntimeAttackGraph F G = record s {
          last_network_update = insert (pid, event.dport) event.timestamp_ns s.last_network_update;
        } in
        let n1 = process pid process_name cgroup_id in
        let n2 = network (dotted event.daddr) event.dport (protocol_name event.kind) in
        let s1 = (add_node s0 n1).0 in
        let s2 = (add_node s1 n2).0 in
        let e = connection s event in
        omega (
          arith,
          add_node-bytes s0 n1,
          add_node-bytes s1 n2,
          add_edge-bytes s2 (add_node s0 n1).1 (add_node s1 n2).1 e,
        )

    connect-bytes :
        (s : RuntimeAttackGraph F G) (pid : ℕ) (process_name : Text) (cgroup_id : ℕ)
        (event : NetEvent)
        → bytes_of (connect s pid process_name cgroup_id event)
          ≡ (bytes_of s + event.data_size) % u64_mod
    unfolding connect correlate_with_libraries
    connect-bytes s pid process_name cgroup_id event =
        let (s3, net_idx) = add_connection s pid process_name cgroup_id event in
        correlate-bytes net_idx event (confidence_of s event) s3
          (or_default [] (lookup pid s3.process_libraries))
        ∙ add_connection-bytes s pid process_name cgroup_id event

    collapse_edge-bytes :
        (s : RuntimeAttackGraph F G) (pid : ℕ) (event : NetEvent) (i a b : ℕ) (e : RuntimeEdge F)
        → g.find_edge a b s.graph ≡ some i
        → g.edge_weight i s.graph ≡ some e
        → bytes_of (collapse_edge s pid event i (collapse event.data_size e))
          ≡ (if is_network e then (bytes_of s + event.data_size) % u64_mod else bytes_of s)
    collapse_edge-bytes s pid event i a b (network_connection time total count confidence) h w =
        ap bytes_on (laws.edge_references-set_weight i _ s.graph)
        ∙ bytes_on-reweigh (g.edge_references s.graph) i a b
            (network_connection time total count confidence) _ event.data_size
            (laws.find_edge_sound a b s.graph i _ h w) refl
    collapse_edge-bytes s pid event i a b (process_created time confidence) h w = refl
    collapse_edge-bytes s pid event i a b e h w = refl

    aggregate-bytes :
        (s : RuntimeAttackGraph F G) (pid : ℕ) (event : NetEvent)
        → bytes_of (aggregate_network_event s pid event) ≡ (
            if known_connection s pid event
            then (bytes_of s + event.data_size) % u64_mod
            else bytes_of s)
    unfolding aggregate_network_event
    aggregate-bytes s pid event = elim (Option-cases (lookup (process_id pid) s.node_indices)) [
      | inl none1 ↦ rw none1
      | inr (a, some1) ↦
          elim (Option-cases
            (lookup (network_id (dotted event.daddr) event.dport) s.node_indices)) [
              | inl none2 ↦ rw (some1, none2)
              | inr (b, some2) ↦ elim (Option-cases (g.find_edge a b s.graph)) [
                | inl none3 ↦ rw (some1, some2, none3)
                | inr (i, some3) ↦ elim (Option-cases (g.edge_weight i s.graph)) [
                  | inl none4 ↦ rw (some1, some2, some3, none4)
                  | inr (e, some4) ↦
                      rw (some1, some2, some3, some4)
                        (collapse_edge-bytes s pid event i a b e some3 some4)
                ]
              ]
            ]
    ]

    -- An event adds its bytes to those on the edges, as a `u64` counts them, except where it is
    -- collapsed, since the process has sent to the same port within the window, and there is no edge
    -- of a connection from the process to the address of the event: then its bytes are on no edge.
    pub process_network_event_bytes :
        (s : RuntimeAttackGraph F G) (pid : ℕ) (process_name : Text) (cgroup_id : ℕ)
        (event : NetEvent)
        → bytes_of (process_network_event s pid process_name cgroup_id event) ≡ (
            if is_collapsed s pid event && not (known_connection s pid event)
            then bytes_of s
            else (bytes_of s + event.data_size) % u64_mod)
    unfolding process_network_event
    process_network_event_bytes s pid process_name cgroup_id event =
        elim (Bool-cases (is_collapsed s pid event)) [
          | inr apart ↦ rw apart (connect-bytes s pid process_name cgroup_id event)
          | inl within ↦ elim (Bool-cases (known_connection s pid event)) [
            | inl known ↦ rw (within, known) (rw known at (aggregate-bytes s pid event))
            | inr new_ ↦ rw (within, new_) (rw new_ at (aggregate-bytes s pid event))
          ]
        ]
