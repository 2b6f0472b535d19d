-- ===== src/Attack/Runtime/Identity.antt =====
-- The index of node identifiers in scanner-agent/src/runtime_attack_graph_v2.rs against the nodes of
-- the graph.
use execution_aware_scanner.Prelude.{
  ℕ, ◌≡◌, refl, Bool, Option, none, some, List, [], ◌∷◌, arith, foldl, ◌↔◌, ◌∙◌, sym, Bool-cases,
  Option-cases, inl, inr, ==_iff,
}
use execution_aware_scanner.Text.{Text}
use execution_aware_scanner.Common.Events.{NetEvent}
use execution_aware_scanner.Containers.Order.{nat_ord, pair_ord, text_ord, =?_sound, =?_refl}
use execution_aware_scanner.Containers.OrdMap.{lookup, insert, lookup-insert, or_default}
use execution_aware_scanner.Float.{Float}
use execution_aware_scanner.Attack.DiGraph.{DiGraph, IsDiGraph}
use execution_aware_scanner.Attack.Nodes.{
  AttackGraphConfig, RuntimeNode, RuntimeEdge, process, library, network, vulnerability, node_id,
  dotted,
}
use execution_aware_scanner.Attack.Runtime.{
  RuntimeAttackGraph, new, add_node, add_edge, process_library_load, aggregate_network_event,
  correlate_library, correlate_with_libraries, connect, process_network_event, link_library,
  associate_cve_with_library, drain_updates, is_collapsed, protocol_name, add_connection,
  confidence_of,
}

abbrev pub id_of : {F : Type 0} → Option (RuntimeNode F) → Option Text
id_of none = none
id_of (some n) = some (node_id n)

-- The calls that change a graph.
pub data Call (F : Type 0) : Type 0 where
  loads : ℕ → Text → ℕ → Text → ℕ → Call F
  sends : ℕ → Text → ℕ → NetEvent → Call F
  associates : Text → Text → F → F → Bool → Call F
  drains : Call F

module _ {F G : Type 0} ⦃f : Float F⦄ ⦃g : DiGraph (RuntimeNode F) (RuntimeEdge F) G⦄ where
  -- The identifier of the node at an index, if there is one.
  abbrev pub id_at : ℕ → RuntimeAttackGraph F G → Option Text
  id_at i s = id_of (g.node_weight i s.graph)

  -- An identifier is known exactly under the index of the node that has it.
  abbrev pub IsIndexed : RuntimeAttackGraph F G → Type 0
  IsIndexed s = (id : Text) (i : ℕ) → (lookup id s.node_indices ≡ some i) ↔ (id_at i s ≡ some id)

  unfoldable pub call : RuntimeAttackGraph F G → Call F → RuntimeAttackGraph F G
  call s (loads pid name cgroup_id path time) = process_library_load s pid name cgroup_id path time
  call s (sends pid name cgroup_id event) = process_network_event s pid name cgroup_id event
  call s (associates cve_id package_ cvss epss kev) =
      associate_cve_with_library s cve_id package_ cvss epss kev
  call s drains = (drain_updates s).0

  -- A step that leaves the index and the nodes as they are.
  record Keeps (s t : RuntimeAttackGraph F G) : Type 0 where
    same_index : t.node_indices ≡ s.node_indices
    same_nodes : (i : ℕ) → g.node_weight i t.graph ≡ g.node_weight i s.graph

  Keeps-IsIndexed : (s t : RuntimeAttackGraph F G) → Keeps s t → IsIndexed s → IsIndexed t
  Keeps-IsIndexed s t k v id i = rw (k.same_index, k.same_nodes i) (v id i)

  Keeps-trans : (s t u : RuntimeAttackGraph F G) → Keeps s t → Keeps t u → Keeps s u
  Keeps-trans s t u k l = record {
    same_index = l.same_index ∙ k.same_index;
    same_nodes = λ i. l.same_nodes i ∙ k.same_nodes i;
  }

  Keeps-foldl :
      {A : Type 0} (step : RuntimeAttackGraph F G → A → RuntimeAttackGraph F G)
      → ((s : RuntimeAttackGraph F G) (a : A) → Keeps s (step s a))
      → (s : RuntimeAttackGraph F G) (as' : List A) → Keeps s (foldl step s as')
  Keeps-foldl step k s [] = record { same_index = refl; same_nodes = λ i. refl }
  Keeps-foldl step k s (a ∷ as') =
      Keeps-trans s (step s a) (foldl step (step s a) as') (k s a)
        (Keeps-foldl step k (step s a) as')

  module _ (laws : IsDiGraph (RuntimeNode F) (RuntimeEdge F) G) where
    new-IsIndexed : (config : AttackGraphConfig F) → IsIndexed (new config)
    unfolding new lookup
    new-IsIndexed config id i = ground (arith, laws.node_weight-empty i)

    add_node-IsIndexed :
        (s : RuntimeAttackGraph F G) (node : RuntimeNode F)
        → IsIndexed s
        → IsIndexed (add_node s node).0
    unfolding add_node
    add_node-IsIndexed s node v id i = elim (Option-cases (lookup (node_id node) s.node_indices)) [
      | inr (idx, old) ↦ rw (old, add_node) (v id i)
      | inl new_ ↦ ground (
        arith,
        v id i,
        lookup-insert id (node_id node) (g.add_node node s.graph).1 s.node_indices,
        laws.node_weight-add_node node s.graph i,
        laws.fresh node s.graph,
        =?_sound id (node_id node),
        =?_refl id,
        ==_iff i (g.add_node node s.graph).1,
      )
    ]

    add_edge-Keeps :
        (s : RuntimeAttackGraph F G) (a b : ℕ) (e : RuntimeEdge F) → Keeps s (add_edge s a b e)
    add_edge-Keeps s a b e = record {
      same_index = refl;
      same_nodes = laws.node_weight-add_edge a b e s.graph;
    }

    correlate_library-Keeps :
        (net_idx : ℕ) (event : NetEvent) (confidence : F) (s : RuntimeAttackGraph F G)
        (lib : Text × ℕ)
        → Keeps s (correlate_library net_idx event confidence s lib)
    unfolding correlate_library
    correlate_library-Keeps net_idx event confidence s (lib_path, load_time) = record {
      same_index = ground arith;
      same_nodes = λ i. grind (arith, laws.node_weight-add_edge);
    }

    link_library-Keeps :
        (vuln_idx : ℕ) (package_ : Text) (s : RuntimeAttackGraph F G) (idx : ℕ)
        → Keeps s (link_library vuln_idx package_ s idx)
    unfolding link_library
    link_library-Keeps vuln_idx package_ s idx = record {
      same_index = ground arith;
      same_nodes = λ i. grind (arith, laws.node_weight-add_edge);
    }

    aggregate_network_event-Keeps :
        (s : RuntimeAttackGraph F G) (pid : ℕ) (event : NetEvent)
        → Keeps s (aggregate_network_event s pid event)
    unfolding aggregate_network_event
    aggregate_network_event-Keeps s pid event = record {
      same_index = ground arith;
      same_nodes = λ i. grind (arith, laws.node_weight-set_weight);
    }

    process_library_load-IsIndexed :
        (s : RuntimeAttackGraph F G) (pid : ℕ) (process_name : Text) (cgroup_id : ℕ)
        (lib_path : Text) (time : ℕ)
        → IsIndexed s
        → IsIndexed (process_library_load s pid process_name cgroup_id lib_path time)
    unfolding process_library_load
    process_library_load-IsIndexed s pid process_name cgroup_id lib_path time v =
        let s1 = (add_node s (process pid process_name cgroup_id)).0 in
        let s2 = (add_node s1 (library lib_path [])).0 in
        let v2 =
          add_node-IsIndexed s1 (library lib_path [])
            (add_node-IsIndexed s (process pid process_name cgroup_id) v) in
        Keeps-IsIndexed s2 _ (add_edge-Keeps s2 _ _ _) v2

    add_connection-IsIndexed :
        (s : RuntimeAttackGraph F G) (pid : ℕ) (process_name : Text) (cgroup_id : ℕ)
        (event : NetEvent)
        → IsIndexed s
        → IsIndexed (add_connection s pid process_name cgroup_id event).0
    unfolding add_connection
    add_connection-IsIndexed s pid process_name cgroup_id event v =
        let s0 : RuntimeAttackGraph F G = record s {
          last_network_update = insert (pid, event.dport) event.timestamp_ns s.last_network_update;
        } in
        let n1 = process pid process_name cgroup_id in
        let n2 = network (dotted event.daddr) event.dport (protocol_name event.kind) in
        let s1 = (add_node s0 n1).0 in
        let s2 = (add_node s1 n2).0 in
        let v2 = add_node-IsIndexed s1 n2 (add_node-IsIndexed s0 n1 v) in
        Keeps-IsIndexed s2 _ (add_edge-Keeps s2 _ _ _) v2

    connect-IsIndexed :
        (s : RuntimeAttackGraph F G) (pid : ℕ) (process_name : Text) (cgroup_id : ℕ)
        (event : NetEvent)
        → IsIndexed s
        → IsIndexed (connect s pid process_name cgroup_id event)
    unfolding connect correlate_with_libraries
    connect-IsIndexed s pid process_name cgroup_id event v =
        let (s3, net_idx) = add_connection s pid process_name cgroup_id event in
        let correlate = correlate_library net_idx event (confidence_of s event) in
        let libs = or_default [] (lookup pid s3.process_libraries) in
        Keeps-IsIndexed s3 (foldl correlate s3 libs)
          (Keeps-foldl correlate (correlate_library-Keeps net_idx event (confidence_of s event)) s3
            libs)
          (add_connection-IsIndexed s pid process_name cgroup_id event v)

    process_network_event-IsIndexed :
        (s : RuntimeAttackGraph F G) (pid : ℕ) (process_name : Text) (cgroup_id : ℕ)
        (event : NetEvent)
        → IsIndexed s
        → IsIndexed (process_network_event s pid process_name cgroup_id event)
    unfolding process_network_event
    process_network_event-IsIndexed s pid process_name cgroup_id event v =
        elim (Bool-cases (is_collapsed s pid event)) [
          | inl within ↦
              rw within (Keeps-IsIndexed s _ (aggregate_network_event-Keeps s pid event) v)
          | inr apart ↦ rw apart (connect-IsIndexed s pid process_name cgroup_id event v)
        ]

    associate_cve_with_library-IsIndexed :
        (s : RuntimeAttackGraph F G) (cve_id package_ : Text) (cvss epss : F) (kev : Bool)
        → IsIndexed s
        → IsIndexed (associate_cve_with_library s cve_id package_ cvss epss kev)
    unfolding associate_cve_with_library
    associate_cve_with_library-IsIndexed s cve_id package_ cvss epss kev v =
        let node =
          vulnerability (record {
            cve_id = cve_id;
            package_ = package_;
            cvss = cvss;
            epss = epss;
            kev = kev;
          }) in
        let s1 = (add_node s node).0 in
        Keeps-IsIndexed s1 _
          (Keeps-foldl (link_library (add_node s node).1 package_)
            (link_library-Keeps (add_node s node).1 package_) s1 (g.node_indices s1.graph))
          (add_node-IsIndexed s node v)

    call-IsIndexed : (s : RuntimeAttackGraph F G) (c : Call F) → IsIndexed s → IsIndexed (call s c)
    unfolding call
    call-IsIndexed s (loads pid name cgroup_id path time) v =
        process_library_load-IsIndexed s pid name cgroup_id path time v
    call-IsIndexed s (sends pid name cgroup_id event) v =
        process_network_event-IsIndexed s pid name cgroup_id event v
    call-IsIndexed s (associates cve_id package_ cvss epss kev) v =
        associate_cve_with_library-IsIndexed s cve_id package_ cvss epss kev v
    call-IsIndexed s drains v = v

    run-IsIndexed :
        (s : RuntimeAttackGraph F G) (cs : List (Call F))
        → IsIndexed s
        → IsIndexed (foldl call s cs)
    run-IsIndexed s [] v = v
    run-IsIndexed s (c ∷ cs) v = run-IsIndexed (call s c) cs (call-IsIndexed s c v)

    -- Whatever has happened to a new graph, two indices whose nodes have the same identifier are the
    -- same index, and it is the one that a look-up of the identifier gives.
    pub one_node_per_id :
        (config : AttackGraphConfig F) (cs : List (Call F)) (id : Text) (i j : ℕ)
        → id_at i (foldl call (new config) cs) ≡ some id
        → id_at j (foldl call (new config) cs) ≡ some id
        → (i ≡ j) × (lookup id (foldl call (new config) cs).node_indices ≡ some i)
    one_node_per_id config cs id i j hi hj =
        let v = run-IsIndexed (new config) cs (new-IsIndexed config) in
        let same : some i ≡ some j = sym ((v id i).1 hi) ∙ (v id j).1 hj in
        (ground arith, (v id i).1 hi)
