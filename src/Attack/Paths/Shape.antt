-- ===== src/Attack/Paths/Shape.antt =====
-- The shape of the paths of scanner-agent/src/runtime_attack_graph_v2.rs.
use execution_aware_scanner.Prelude.{
  ℕ, ◌+◌, ◌-◌, ◌≡◌, refl, ap, ◌∙◌, true, List, [], ◌∷◌, ◌++◌, inl, inr, arith, length,
  length-append, foldl_keeps, Bool-cases, Option-cases,
}
use execution_aware_scanner.Text.{Text, codes}
use execution_aware_scanner.Common.Finding.{Finding}
use execution_aware_scanner.Containers.Order.{text_ord}
use execution_aware_scanner.Containers.OrdMap.{lookup}
use execution_aware_scanner.Float.{Float, lit}
use execution_aware_scanner.Attack.DiGraph.{DiGraph}
use execution_aware_scanner.Attack.Nodes.{
  RuntimeNode, RuntimeEdge, vulnerable, process_created, library_loaded, network_connection,
  exploitation_attempt, uses_technique, is_network, is_library_loaded, is_vulnerable, edge_bytes,
  vulnerability_id,
}
use execution_aware_scanner.Attack.Runtime.{RuntimeAttackGraph}
use execution_aware_scanner.Attack.Runtime.Traffic.{bytes_on, bytes_on-append, bytes_on_lt}
use execution_aware_scanner.Attack.Paths.{
  PathParts, push, push_network, push_process, push_library, visit_network, visit_process,
  visit_library, has_node, first_parts, collect_parts, build_path_for_finding,
}

-- Where the edge that is recorded as the i-th starts: the vulnerability of a library is an edge from
-- the first node, all else from the node that was put in just before it.
abbrev pub origin : {F : Type 0} → RuntimeEdge F → ℕ → ℕ
origin (vulnerable confidence) i = 0
origin (process_created time confidence) i = i
origin (library_loaded time confidence) i = i
origin (network_connection time total_bytes event_count confidence) i = i
origin (exploitation_attempt confidence details) i = i
origin (uses_technique confidence) i = i

-- The edges from the i-th on, each of which leads to the node at the position behind its own
abbrev pub IsChained : {F : Type 0} → ℕ → List (ℕ × ℕ × RuntimeEdge F) → Type 0
IsChained i [] = Unit
IsChained i ((a, b, e) ∷ es) = (a ≡ origin e i) × (b ≡ i + 1) × IsChained (i + 1) es

module _ {F : Type 0} where
  IsChained-append :
      (i : ℕ) (es : List (ℕ × ℕ × RuntimeEdge F)) (a : ℕ) (e : RuntimeEdge F)
      → IsChained i es
      → a ≡ origin e (i + length es)
      → IsChained i (es ++ (a, i + length es + 1, e) ∷ [])
  IsChained-append i [] a e h k =
      let here : i + 0 ≡ i = omega arith in (k ∙ ap (origin e) here, omega arith, tt)
  IsChained-append i ((a', b, e') ∷ es) a e h k =
      let shift : i + length ((a', b, e') ∷ es) ≡ i + 1 + length es = omega arith in
      (h.0, h.1, rw shift (IsChained-append (i + 1) es a e h.2 (rw shift at k)))

  pub record IsShaped (p : PathParts F) : Type 0 where
    pub one_more : length p.nodes ≡ length p.edges + 1
    pub chained : IsChained 0 p.edges
    pub counted : p.total_bytes ≡ bytes_on p.edges
    pub signalled : length p.signal_types ≡ length p.edges

  push-IsChained :
      (p : PathParts F) (from : ℕ) (node : RuntimeNode F) (e : RuntimeEdge F) (t : Text)
      → IsShaped p
      → from ≡ origin e (length p.edges)
      → IsChained 0 (push p from node e t).edges
  push-IsChained p from node e t v k =
      let last : length p.nodes ≡ 0 + length p.edges + 1 = omega (arith, v.one_more) in
      let here : length p.edges ≡ 0 + length p.edges = omega arith in
      rw last (IsChained-append 0 p.edges from e v.chained (k ∙ ap (origin e) here))

  push_network-IsShaped :
      (p : PathParts F) (node : RuntimeNode F) (e : RuntimeEdge F)
      → is_network e ≡ true
      → IsShaped p
      → IsShaped (push_network p node e)
  unfolding push_network
  push_network-IsShaped p node e is v = record {
    one_more = omega (arith, v.one_more, length-append {0}, length-append {0});
    chained =
        push-IsChained p (length p.nodes - 1) node e (codes "network") v
          (ground (arith, v.one_more));
    counted =
        omega (arith, v.counted, bytes_on-append p.edges (length p.nodes - 1) (length p.nodes) e);
    signalled = omega (arith, v.signalled, length-append {0});
  }

  edge_bytes_loaded : (e : RuntimeEdge F) → is_library_loaded e ≡ true → edge_bytes e ≡ 0
  edge_bytes_loaded e is = ground (arith, is)

  push_process-IsShaped :
      (p : PathParts F) (node : RuntimeNode F) (e : RuntimeEdge F)
      → is_library_loaded e ≡ true
      → IsShaped p
      → IsShaped (push_process p node e)
  unfolding push_process
  push_process-IsShaped p node e is v = elim (Bool-cases (has_node node p.nodes)) [
    | inl known ↦ rw known v
    | inr new_ ↦ rw new_ (record {
      one_more = omega (arith, v.one_more, length-append {0}, length-append {0});
      chained =
          push-IsChained p (length p.nodes - 1) node e (codes "library_loaded") v
            (ground (arith, v.one_more, is));
      counted = omega (
        arith,
        v.counted,
        edge_bytes_loaded e is,
        bytes_on_lt p.edges,
        bytes_on-append p.edges (length p.nodes - 1) (length p.nodes) e,
      );
      signalled = omega (arith, v.signalled, length-append {0});
    })
  ]

  push_library-IsShaped :
      ⦃f : Float F⦄ (p : PathParts F) (node : RuntimeNode F)
      → IsShaped p
      → IsShaped (push_library p node)
  unfolding push_library
  push_library-IsShaped p node v = record {
    one_more = omega (arith, v.one_more, length-append {0}, length-append {0});
    chained = push-IsChained p 0 node (vulnerable (lit 95)) (codes "vulnerability") v refl;
    counted = omega (
      arith,
      v.counted,
      bytes_on_lt p.edges,
      bytes_on-append p.edges 0 (length p.nodes) (vulnerable (lit 95)),
    );
    signalled = omega (arith, v.signalled, length-append {0});
  }

  first_parts-IsShaped : (finding : Finding F) → IsShaped (first_parts finding)
  first_parts-IsShaped finding = record {
    one_more = refl;
    chained = tt;
    counted = refl;
    signalled = refl;
  }

module _ {F G : Type 0} ⦃f : Float F⦄ ⦃g : DiGraph (RuntimeNode F) (RuntimeEdge F) G⦄ where
  visit_network-IsShaped :
      (x : G) (p : PathParts F) (e : ℕ × RuntimeEdge F)
      → IsShaped p
      → IsShaped (visit_network x p e)
  unfolding visit_network
  visit_network-IsShaped x p (net_idx, e) v = elim (Bool-cases (is_network e)) [
    | inr other ↦ rw other v
    | inl is ↦ elim (Option-cases (g.node_weight net_idx x)) [
      | inl absent ↦ rw (is, absent) v
      | inr (node, there) ↦ rw (is, there) (push_network-IsShaped p node e is v)
    ]
  ]

  visit_process-IsShaped :
      (x : G) (p : PathParts F) (e : ℕ × RuntimeEdge F)
      → IsShaped p
      → IsShaped (visit_process x p e)
  unfolding visit_process
  visit_process-IsShaped x p (proc_idx, e) v = elim (Bool-cases (is_library_loaded e)) [
    | inr other ↦ rw other v
    | inl is ↦ elim (Option-cases (g.node_weight proc_idx x)) [
      | inl absent ↦ rw (is, absent) v
      | inr (node, there) ↦
          rw (is, there)
            (foldl_keeps IsShaped (visit_network x) (visit_network-IsShaped x)
              (push_process p node e) (g.edges proc_idx x) (push_process-IsShaped p node e is v))
    ]
  ]

  visit_library-IsShaped :
      (x : G) (p : PathParts F) (e : ℕ × RuntimeEdge F)
      → IsShaped p
      → IsShaped (visit_library x p e)
  unfolding visit_library
  visit_library-IsShaped x p (lib_idx, e) v = elim (Bool-cases (is_vulnerable e)) [
    | inr other ↦ rw other v
    | inl is ↦ elim (Option-cases (g.node_weight lib_idx x)) [
      | inl absent ↦ rw (is, absent) v
      | inr (node, there) ↦
          rw (is, there)
            (foldl_keeps IsShaped (visit_process x) (visit_process-IsShaped x) (push_library p node)
              (g.incoming lib_idx x) (push_library-IsShaped p node v))
    ]
  ]

  pub collect_parts-IsShaped :
      (s : RuntimeAttackGraph F G) (finding : Finding F) → IsShaped (collect_parts s finding)
  unfolding collect_parts
  collect_parts-IsShaped s finding =
      elim (Option-cases (lookup (vulnerability_id finding.signal.cve) s.node_indices)) [
        | inl absent ↦ rw (absent, collect_parts) (first_parts-IsShaped finding)
        | inr (vuln_idx, there) ↦
            rw (there, collect_parts)
              (foldl_keeps IsShaped (visit_library s.graph) (visit_library-IsShaped s.graph)
                (first_parts finding) (g.edges vuln_idx s.graph) (first_parts-IsShaped finding))
      ]

  -- The path of a finding, whatever the graph holds: its depth is the number of its nodes, one more
  -- than that of its edges; each edge leads to the node that was put in with it, the edge to a
  -- vulnerable library from the first node and every other one from the node that was put in just
  -- before, so that of two connections recorded one after the other the second starts at the address
  -- of the first; and the total is that of the bytes on its edges, as a `u64` counts them.
  pub path_shape :
      (s : RuntimeAttackGraph F G) (finding : Finding F) (uuid : Text)
      → let p = build_path_for_finding s finding uuid in
        (p.depth ≡ length p.nodes)
        × (length p.nodes ≡ length p.edges + 1)
        × IsChained 0 p.edges
        × (p.total_bytes ≡ bytes_on p.edges)
  unfolding build_path_for_finding
  path_shape s finding uuid =
      let v = collect_parts-IsShaped s finding in (refl, v.one_more, v.chained, v.counted)
