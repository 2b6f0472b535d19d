-- ===== src/Attack/Paths.antt =====
-- The attack paths of scanner-agent/src/runtime_attack_graph_v2.rs: how the path of a finding is
-- collected from the graph, and how the best ones are chosen.
pub mod Shape
pub mod Enforceable
use execution_aware_scanner.Prelude.{
  ℕ, ◌+◌, ◌-◌, ◌%◌, Bool, true, false, not, ◌&&◌, Option, none, some, List, [], ◌∷◌, ◌++◌, ltb, leb,
  ◌==◌, foldl, map, length, any, keep, count_if, if◌then◌else◌,
}
use execution_aware_scanner.Text.{Text, codes, decimal}
use execution_aware_scanner.Clock.{u64_mod}
use execution_aware_scanner.Common.Finding.{Finding, RuntimeDisposition, reachable}
use execution_aware_scanner.Containers.Order.{text_ord, ◌=?◌}
use execution_aware_scanner.Containers.OrdSet.{insert_all}
use execution_aware_scanner.Containers.OrdMap.{OrdMap, lookup}
use execution_aware_scanner.Float.{Float, lit, ◌⊕◌, ◌⊖◌, ◌⊗◌, ◌≤?◌, min, clamp}
use execution_aware_scanner.Attack.DiGraph.{DiGraph}
use execution_aware_scanner.Attack.Nodes.{
  RuntimeNode, vulnerability, RuntimeEdge, library_loaded, vulnerable, network_connection,
  AttackPath, AttackGraphConfig, node_id, vulnerability_id, is_library_loaded, is_vulnerable,
  is_network, edge_bytes, meets_enforcement_criteria,
}
use execution_aware_scanner.Attack.Runtime.{RuntimeAttackGraph}

-- What `build_path_for_finding` collects.
pub record PathParts (F : Type 0) : Type 0 where
  pub nodes : List (RuntimeNode F)
  pub edges : List (ℕ × ℕ × RuntimeEdge F)
  pub indicators : List Text
  pub signal_types : List Text
  pub total_bytes : ℕ

abbrev pub is_reachable : RuntimeDisposition → Bool
is_reachable reachable = true
is_reachable _ = false

module _ {F : Type 0} where
  abbrev pub has_node : RuntimeNode F → List (RuntimeNode F) → Bool
  has_node node = any (λ (n : RuntimeNode F). node_id n =? node_id node)

  -- A node behind the others, with an edge from the node of that position to it
  abbrev pub push : PathParts F → ℕ → RuntimeNode F → RuntimeEdge F → Text → PathParts F
  push p from node e signal_type = record p {
    nodes = p.nodes ++ node ∷ [];
    edges = p.edges ++ (from, length p.nodes, e) ∷ [];
    signal_types = p.signal_types ++ signal_type ∷ [];
  }

  -- An edge of a process to an address
  unfoldable pub push_network : PathParts F → RuntimeNode F → RuntimeEdge F → PathParts F
  push_network p node e =
      let q = push p (length p.nodes - 1) node e (codes "network") in
      record q {
        total_bytes = (p.total_bytes + edge_bytes e) % u64_mod;
        indicators =
            p.indicators
            ++ (codes "Network: " ++ decimal (edge_bytes e) ++ codes " bytes to " ++ node_id node)
              ∷ [];
      }

  unfoldable pub push_process : PathParts F → RuntimeNode F → RuntimeEdge F → PathParts F
  push_process p node e =
      if has_node node p.nodes
      then p
      else push p (length p.nodes - 1) node e (codes "library_loaded")

  unfoldable pub push_library : ⦃f : Float F⦄ → PathParts F → RuntimeNode F → PathParts F
  push_library p node =
      let q = push p 0 node (vulnerable (lit 95)) (codes "vulnerability") in
      record q { indicators = p.indicators ++ (codes "Vulnerable library: " ++ node_id node) ∷ [] }

  abbrev pub first_node : Finding F → RuntimeNode F
  first_node finding = vulnerability (record {
    cve_id = finding.signal.cve;
    package_ = finding.signal.package_;
    cvss = finding.signal.cvss;
    epss = finding.signal.epss;
    kev = finding.signal.kev;
  })

  abbrev pub first_parts : Finding F → PathParts F
  first_parts finding = record {
    nodes = first_node finding ∷ [];
    edges = [];
    indicators = [];
    signal_types = [];
    total_bytes = 0;
  }

module _ {F : Type 0} ⦃f : Float F⦄ where
  -- A connection of a confidence of at least 0.9
  abbrev pub is_strong : RuntimeEdge F → Bool
  is_strong (network_connection time total_bytes event_count confidence) = lit 90 ≤? confidence
  is_strong _ = false

  abbrev any_edge : (RuntimeEdge F → Bool) → List (ℕ × ℕ × RuntimeEdge F) → Bool
  any_edge p = any (λ (e : ℕ × ℕ × RuntimeEdge F). p e.2)

  abbrev pub depth_boost : ℕ → F → F
  depth_boost n c = if leb 4 n then c ⊕ lit 20 else if leb 3 n then c ⊕ lit 10 else c

  abbrev pub weak_penalty : List (ℕ × ℕ × RuntimeEdge F) → F → F
  weak_penalty [] c = c
  weak_penalty edges c = if any_edge is_strong edges then c else c ⊖ lit 10

  unfoldable pub calculate_path_confidence :
      List (RuntimeNode F) → List (ℕ × ℕ × RuntimeEdge F) → Finding F → F
  calculate_path_confidence nodes edges finding =
      let c1 = depth_boost (length nodes) (lit 0 ⊕ lit 30) in
      let c2 =
        if any_edge is_library_loaded edges && any_edge is_network edges then c1 ⊕ lit 20 else c1 in
      let c3 = if finding.signal.kev then c2 ⊕ lit 15 else c2 in
      let c4 = if lit 70 ≤? finding.signal.epss then c3 ⊕ lit 10 else c3 in
      let c5 = if ltb (length nodes) 3 then c4 ⊖ lit 20 else c4 in
      clamp (weak_penalty edges c5) (lit 0) (lit 100)

module _ {F G : Type 0} ⦃f : Float F⦄ ⦃g : DiGraph (RuntimeNode F) (RuntimeEdge F) G⦄ where
  -- One round of the innermost loop
  unfoldable pub visit_network : G → PathParts F → ℕ × RuntimeEdge F → PathParts F
  unfolding push_network
  visit_network x p (net_idx, e) =
      if is_network e
      then elim (g.node_weight net_idx x) [ none ↦ p | some node ↦ push_network p node e ]
      else p

  -- One round of the loop over the processes that have loaded a library
  unfoldable pub visit_process : G → PathParts F → ℕ × RuntimeEdge F → PathParts F
  unfolding visit_network push_process
  visit_process x p (proc_idx, e) =
      if is_library_loaded e
      then elim (g.node_weight proc_idx x) [
        | none ↦ p
        | some node ↦ foldl (visit_network x) (push_process p node e) (g.edges proc_idx x)
      ]
      else p

  -- One round of the outer loop
  unfoldable pub visit_library : G → PathParts F → ℕ × RuntimeEdge F → PathParts F
  unfolding visit_process push_library
  visit_library x p (lib_idx, e) =
      if is_vulnerable e
      then elim (g.node_weight lib_idx x) [
        | none ↦ p
        | some node ↦ foldl (visit_process x) (push_library p node) (g.incoming lib_idx x)
      ]
      else p

  -- All three loops
  unfoldable pub collect_parts : RuntimeAttackGraph F G → Finding F → PathParts F
  unfolding visit_library
  collect_parts s finding = elim (lookup (vulnerability_id finding.signal.cve) s.node_indices) [
    | none ↦ first_parts finding
    | some vuln_idx ↦ foldl (visit_library s.graph) (first_parts finding) (g.edges vuln_idx s.graph)
  ]

  -- With the random part of the path's identifier
  unfoldable pub build_path_for_finding : RuntimeAttackGraph F G → Finding F → Text → AttackPath F
  unfolding collect_parts calculate_path_confidence
  build_path_for_finding s finding uuid =
      let p = collect_parts s finding in
      record {
        path_id = codes "path-" ++ uuid;
        nodes = p.nodes;
        edges = p.edges;
        confidence = calculate_path_confidence p.nodes p.edges finding;
        risk_score = finding.score ⊗ min (f.of_nat (length p.nodes) ⊗ lit 20) (lit 100);
        time_window_secs = s.config.mmap_window_secs;
        indicators = p.indicators;
        depth = length p.nodes;
        signal_types = insert_all p.signal_types [];
        total_bytes = p.total_bytes;
        rank = none;
      }

  -- Each finding with the random part of the identifier of its path
  abbrev pub reachable_paths :
      RuntimeAttackGraph F G → List (Finding F × Text) → List (AttackPath F)
  reachable_paths s findings =
      map (λ (x : Finding F × Text). build_path_for_finding s x.0 x.1)
        (keep (λ (x : Finding F × Text). is_reachable x.0.signal.runtime) findings)

  unfoldable pub get_enforceable_paths :
      RuntimeAttackGraph F G → List (Finding F × Text) → List (AttackPath F)
  unfolding build_path_for_finding
  get_enforceable_paths s findings =
      keep (λ (p : AttackPath F). meets_enforcement_criteria p s.config)
        (reachable_paths s findings)
