-- ===== src/Attack/Paths/Enforceable.antt =====
-- What must be in the graph of scanner-agent/src/runtime_attack_graph_v2.rs for a path to be enforced.
use execution_aware_scanner.Prelude.{
  ℕ, ◌≡◌, refl, ◌≤◌, Bool, true, false, ◌&&◌, none, some, List, [], ◌∷◌, arith, foldl, length, All,
  All-append, any, Bool-cases, Option-cases, inl, inr,
}
use execution_aware_scanner.Text.{Text, codes}
use execution_aware_scanner.Common.Finding.{Finding}
use execution_aware_scanner.Containers.Order.{text_ord, =?_refl}
use execution_aware_scanner.Containers.OrdSet.{insert, insert_all, contains, place}
use execution_aware_scanner.Containers.OrdMap.{lookup}
use execution_aware_scanner.Float.{Float}
use execution_aware_scanner.Attack.DiGraph.{DiGraph}
use execution_aware_scanner.Attack.Nodes.{
  RuntimeNode, RuntimeEdge, is_library_loaded, is_vulnerable, vulnerability_id,
  meets_enforcement_criteria,
}
use execution_aware_scanner.Attack.Runtime.{RuntimeAttackGraph}
use execution_aware_scanner.Attack.Paths.{
  PathParts, push_library, visit_process, visit_library, first_parts, collect_parts,
  build_path_for_finding,
}

abbrev AllAre : Text → List Text → Type 0
AllAre t = All (λ (u : Text). u ≡ t)

insert_same : (t : Text) → insert t (t ∷ []) ≡ t ∷ []
unfolding insert contains
insert_same t = ground (arith, =?_refl t)

insert_all_same : (t : Text) (us : List Text) → AllAre t us → insert_all us (t ∷ []) ≡ t ∷ []
unfolding insert_all
insert_all_same t [] h = refl
insert_all_same t (u ∷ us) h = rw (h.0, insert_same t) (insert_all_same t us h.1)

-- A set of equal texts has at most one element.
length-insert_all_same : (t : Text) (us : List Text) → AllAre t us → length (insert_all us []) ≤ 1
unfolding insert_all insert contains place
length-insert_all_same t [] h = omega arith
length-insert_all_same t (u ∷ us) h = rw h.0 (rw (insert_all_same t us h.1) (omega arith))

module _ {F : Type 0} where
  -- Some process has loaded the library, to which these edges lead.
  abbrev pub is_loaded : List (ℕ × RuntimeEdge F) → Bool
  is_loaded = any (λ (e : ℕ × RuntimeEdge F). is_library_loaded e.1)

  abbrev OnlyVulnerable : PathParts F → Type 0
  OnlyVulnerable p = AllAre (codes "vulnerability") p.signal_types

module _ {F G : Type 0} ⦃f : Float F⦄ ⦃g : DiGraph (RuntimeNode F) (RuntimeEdge F) G⦄ where
  abbrev loaded_library : G → List (ℕ × RuntimeEdge F) → Bool
  loaded_library x =
      any (λ (e : ℕ × RuntimeEdge F). is_vulnerable e.1 && is_loaded (g.incoming e.0 x))

  -- The CVE is in the graph, with an edge to a library that some process has loaded.
  abbrev pub has_loaded_library : RuntimeAttackGraph F G → Text → Bool
  has_loaded_library s cve_id = elim (lookup (vulnerability_id cve_id) s.node_indices) [
    | none ↦ false
    | some vuln_idx ↦ loaded_library s.graph (g.edges vuln_idx s.graph)
  ]

  visit_process-none :
      (x : G) (p : PathParts F) (es : List (ℕ × RuntimeEdge F))
      → any (λ (e : ℕ × RuntimeEdge F). is_library_loaded e.1) es ≡ false
      → foldl (visit_process x) p es ≡ p
  unfolding visit_process
  visit_process-none x p [] h = refl
  visit_process-none x p ((i, e) ∷ es) h = ground (arith, visit_process-none x p es)

  visit_library-OnlyVulnerable :
      (x : G) (p : PathParts F) (e : ℕ × RuntimeEdge F)
      → (is_vulnerable e.1 && is_loaded (g.incoming e.0 x)) ≡ false
      → OnlyVulnerable p
      → OnlyVulnerable (visit_library x p e)
  unfolding visit_library
  visit_library-OnlyVulnerable x p (lib_idx, e) h v = elim (Bool-cases (is_vulnerable e)) [
    | inr other ↦ rw other v
    | inl is ↦ elim (Option-cases (g.node_weight lib_idx x)) [
      | inl absent ↦ rw (is, absent) v
      | inr (node, there) ↦
          rw (is, there)
            (rw (visit_process-none x (push_library p node) (g.incoming lib_idx x) (ground arith))
              (All-append _ p.signal_types _ v (refl, tt)))
    ]
  ]

  visit_libraries-OnlyVulnerable :
      (x : G) (p : PathParts F) (es : List (ℕ × RuntimeEdge F))
      → loaded_library x es ≡ false
      → OnlyVulnerable p
      → OnlyVulnerable (foldl (visit_library x) p es)
  visit_libraries-OnlyVulnerable x p [] h v = v
  visit_libraries-OnlyVulnerable x p (e ∷ es) h v =
      visit_libraries-OnlyVulnerable x (visit_library x p e) es (ground arith)
        (visit_library-OnlyVulnerable x p e (ground arith) v)

  collect_parts-OnlyVulnerable :
      (s : RuntimeAttackGraph F G) (finding : Finding F)
      → has_loaded_library s finding.signal.cve ≡ false
      → OnlyVulnerable (collect_parts s finding)
  unfolding collect_parts
  collect_parts-OnlyVulnerable s finding h =
      elim (Option-cases (lookup (vulnerability_id finding.signal.cve) s.node_indices)) [
        | inl absent ↦ rw (absent, collect_parts) tt
        | inr (vuln_idx, there) ↦
            rw (there, collect_parts)
              (visit_libraries-OnlyVulnerable s.graph (first_parts finding)
                (g.edges vuln_idx s.graph) (ground arith) tt)
      ]

  -- A path that may be enforced is one of a CVE that is in the graph with an edge to a library that
  -- some process has loaded.
  pub enforceable_is_loaded :
      (s : RuntimeAttackGraph F G) (finding : Finding F) (uuid : Text)
      → meets_enforcement_criteria (build_path_for_finding s finding uuid) s.config ≡ true
      → has_loaded_library s finding.signal.cve ≡ true
  unfolding build_path_for_finding meets_enforcement_criteria
  enforceable_is_loaded s finding uuid h =
      elim (Bool-cases (has_loaded_library s finding.signal.cve)) [
        | inl loaded ↦ loaded
        | inr never ↦
            let few =
              length-insert_all_same (codes "vulnerability") (collect_parts s finding).signal_types
                (collect_parts-OnlyVulnerable s finding never) in
            ground (arith, few)
      ]
