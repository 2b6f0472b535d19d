-- ===== src/Attack/Attach.antt =====
-- `attach_attack_paths_to_findings` of scanner-agent/src/runtime_attack_graph_v2.rs.
use execution_aware_scanner.Prelude.{
  ℕ, ◌≡◌, refl, Option, none, some, List, [], ◌∷◌, ◌++◌, foldl, map, arith, if◌then◌else◌,
  Option-cases, inl, inr, ◌∙◌, ap,
}
use execution_aware_scanner.Text.{Text, codes, decimal}
use execution_aware_scanner.Common.Finding.{Finding}
use execution_aware_scanner.Containers.Order.{text_ord, ◌=?◌}
use execution_aware_scanner.Containers.OrdMap.{OrdMap, lookup, insert, lookup-insert}
use execution_aware_scanner.Float.{Float}
use execution_aware_scanner.Attack.DiGraph.{DiGraph}
use execution_aware_scanner.Attack.Nodes.{
  RuntimeNode, vulnerability, RuntimeEdge, AttackPath, to_summary,
}
use execution_aware_scanner.Attack.Runtime.{RuntimeAttackGraph}
use execution_aware_scanner.Attack.Ranking.{TotalCmp, build_attack_paths}

-- `{:?}` of a rank
abbrev pub debug_rank : Option ℕ → Text
debug_rank none = codes "None"
debug_rank (some n) = codes "Some(" ++ decimal n ++ codes ")"

module _ {F : Type 0} where
  -- The CVE of the first vulnerability among the nodes
  abbrev pub cve_of : List (RuntimeNode F) → Option Text
  cve_of [] = none
  cve_of (vulnerability v ∷ ns) = some v.cve_id
  cve_of (n ∷ ns) = cve_of ns

  abbrev insert_path : OrdMap Text (AttackPath F) → AttackPath F → OrdMap Text (AttackPath F)
  insert_path m p = elim (cve_of p.nodes) [ none ↦ m | some cve ↦ insert cve p m ]

  -- The paths by CVE: a later one takes the place of an earlier one.
  unfoldable pub paths_by_cve : List (AttackPath F) → OrdMap Text (AttackPath F)
  paths_by_cve = foldl insert_path []

  -- `plain` prints a float with `{}`.
  unfoldable pub attach : (F → Text) → AttackPath F → Finding F → Finding F
  attach plain path finding =
      let summary = to_summary path in
      record finding {
        explainability = record finding.explainability {
          signals =
              finding.explainability.signals
              ++ map
                  (λ (i : Text). record {
                    signal_type = codes "attack_path";
                    timestamp_ns = 0;
                    details = i;
                    confidence = path.confidence;
                  })
                  path.indicators;
          decision =
              finding.explainability.decision
              ++ codes " + Attack Path (depth="
              ++ decimal summary.depth
              ++ codes ", confidence="
              ++ plain summary.confidence
              ++ codes ", rank="
              ++ debug_rank summary.rank
              ++ codes ")";
        };
      }

  abbrev attach_known : (F → Text) → OrdMap Text (AttackPath F) → Finding F → Finding F
  attach_known plain m finding = elim (lookup finding.signal.cve m) [
    | none ↦ finding
    | some path ↦ attach plain path finding
  ]

module _ {F G : Type 0} ⦃f : Float F⦄ ⦃t : TotalCmp F⦄
    ⦃g : DiGraph (RuntimeNode F) (RuntimeEdge F) G⦄ where
  -- The findings come with the random parts of the identifiers of their paths.
  unfoldable pub attach_attack_paths_to_findings :
      (F → Text)
      → List (Finding F × Text)
      → RuntimeAttackGraph F G
      → List (Finding F) × RuntimeAttackGraph F G
  unfolding paths_by_cve attach
  attach_attack_paths_to_findings plain findings s =
      let (s', paths) = build_attack_paths s findings in
      (map (λ (x : Finding F × Text). attach_known plain (paths_by_cve paths) x.0) findings, s')

module _ {F : Type 0} where
  -- The path, if it is one of the CVE, or what was found before.
  abbrev pick : Text → Option (AttackPath F) → AttackPath F → Option (AttackPath F)
  pick cve found p = elim (cve_of p.nodes) [
    | none ↦ found
    | some own ↦ if cve =? own then some p else found
  ]

  -- The last of the paths that is one of the CVE.
  abbrev pub last_path : Text → List (AttackPath F) → Option (AttackPath F)
  last_path cve = foldl (pick cve) none

  lookup-insert_path :
      (cve : Text) (m : OrdMap Text (AttackPath F)) (p : AttackPath F)
      → lookup cve (insert_path m p) ≡ pick cve (lookup cve m) p
  lookup-insert_path cve m p = elim (Option-cases (cve_of p.nodes)) [
    | inl other ↦ rw (other, insert_path, pick)
    | inr (own, is) ↦ rw (is, insert_path, pick) (lookup-insert cve own p m)
  ]

  lookup-foldl :
      (cve : Text) (ps : List (AttackPath F)) (m : OrdMap Text (AttackPath F))
      → lookup cve (foldl insert_path m ps) ≡ foldl (pick cve) (lookup cve m) ps
  lookup-foldl cve [] m = refl
  lookup-foldl cve (p ∷ ps) m =
      lookup-foldl cve ps (insert_path m p)
      ∙ ap (λ found. foldl (pick cve) found ps) (lookup-insert_path cve m p)

  lookup-paths_by_cve :
      (cve : Text) (ps : List (AttackPath F)) → lookup cve (paths_by_cve ps) ≡ last_path cve ps
  unfolding paths_by_cve lookup
  lookup-paths_by_cve cve ps = lookup-foldl cve ps []

  -- The finding with the path attached, if there is one
  abbrev pub attach_some : (F → Text) → Option (AttackPath F) → Finding F → Finding F
  attach_some plain none finding = finding
  attach_some plain (some path) finding = attach plain path finding

  attach_known-last :
      (plain : F → Text) (ps : List (AttackPath F)) (finding : Finding F)
      → attach_known plain (paths_by_cve ps) finding
        ≡ attach_some plain (last_path finding.signal.cve ps) finding
  attach_known-last plain ps finding =
      rw (← lookup-paths_by_cve finding.signal.cve ps) (ground arith)

  map-attach :
      (plain : F → Text) (ps : List (AttackPath F)) (findings : List (Finding F × Text))
      → map (λ (x : Finding F × Text). attach_known plain (paths_by_cve ps) x.0) findings
        ≡ map
            (λ (x : Finding F × Text). attach_some plain (last_path x.0.signal.cve ps) x.0)
            findings
  map-attach plain ps [] = refl
  map-attach plain ps ((finding, uuid) ∷ findings) =
      rw (attach_known-last plain ps finding, map-attach plain ps findings)

module _ {F G : Type 0} ⦃f : Float F⦄ ⦃t : TotalCmp F⦄
    ⦃g : DiGraph (RuntimeNode F) (RuntimeEdge F) G⦄ where
  -- Of the paths that are returned as the best, the one attached to a finding is the last with its
  -- CVE, so the one of the lowest rank where several findings share the CVE; a finding whose CVE has
  -- none of them stays as it is.
  pub attach_attack_paths_last :
      (plain : F → Text) (findings : List (Finding F × Text)) (s : RuntimeAttackGraph F G)
      → let paths = (build_attack_paths s findings).1 in
        (attach_attack_paths_to_findings plain findings s).0
        ≡ map
            (λ (x : Finding F × Text). attach_some plain (last_path x.0.signal.cve paths) x.0)
            findings
  unfolding attach_attack_paths_to_findings
  attach_attack_paths_last plain findings s =
      map-attach plain (build_attack_paths s findings).1 findings
