-- ===== src/Attack/Ranking.antt =====
-- `build_attack_paths` of scanner-agent/src/runtime_attack_graph_v2.rs: the paths of all findings, in
-- the order of their confidence and risk, of which the best are returned.
pub mod Top
use execution_aware_scanner.Prelude.{
  ℕ, zero, suc, ◌+◌, ◌%◌, ◌≡◌, Bool, true, false, not, ◌⊎◌, Option, none, some, List, [], ◌∷◌, ◌++◌,
  foldl, map, length, keep, count_if, if◌then◌else◌,
}
use execution_aware_scanner.Text.{Text, codes, decimal}
use execution_aware_scanner.Clock.{u64_mod}
use execution_aware_scanner.Common.Finding.{Finding, SignalEvidence, ExplainabilityReport}
use execution_aware_scanner.Containers.Order.{text_ord}
use execution_aware_scanner.Containers.OrdMap.{OrdMap, lookup, insert}
use execution_aware_scanner.Float.{Float, lit, ◌⊕◌, ◌⊖◌, ◌⊗◌, ◌⊘◌, ◌≤?◌}
use execution_aware_scanner.Attack.DiGraph.{DiGraph}
use execution_aware_scanner.Attack.Nodes.{
  RuntimeNode, vulnerability, RuntimeEdge, AttackPath, AttackPathSummary, AttackPathMetrics,
  to_summary,
}
use execution_aware_scanner.Attack.Runtime.{RuntimeAttackGraph}
use execution_aware_scanner.Attack.Paths.{reachable_paths}

-- `f32::total_cmp`: the first value is not greater than the second. It orders every two values.
pub record TotalCmp (F : Type 0) : Type 0 where
  pub total_le : F → F → Bool
  pub le_or_ge : (x y : F) → (total_le x y ≡ true) ⊎ (total_le y x ≡ true)
  pub total_trans : (x y z : F) → total_le x y ≡ true → total_le y z ≡ true → total_le x z ≡ true

module _ {A : Type 0} where
  -- Into a sorted list, before the first element that it need not stand behind
  unfoldable pub insert_sorted : (A → A → Bool) → A → List A → List A
  insert_sorted goes_first a [] = a ∷ []
  insert_sorted goes_first a (b ∷ bs) =
      let rest = insert_sorted goes_first a bs in if goes_first a b then a ∷ b ∷ bs else b ∷ rest

  -- `sort_by`, which is stable: elements keep their order where either may go first.
  unfoldable pub sort_by : (A → A → Bool) → List A → List A
  unfolding insert_sorted
  sort_by goes_first [] = []
  sort_by goes_first (a ∷ as') = insert_sorted goes_first a (sort_by goes_first as')

  -- `iter().take(n)`
  abbrev pub take : ℕ → List A → List A
  take zero as' = []
  take (suc n) [] = []
  take (suc n) (a ∷ as') = a ∷ take n as'

abbrev pub is_empty : {A : Type 0} → List A → Bool
is_empty [] = true
is_empty (_ ∷ _) = false

module _ {F : Type 0} ⦃f : Float F⦄ where
  abbrev pub score_of : AttackPath F → F
  score_of p = p.confidence ⊗ p.risk_score

  -- `path.rank = Some(i + 1)`, from the number of paths before
  abbrev pub assign_ranks : ℕ → List (AttackPath F) → List (AttackPath F)
  assign_ranks i [] = []
  assign_ranks i (p ∷ ps) = record p { rank = some (i + 1) } ∷ assign_ranks (i + 1) ps

  abbrev pub average : List (AttackPath F) → F
  average ps =
      foldl (λ (sum : F) (p : AttackPath F). sum ⊕ p.confidence) (lit 0) ps ⊘ f.of_nat (length ps)

  unfoldable pub update_metrics : AttackPathMetrics F → List (AttackPath F) → AttackPathMetrics F
  update_metrics m ps = record m {
    paths_total = (m.paths_total + length ps) % u64_mod;
    high_confidence_paths =
        (m.high_confidence_paths + count_if (λ (p : AttackPath F). lit 80 ≤? p.confidence) ps)
        % u64_mod;
    avg_confidence =
        if is_empty ps
        then m.avg_confidence
        else lit 30 ⊗ average ps ⊕ (lit 100 ⊖ lit 30) ⊗ m.avg_confidence;
  }

  abbrev pub goes_first : ⦃t : TotalCmp F⦄ → AttackPath F → AttackPath F → Bool
  goes_first ⦃t⦄ p q = t.total_le (score_of q) (score_of p)

module _ {F G : Type 0} ⦃f : Float F⦄ ⦃t : TotalCmp F⦄
    ⦃g : DiGraph (RuntimeNode F) (RuntimeEdge F) G⦄ where
  -- The paths that take part
  abbrev pub candidates : RuntimeAttackGraph F G → List (Finding F × Text) → List (AttackPath F)
  candidates s findings =
      keep (λ (p : AttackPath F). not (is_empty p.nodes)) (reachable_paths s findings)

  unfoldable pub build_attack_paths :
      RuntimeAttackGraph F G
      → List (Finding F × Text)
      → RuntimeAttackGraph F G × List (AttackPath F)
  unfolding sort_by update_metrics
  build_attack_paths s findings =
      let paths = assign_ranks 0 (sort_by goes_first (candidates s findings)) in
      (record s { metrics = update_metrics s.metrics paths }, take s.config.top_k paths)

  abbrev pub get_top_k_paths :
      RuntimeAttackGraph F G
      → List (Finding F × Text)
      → RuntimeAttackGraph F G × List (AttackPathSummary F)
  get_top_k_paths s findings =
      let (s', paths) = build_attack_paths s findings in (s', map to_summary paths)
