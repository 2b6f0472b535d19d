-- ===== src/Attack/Ranking/Top.antt =====
-- Which paths `build_attack_paths` of scanner-agent/src/runtime_attack_graph_v2.rs returns.
use execution_aware_scanner.Prelude.{
  ℕ, zero, suc, ◌+◌, ◌≡◌, refl, true, false, inl, inr, some, List, [], ◌∷◌, arith, leb, count_if,
  All, if◌then◌else◌, Bool-cases, ◌∙◌, ap,
}
use execution_aware_scanner.Text.{Text}
use execution_aware_scanner.Common.Finding.{Finding}
use execution_aware_scanner.Float.{Float}
use execution_aware_scanner.Attack.DiGraph.{DiGraph}
use execution_aware_scanner.Attack.Nodes.{RuntimeNode, RuntimeEdge, AttackPath}
use execution_aware_scanner.Attack.Runtime.{RuntimeAttackGraph}
use execution_aware_scanner.Attack.Ranking.{
  TotalCmp, insert_sorted, sort_by, take, score_of, assign_ranks, goes_first, candidates,
  build_attack_paths,
}

abbrev pub smaller : ℕ → ℕ → ℕ
smaller a b = if leb a b then a else b

module _ {F : Type 0} ⦃f : Float F⦄ ⦃t : TotalCmp F⦄ where
  -- The paths with at least that score
  abbrev pub reaching : F → List (AttackPath F) → ℕ
  reaching x = count_if (λ (p : AttackPath F). t.total_le x (score_of p))

  -- No path scores more than the one before it, and ranks count up from the number before.
  abbrev pub IsRanked : ℕ → List (AttackPath F) → Type 0
  IsRanked i [] = Unit
  IsRanked i (p ∷ ps) =
      (p.rank ≡ some (i + 1))
      × All (λ (q : AttackPath F). t.total_le (score_of q) (score_of p) ≡ true) ps
      × IsRanked (i + 1) ps

  abbrev IsSorted : List (AttackPath F) → Type 0
  IsSorted [] = Unit
  IsSorted (p ∷ ps) =
      All (λ (q : AttackPath F). t.total_le (score_of q) (score_of p) ≡ true) ps × IsSorted ps

  reaching-insert_sorted :
      (x : F) (p : AttackPath F) (ps : List (AttackPath F))
      → reaching x (insert_sorted goes_first p ps) ≡ reaching x (p ∷ ps)
  unfolding insert_sorted
  reaching-insert_sorted x p [] = refl
  reaching-insert_sorted x p (q ∷ ps) = ground (arith, reaching-insert_sorted x p ps)

  reaching-sort_by :
      (x : F) (ps : List (AttackPath F)) → reaching x (sort_by goes_first ps) ≡ reaching x ps
  unfolding sort_by
  reaching-sort_by x [] = refl
  reaching-sort_by x (p ∷ ps) =
      omega (arith, reaching-insert_sorted x p (sort_by goes_first ps), reaching-sort_by x ps)

  reaching-assign_ranks :
      (x : F) (i : ℕ) (ps : List (AttackPath F)) → reaching x (assign_ranks i ps) ≡ reaching x ps
  reaching-assign_ranks x i [] = refl
  reaching-assign_ranks x i (p ∷ ps) = omega (arith, reaching-assign_ranks x (i + 1) ps)

  AllBelow : F → List (AttackPath F) → Type 0
  AllBelow y = All (λ (q : AttackPath F). t.total_le (score_of q) y ≡ true)

  insert_sorted-AllBelow :
      (y : F) (p : AttackPath F) (ps : List (AttackPath F))
      → t.total_le (score_of p) y ≡ true
      → AllBelow y ps
      → AllBelow y (insert_sorted goes_first p ps)
  unfolding insert_sorted AllBelow
  insert_sorted-AllBelow y p [] hp h = (hp, tt)
  insert_sorted-AllBelow y p (q ∷ ps) hp h = ground (arith, insert_sorted-AllBelow y p ps hp h.1)

  AllBelow-trans :
      (y z : F) (ps : List (AttackPath F)) → t.total_le y z ≡ true → AllBelow y ps → AllBelow z ps
  unfolding AllBelow
  AllBelow-trans y z [] h b = tt
  AllBelow-trans y z (p ∷ ps) h b =
      (t.total_trans (score_of p) y z b.0 h, AllBelow-trans y z ps h b.1)

  insert_sorted-IsSorted :
      (p : AttackPath F) (ps : List (AttackPath F))
      → IsSorted ps
      → IsSorted (insert_sorted goes_first p ps)
  unfolding insert_sorted AllBelow
  insert_sorted-IsSorted p [] h = (tt, tt)
  insert_sorted-IsSorted p (q ∷ ps) h = elim (Bool-cases (goes_first p q)) [
    | inl first ↦ rw first ((first, AllBelow-trans (score_of q) (score_of p) ps first h.0), h)
    | inr later ↦
        let later_le : t.total_le (score_of p) (score_of q) ≡ true =
          ground (arith, t.le_or_ge (score_of p) (score_of q)) in
        rw later
          (insert_sorted-AllBelow (score_of q) p ps later_le h.0, insert_sorted-IsSorted p ps h.1)
  ]

  sort_by-IsSorted : (ps : List (AttackPath F)) → IsSorted (sort_by goes_first ps)
  unfolding sort_by
  sort_by-IsSorted [] = tt
  sort_by-IsSorted (p ∷ ps) = insert_sorted-IsSorted p (sort_by goes_first ps) (sort_by-IsSorted ps)

  assign_ranks-AllBelow :
      (y : F) (i : ℕ) (ps : List (AttackPath F)) → AllBelow y ps → AllBelow y (assign_ranks i ps)
  unfolding AllBelow
  assign_ranks-AllBelow y i [] h = tt
  assign_ranks-AllBelow y i (p ∷ ps) h = (h.0, assign_ranks-AllBelow y (i + 1) ps h.1)

  assign_ranks-IsRanked :
      (i : ℕ) (ps : List (AttackPath F)) → IsSorted ps → IsRanked i (assign_ranks i ps)
  unfolding AllBelow
  assign_ranks-IsRanked i [] h = tt
  assign_ranks-IsRanked i (p ∷ ps) h = (
    refl,
    assign_ranks-AllBelow (score_of p) (i + 1) ps h.0,
    assign_ranks-IsRanked (i + 1) ps h.1,
  )

  take-AllBelow :
      (y : F) (n : ℕ) (ps : List (AttackPath F)) → AllBelow y ps → AllBelow y (take n ps)
  unfolding AllBelow
  take-AllBelow y zero ps h = tt
  take-AllBelow y (suc n) [] h = tt
  take-AllBelow y (suc n) (p ∷ ps) h = (h.0, take-AllBelow y n ps h.1)

  take-IsRanked : (i n : ℕ) (ps : List (AttackPath F)) → IsRanked i ps → IsRanked i (take n ps)
  unfolding AllBelow
  take-IsRanked i zero ps h = tt
  take-IsRanked i (suc n) [] h = tt
  take-IsRanked i (suc n) (p ∷ ps) h =
      (h.0, take-AllBelow (score_of p) n ps h.1, take-IsRanked (i + 1) n ps h.2)

  -- Below a value that does not reach `x` nothing reaches it.
  reaching-below :
      (x y : F) (ps : List (AttackPath F))
      → t.total_le x y ≡ false
      → AllBelow y ps
      → reaching x ps ≡ 0
  unfolding AllBelow
  reaching-below x y [] h b = refl
  reaching-below x y (p ∷ ps) h b =
      ground (arith, reaching-below x y ps h b.1, t.total_trans x (score_of p) y)

  reaching-take :
      (x : F) (i n : ℕ) (ps : List (AttackPath F))
      → IsRanked i ps
      → reaching x (take n ps) ≡ smaller n (reaching x ps)
  unfolding AllBelow
  reaching-take x i zero ps h = ground arith
  reaching-take x i (suc n) [] h = ground arith
  reaching-take x i (suc n) (p ∷ ps) h = ground (
    arith,
    reaching-take x (i + 1) n ps h.2,
    reaching-below x (score_of p) ps,
    reaching-below x (score_of p) (take n ps),
    take-AllBelow (score_of p) n ps h.1,
  )

module _ {F G : Type 0} ⦃f : Float F⦄ ⦃t : TotalCmp F⦄
    ⦃g : DiGraph (RuntimeNode F) (RuntimeEdge F) G⦄ where
  -- The paths that are returned are the best `top_k`: for every score, as many of them reach it as
  -- there are paths of reachable findings that do, or `top_k` if there are more. They stand in the
  -- order of their scores, the best one first, with ranks that count up from one.
  pub build_attack_paths_top :
      (s : RuntimeAttackGraph F G) (findings : List (Finding F × Text)) (x : F)
      → let best = (build_attack_paths s findings).1 in
        (reaching x best ≡ smaller s.config.top_k (reaching x (candidates s findings)))
        × IsRanked 0 best
  unfolding build_attack_paths
  build_attack_paths_top s findings x =
      let sorted = sort_by goes_first (candidates s findings) in
      let ranked = assign_ranks 0 sorted in
      let is = assign_ranks-IsRanked 0 sorted (sort_by-IsSorted (candidates s findings)) in
      (
        reaching-take x 0 s.config.top_k ranked is
            ∙ ap (smaller s.config.top_k)
                (reaching-assign_ranks x 0 sorted ∙ reaching-sort_by x (candidates s findings)),
        take-IsRanked 0 s.config.top_k ranked is,
      )
