-- ===== src/Risk/Evaluate/Findings.antt =====
-- Which signals become findings, and of what priority.
use execution_aware_scanner.Prelude.{
  ℕ, ◌≤◌, ◌≡◌, ◌≢◌, ◌↔◌, refl, true, false, Option, none, some, List, arith, if◌then◌else◌,
}
use execution_aware_scanner.Text.{Text}
use execution_aware_scanner.Common.Finding.{
  RuntimeIdentity, RiskSignal, reachable, informational, high, critical, Finding, SignalEvidence,
}
use execution_aware_scanner.Float.{Float, IsIeee, lit, ◌≼◌, ◌<?◌, ◌≤?◌, is_nan}
use execution_aware_scanner.Risk.Score.{calculate_exf_score, score_nan}
use execution_aware_scanner.Risk.Evaluate.{RiskConfig, Printer, priority_of, finding_of, evaluate}

-- What a signal without a KEV entry has to meet.
abbrev pub Passes : {F : Type 0} ⦃f : Float F⦄ → RiskConfig F → RiskSignal F → Type 0
Passes config s =
    ((s.cvss <? config.minimum_cvss) ≡ false)
    × ((s.epss <? config.minimum_epss) ≡ false)
    × (s.runtime ≡ reachable)
    × (lit 400 ≼ calculate_exf_score s)

module _ {F D : Type 0} ⦃f : Float F⦄ ⦃d : Float D⦄ (config : RiskConfig F) (p : Printer F D)
    (identity : RuntimeIdentity) (signals : Option (List (SignalEvidence F))) (id : Text)
    (now : ℕ) where
  -- A signal in the KEV catalog becomes a finding whatever else it holds, critical if it scores at
  -- least nine and high if not.
  kev_is_found :
      (s : RiskSignal F)
      → s.kev ≡ true
      → evaluate config p identity s signals id now
        ≡ some (
            finding_of p identity s signals id now
              (if lit 900 ≤? calculate_exf_score s then critical else high))
  unfolding evaluate
  kev_is_found s h = ground arith

  at_least_four :
      (laws : IsIeee F) (n : ℕ) (x : F) → 400 ≤ n → n ≤ 10000 → f.lit n ≼ x → f.lit 400 ≼ x
  at_least_four laws n x h k e =
      ground (arith, laws.le-lit 400 n, laws.le_trans (f.lit 400) (f.lit n) x)

  -- A signal outside the catalog becomes a finding exactly if neither its CVSS nor its EPSS is below
  -- the minimum, its code is reachable and it scores at least four.
  pub found_iff_Passes :
      (laws : IsIeee F) (s : RiskSignal F)
      → s.kev ≡ false
      → (evaluate config p identity s signals id now ≢ none) ↔ Passes config s
  unfolding evaluate
  found_iff_Passes laws s h =
      let score = calculate_exf_score s in
      (
        λ found. ground (
          arith,
          at_least_four laws 900 score,
          at_least_four laws 800 score,
          at_least_four laws 600 score,
        ),
        λ passes. ground arith,
      )

  -- Every finding holds its signal, the signal's score and the priority of that score: critical
  -- exactly from nine on, and never informational.
  finding_is_scored :
      (s : RiskSignal F) {g : Finding F}
      → evaluate config p identity s signals id now ≡ some g
      → (g.signal ≡ s)
        × (g.score ≡ calculate_exf_score s)
        × (g.priority ≡ priority_of s.kev g.score)
        × ((g.priority ≡ critical) ↔ (lit 900 ≼ g.score))
        × (g.priority ≢ informational)
  unfolding evaluate
  finding_is_scored s {g} h =
      let same : finding_of p identity s signals id now (priority_of s.kev (calculate_exf_score s))
          ≡ g =
        ground arith in
      let named : priority_of s.kev (calculate_exf_score s) ≢ informational = ground arith in
      rw (← same) (refl, refl, refl, ((λ e. ground arith), (λ e. ground arith)), named)

  -- A CVSS of NaN passes the clamps and the thresholds: a signal that has one, is outside the
  -- catalog, has an EPSS not below the minimum and has reachable code becomes a critical finding with
  -- a score of ten.
  nan_is_critical :
      (laws : IsIeee F) (s : RiskSignal F)
      → is_nan s.cvss ≡ true
      → s.kev ≡ false
      → (s.epss <? config.minimum_epss) ≡ false
      → s.runtime ≡ reachable
      → (evaluate config p identity s signals id now
          ≡ some (finding_of p identity s signals id now critical))
        × (calculate_exf_score s ≡ lit 1000)
  unfolding evaluate
  nan_is_critical laws s h hk he hr = (
    ground (
      arith,
      score_nan laws s h,
      laws.lt-eq s.cvss config.minimum_cvss,
      laws.refl_of_le s.cvss config.minimum_cvss,
      laws.le-lit 900 1000,
    ),
    score_nan laws s h,
  )
