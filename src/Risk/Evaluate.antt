-- ===== src/Risk/Evaluate.antt =====
-- `ExfRiskEngine::evaluate`, the texts that it writes and `calculate_confidence`, of
-- scanner-agent/src/risk_engine.rs.
pub mod Findings
use execution_aware_scanner.Prelude.{
  ℕ, Bool, true, false, not, ◌&&◌, ◌||◌, Option, none, some, List, [], ◌∷◌, ◌++◌, if◌then◌else◌,
}
use execution_aware_scanner.Text.{Text, codes, join}
use execution_aware_scanner.Common.Finding.{
  RuntimeIdentity, RiskSignal, RuntimeDisposition, reachable, dormant, unknown, Priority,
  informational, low, medium, high, critical, Finding, SignalEvidence, ExplainabilityReport,
}
use execution_aware_scanner.Containers.OrdSet.{OrdSet}
use execution_aware_scanner.Float.{Float, lit, ◌⊕◌, ◌≤?◌, ◌<?◌, min}
use execution_aware_scanner.Risk.Score.{calculate_exf_score}

-- `RiskConfig` of scanner-agent/src/config.rs; the engine reads the two as `f32`.
pub record RiskConfig (F : Type 0) : Type 0 where
  pub minimum_cvss : F
  pub minimum_epss : F

-- How numbers and sets of paths print (`{}`, `{:.2}`, `{:.1}` and `{:?}`), and how an `f64` becomes
-- an `f32`, all of which the theorems leave open. `F` is `f32` and `D` is `f64`.
pub record Printer (F D : Type 0) : Type 0 where
  pub narrow : D → F
  pub plain : F → Text
  pub fixed_two : F → Text
  pub fixed_one : F → Text
  pub debug_paths : OrdSet Text → Text

abbrev pub is_reachable : RuntimeDisposition → Bool
is_reachable reachable = true
is_reachable _ = false

abbrev pub is_informational : Priority → Bool
is_informational informational = true
is_informational _ = false

abbrev runtime_guidance :
    {F D : Type 0} → Printer F D → RiskSignal F → RuntimeDisposition → List Text
runtime_guidance p s reachable =
    (codes "CRITICAL: This vulnerability is actively loaded at runtime via paths: "
      ++ p.debug_paths s.observed_paths)
    ∷ []
runtime_guidance p s dormant =
    codes "Vulnerability present but not currently active. Schedule patching." ∷ []
runtime_guidance p s unknown = []

abbrev priority_action : Priority → Text
priority_action critical = codes "IMMEDIATE ACTION: Consider quarantining workload until patched."
priority_action high = codes "URGENT: Patch within 24-48 hours."
priority_action medium = codes "Patch within 7 days."
priority_action _ = codes "Patch during next maintenance window."

abbrev runtime_word : RuntimeDisposition → Text
runtime_word reachable = codes "ACTIVE_RUNTIME"
runtime_word dormant = codes "DORMANT"
runtime_word unknown = codes "UNKNOWN"

-- `Some(sigs) if !sigs.is_empty()`, and its bonus for more than one
abbrev evidence_confidence : {F D : Type 0} ⦃d : Float D⦄ → Option (List (SignalEvidence F)) → D → D
evidence_confidence none c = c
evidence_confidence (some []) c = c
evidence_confidence (some (_ ∷ [])) c = c ⊕ lit 30
evidence_confidence (some (_ ∷ _ ∷ _)) c = c ⊕ lit 30 ⊕ lit 10

abbrev or_empty : {A : Type 0} → Option (List A) → List A
or_empty none = []
or_empty (some xs) = xs

module _ {F : Type 0} ⦃f : Float F⦄ where
  unfoldable pub priority_of : Bool → F → Priority
  priority_of kev score =
      if lit 900 ≤? score
      then critical
      else if kev || (lit 800 ≤? score)
      then high
      else if lit 600 ≤? score
      then medium
      else if lit 400 ≤? score
      then low
      else informational

  -- The three early returns.
  unfoldable pub is_rejected : RiskConfig F → RiskSignal F → Bool
  is_rejected config s =
      if (s.cvss <? config.minimum_cvss) && not s.kev
      then true
      else if (s.epss <? config.minimum_epss) && not s.kev
      then true
      else not (is_reachable s.runtime) && not s.kev

module _ {F D : Type 0} ⦃f : Float F⦄ ⦃d : Float D⦄ where
  -- The sum is an `f64`, since only its conversion is an `f32`.
  unfoldable pub calculate_confidence :
      Printer F D → RiskSignal F → Option (List (SignalEvidence F)) → F
  calculate_confidence p s signals =
      let base : D = lit 0 ⊕ lit 30 in
      let with_epss = if lit 0 <? s.epss then base ⊕ lit 20 else base in
      let with_kev = if s.kev then with_epss ⊕ lit 20 else with_epss in
      min (p.narrow (evidence_confidence signals with_kev)) (lit 100)

  unfoldable pub build_recommendation : Printer F D → RiskSignal F → Priority → Text
  build_recommendation p s priority = join (codes " ") (
      (codes "Patch " ++ s.package_ ++ codes " to remediate " ++ s.cve ++ codes ".")
        ∷ runtime_guidance p s s.runtime
      ++ (if s.kev
          then codes "This CVE is in CISA KEV catalog - actively exploited in the wild." ∷ []
          else [])
      ++ (if lit 50 ≤? s.epss
          then (codes "EPSS score "
              ++ p.plain s.epss
              ++ codes " indicates high probability of exploitation.")
            ∷ []
          else [])
      ++ priority_action priority ∷ [])

  unfoldable pub build_explainability :
      Printer F D → RiskSignal F → F → Option (List (SignalEvidence F)) → ExplainabilityReport F
  unfolding calculate_confidence
  build_explainability p s score signals = record {
    decision =
        (if s.kev then codes "KEV" else codes "No KEV")
        ++ codes " + "
        ++ runtime_word s.runtime
        ++ codes " + "
        ++ p.fixed_two s.signal_weight
        ++ codes " signal boost = "
        ++ p.fixed_one score
        ++ codes " score";
    confidence = calculate_confidence p s signals;
    components = record {
      cvss = s.cvss;
      epss = s.epss;
      kev = s.kev;
      runtime = s.runtime;
      signal_boost = s.signal_weight;
    };
    signals = or_empty signals;
    ablation_disabled = [];
  }

  abbrev pub finding_of :
      Printer F D
      → RuntimeIdentity
      → RiskSignal F
      → Option (List (SignalEvidence F))
      → Text
      → ℕ
      → Priority
      → Finding F
  finding_of p identity s signals id now priority = record {
    id = id;
    detected_at = now;
    identity = identity;
    signal = s;
    score = calculate_exf_score s;
    priority = priority;
    recommendation = build_recommendation p s priority;
    explainability = build_explainability p s (calculate_exf_score s) signals;
  }

  -- The finding's id comes from the UUID generator, and its time from the clock.
  unfoldable pub evaluate :
      RiskConfig F
      → Printer F D
      → RuntimeIdentity
      → RiskSignal F
      → Option (List (SignalEvidence F))
      → Text
      → ℕ
      → Option (Finding F)
  unfolding is_rejected priority_of build_recommendation build_explainability
  evaluate config p identity s signals id now =
      let priority = priority_of s.kev (calculate_exf_score s) in
      if is_rejected config s
      then none
      else if is_informational priority
      then none
      else some (finding_of p identity s signals id now priority)
