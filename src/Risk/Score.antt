-- ===== src/Risk/Score.antt =====
-- `ExfRiskEngine::calculate_exf_score` of scanner-agent/src/risk_engine.rs.
pub mod Monotone
use execution_aware_scanner.Prelude.{
  ℕ, ◌≡◌, refl, ◌⊎◌, inl, inr, Bool, true, false, not, ◌&&◌, arith, if◌then◌else◌, leb, Bool-cases,
}
use execution_aware_scanner.Common.Finding.{
  RiskSignal, RuntimeDisposition, reachable, dormant, unknown,
}
use execution_aware_scanner.Float.{
  Float, IsIeee, lit, ◌⊕◌, ◌⊗◌, ◌≤?◌, ◌<?◌, ◌≼◌, is_nan, min, max, clamp,
}

module _ {F : Type 0} ⦃f : Float F⦄ where
  abbrev pub cvss_component : F → F
  cvss_component cvss = clamp cvss (lit 0) (lit 1000) ⊗ lit 50

  abbrev pub epss_component : F → F
  epss_component epss = clamp epss (lit 0) (lit 100) ⊗ lit 1000 ⊗ lit 30

  abbrev pub kev_component : Bool → F
  kev_component kev = if kev then lit 150 else lit 0

  abbrev pub runtime_component : RuntimeDisposition → F
  runtime_component reachable = lit 200
  runtime_component dormant = lit 50
  runtime_component unknown = lit 75

  abbrev pub signal_boost : F → F
  signal_boost weight = if lit 0 <? weight then min weight (lit 300) else lit 0

  unfoldable pub raw_score : RiskSignal F → F
  raw_score s =
      cvss_component s.cvss
      ⊕ epss_component s.epss
      ⊕ kev_component s.kev
      ⊕ runtime_component s.runtime
      ⊕ signal_boost s.signal_weight

  unfoldable pub calculate_exf_score : RiskSignal F → F
  unfolding raw_score
  calculate_exf_score s = max (min (raw_score s) (lit 1000)) (lit 0)

module _ {F : Type 0} ⦃f : Float F⦄ (laws : IsIeee F) where
  open laws use {
    refl_of_le, le_trans, le_total, lt-eq, le-lit, add_nan, mul_nan, add_mono, mul_mono,
    zero-le-add, zero-le-mul,
  }

  -- Capping a value at ten and at zero leaves a number between them, also from NaN.
  cap_range :
      (x : F)
      → (lit 0 ≼ max (min x (lit 1000)) (lit 0)) × (max (min x (lit 1000)) (lit 0) ≼ lit 1000)
  unfolding min max
  cap_range x = ground (
    arith,
    le-lit 0 1000,
    le-lit 1000 1000,
    le-lit 0 0,
    le_total x (lit 1000),
    le_total x (lit 0),
    le_total (lit 1000) (lit 0),
    refl_of_le x (lit 1000),
  )

  -- The score lies between zero and ten whatever the signal holds, values that are NaN included.
  pub score_range :
      (s : RiskSignal F) → (lit 0 ≼ calculate_exf_score s) × (calculate_exf_score s ≼ lit 1000)
  unfolding calculate_exf_score
  score_range s = cap_range (raw_score s)

  cap_nan : (x : F) → is_nan x ≡ true → max (min x (lit 1000)) (lit 0) ≡ lit 1000
  unfolding min max
  cap_nan x h = ground (arith, le-lit 1000 1000, le-lit 0 0, le-lit 1000 0)

  clamp_nan : (x lo hi : F) → is_nan x ≡ true → is_nan (clamp x lo hi) ≡ true
  unfolding clamp
  clamp_nan x lo hi h = ground (arith, lt-eq x lo, lt-eq hi x, refl_of_le x lo, refl_of_le hi x)

  raw_nan : (s : RiskSignal F) → is_nan s.cvss ≡ true → is_nan (raw_score s) ≡ true
  unfolding raw_score
  raw_nan s h = add_nan _ _ (
      add_nan _ _ (add_nan _ _ (add_nan _ _ (mul_nan _ _ (clamp_nan s.cvss (lit 0) (lit 1000) h)))))

  -- A CVSS value that is NaN passes the validation and scores ten, the highest there is, whatever
  -- the rest of the signal says.
  pub score_nan : (s : RiskSignal F) → is_nan s.cvss ≡ true → calculate_exf_score s ≡ lit 1000
  unfolding calculate_exf_score
  score_nan s h = cap_nan (raw_score s) (raw_nan s h)
