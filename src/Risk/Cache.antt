-- ===== src/Risk/Cache.antt =====
-- `RiskCache` of scanner-agent/src/risk_engine.rs: scores by CVE with an hour to live, and the
-- latest scores of each. A call that takes the locks one after another is one step here.
pub mod Hits
pub mod Summary
use execution_aware_scanner.Prelude.{
  ℕ, ◌+◌, ◌≡◌, Bool, true, false, not, ◌&&◌, Option, none, some, List, [], ◌∷◌, ltb, length,
  if◌then◌else◌,
}
use execution_aware_scanner.Text.{Text}
use execution_aware_scanner.Clock.{secs}
use execution_aware_scanner.Common.Finding.{RiskSignal}
use execution_aware_scanner.Containers.Order.{text_ord}
use execution_aware_scanner.Containers.OrdMap.{OrdMap, or_default, lookup, insert, update, retain}
use execution_aware_scanner.Containers.Ring.{push_capped}
use execution_aware_scanner.Float.{Float, lit, ◌≤?◌, ◌<?◌}
use execution_aware_scanner.Risk.Score.{calculate_exf_score}
use execution_aware_scanner.Risk.Evaluate.{is_reachable}

pub record RiskCacheEntry (F : Type 0) : Type 0 where
  pub score : F
  pub calculated_at : ℕ
  pub ttl : ℕ

pub record RiskSnapshot (F : Type 0) : Type 0 where
  pub timestamp : ℕ
  pub score : F
  pub runtime_reachable : Bool

pub record RiskCache (F : Type 0) : Type 0 where
  pub scores : OrdMap Text (RiskCacheEntry F)
  pub history : OrdMap Text (List (RiskSnapshot F))

pub record RiskSummary : Type 0 where
  pub total_cves : ℕ
  pub critical_count : ℕ
  pub high_count : ℕ
  pub medium_count : ℕ
  pub low_count : ℕ

abbrev pub max_history_per_cve : ℕ
max_history_per_cve = 100

module _ {F : Type 0} where
  abbrev pub empty_cache : RiskCache F
  empty_cache = record { scores = []; history = [] }

  -- `entry.calculated_at + entry.ttl > now`
  abbrev pub is_live : ℕ → RiskCacheEntry F → Bool
  is_live now e = ltb now (e.calculated_at + e.ttl)

  unfoldable pub get_risk_trend : RiskCache F → Text → List (RiskSnapshot F)
  get_risk_trend c cve_id = or_default [] (lookup cve_id c.history)

  unfoldable pub clear_expired : RiskCache F → ℕ → RiskCache F
  clear_expired c now = record c { scores = retain (is_live now) c.scores }

module _ {F : Type 0} ⦃f : Float F⦄ where
  -- The score is calculated anew and stored, at two readings of the clock.
  unfoldable pub refresh : RiskCache F → Text → RiskSignal F → ℕ → ℕ → RiskCache F × F
  refresh c cve_id s stored noted =
      let score = calculate_exf_score s in
      (
        record c {
          scores =
              insert cve_id (record { score = score; calculated_at = stored; ttl = secs 3600 })
                c.scores;
          history =
              update cve_id []
                (λ h. push_capped max_history_per_cve h (record {
                  timestamp = noted;
                  score = score;
                  runtime_reachable = is_reachable s.runtime;
                }))
                c.history;
        },
        score,
      )

  unfoldable pub get_cached_score :
      RiskCache F → Text → RiskSignal F → (now stored noted : ℕ) → RiskCache F × F
  unfolding refresh
  get_cached_score c cve_id s now stored noted = elim (lookup cve_id c.scores) [
    | none ↦ refresh c cve_id s stored noted
    | some e ↦ if is_live now e then (c, e.score) else refresh c cve_id s stored noted
  ]

  -- `values().filter(p).count()`
  abbrev pub count_scores : (F → Bool) → OrdMap Text (RiskCacheEntry F) → ℕ
  count_scores p [] = 0
  count_scores p ((k, e) ∷ m) = (if p e.score then 1 else 0) + count_scores p m

  unfoldable pub export_risk_summary : RiskCache F → RiskSummary
  export_risk_summary c = record {
    total_cves = length c.scores;
    critical_count = count_scores (λ x. lit 900 ≤? x) c.scores;
    high_count = count_scores (λ x. (lit 700 ≤? x) && (x <? lit 900)) c.scores;
    medium_count = count_scores (λ x. (lit 400 ≤? x) && (x <? lit 700)) c.scores;
    low_count = count_scores (λ x. x <? lit 400) c.scores;
  }

-- A history of calls, with their readings of the clock.
pub data Call (F : Type 0) : Type 0 where
  asks : Text → RiskSignal F → (now stored noted : ℕ) → Call F
  clears : ℕ → Call F

module _ {F : Type 0} ⦃f : Float F⦄ where
  unfoldable pub step : RiskCache F → Call F → RiskCache F
  unfolding get_cached_score clear_expired
  step c (asks cve_id s now stored noted) = (get_cached_score c cve_id s now stored noted).0
  step c (clears now) = clear_expired c now

  unfoldable pub run : RiskCache F → List (Call F) → RiskCache F
  unfolding step
  run c [] = c
  run c (x ∷ xs) = run (step c x) xs
