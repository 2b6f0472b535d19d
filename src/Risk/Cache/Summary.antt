-- ===== src/Risk/Cache/Summary.antt =====
-- What holds of the cache after any calls, and that the summary then counts every entry once.
use execution_aware_scanner.Prelude.{
  ℕ, ◌+◌, ◌≤◌, ◌≡◌, Option-cases, Bool-cases, inl, inr, List, [], ◌∷◌, arith, length,
}
use execution_aware_scanner.Text.{Text}
use execution_aware_scanner.Common.Finding.{RiskSignal}
use execution_aware_scanner.Containers.Order.{text_ord}
use execution_aware_scanner.Containers.OrdMap.{
  OrdMap, lookup, Values, Values-insert, Values-update, Values-retain, Values-or_default,
}
use execution_aware_scanner.Containers.Ring.{length-push_capped}
use execution_aware_scanner.Float.{Float, IsIeee, ◌≼◌}
use execution_aware_scanner.Risk.Score.{score_range}
use execution_aware_scanner.Risk.Cache.{
  RiskCache, RiskCacheEntry, RiskSnapshot, empty_cache, max_history_per_cve, is_live,
  get_risk_trend, clear_expired, refresh, get_cached_score, export_risk_summary, Call, asks, clears,
  step, run,
}

module _ {F : Type 0} ⦃f : Float F⦄ where
  -- Every stored score lies between zero and ten.
  abbrev pub InRange : RiskCacheEntry F → Type 0
  InRange e = (f.lit 0 ≼ e.score) × (e.score ≼ f.lit 1000)

  abbrev pub IsShort : List (RiskSnapshot F) → Type 0
  IsShort h = length h ≤ max_history_per_cve

  pub record IsSound (c : RiskCache F) : Type 0 where
    pub in_range : Values InRange c.scores
    pub short : Values IsShort c.history

  module _ (laws : IsIeee F) where
    refresh-IsSound :
        (c : RiskCache F) (cve : Text) (s : RiskSignal F) (stored noted : ℕ)
        → IsSound c
        → IsSound (refresh c cve s stored noted).0
    unfolding refresh
    refresh-IsSound c cve s stored noted h = record {
      in_range = Values-insert InRange cve _ c.scores (score_range laws s) h.in_range;
      short =
          Values-update IsShort cve [] _ c.history (omega arith)
            (λ xs k. length-push_capped max_history_per_cve xs _ (omega arith) k) h.short;
    }

    step-IsSound : (c : RiskCache F) (x : Call F) → IsSound c → IsSound (step c x)
    unfolding step get_cached_score clear_expired
    step-IsSound c (clears now) h = record {
      in_range = Values-retain InRange (is_live now) c.scores h.in_range;
      short = h.short;
    }
    step-IsSound c (asks cve s now stored noted) h = elim (Option-cases (lookup cve c.scores)) [
      | inl miss ↦ rw (miss, step, get_cached_score) (refresh-IsSound c cve s stored noted h)
      | inr (e, found) ↦
          rw (found, step, get_cached_score)
            (elim (Bool-cases (is_live now e)) [
              | inl live ↦ rw live h
              | inr expired ↦ rw expired (refresh-IsSound c cve s stored noted h)
            ])
    ]

    run-IsSound : (c : RiskCache F) (xs : List (Call F)) → IsSound c → IsSound (run c xs)
    unfolding run
    run-IsSound c [] h = h
    run-IsSound c (x ∷ xs) h = run-IsSound (step c x) xs (step-IsSound c x h)

    counts_once :
        (m : OrdMap Text (RiskCacheEntry F))
        → Values InRange m
        → let s = export_risk_summary (record { scores = m; history = [] }) in
          s.critical_count + s.high_count + s.medium_count + s.low_count ≡ length m
    unfolding export_risk_summary
    counts_once [] h = omega arith
    counts_once ((k, e) ∷ m) h = ground (
      arith,
      counts_once m h.1,
      laws.refl_of_le e.score (f.lit 1000),
      laws.lt-eq e.score (f.lit 900),
      laws.lt-eq e.score (f.lit 700),
      laws.lt-eq e.score (f.lit 400),
      laws.le-lit 400 400,
      laws.le-lit 700 700,
      laws.le-lit 900 900,
      laws.le-lit 400 700,
      laws.le-lit 700 900,
      laws.le_total e.score (f.lit 400),
      laws.le_total e.score (f.lit 700),
      laws.le_total e.score (f.lit 900),
      laws.le_trans (f.lit 400) (f.lit 700) e.score,
      laws.le_trans (f.lit 700) (f.lit 900) e.score,
    )

    -- After any calls on a new cache the four classes of its summary hold every cached CVE once, so
    -- their counts add up to the total, and the history of no CVE is longer than 100.
    summary_counts_once :
        (xs : List (Call F)) (cve : Text)
        → let c = run empty_cache xs in
          let s = export_risk_summary c in
          (s.critical_count + s.high_count + s.medium_count + s.low_count ≡ s.total_cves)
          × (length (get_risk_trend c cve) ≤ max_history_per_cve)
    unfolding export_risk_summary get_risk_trend
    summary_counts_once xs cve =
        let sound = run-IsSound empty_cache xs (record { in_range = tt; short = tt }) in
        (
          counts_once (run empty_cache xs).scores sound.in_range,
          Values-or_default IsShort cve [] (run empty_cache xs).history (omega arith) sound.short,
        )
