-- ===== src/Risk/Cache/Hits.antt =====
-- When a cached score is returned, and what the history keeps.
use execution_aware_scanner.Prelude.{ℕ, ◌+◌, ◌≡◌, some, none, refl, ltb, if◌then◌else◌, arith}
use execution_aware_scanner.Text.{Text}
use execution_aware_scanner.Clock.{secs}
use execution_aware_scanner.Common.Finding.{RiskSignal}
use execution_aware_scanner.Containers.Order.{text_ord}
use execution_aware_scanner.Containers.OrdMap.{lookup, lookup-insert_self}
use execution_aware_scanner.Float.{Float}
use execution_aware_scanner.Risk.Score.{calculate_exf_score}
use execution_aware_scanner.Risk.Cache.{RiskCache, refresh, get_cached_score}

module _ {F : Type 0} ⦃f : Float F⦄ where
  refreshed :
      (c : RiskCache F) (cve : Text) (s : RiskSignal F) (stored noted : ℕ)
      → lookup cve (refresh c cve s stored noted).0.scores
        ≡ some (record { score = calculate_exf_score s; calculated_at = stored; ttl = secs 3600 })
  unfolding refresh
  refreshed c cve s stored noted = lookup-insert_self cve _ c.scores

  misses :
      (c : RiskCache F) (cve : Text) (s : RiskSignal F) (now stored noted : ℕ)
      → lookup cve c.scores ≡ none
      → get_cached_score c cve s now stored noted ≡ refresh c cve s stored noted
  unfolding get_cached_score
  misses c cve s now stored noted h = ground arith

  hits :
      (k : RiskCache F) (cve : Text) (score : F) (stored : ℕ) (later : RiskSignal F)
      (now' stored' noted' : ℕ)
      → lookup cve k.scores
        ≡ some (record { score = score; calculated_at = stored; ttl = secs 3600 })
      → get_cached_score k cve later now' stored' noted'
        ≡ (if ltb now' (stored + secs 3600) then (k, score) else refresh k cve later stored' noted')
  unfolding get_cached_score
  hits k cve score stored later now' stored' noted' h = ground arith

  refresh_score :
      (c : RiskCache F) (cve : Text) (s : RiskSignal F) (stored noted : ℕ)
      → (refresh c cve s stored noted).1 ≡ calculate_exf_score s
  unfolding refresh
  refresh_score c cve s stored noted = refl

  -- After a call for a CVE that the cache does not hold, a later call for it returns the score of
  -- the first call's signal as long as an hour has not passed, and leaves the cache alone, whatever
  -- its own signal says, of any workload; from then on it returns the score of its own signal.
  cached_for_an_hour :
      (c : RiskCache F) (cve : Text) (first later : RiskSignal F)
      (now stored noted now' stored' noted' : ℕ)
      → lookup cve c.scores ≡ none
      → let (cached, score) = get_cached_score c cve first now stored noted in
        (score ≡ calculate_exf_score first)
        × (get_cached_score cached cve later now' stored' noted' ≡ (
            if ltb now' (stored + secs 3600)
            then (cached, calculate_exf_score first)
            else refresh cached cve later stored' noted'))
        × ((refresh cached cve later stored' noted').1 ≡ calculate_exf_score later)
  cached_for_an_hour c cve first later now stored noted now' stored' noted' h =
      rw (misses c cve first now stored noted h) (
        refresh_score c cve first stored noted,
        hits _ cve _ stored later now' stored' noted' (refreshed c cve first stored noted),
        refresh_score _ cve later stored' noted',
      )
