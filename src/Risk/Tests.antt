-- ===== src/Risk/Tests.antt =====
-- Scores, findings and cache hits of small data.
use execution_aware_scanner.Prelude.{◌≡◌, ◌≢◌, refl, ◌↔◌, true, false, some, none, List, [], ◌∷◌}
use execution_aware_scanner.Text.{Text, codes}
use execution_aware_scanner.Common.Finding.{RiskSignal, critical, Finding}
use execution_aware_scanner.Float.{lit, max, min, clamp, ◌≼◌}
use execution_aware_scanner.Float.Fixed.{Fixed, fixed_float, Fixed-IsIeee}
use execution_aware_scanner.Fixtures.{nginx, openssl_signal}
use execution_aware_scanner.Risk.Score.{calculate_exf_score, raw_score, score_range}
use execution_aware_scanner.Risk.Score.Monotone.{score_mono}
use execution_aware_scanner.Risk.Evaluate.{
  RiskConfig, Printer, evaluate, finding_of, priority_of, is_rejected,
}
use execution_aware_scanner.Risk.Evaluate.Findings.{Passes, found_iff_Passes}
use execution_aware_scanner.Risk.Cache.{Call, asks}

abbrev cve : Text
cve = codes "CVE-2025-1"

abbrev known : RiskSignal Fixed
known = openssl_signal cve (some 980) true

abbrev unlisted : RiskSignal Fixed
unlisted = openssl_signal cve (some 500) false

-- A CVSS that is NaN.
abbrev broken : RiskSignal Fixed
broken = openssl_signal cve none false

abbrev minima : RiskConfig Fixed
minima = record { minimum_cvss = some 700; minimum_epss = some 40 }

abbrev plain_printer : Printer Fixed Fixed
plain_printer = record {
  narrow = λ x. x;
  plain = λ x. [];
  fixed_two = λ x. [];
  fixed_one = λ x. [];
  debug_paths = λ x. [];
}

score_range_example : (lit 0 ≼ calculate_exf_score broken) × (calculate_exf_score broken ≼ lit 1000)
score_range_example = score_range Fixed-IsIeee broken

score_mono_example : calculate_exf_score unlisted ≼ calculate_exf_score known
score_mono_example = score_mono Fixed-IsIeee unlisted known refl refl tt refl refl

found_iff_Passes_example :
    (evaluate minima plain_printer nginx unlisted none (codes "f-1") 7 ≢ none)
    ↔ Passes minima unlisted
found_iff_Passes_example =
    found_iff_Passes minima plain_printer nginx none (codes "f-1") 7 Fixed-IsIeee unlisted refl

abbrev found : Finding Fixed
found = finding_of plain_printer nginx known none (codes "f-1") 7 critical

found_critical : evaluate minima plain_printer nginx known none (codes "f-1") 7 ≡ some found
unfolding evaluate is_rejected priority_of calculate_exf_score raw_score max min clamp
found_critical = refl

abbrev asked : List (Call Fixed)
asked = asks cve known 0 1 2 ∷ asks (codes "CVE-2025-2") unlisted 3 4 5 ∷ []
