-- ===== src/Correlation.antt =====
-- scanner-agent/src/runtime_correlation.rs: what a workload was seen to do with a vulnerable package.
pub mod Evidence
mod Tests
use execution_aware_scanner.Prelude.{
  ℕ, Bool, true, false, not, ◌&&◌, ◌||◌, List, [], ◌∷◌, ◌++◌, any, leb, if◌then◌else◌,
}
use execution_aware_scanner.Text.{Text, codes, contains}
use execution_aware_scanner.Text.Parts.{
  to_ascii_lowercase, trim_start_matches, trim_end_matches, before, after_last, byte_len,
}
use execution_aware_scanner.Containers.Order.{text_ord, ◌=?◌}
use execution_aware_scanner.Containers.OrdSet.{OrdSet, insert}
use execution_aware_scanner.Float.{Float, lit, ◌⊕◌, min}
use execution_aware_scanner.Common.Finding.{RuntimeDisposition, reachable, dormant}
use execution_aware_scanner.State.Workload.{
  SignalType, RuntimeSignal, WorkloadState, library_loaded, large_data_transfer, malicious_ip,
  sensitive_file_access, mprotect_exec, suspicious_exec,
}

pub record RuntimeEvidence (F : Type 0) : Type 0 where
  pub signal_type : Text
  pub timestamp_ns : ℕ
  pub details : Text
  pub confidence : F

pub record RuntimeMatch (F : Type 0) : Type 0 where
  pub disposition : RuntimeDisposition
  pub observed_paths : OrdSet Text
  pub signal_weight : F
  pub evidence : List (RuntimeEvidence F)

unfoldable pub normalize_package_name : Text → Text
normalize_package_name package_ =
    let stem = trim_start_matches (to_ascii_lowercase package_) (codes "lib") in
    trim_end_matches (trim_end_matches stem (codes "-dev")) (codes "-libs")

abbrev one_of : Text → List Text → Bool
one_of t names = any (λ (n : Text). t =? n) names

unfoldable pub package_aliases : Text → List Text
package_aliases package_ =
    if one_of package_ (codes "openssl" ∷ codes "ssl" ∷ codes "ssl1.1" ∷ codes "ssl3" ∷ [])
    then codes "ssl" ∷ codes "crypto" ∷ codes "openssl" ∷ []
    else if one_of package_ (codes "glibc" ∷ codes "c6" ∷ [])
    then codes "c" ∷ codes "pthread" ∷ codes "dl" ∷ codes "m" ∷ []
    else if one_of package_ (codes "zlib" ∷ codes "z1g" ∷ [])
    then codes "z" ∷ []
    else if package_ =? codes "curl"
    then codes "curl" ∷ []
    else if package_ =? codes "nginx"
    then codes "nginx" ∷ []
    else if one_of package_ (codes "php" ∷ codes "php-fpm" ∷ [])
    then codes "php" ∷ codes "php-fpm" ∷ []
    else if one_of package_ (codes "mysql" ∷ codes "mariadb" ∷ [])
    then codes "mysql" ∷ codes "mariadb" ∷ []
    else []

abbrev is_long : Text → Bool
is_long t = leb 3 (byte_len t)

unfoldable pub library_matches_package : Text → Text → Bool
library_matches_package path package_ =
    let path_lc = to_ascii_lowercase path in
    let package_lc = normalize_package_name package_ in
    let file_name = after_last path_lc b'/' in
    let lib_stem = before (trim_start_matches file_name (codes "lib")) (codes ".so") in
    is_long package_lc && contains path_lc package_lc
    || is_long file_name && contains package_lc file_name
    || is_long lib_stem && contains package_lc lib_stem
    || any
        (λ (alias : Text).
          is_long alias
          && (contains path_lc alias || contains file_name alias || lib_stem =? alias))
        (package_aliases package_lc)

-- `format!("{:?}", signal_type)`
abbrev pub signal_name : SignalType → Text
signal_name library_loaded = codes "LibraryLoaded"
signal_name large_data_transfer = codes "LargeDataTransfer"
signal_name malicious_ip = codes "MaliciousIP"
signal_name sensitive_file_access = codes "SensitiveFileAccess"
signal_name mprotect_exec = codes "MprotectExec"
signal_name suspicious_exec = codes "SuspiciousExec"

-- The loop over the paths
unfoldable pub match_paths : Text → List Text → OrdSet Text → OrdSet Text
match_paths package_ [] observed = observed
match_paths package_ (path ∷ paths) observed =
    match_paths package_ paths
      (if library_matches_package path package_ then insert path observed else observed)

abbrev pub is_empty : {A : Type 0} → List A → Bool
is_empty [] = true
is_empty (_ ∷ _) = false

-- What the loop over the signals has gathered
pub record Gathered (F : Type 0) : Type 0 where
  pub weight : F
  pub evidence : List (RuntimeEvidence F)

module _ {F : Type 0} where
  unfoldable pub is_related : OrdSet Text → WorkloadState F → RuntimeSignal F → Bool
  is_related observed w s = elim s.signal_type [
    | library_loaded ↦ any (λ (path : Text). contains s.details path) observed
    | large_data_transfer ↦ not (is_empty w.network_flows)
    | _ ↦ true
  ]

module _ {F : Type 0} ⦃f : Float F⦄ where
  abbrev pub evidence_of : RuntimeSignal F → RuntimeEvidence F
  evidence_of s = record {
    signal_type = signal_name s.signal_type;
    timestamp_ns = s.timestamp_ns;
    details = s.details;
    confidence = min s.weight (lit 100);
  }

  abbrev pub gather_one : Bool → Gathered F → RuntimeSignal F → Gathered F
  gather_one related g s =
      if related
      then record { weight = g.weight ⊕ s.weight; evidence = g.evidence ++ evidence_of s ∷ [] }
      else g

  unfoldable pub gather :
      (RuntimeSignal F → Bool) → List (RuntimeSignal F) → Gathered F → Gathered F
  gather related [] g = g
  gather related (s ∷ ss) g = gather related ss (gather_one (related s) g s)

  abbrev pub nothing_gathered : Gathered F
  nothing_gathered = record { weight = lit 0; evidence = [] }

  -- Of the vulnerability only the package is read.
  unfoldable pub correlate_vulnerability : WorkloadState F → Text → RuntimeMatch F
  correlate_vulnerability w package_ =
      let observed = match_paths package_ (w.loaded_libraries ++ w.observed_paths) [] in
      let gathered =
        if is_empty observed
        then nothing_gathered
        else gather (is_related observed w) w.signals nothing_gathered in
      record {
        disposition = if is_empty observed then dormant else reachable;
        observed_paths = observed;
        signal_weight = gathered.weight;
        evidence = gathered.evidence;
      }
