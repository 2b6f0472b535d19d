-- ===== src/Correlation/Tests.antt =====
-- The tests of scanner-agent/src/runtime_correlation.rs, and libraries that it does not find.
use execution_aware_scanner.Prelude.{◌≡◌, refl, true, false, [], ◌∷◌, ◌++◌}
use execution_aware_scanner.Text.{Text, codes, contains, starts_with}
use execution_aware_scanner.Text.Parts.{
  to_ascii_lowercase, trim_start_matches, trim_end_matches, before, after_last, byte_len,
}
use execution_aware_scanner.Containers.Order.{text_ord}
use execution_aware_scanner.Containers.OrdSet.{contains as set_contains, insert}
use execution_aware_scanner.Float.{lit}
use execution_aware_scanner.Float.Fixed.{Fixed, fixed_float}
use execution_aware_scanner.Common.Finding.{dormant}
use execution_aware_scanner.State.Workload.{WorkloadState, default_workload, library_loaded}
use execution_aware_scanner.Correlation.{
  library_matches_package, normalize_package_name, package_aliases, match_paths, is_related, gather,
  correlate_vulnerability,
}

matches_openssl_to_libssl :
    library_matches_package (codes "/usr/lib/x86_64-linux-gnu/libssl.so.1.1") (codes "openssl")
    ≡ true
unfolding library_matches_package byte_len normalize_package_name trim_end_matches
    trim_start_matches to_ascii_lowercase execution_aware_scanner.Text.Parts.strip_prefix
    execution_aware_scanner.Text.Parts.strip_suffix contains after_last before
matches_openssl_to_libssl = refl

libz_is_missed : library_matches_package (codes "/usr/lib/libz.so.1") (codes "zlib") ≡ false
unfolding library_matches_package byte_len normalize_package_name trim_end_matches
    trim_start_matches to_ascii_lowercase execution_aware_scanner.Text.Parts.strip_prefix
    execution_aware_scanner.Text.Parts.strip_suffix contains after_last before package_aliases
libz_is_missed = refl

libc_is_missed : library_matches_package (codes "/usr/lib/libc.so.6") (codes "glibc") ≡ false
unfolding library_matches_package byte_len normalize_package_name trim_end_matches
    trim_start_matches to_ascii_lowercase execution_aware_scanner.Text.Parts.strip_prefix
    execution_aware_scanner.Text.Parts.strip_suffix contains after_last before package_aliases
libc_is_missed = refl

abbrev libssl : Text
libssl = codes "/usr/lib/libssl.so.1.1"

abbrev with_libssl : WorkloadState Fixed
with_libssl = record default_workload {
  loaded_libraries = libssl ∷ [];
  signals =
      record {
        signal_type = library_loaded;
        weight = lit 200;
        timestamp_ns = 100;
        details = codes "Library loaded: " ++ libssl;
      }
      ∷ [];
}

unrelated_stays_dormant :
    (correlate_vulnerability with_libssl (codes "mysql")).disposition ≡ dormant
unfolding correlate_vulnerability match_paths library_matches_package byte_len
    normalize_package_name trim_end_matches trim_start_matches to_ascii_lowercase
    execution_aware_scanner.Text.Parts.strip_prefix execution_aware_scanner.Text.Parts.strip_suffix
    contains after_last before package_aliases
unrelated_stays_dormant = refl

matching_library_is_reachable :
    (correlate_vulnerability with_libssl (codes "openssl")).signal_weight ≡ lit 200
unfolding correlate_vulnerability match_paths library_matches_package gather is_related byte_len
    normalize_package_name trim_end_matches trim_start_matches to_ascii_lowercase
    execution_aware_scanner.Text.Parts.strip_prefix execution_aware_scanner.Text.Parts.strip_suffix
    contains after_last before insert
matching_library_is_reachable = refl
