-- ===== src/Audit/Tests.antt =====
-- Two days of audit files.
use execution_aware_scanner.Prelude.{◌≡◌, refl, Bool, true, false, none, some, [], ◌∷◌}
use execution_aware_scanner.Text.{Text, codes, compare_text, starts_with, ends_with}
use execution_aware_scanner.Text.Parts.{
  trim_start_matches, trim_end_matches, strip_prefix, strip_suffix,
}
use execution_aware_scanner.Containers.Order.{text_ord}
use execution_aware_scanner.Containers.OrdMap.{lookup}
use execution_aware_scanner.Audit.{AuditLogger, Files, file_name, log, is_expired, cleanup}
use execution_aware_scanner.Audit.Retention.{cleanup_lem, logged_is_retained}

abbrev logger : AuditLogger
logger = record { output_dir = codes "/var/audit"; retention_days = 90; enabled = true }

abbrev files : Files
files =
    (file_name (codes "2024-01-02"), codes "old\n")
    ∷ (file_name (codes "2024-05-06"), codes "new\n")
    ∷ (codes "notes", codes "mine")
    ∷ []

abbrev always : Text → Bool
always name = true

cleanup_lem_example :
    (lookup (file_name (codes "2024-01-02")) (cleanup logger files true (codes "2024-03-01") always)
      ≡ none)
    × (is_expired (codes "2024-03-01") (file_name (codes "2024-05-06")) ≡ false)
unfolding is_expired compare_text trim_start_matches trim_end_matches starts_with ends_with
    strip_prefix strip_suffix
cleanup_lem_example =
    cleanup_lem logger files (codes "2024-03-01") always (file_name (codes "2024-01-02"))
      (codes "2024-05-06") refl refl

logged_is_retained_example :
    lookup (file_name (codes "2024-05-06")) (
      cleanup logger
        (log logger files (codes "2024-05-06") (record {
          has_dir = true;
          json = some (codes "{}");
          opens = true;
          written = λ t. t;
          ends_line = true;
        }))
        true
        (codes "2024-03-01")
        always)
    ≡ some (codes "new\n{}\n")
unfolding lookup compare_text
logged_is_retained_example =
    logged_is_retained logger files (codes "2024-05-06") (codes "{}") (codes "2024-03-01") always
      refl refl refl
