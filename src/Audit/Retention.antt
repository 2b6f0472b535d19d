-- ===== src/Audit/Retention.antt =====
-- What `cleanup` of scanner-agent/src/audit_trail.rs keeps.
use execution_aware_scanner.Prelude.{
  ◌≡◌, ap, ◌∙◌, Bool, true, false, ◌&&◌, none, some, [], ◌∷◌, ◌++◌, arith, all, Bool-cases, inl,
  inr, if◌then◌else◌,
}
use execution_aware_scanner.Text.{Text}
use execution_aware_scanner.Containers.Order.{text_ord, ◌=?◌, =?_sound}
use execution_aware_scanner.Containers.OrdMap.{lookup, lookup-insert_self}
use execution_aware_scanner.Audit.{
  AuditLogger, Files, file_name, content_of, log, is_before, is_expired, remove_expired, cleanup,
}
use execution_aware_scanner.Audit.Names.{is_date_char, is_expired-file_name}

abbrev pub is_removed : Text → (Text → Bool) → Text → Bool
is_removed cutoff removable name = is_expired cutoff name && removable name

lookup-remove_expired :
    (cutoff : Text) (removable : Text → Bool) (name : Text) (files : Files)
    → lookup name (remove_expired cutoff removable files)
      ≡ (if is_removed cutoff removable name then none else lookup name files)
unfolding remove_expired lookup
lookup-remove_expired cutoff removable name [] = ground arith
lookup-remove_expired cutoff removable name ((j, content) ∷ files) = elim (Bool-cases (name =? j)) [
  | inl here ↦
      let same : is_removed cutoff removable name ≡ is_removed cutoff removable j =
        ap (is_removed cutoff removable) (=?_sound name j here) in
      let rest = lookup-remove_expired cutoff removable name files in
      ground (arith, here, same, rest)
  | inr later ↦
      let rest = lookup-remove_expired cutoff removable name files in ground (arith, later, rest)
]

-- A logger that is enabled, on a directory that it can read: a file is gone if its name has the form of an
-- audit file, its date comes before the cut-off and it can be removed; all else is as it was. The date
-- of a file that the logger names by a date, of digits and dashes, is that date.
pub cleanup_lem :
    (l : AuditLogger) (files : Files) (cutoff : Text) (removable : Text → Bool) (name date : Text)
    → l.enabled ≡ true
    → all is_date_char date ≡ true
    → (lookup name (cleanup l files true cutoff removable)
        ≡ (if is_removed cutoff removable name then none else lookup name files))
      × (is_expired cutoff (file_name date) ≡ is_before date cutoff)
unfolding cleanup
cleanup_lem l files cutoff removable name date on digits = (
  rw on (lookup-remove_expired cutoff removable name files),
  is_expired-file_name cutoff date digits,
)

-- A line that was written whole is at the end of its file after a clean-up whose cut-off is not behind
-- its date.
pub logged_is_retained :
    (l : AuditLogger) (files : Files) (date json cutoff : Text) (removable : Text → Bool)
    → l.enabled ≡ true
    → all is_date_char date ≡ true
    → is_before date cutoff ≡ false
    → lookup (file_name date) (
        cleanup l
          (log l files date (record {
            has_dir = true;
            json = some json;
            opens = true;
            written = λ t. t;
            ends_line = true;
          }))
          true
          cutoff
          removable)
      ≡ some (content_of (lookup (file_name date) files) ++ (json ++ 10 ∷ []))
unfolding cleanup log
logged_is_retained l files date json cutoff removable on digits recent = rw on (
    lookup-remove_expired cutoff removable (file_name date) _
    ∙ rw (is_expired-file_name cutoff date digits, recent)
        (lookup-insert_self (file_name date)
          (content_of (lookup (file_name date) files) ++ (json ++ 10 ∷ [])) files))
