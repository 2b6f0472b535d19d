-- ===== src/Audit/Names.antt =====
-- The names of the files of scanner-agent/src/audit_trail.rs.
use execution_aware_scanner.Prelude.{
  ℕ, suc, ◌+◌, ◌≡◌, refl, ◌∙◌, Bool, true, ◌&&◌, ◌||◌, none, some, [], ◌∷◌, ◌++◌, arith, leb, ◌==◌,
  all, length, length-append,
}
use execution_aware_scanner.Text.{Text, compare_text, starts_with, ends_with}
use execution_aware_scanner.Text.Parts.{
  trim_start_matches, trim_end_matches, strip_prefix, strip_suffix, trim_rounds, trim_end_rounds,
}
use execution_aware_scanner.Audit.{prefix, suffix, file_name, is_before, is_expired}

abbrev pub is_date_char : ℕ → Bool
is_date_char c = leb b'0' c && leb c b'9' || c == b'-'

-- What follows the prefix is not the prefix again.
strip-date :
    (date : Text) → all is_date_char date ≡ true → strip_prefix (date ++ suffix) prefix ≡ none
unfolding strip_prefix
strip-date [] h = refl
strip-date (a ∷ s) h = ground (arith, h)

strip_suffix-date : (date : Text) → all is_date_char date ≡ true → strip_suffix date suffix ≡ none
unfolding strip_suffix compare_text
strip_suffix-date [] h = refl
strip_suffix-date (a ∷ s) h = ground (arith, h, strip_suffix-date s)

strip_suffix-name :
    (date : Text) → all is_date_char date ≡ true → strip_suffix (date ++ suffix) suffix ≡ some date
unfolding strip_suffix compare_text
strip_suffix-name [] h = refl
strip_suffix-name (a ∷ s) h = ground (arith, h, strip_suffix-name s)

ends_with-name : (s : Text) → ends_with (s ++ suffix) suffix ≡ true
unfolding ends_with compare_text
ends_with-name [] = refl
ends_with-name (a ∷ s) = ground (arith, ends_with-name s)

starts_with_nothing : (s : Text) → starts_with s [] ≡ true
unfolding starts_with
starts_with_nothing [] = refl
starts_with_nothing (a ∷ s) = refl

starts_with-name : (s : Text) → starts_with (prefix ++ s) prefix ≡ true
unfolding starts_with
starts_with-name s = starts_with_nothing s

strip_prefix-name : (s : Text) → strip_prefix (prefix ++ s) prefix ≡ some s
unfolding strip_prefix
strip_prefix-name s = refl

trim_start-name :
    (date : Text)
    → all is_date_char date ≡ true
    → trim_start_matches (file_name date) prefix ≡ date ++ suffix
unfolding trim_start_matches
trim_start-name date h =
    rw (trim_rounds, strip_prefix-name (date ++ suffix)) (rw (trim_rounds, strip-date date h) refl)

trim_twice :
    (fuel : ℕ) (date : Text)
    → all is_date_char date ≡ true
    → trim_end_rounds (suc (suc fuel)) (date ++ suffix) suffix ≡ date
unfolding trim_end_rounds
trim_twice fuel date h =
    rw (trim_end_rounds, strip_suffix-name date h, strip_suffix-date date h) refl

trim_end-name :
    (date : Text) → all is_date_char date ≡ true → trim_end_matches (date ++ suffix) suffix ≡ date
unfolding trim_end_matches
trim_end-name date h =
    let long : length (date ++ suffix) ≡ suc (suc (length date + 4)) =
      length-append date suffix ∙ omega arith in
    rw long (trim_twice (length date + 4) date h)

-- The file of a date is expired where the date comes before the cut-off.
pub is_expired-file_name :
    (cutoff date : Text)
    → all is_date_char date ≡ true
    → is_expired cutoff (file_name date) ≡ is_before date cutoff
unfolding is_expired
is_expired-file_name cutoff date h =
    rw
      (
        starts_with-name (date ++ suffix),
        ends_with-name (prefix ++ date),
        trim_start-name date h,
        trim_end-name date h,
      )
      refl
