-- ===== src/Outcome.antt =====
-- `Result`, and the one variant of scanner-agent/src/error.rs that the modelled code makes.
use execution_aware_scanner.Prelude.{◌++◌}
use execution_aware_scanner.Text.{Text, codes}

pub data ScannerError : Type 0 where
  bpf : Text → ScannerError

pub data Result (A : Type 0) : Type 0 where
  ok : A → Result A
  err : ScannerError → Result A

-- `to_string`
abbrev pub display_error : ScannerError → Text
display_error (bpf message) = codes "ebpf error: " ++ message
