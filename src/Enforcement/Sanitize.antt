-- ===== src/Enforcement/Sanitize.antt =====
-- The three filters of scanner-agent/src/safe_enforcement.rs for what goes into a shell command.
pub mod Commands
pub mod Traversal
use execution_aware_scanner.Prelude.{
  ℕ, ◌≡◌, refl, Bool, true, ◌&&◌, ◌||◌, List, [], ◌∷◌, leb, ◌==◌, if◌then◌else◌, keep,
}
use execution_aware_scanner.Text.{Text, codes}

abbrev pub is_ascii_digit : ℕ → Bool
is_ascii_digit c = leb b'0' c && leb c b'9'

abbrev pub is_ascii_alphanumeric : ℕ → Bool
is_ascii_alphanumeric c =
    is_ascii_digit c || (leb b'A' c && leb c b'Z') || (leb b'a' c && leb c b'z')

abbrev pub is_shell_char : ℕ → Bool
is_shell_char c = is_ascii_alphanumeric c || c == b'-' || c == b'_' || c == b'.'

abbrev pub is_path_char : ℕ → Bool
is_path_char c = is_ascii_alphanumeric c || c == b'/' || c == b'-' || c == b'_' || c == b'.'

abbrev pub is_ip_char : ℕ → Bool
is_ip_char c = is_ascii_digit c || c == b'.'

unfoldable pub sanitize_shell_arg : Text → Text
sanitize_shell_arg s = keep is_shell_char s

-- `replace("..", "")`: the matches are found from the left and do not overlap.
unfoldable pub remove_parents : Text → Text
remove_parents [] = []
remove_parents (a ∷ []) = a ∷ []
remove_parents (a ∷ b ∷ s) =
    let after_match = remove_parents s in
    let after_one = remove_parents (b ∷ s) in
    if a == b'.' && b == b'.' then after_match else a ∷ after_one

unfoldable pub sanitize_path : Text → Text
unfolding remove_parents
sanitize_path p = keep is_path_char (remove_parents p)

unfoldable pub sanitize_ip : Text → Text
sanitize_ip ip = keep is_ip_char ip

sanitize_path_traversal : sanitize_path (codes "../../etc/p;wd") ≡ codes "//etc/pwd"
unfolding sanitize_path
sanitize_path_traversal = refl
