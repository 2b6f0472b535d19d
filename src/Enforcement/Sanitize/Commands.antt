-- ===== src/Enforcement/Sanitize/Commands.antt =====
-- What the filters leave over has only characters that a shell takes as they are.
use execution_aware_scanner.Prelude.{
  ◌&&◌, Bool-cases, inl, inr, ℕ, zero, suc, ◌+◌, ◌/◌, ◌%◌, ◌≡◌, refl, Bool, true, ◌||◌, [], ◌∷◌,
  ◌++◌, arith, ◌==◌, keep, all,
}
use execution_aware_scanner.Text.{Text, decimal, decimal_digits}
use execution_aware_scanner.Enforcement.Sanitize.{
  is_shell_char, is_path_char, is_ip_char, sanitize_shell_arg, sanitize_path, sanitize_ip,
  remove_parents,
}

-- Letters, digits, `-`, `_`, `.`, `/` and the space between the words of a command.
abbrev pub is_command_char : ℕ → Bool
is_command_char c = is_path_char c || c == b' '

-- No character of a text means anything to a shell.
pub record IsPlain (s : Text) : Type 0 where
  pub only : all is_command_char s ≡ true

all-append :
    (s t : Text) → all is_command_char (s ++ t) ≡ (all is_command_char s && all is_command_char t)
all-append [] t = refl
all-append (c ∷ s) t = elim (Bool-cases (is_command_char c)) [
  | inl held ↦ rw held (all-append s t)
  | inr other ↦ rw other refl
]

pub IsPlain-append : (s t : Text) → IsPlain s → IsPlain t → IsPlain (s ++ t)
IsPlain-append s t hs ht = record { only = rw (all-append s t, hs.only, ht.only) refl }

all-keep :
    (p : ℕ → Bool)
    → ((c : ℕ) → p c ≡ true → is_command_char c ≡ true)
    → (s : Text) → all is_command_char (keep p s) ≡ true
all-keep p h [] = refl
all-keep p h (c ∷ s) = elim (Bool-cases (p c)) [
  | inl held ↦ rw (held, h c held) (all-keep p h s)
  | inr other ↦ rw other (all-keep p h s)
]

pub sanitize_shell_arg-IsPlain : (s : Text) → IsPlain (sanitize_shell_arg s)
unfolding sanitize_shell_arg
sanitize_shell_arg-IsPlain s = record { only = all-keep is_shell_char (λ c h. ground arith) s }

pub sanitize_path-IsPlain : (s : Text) → IsPlain (sanitize_path s)
unfolding sanitize_path
sanitize_path-IsPlain s = record {
  only = all-keep is_path_char (λ c h. ground arith) (remove_parents s);
}

pub sanitize_ip-IsPlain : (s : Text) → IsPlain (sanitize_ip s)
unfolding sanitize_ip
sanitize_ip-IsPlain s = record { only = all-keep is_ip_char (λ c h. ground arith) s }

digits_plain :
    (fuel n : ℕ) (s : Text)
    → all is_command_char s ≡ true
    → all is_command_char (decimal_digits fuel n s) ≡ true
unfolding decimal_digits
digits_plain zero n s h = h
digits_plain (suc fuel) n s h = ground (arith, digits_plain fuel (n / 10) ((b'0' + n % 10) ∷ s))

pub decimal-IsPlain : (n : ℕ) → IsPlain (decimal n)
unfolding decimal
decimal-IsPlain n = record { only = digits_plain (suc n) n [] refl }

-- A text without variables is plain if its test says so.
pub literal-IsPlain : (s : Text) → all is_command_char s ≡ true → IsPlain s
literal-IsPlain s h = record { only = h }
