-- ===== src/Text/Parts.antt =====
-- The parts of a text that Rust's standard library cuts off, finds or rewrites.
use execution_aware_scanner.Prelude.{
  ℕ, zero, suc, ◌+◌, ◌-◌, ◌*◌, Bool, ◌&&◌, ◌||◌, Option, none, some, List, [], ◌∷◌, map, leb, ltb,
  ◌==◌, if◌then◌else◌, length, Ordering,
}
use execution_aware_scanner.Text.{Text, compare_text, starts_with}

abbrev pub to_ascii_lower : ℕ → ℕ
to_ascii_lower c = if leb b'A' c && leb c b'Z' then c + 32 else c

-- `str::to_ascii_lowercase`
unfoldable pub to_ascii_lowercase : Text → Text
to_ascii_lowercase s = map to_ascii_lower s

-- `str::strip_prefix`
unfoldable pub strip_prefix : Text → Text → Option Text
strip_prefix s [] = some s
strip_prefix [] (b ∷ p) = none
strip_prefix (a ∷ s) (b ∷ p) = let rest = strip_prefix s p in if a == b then rest else none

unfoldable pub trim_rounds : ℕ → Text → Text → Text
trim_rounds zero s p = s
trim_rounds (suc fuel) s p = elim (strip_prefix s p) [
  | none ↦ s
  | some rest ↦ trim_rounds fuel rest p
]

-- `str::trim_start_matches` of a pattern that is not empty, which takes a character in each round
unfoldable pub trim_start_matches : Text → Text → Text
unfolding trim_rounds
trim_start_matches s p = trim_rounds (length s) s p

-- `split(p).next()`: what stands before the first occurrence of the pattern
unfoldable pub before : Text → Text → Text
unfolding strip_prefix
before [] p = []
before (a ∷ s) p = elim (strip_prefix (a ∷ s) p) [ none ↦ a ∷ before s p | some _ ↦ [] ]

-- `rsplit(c).next()`: what stands behind the last occurrence of the character
unfoldable pub after_last : Text → ℕ → Text
after_last s c = scan s s
  where
    scan : Text → Text → Text
    scan [] last = last
    scan (a ∷ s') last = scan s' (if a == c then s' else last)

-- `str::split` of a character: at least one part
unfoldable pub split_on : ℕ → Text → List Text
split_on c [] = [] ∷ []
split_on c (a ∷ s) =
    let rest = split_on c s in
    if a == c then [] ∷ rest else elim rest [ [] ↦ (a ∷ []) ∷ [] | p ∷ ps ↦ (a ∷ p) ∷ ps ]

-- A carriage return before the end of the line goes with it.
abbrev strip_return : Text → Text
strip_return [] = []
strip_return (a ∷ []) = if a == 13 then [] else a ∷ []
strip_return (a ∷ b ∷ s) = a ∷ strip_return (b ∷ s)

abbrev drop_last_empty : List Text → List Text
drop_last_empty [] = []
drop_last_empty ([] ∷ []) = []
drop_last_empty (p ∷ []) = p ∷ []
drop_last_empty (p ∷ q ∷ ps) = strip_return p ∷ drop_last_empty (q ∷ ps)

-- `str::lines`: only what ends in a newline loses its carriage return.
unfoldable pub lines : Text → List Text
unfolding split_on
lines s = drop_last_empty (split_on 10 s)

abbrev is_digit : ℕ → Bool
is_digit c = leb b'0' c && leb c b'9'

abbrev digits_value : ℕ → Text → Option ℕ
digits_value n [] = some n
digits_value n (c ∷ s) = if is_digit c then digits_value (n * 10 + (c - b'0')) s else none

abbrev below : ℕ → Option ℕ → Option ℕ
below bound none = none
below bound (some n) = if ltb n bound then some n else none

-- `str::parse` of an unsigned type whose values are below the bound: a sign, then one digit or more
unfoldable pub parse_unsigned : ℕ → Text → Option ℕ
parse_unsigned bound [] = none
parse_unsigned bound (c ∷ []) = if c == b'+' then none else below bound (digits_value 0 (c ∷ []))
parse_unsigned bound (c ∷ d ∷ s) =
    below bound (digits_value 0 (if c == b'+' then d ∷ s else c ∷ d ∷ s))

-- `str::strip_suffix`
unfoldable pub strip_suffix : Text → Text → Option Text
unfolding compare_text
strip_suffix [] p = elim (compare_text [] p) [ Ordering.eq ↦ some [] | _ ↦ none ]
strip_suffix (a ∷ s) p =
    let rest : Option Text = elim (strip_suffix s p) [ none ↦ none | some t ↦ some (a ∷ t) ] in
    elim (compare_text (a ∷ s) p) [ Ordering.eq ↦ some [] | _ ↦ rest ]

unfoldable pub trim_end_rounds : ℕ → Text → Text → Text
trim_end_rounds zero s p = s
trim_end_rounds (suc fuel) s p = elim (strip_suffix s p) [
  | none ↦ s
  | some rest ↦ trim_end_rounds fuel rest p
]

-- `str::trim_end_matches` of a pattern that is not empty, which takes a character in each round
unfoldable pub trim_end_matches : Text → Text → Text
unfolding trim_end_rounds
trim_end_matches s p = trim_end_rounds (length s) s p

-- `char::is_whitespace`
abbrev pub is_whitespace : ℕ → Bool
is_whitespace c =
    leb 9 c && leb c 13
    || c == 32
    || c == 0x85
    || c == 0xa0
    || c == 0x1680
    || leb 0x2000 c && leb c 0x200a
    || c == 0x2028
    || c == 0x2029
    || c == 0x202f
    || c == 0x205f
    || c == 0x3000

-- `str::trim_start`
unfoldable pub trim_start : Text → Text
trim_start [] = []
trim_start (a ∷ s) = if is_whitespace a then trim_start s else a ∷ s

-- `str::trim_end`
unfoldable pub trim_end : Text → Text
trim_end [] = []
trim_end (a ∷ s) =
    let rest = trim_end s in
    elim rest [ [] ↦ if is_whitespace a then [] else a ∷ [] | b ∷ t ↦ a ∷ b ∷ t ]

-- `str::trim`
unfoldable pub trim : Text → Text
unfolding trim_start trim_end
trim s = trim_end (trim_start s)

-- `split_once` of a character: what stands behind its first occurrence
unfoldable pub behind_first : ℕ → Text → Option Text
behind_first c [] = none
behind_first c (a ∷ s) = let rest = behind_first c s in if a == c then some s else rest

abbrev skip_matches : ℕ → Text → Text → ℕ
skip_matches skipped [] p = 0
skip_matches (suc skipped) (a ∷ s) p = skip_matches skipped s p
skip_matches zero (a ∷ s) p =
    let behind = skip_matches (length p - 1) s p in
    let later = skip_matches zero s p in if starts_with (a ∷ s) p then 1 + behind else later

-- `matches(p).count()`: occurrences that do not overlap
unfoldable pub count_matches : Text → Text → ℕ
count_matches s p = skip_matches 0 s p

-- `str::len`: the bytes of the characters in UTF-8
unfoldable pub byte_len : Text → ℕ
byte_len [] = 0
byte_len (c ∷ s) =
    (if ltb c 0x80 then 1 else if ltb c 0x800 then 2 else if ltb c 0x10000 then 3 else 4)
    + byte_len s
