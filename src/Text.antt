-- ===== src/Text.antt =====
-- Texts as lists of code points, with the string operations of Rust's standard library that the
-- scanner calls.
pub mod Parts
use Prim.Native.Char.{code}
use Prim.Native.String.{String}
use execution_aware_scanner.Prelude.{
  ℕ, zero, suc, ◌+◌, ◌/◌, ◌%◌, ◌≡◌, refl, compare, Ordering, Bool, true, false, ◌&&◌, ◌||◌, List,
  [], ◌∷◌, ◌++◌, arith, ◌==◌, ltb, if◌then◌else◌,
}

abbrev pub Text : Type 0
Text = List ℕ

-- The code points of a literal.
abbrev pub codes : String → Text
codes String.[] = []
codes (String.◌∷◌ c s) = code c ∷ codes s

-- `Ord for String`: lexicographic, and a prefix comes first.
unfoldable pub compare_text : Text → Text → Ordering
compare_text [] [] = Ordering.eq
compare_text [] (b ∷ bs) = Ordering.lt
compare_text (a ∷ as') [] = Ordering.gt
compare_text (a ∷ as') (b ∷ bs) = elim (compare a b) [
  | Ordering.lt ↦ Ordering.lt
  | Ordering.eq ↦ compare_text as' bs
  | Ordering.gt ↦ Ordering.gt
]

pub compare_text_sound : (s t : Text) → compare_text s t ≡ Ordering.eq → s ≡ t
unfolding compare_text
compare_text_sound [] [] h = refl
compare_text_sound [] (b ∷ bs) h = cc
compare_text_sound (a ∷ as') [] h = cc
compare_text_sound (a ∷ as') (b ∷ bs) h = ground (arith, compare_text_sound as' bs)

pub compare_text_refl : (s : Text) → compare_text s s ≡ Ordering.eq
unfolding compare_text
compare_text_refl [] = refl
compare_text_refl (a ∷ as') = ground (arith, compare_text_refl as')

-- `str::starts_with`
unfoldable pub starts_with : Text → Text → Bool
starts_with [] p = elim p [ [] ↦ true | _ ∷ _ ↦ false ]
starts_with (a ∷ s) [] = true
starts_with (a ∷ s) (b ∷ p) = a == b && starts_with s p

-- `str::contains`
unfoldable pub contains : Text → Text → Bool
unfolding starts_with
contains [] p = starts_with [] p
contains (a ∷ s) p = starts_with (a ∷ s) p || contains s p

-- `str::ends_with`: some suffix is the pattern.
unfoldable pub ends_with : Text → Text → Bool
unfolding compare_text
ends_with [] p = elim (compare_text [] p) [ Ordering.eq ↦ true | _ ↦ false ]
ends_with (a ∷ s) p =
    (elim (compare_text (a ∷ s) p) [ Ordering.eq ↦ true | _ ↦ false ]) || ends_with s p

-- Decimal digits, as `{}` prints a number; `n` rounds are more than it has digits.
unfoldable pub decimal_digits : ℕ → ℕ → Text → Text
decimal_digits zero n digits = digits
decimal_digits (suc fuel) n digits =
    let rest = decimal_digits fuel (n / 10) ((b'0' + n % 10) ∷ digits) in
    if ltb n 10 then (b'0' + n) ∷ digits else rest

unfoldable pub decimal : ℕ → Text
unfolding decimal_digits
decimal n = decimal_digits (suc n) n []

decimal_300 : decimal 307 ≡ codes "307"
unfolding decimal
decimal_300 = refl

-- `[Text]::join`
unfoldable pub join : Text → List Text → Text
join separator [] = []
join separator (t ∷ []) = t
join separator (t ∷ u ∷ ts) = t ++ separator ++ join separator (u ∷ ts)
