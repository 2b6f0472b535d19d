-- ===== src/Common/CString.antt =====
-- `c_string` of scanner-common/src/lib.rs, over the decoding and trimming of the standard library.
use mathlib.Core.List.{reverse}
use execution_aware_scanner.Prelude.{
  ℕ, zero, suc, ◌+◌, ◌-◌, ◌*◌, ◌≡◌, refl, Bool, ◌&&◌, ◌||◌, List, [], ◌∷◌, leb, ◌==◌, if◌then◌else◌,
}
use execution_aware_scanner.Text.{Text, codes}

-- `&buf[..end]`, where `end` is the position of the first zero byte
unfoldable pub until_zero : List ℕ → List ℕ
until_zero [] = []
until_zero (b ∷ bs) = if b == 0 then [] else b ∷ until_zero bs

-- What a UTF-8 decoder waits for: the range of the next byte, how many more come after it, and the
-- bits so far.
pub data Pending : Type 0 where
  start : Pending
  wants : (lo hi after bits : ℕ) → Pending

abbrev within : ℕ → ℕ → ℕ → Bool
within lo hi b = leb lo b && leb b hi

-- What a byte says at the start of a character: a whole character, the lead of a longer one, or an
-- error.
first_byte : ℕ → Text → (Pending → Text) → Text
first_byte b ended more =
    if within 0 0x7f b
    then b ∷ ended
    else if within 0xc2 0xdf b
    then more (wants 0x80 0xbf 0 (b - 0xc0))
    else if b == 0xe0
    then more (wants 0xa0 0xbf 1 0)
    else if b == 0xed
    then more (wants 0x80 0x9f 1 0x0d)
    else if within 0xe1 0xef b
    then more (wants 0x80 0xbf 1 (b - 0xe0))
    else if b == 0xf0
    then more (wants 0x90 0xbf 2 0)
    else if within 0xf1 0xf3 b
    then more (wants 0x80 0xbf 2 (b - 0xf0))
    else if b == 0xf4
    then more (wants 0x80 0x8f 2 4)
    else 0xfffd ∷ ended

-- `String::from_utf8_lossy`: each maximal broken part of a character is one U+FFFD.
decode : Pending → List ℕ → Text
unfolding first_byte
decode start [] = []
decode (wants lo hi after bits) [] = 0xfffd ∷ []
decode start (b ∷ bs) = first_byte b (decode start bs) (λ p. decode p bs)
decode (wants lo hi zero bits) (b ∷ bs) =
    if within lo hi b
    then (bits * 64 + (b - 0x80)) ∷ decode start bs
    else 0xfffd ∷ first_byte b (decode start bs) (λ p. decode p bs)
decode (wants lo hi (suc after) bits) (b ∷ bs) =
    if within lo hi b
    then decode (wants 0x80 0xbf after (bits * 64 + (b - 0x80))) bs
    else 0xfffd ∷ first_byte b (decode start bs) (λ p. decode p bs)

unfoldable pub from_utf8_lossy : List ℕ → Text
unfolding decode
from_utf8_lossy bytes = decode start bytes

-- `char::is_whitespace`
abbrev pub is_whitespace : ℕ → Bool
is_whitespace c =
    within 9 13 c
    || c == 32
    || c == 0x85
    || c == 0xa0
    || c == 0x1680
    || within 0x2000 0x200a c
    || c == 0x2028
    || c == 0x2029
    || c == 0x202f
    || c == 0x205f
    || c == 0x3000

unfoldable pub trim_start : Text → Text
trim_start [] = []
trim_start (c ∷ s) = if is_whitespace c then trim_start s else c ∷ s

unfoldable pub trim : Text → Text
unfolding trim_start
trim s = reverse (trim_start (reverse (trim_start s)))

unfoldable pub c_string : List ℕ → Text
unfolding until_zero from_utf8_lossy trim
c_string buf = trim (from_utf8_lossy (until_zero buf))

c_string_bash : c_string (codes " bash ") ≡ codes "bash"
unfolding c_string
c_string_bash = refl

c_string_broken :
    c_string (0x61 ∷ 0xe2 ∷ 0x82 ∷ 0x62 ∷ 0xc3 ∷ 0xa9 ∷ 0 ∷ 0x63 ∷ [])
    ≡ 0x61 ∷ 0xfffd ∷ 0x62 ∷ 0xe9 ∷ []
unfolding c_string
c_string_broken = refl
