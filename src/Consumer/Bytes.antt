-- ===== src/Consumer/Bytes.antt =====
-- Little-endian numbers in memory, and slices of it.
use execution_aware_scanner.Prelude.{
  ℕ, zero, suc, ◌+◌, ◌*◌, ◌/◌, ◌%◌, ◌<◌, ◌≡◌, refl, ap, ◌∙◌, List, [], ◌∷◌, ◌++◌, arith, length,
  drop,
}

unfoldable pub le_bytes : ℕ → ℕ → List ℕ
le_bytes zero n = []
le_bytes (suc w) n = (n % 256) ∷ le_bytes w (n / 256)

unfoldable pub le_value : List ℕ → ℕ
le_value [] = 0
le_value (b ∷ bs) = b + 256 * le_value bs

-- How many numbers that many bytes hold.
abbrev pub capacity : ℕ → ℕ
capacity zero = 1
capacity (suc w) = 256 * capacity w

abbrev pub take : ℕ → List ℕ → List ℕ
take zero bs = []
take (suc n) [] = []
take (suc n) (b ∷ bs) = b ∷ take n bs

abbrev pub head_byte : List ℕ → ℕ
head_byte [] = 0
head_byte (b ∷ bs) = b

-- The byte at an index, zero where there is none.
abbrev pub byte_at : ℕ → List ℕ → ℕ
byte_at i bs = head_byte (drop i bs)

pub le_value-le_bytes : (w n : ℕ) → n < capacity w → le_value (le_bytes w n) ≡ n
unfolding le_value le_bytes
le_value-le_bytes zero n h = omega arith
le_value-le_bytes (suc w) n h = omega (arith, le_value-le_bytes w (n / 256) (omega arith))

pub length-le_bytes : (w n : ℕ) → length (le_bytes w n) ≡ w
unfolding le_bytes
length-le_bytes zero n = omega arith
length-le_bytes (suc w) n = omega (arith, length-le_bytes w (n / 256))

pub take-append : (bs r : List ℕ) (n : ℕ) → length bs ≡ n → take n (bs ++ r) ≡ bs
take-append [] r zero h = refl
take-append [] r (suc n) h = absurd (omega arith)
take-append (b ∷ bs) r zero h = absurd (omega arith)
take-append (b ∷ bs) r (suc n) h = ap (λ t. b ∷ t) (take-append bs r n (omega arith))

pub drop-append : (bs r : List ℕ) (m k : ℕ) → length bs + k ≡ m → drop m (bs ++ r) ≡ drop k r
drop-append [] r m k h = let same : m ≡ k = omega (arith, h) in ap (λ i. drop i r) same
drop-append (b ∷ bs) r zero k h = absurd (omega (arith, h))
drop-append (b ∷ bs) r (suc m) k h = drop-append bs r m k (omega (arith, h))

-- The number in the first bytes of a memory that begins with it, and the rest.
pub word-first :
    (w n : ℕ) (r : List ℕ)
    → n < capacity w
    → (le_value (take w (le_bytes w n ++ r)) ≡ n) × (drop w (le_bytes w n ++ r) ≡ r)
word-first w n r h =
    let size = length-le_bytes w n in
    (
      ap le_value (take-append (le_bytes w n) r w size) ∙ le_value-le_bytes w n h,
      drop-append (le_bytes w n) r w 0 (omega (arith, size)),
    )

-- The bytes at the start of a memory that begins with them, and the rest.
pub array-first :
    (bs r : List ℕ) (n : ℕ) → length bs ≡ n → (take n (bs ++ r) ≡ bs) × (drop n (bs ++ r) ≡ r)
array-first bs r n h = (take-append bs r n h, drop-append bs r n 0 (omega (arith, h)))
