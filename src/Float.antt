-- ===== src/Float.antt =====
-- `f32` and `f64`, as far as the scanner computes with them: literals of at most two decimals,
-- conversions, the four operations and the comparisons. Their values are a parameter.
pub mod Fixed
use execution_aware_scanner.Prelude.{
  ℕ, ◌≤◌, ◌≡◌, Bool, true, false, not, ◌&&◌, leb, if◌then◌else◌, ◌⊎◌, ◌<◌,
}

pub record Float (F : Type 0) : Type 0 where
  -- the value nearest to that many hundredths
  pub lit : ℕ → F
  -- `n as f32`
  pub of_nat : ℕ → F
  pub add : F → F → F
  pub sub : F → F → F
  pub mul : F → F → F
  pub div : F → F → F
  pub le : F → F → Bool
  pub lt : F → F → Bool

module _ {F : Type 0} ⦃f : Float F⦄ where
  infix 50 ◌≤?◌ ◌<?◌
  infix 4 ◌≼◌
  infixl 65 ◌⊕◌ ◌⊖◌
  infixl 70 ◌⊗◌ ◌⊘◌
  abbrev pub lit : ℕ → F
  lit n = f.lit n

  abbrev pub ◌⊕◌ : F → F → F
  x ⊕ y = f.add x y

  abbrev pub ◌⊖◌ : F → F → F
  x ⊖ y = f.sub x y

  abbrev pub ◌⊗◌ : F → F → F
  x ⊗ y = f.mul x y

  abbrev pub ◌⊘◌ : F → F → F
  x ⊘ y = f.div x y

  abbrev pub ◌≤?◌ : F → F → Bool
  x ≤? y = f.le x y

  abbrev pub ◌<?◌ : F → F → Bool
  x <? y = f.lt x y

  abbrev pub ◌≼◌ : F → F → Type 0
  x ≼ y = f.le x y ≡ true

  -- NaN is the value that is not `<=` itself.
  abbrev pub is_nan : F → Bool
  is_nan x = not (f.le x x)

  -- `f32::min` and `f32::max` give the other argument where one is NaN.
  unfoldable pub min : F → F → F
  min x y = if is_nan x then y else if is_nan y then x else if f.le x y then x else y

  unfoldable pub max : F → F → F
  max x y = if is_nan x then y else if is_nan y then x else if f.le x y then y else x

  -- `f32::clamp` keeps NaN.
  unfoldable pub clamp : F → F → F → F
  clamp x lo hi = if f.lt x lo then lo else if f.lt hi x then hi else x

-- What IEEE 754 says of the comparisons and of rounding: the order is total away from NaN, a
-- literal keeps the order of the numbers up to one hundred, and sums and products of numbers that
-- are not negative are numbers that grow with their arguments.
pub record IsIeee (F : Type 0) ⦃f : Float F⦄ : Type 0 where
  pub refl_of_le : (x y : F) → x ≼ y → (x ≼ x) × (y ≼ y)
  pub le_trans : (x y z : F) → x ≼ y → y ≼ z → x ≼ z
  pub le_total : (x y : F) → x ≼ x → y ≼ y → (x ≼ y) ⊎ (y ≼ x)
  pub lt-eq : (x y : F) → f.lt x y ≡ (f.le x y && not (f.le y x))
  pub le-lit : (m n : ℕ) → m ≤ 10000 → n ≤ 10000 → f.le (f.lit m) (f.lit n) ≡ leb m n
  pub add_mono : (x y u v : F) → f.lit 0 ≼ x → x ≼ y → f.lit 0 ≼ u → u ≼ v → f.add x u ≼ f.add y v
  pub zero-le-add : (x y : F) → f.lit 0 ≼ x → f.lit 0 ≼ y → f.lit 0 ≼ f.add x y
  pub mul_mono :
      (x y z : F)
      → f.lit 0 ≼ x
      → x ≼ y
      → y ≼ f.lit 10000
      → f.lit 0 ≼ z
      → z ≼ f.lit 10000
      → f.mul x z ≼ f.mul y z
  pub zero-le-mul :
      (x y : F)
      → f.lit 0 ≼ x
      → x ≼ f.lit 10000
      → f.lit 0 ≼ y
      → y ≼ f.lit 10000
      → f.lit 0 ≼ f.mul x y
  pub one_mul : (x : F) → x ≼ x → f.mul (f.lit 100) x ≡ x
  pub add_nan : (x y : F) → is_nan x ≡ true → is_nan (f.add x y) ≡ true
  pub mul_nan : (x y : F) → is_nan x ≡ true → is_nan (f.mul x y) ≡ true
