-- ===== src/Float/Fixed.antt =====
-- Values that meet the laws: hundredths, with `none` for NaN.
use execution_aware_scanner.Prelude.{
  ℕ, ◌≤◌, ◌+◌, ◌-◌, ◌*◌, ◌/◌, Bool, false, Option, none, some, arith, leb, ltb,
}
use execution_aware_scanner.Float.{Float, IsIeee, lit, ◌≼◌, ◌⊗◌}

abbrev pub Fixed : Type 0
Fixed = Option ℕ

abbrev pub on_numbers : (ℕ → ℕ → ℕ) → Fixed → Fixed → Fixed
on_numbers g (some a) (some b) = some (g a b)
on_numbers g _ _ = none

abbrev pub test_numbers : (ℕ → ℕ → Bool) → Fixed → Fixed → Bool
test_numbers g (some a) (some b) = g a b
test_numbers g _ _ = false

instance abbrev pub fixed_float : Float Fixed
fixed_float = record {
  lit = λ n. some n;
  of_nat = λ n. some (n * 100);
  add = on_numbers (λ a b. a + b);
  sub = on_numbers (λ a b. a - b);
  mul = on_numbers (λ a b. a * b / 100);
  div = on_numbers (λ a b. a * 100 / b);
  le = test_numbers leb;
  lt = test_numbers ltb;
}

mul_div_mono : (a b c : ℕ) → a ≤ b → a * c / 100 ≤ b * c / 100
mul_div_mono a b c h = grind arith

Fixed-mul_mono :
    (x y z : Fixed)
    → lit {F = Fixed} 0 ≼ x
    → x ≼ y
    → y ≼ lit {F = Fixed} 10000
    → lit {F = Fixed} 0 ≼ z
    → z ≼ lit {F = Fixed} 10000
    → x ⊗ z ≼ y ⊗ z
Fixed-mul_mono (some a) (some b) (some c) p q r s t = ground (arith, mul_div_mono a b c)
Fixed-mul_mono (some a) (some b) none p q r s t = cc
Fixed-mul_mono (some a) none z p q r s t = cc
Fixed-mul_mono none y z p q r s t = cc

pub Fixed-IsIeee : IsIeee Fixed
Fixed-IsIeee = record {
  refl_of_le = ground arith;
  le_trans = ground arith;
  le_total = ground arith;
  lt-eq = ground arith;
  le-lit = ground arith;
  add_mono = ground arith;
  zero-le-add = ground arith;
  mul_mono = Fixed-mul_mono;
  zero-le-mul = ground arith;
  one_mul = ground arith;
  add_nan = ground arith;
  mul_nan = ground arith;
}
