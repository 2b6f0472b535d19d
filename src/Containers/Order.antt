-- ===== src/Containers/Order.antt =====
-- Total orders on keys, as an instance argument of the sets and maps.
use execution_aware_scanner.Prelude.{ℕ, ◌≡◌, compare, Ordering, Bool, true, false, arith}
use execution_aware_scanner.Text.{Text, compare_text, compare_text_sound, compare_text_refl}

-- `Ord`, with the law that the containers rely on.
pub record Ord (K : Type 0) : Type 0 where
  pub cmp : K → K → Ordering
  pub cmp_sound : (a b : K) → cmp a b ≡ Ordering.eq → a ≡ b
  pub cmp_refl : (a : K) → cmp a a ≡ Ordering.eq

pub compare_sound : (a b : ℕ) → compare a b ≡ Ordering.eq → a ≡ b
compare_sound a b h = ground arith

pub compare_refl : (a : ℕ) → compare a a ≡ Ordering.eq
compare_refl a = ground arith

instance abbrev pub nat_ord : Ord ℕ
nat_ord = record { cmp = compare; cmp_sound = compare_sound; cmp_refl = compare_refl }

instance abbrev pub text_ord : Ord Text
text_ord = record {
  cmp = compare_text;
  cmp_sound = compare_text_sound;
  cmp_refl = compare_text_refl;
}

infix 50 ◌=?◌
abbrev pub ◌=?◌ : {K : Type 0} ⦃o : Ord K⦄ → K → K → Bool
◌=?◌ ⦃o⦄ a b = elim (o.cmp a b) [ Ordering.eq ↦ true | _ ↦ false ]

module _ {K : Type 0} ⦃o : Ord K⦄ where
  pub =?_sound : (a b : K) → (a =? b) ≡ true → a ≡ b
  =?_sound a b h = ground (arith, o.cmp_sound a b)

  pub =?_refl : (a : K) → (a =? a) ≡ true
  =?_refl a = ground (arith, o.cmp_refl a)

  pub =?_sym : (a b : K) → (a =? b) ≡ (b =? a)
  =?_sym a b = ground (arith, o.cmp_sound a b, o.cmp_sound b a, o.cmp_refl a, o.cmp_refl b)

-- `Ord` of a pair: by its first component, and by the second where these are equal.
abbrev pub compare_pair : {K L : Type 0} ⦃o : Ord K⦄ ⦃p : Ord L⦄ → K × L → K × L → Ordering
compare_pair ⦃o⦄ ⦃p⦄ (a, x) (b, y) = elim (o.cmp a b) [
  | Ordering.lt ↦ Ordering.lt
  | Ordering.eq ↦ p.cmp x y
  | Ordering.gt ↦ Ordering.gt
]

module _ {K L : Type 0} ⦃o : Ord K⦄ ⦃p : Ord L⦄ where
  pub compare_pair_sound : (s t : K × L) → compare_pair s t ≡ Ordering.eq → s ≡ t
  compare_pair_sound (a, x) (b, y) h = ground (arith, o.cmp_sound a b, p.cmp_sound x y)

  pub compare_pair_refl : (s : K × L) → compare_pair s s ≡ Ordering.eq
  compare_pair_refl (a, x) = ground (arith, o.cmp_refl a, p.cmp_refl x)

  instance abbrev pub pair_ord : Ord (K × L)
  pair_ord = record {
    cmp = compare_pair;
    cmp_sound = compare_pair_sound;
    cmp_refl = compare_pair_refl;
  }
