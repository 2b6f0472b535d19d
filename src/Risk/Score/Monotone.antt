-- ===== src/Risk/Score/Monotone.antt =====
-- A worse signal never scores lower.
use execution_aware_scanner.Prelude.{ℕ, ◌≤◌, ◌≡◌, Bool, true, false, arith, subst}
use execution_aware_scanner.Common.Finding.{
  RiskSignal, RuntimeDisposition, reachable, dormant, unknown,
}
use execution_aware_scanner.Float.{Float, IsIeee, ◌⊗◌, ◌≼◌, min, max, clamp}
use execution_aware_scanner.Risk.Score.{
  cvss_component, epss_component, kev_component, runtime_component, signal_boost, raw_score,
  calculate_exf_score,
}

-- The order on flags: `false` before `true`.
infix 4 ◌implies◌
abbrev pub ◌implies◌ : Bool → Bool → Type 0
◌implies◌ true b = b ≡ true
◌implies◌ false b = Unit

module _ {F : Type 0} ⦃f : Float F⦄ (laws : IsIeee F) where
  open laws use {
    refl_of_le, le_trans, le_total, lt-eq, le-lit, add_mono, mul_mono, zero-le-add, zero-le-mul,
    one_mul,
  }

  clamp_range : (x lo hi : F) → x ≼ x → lo ≼ hi → (lo ≼ clamp x lo hi) × (clamp x lo hi ≼ hi)
  unfolding clamp
  clamp_range x lo hi n h =
      ground (arith, lt-eq x lo, lt-eq hi x, le_total x lo, le_total hi x, refl_of_le lo hi)

  clamp_mono : (x y lo hi : F) → x ≼ y → lo ≼ hi → clamp x lo hi ≼ clamp y lo hi
  unfolding clamp
  clamp_mono x y lo hi h r = ground (
    arith,
    lt-eq x lo,
    lt-eq hi x,
    lt-eq y lo,
    lt-eq hi y,
    refl_of_le x y,
    refl_of_le lo hi,
    le_total x lo,
    le_total hi x,
    le_total y lo,
    le_total hi y,
    le_trans x y lo,
    le_trans hi x y,
    le_trans hi y lo,
  )

  lit_le : (m n : ℕ) → m ≤ n → n ≤ 10000 → f.lit m ≼ f.lit n
  lit_le m n h k = ground (arith, le-lit m n)

  cvss_mono :
      (x y : F) → x ≼ y → (f.lit 0 ≼ cvss_component x) × (cvss_component x ≼ cvss_component y)
  cvss_mono x y h =
      let (nx, ny) = refl_of_le x y h in
      let range = lit_le 0 1000 (omega arith) (omega arith) in
      let (low, high) = clamp_range x (f.lit 0) (f.lit 1000) nx range in
      let (low', high') = clamp_range y (f.lit 0) (f.lit 1000) ny range in
      let cap = lit_le 1000 10000 (omega arith) (omega arith) in
      let zero_half = lit_le 0 50 (omega arith) (omega arith) in
      let half_cap = lit_le 50 10000 (omega arith) (omega arith) in
      (
        zero-le-mul _ _ low (le_trans _ _ _ high cap) zero_half half_cap,
        mul_mono _ _ _ low (clamp_mono x y _ _ h range) (le_trans _ _ _ high' cap) zero_half
            half_cap,
      )

  epss_mono :
      (x y : F) → x ≼ y → (f.lit 0 ≼ epss_component x) × (epss_component x ≼ epss_component y)
  epss_mono x y h =
      let (nx, ny) = refl_of_le x y h in
      let range = lit_le 0 100 (omega arith) (omega arith) in
      let (low, high) = clamp_range x (f.lit 0) (f.lit 100) nx range in
      let (low', high') = clamp_range y (f.lit 0) (f.lit 100) ny range in
      let cap = lit_le 100 10000 (omega arith) (omega arith) in
      let zero_ten = lit_le 0 1000 (omega arith) (omega arith) in
      let ten_cap = lit_le 1000 10000 (omega arith) (omega arith) in
      let zero_part = lit_le 0 30 (omega arith) (omega arith) in
      let part_cap = lit_le 30 10000 (omega arith) (omega arith) in
      let ten = one_mul (f.lit 1000) (refl_of_le _ _ zero_ten).1 in
      let scaled = zero-le-mul _ _ low (le_trans _ _ _ high cap) zero_ten ten_cap in
      let scaled' = zero-le-mul _ _ low' (le_trans _ _ _ high' cap) zero_ten ten_cap in
      let grows =
        mul_mono _ _ _ low (clamp_mono x y _ _ h range) (le_trans _ _ _ high' cap) zero_ten
          ten_cap in
      let within =
        subst (λ z. (clamp y (f.lit 0) (f.lit 100) ⊗ f.lit 1000) ≼ z) ten
          (mul_mono _ _ _ low' high' cap zero_ten ten_cap) in
      let within_cap = le_trans _ _ _ within ten_cap in
      (
        zero-le-mul _ _ scaled (le_trans _ _ _ grows within_cap) zero_part part_cap,
        mul_mono _ _ _ scaled grows within_cap zero_part part_cap,
      )

  kev_mono :
      (a b : Bool)
      → a implies b
      → (f.lit 0 ≼ kev_component a) × (◌≼◌ {F = F} (kev_component a) (kev_component b))
  kev_mono a b h = ground (arith, le-lit 0 0, le-lit 0 150, le-lit 150 150)

  zero-le-runtime : (d : RuntimeDisposition) → f.lit 0 ≼ runtime_component d
  zero-le-runtime reachable = lit_le 0 200 (omega arith) (omega arith)
  zero-le-runtime dormant = lit_le 0 50 (omega arith) (omega arith)
  zero-le-runtime unknown = lit_le 0 75 (omega arith) (omega arith)

  zero-le-boost : (w : F) → f.lit 0 ≼ signal_boost w
  unfolding min
  zero-le-boost w = ground (arith, lt-eq (f.lit 0) w, le-lit 0 0, le-lit 0 300, le-lit 300 300)

  -- Capping keeps the order of two numbers.
  cap_mono :
      (x y : F)
      → f.lit 0 ≼ x
      → x ≼ y
      → max (min x (f.lit 1000)) (f.lit 0) ≼ max (min y (f.lit 1000)) (f.lit 0)
  unfolding min max
  cap_mono x y z h = ground (
    arith,
    refl_of_le x y,
    le-lit 0 1000,
    le-lit 1000 0,
    le-lit 1000 1000,
    le-lit 0 0,
    le_total x (f.lit 1000),
    le_total y (f.lit 1000),
    le_trans x y (f.lit 1000),
    le_trans x y (f.lit 0),
    le_trans (f.lit 0) x y,
  )

  raw_mono :
      (s t : RiskSignal F)
      → s.cvss ≼ t.cvss
      → s.epss ≼ t.epss
      → s.kev implies t.kev
      → s.runtime ≡ t.runtime
      → s.signal_weight ≡ t.signal_weight
      → (f.lit 0 ≼ raw_score s) × (raw_score s ≼ raw_score t)
  unfolding raw_score
  raw_mono s t hc he hk hr hw =
      let (c, c') = cvss_mono _ _ hc in
      let (e, e') = epss_mono _ _ he in
      let (k, k') = kev_mono _ _ hk in
      let r = zero-le-runtime s.runtime in
      let r' =
        subst (λ d. ◌≼◌ {F = F} (runtime_component s.runtime) (runtime_component d)) hr
          (refl_of_le _ _ r).1 in
      let b = zero-le-boost s.signal_weight in
      let b' = subst (λ w. signal_boost s.signal_weight ≼ signal_boost w) hw (refl_of_le _ _ b).1 in
      let ce = zero-le-add _ _ c e in
      let cek = zero-le-add _ _ ce k in
      let cekr = zero-le-add _ _ cek r in
      (
        zero-le-add _ _ cekr b,
        add_mono _ _ _ _ cekr
            (add_mono _ _ _ _ cek (add_mono _ _ _ _ ce (add_mono _ _ _ _ c c' e e') k k') r r') b
            b',
      )

  -- Between two signals with the same runtime disposition and signal weight (which may be NaN), the
  -- one whose CVSS and EPSS are numbers at least as high, and which is known to be exploited if the
  -- other is, scores at least as high.
  pub score_mono :
      (s t : RiskSignal F)
      → s.cvss ≼ t.cvss
      → s.epss ≼ t.epss
      → s.kev implies t.kev
      → s.runtime ≡ t.runtime
      → s.signal_weight ≡ t.signal_weight
      → calculate_exf_score s ≼ calculate_exf_score t
  unfolding calculate_exf_score
  score_mono s t hc he hk hr hw =
      let (low, grows) = raw_mono s t hc he hk hr hw in cap_mono _ _ low grows
