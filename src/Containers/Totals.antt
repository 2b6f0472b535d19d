-- ===== src/Containers/Totals.antt =====
-- The sum of a number over the values of a map, and how an update of one entry moves it.
use execution_aware_scanner.Prelude.{ℕ, ◌+◌, ◌≡◌, ap, some, [], ◌∷◌, arith, Option-cases, inl, inr}
use execution_aware_scanner.Containers.Order.{Ord}
use execution_aware_scanner.Containers.OrdMap.{
  OrdMap, or_default, lookup, place, replace, insert, update,
}

abbrev pub total : {K V : Type 0} → (V → ℕ) → OrdMap K V → ℕ
total g [] = 0
total g ((k, v) ∷ m) = g v + total g m

module _ {K V : Type 0} ⦃o : Ord K⦄ (g : V → ℕ) where
  total-place : (k : K) (v : V) (m : OrdMap K V) → total g (place k v m) ≡ total g m + g v
  unfolding place
  total-place k v [] = omega arith
  total-place k v ((j, w) ∷ m) = ground (arith, total-place k v m)

  total-replace :
      (k : K) (v u : V) (m : OrdMap K V)
      → lookup k m ≡ some u
      → total g (replace k v m) + g u ≡ total g m + g v
  unfolding lookup replace
  total-replace k v u [] e = cc
  total-replace k v u ((j, w) ∷ m) e = ground (arith, total-replace k v u m, ap g {x = w} {y = u})

  -- An update moves the sum by what it moves its own entry.
  pub total-update :
      (k : K) (d : V) (f : V → V) (m : OrdMap K V)
      → g d ≡ 0
      → total g (update k d f m) + g (or_default d (lookup k m))
        ≡ total g m + g (f (or_default d (lookup k m)))
  unfolding update insert
  total-update k d f m z = elim (Option-cases (lookup k m)) [
    | inl new ↦ rw (new, update, insert) (rw (new, insert) (omega (arith, total-place k (f d) m)))
    | inr (v, old) ↦ rw (old, update, insert) (rw (old, insert) (total-replace k (f v) v m old))
  ]
