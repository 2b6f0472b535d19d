-- ===== src/Containers/OrdMap.antt =====
-- `BTreeMap` and `HashMap`: entries in ascending order of their keys. The order in which a hash
-- map yields its entries is unspecified; this one yields them by key.
use execution_aware_scanner.Prelude.{
  ◌+◌, ◌≤◌, ◌≡◌, refl, ap, ◌∙◌, true, Ordering, Bool, Option, none, some, List, [], ◌∷◌, arith,
  length, if◌then◌else◌, Option-cases, Bool-cases, inl, inr, subst,
}
use execution_aware_scanner.Containers.Order.{Ord, ◌=?◌, =?_refl}

abbrev pub OrdMap : Type 0 → Type 0 → Type 0
OrdMap K V = List (K × V)

-- `unwrap_or`
abbrev pub or_default : {V : Type 0} → V → Option V → V
or_default d none = d
or_default d (some v) = v

-- Every value of a map satisfies `P`.
abbrev pub Values : {K V : Type 0} → (V → Type 0) → OrdMap K V → Type 0
Values P [] = Unit
Values P ((k, v) ∷ m) = P v × Values P m

module _ {K V : Type 0} ⦃o : Ord K⦄ where
  unfoldable pub lookup : K → OrdMap K V → Option V
  lookup k [] = none
  lookup k ((j, v) ∷ m) = if k =? j then some v else lookup k m

  unfoldable pub replace : K → V → OrdMap K V → OrdMap K V
  replace k v [] = []
  replace k v ((j, w) ∷ m) = if k =? j then (j, v) ∷ m else (j, w) ∷ replace k v m

  unfoldable pub place : K → V → OrdMap K V → OrdMap K V
  place k v [] = (k, v) ∷ []
  place k v ((j, w) ∷ m) = elim (o.cmp k j) [
    | Ordering.gt ↦ (j, w) ∷ place k v m
    | _ ↦ (k, v) ∷ (j, w) ∷ m
  ]

  unfoldable pub insert : K → V → OrdMap K V → OrdMap K V
  unfolding lookup replace place
  insert k v m = elim (lookup k m) [ none ↦ place k v m | some _ ↦ replace k v m ]

  unfoldable pub remove : K → OrdMap K V → OrdMap K V
  remove k [] = []
  remove k ((j, w) ∷ m) = let rest = remove k m in if k =? j then rest else (j, w) ∷ rest

  -- `entry(k).or_default()`, updated by a function
  unfoldable pub update : K → V → (V → V) → OrdMap K V → OrdMap K V
  unfolding insert
  update k default f m = elim (lookup k m) [
    | none ↦ insert k (f default) m
    | some v ↦ insert k (f v) m
  ]

  -- `retain`
  unfoldable pub retain : (V → Bool) → OrdMap K V → OrdMap K V
  retain p [] = []
  retain p ((j, w) ∷ m) = let rest = retain p m in if p w then (j, w) ∷ rest else rest

  lookup-place :
      (j k : K) (v : V) (m : OrdMap K V)
      → lookup k m ≡ none
      → lookup j (place k v m) ≡ (if j =? k then some v else lookup j m)
  unfolding lookup place
  lookup-place j k v [] h = refl
  lookup-place j k v ((i, w) ∷ m) h = ground (
    arith,
    lookup-place j k v m,
    o.cmp_sound j k,
    o.cmp_sound j i,
    o.cmp_sound k i,
    o.cmp_refl k,
    o.cmp_refl i,
  )

  lookup-replace :
      (j k : K) (v u : V) (m : OrdMap K V)
      → lookup k m ≡ some u
      → lookup j (replace k v m) ≡ (if j =? k then some v else lookup j m)
  unfolding lookup replace
  lookup-replace j k v u [] h = cc
  lookup-replace j k v u ((i, w) ∷ m) h = ground (
    arith,
    lookup-replace j k v u m,
    o.cmp_sound j k,
    o.cmp_sound j i,
    o.cmp_sound k i,
    o.cmp_refl k,
    o.cmp_refl i,
  )

  pub lookup-insert :
      (j k : K) (v : V) (m : OrdMap K V)
      → lookup j (insert k v m) ≡ (if j =? k then some v else lookup j m)
  unfolding insert
  lookup-insert j k v m = elim (Option-cases (lookup k m)) [
    | inl new ↦ rw (new, insert) (lookup-place j k v m new)
    | inr (u, old) ↦ rw (old, insert) (lookup-replace j k v u m old)
  ]

  pub lookup-insert_self : (k : K) (v : V) (m : OrdMap K V) → lookup k (insert k v m) ≡ some v
  lookup-insert_self k v m = rw (lookup-insert k k v m, =?_refl k)

  pub lookup-update :
      (j k : K) (d : V) (f : V → V) (m : OrdMap K V)
      → lookup j (update k d f m)
        ≡ (if j =? k then some (f (or_default d (lookup k m))) else lookup j m)
  unfolding update
  lookup-update j k d f m = elim (Option-cases (lookup k m)) [
    | inl new ↦ rw (new, update) (lookup-insert j k (f d) m)
    | inr (v, old) ↦ rw (old, update) (lookup-insert j k (f v) m)
  ]

  pub lookup-remove :
      (j k : K) (m : OrdMap K V) → lookup j (remove k m) ≡ (if j =? k then none else lookup j m)
  unfolding lookup remove
  lookup-remove j k [] = ground arith
  lookup-remove j k ((i, w) ∷ m) = ground (
    arith,
    lookup-remove j k m,
    o.cmp_sound j k,
    o.cmp_sound k i,
    o.cmp_sound j i,
    o.cmp_refl k,
    o.cmp_refl i,
  )

  length-place : (k : K) (v : V) (m : OrdMap K V) → length (place k v m) ≡ length m + 1
  unfolding place
  length-place k v [] = omega arith
  length-place k v ((j, w) ∷ m) = ground (arith, length-place k v m)

  length-replace : (k : K) (v : V) (m : OrdMap K V) → length (replace k v m) ≡ length m
  unfolding replace
  length-replace k v [] = omega arith
  length-replace k v ((j, w) ∷ m) = ground (arith, length-replace k v m)

  pub length-insert :
      (k : K) (v : V) (m : OrdMap K V)
      → length (insert k v m) ≡ (elim (lookup k m) [ none ↦ length m + 1 | some _ ↦ length m ])
  unfolding insert
  length-insert k v m = ground (arith, length-place k v m, length-replace k v m)

  pub Values-lookup :
      (P : V → Type 0) (k : K) (m : OrdMap K V) {v : V} → Values P m → lookup k m ≡ some v → P v
  unfolding lookup
  Values-lookup P k [] h e = cc
  Values-lookup P k ((j, w) ∷ m) {v} h e = elim (Bool-cases (k =? j)) [
    | inl hit ↦ let same : w ≡ v = ground arith in subst P same h.0
    | inr miss ↦ Values-lookup P k m h.1 (ground arith)
  ]

  pub Values-or_default :
      (P : V → Type 0) (k : K) (d : V) (m : OrdMap K V)
      → P d
      → Values P m
      → P (or_default d (lookup k m))
  Values-or_default P k d m pd h = elim (Option-cases (lookup k m)) [
    | inl new ↦ rw new pd
    | inr (v, old) ↦ rw old (Values-lookup P k m h old)
  ]

  Values-place :
      (P : V → Type 0) (k : K) (v : V) (m : OrdMap K V) → P v → Values P m → Values P (place k v m)
  unfolding place
  Values-place P k v [] p h = (p, tt)
  Values-place P k v ((j, w) ∷ m) p h = ground (arith, Values-place P k v m p h.1)

  Values-replace :
      (P : V → Type 0) (k : K) (v : V) (m : OrdMap K V)
      → P v
      → Values P m
      → Values P (replace k v m)
  unfolding replace
  Values-replace P k v [] p h = tt
  Values-replace P k v ((j, w) ∷ m) p h = ground (arith, Values-replace P k v m p h.1)

  pub Values-insert :
      (P : V → Type 0) (k : K) (v : V) (m : OrdMap K V) → P v → Values P m → Values P (insert k v m)
  unfolding insert
  Values-insert P k v m p h = elim (Option-cases (lookup k m)) [
    | inl new ↦ rw (new, insert) (Values-place P k v m p h)
    | inr (u, old) ↦ rw (old, insert) (Values-replace P k v m p h)
  ]

  pub Values-update :
      (P : V → Type 0) (k : K) (d : V) (f : V → V) (m : OrdMap K V)
      → P d
      → ((v : V) → P v → P (f v))
      → Values P m
      → Values P (update k d f m)
  unfolding update
  Values-update P k d f m pd pf h = elim (Option-cases (lookup k m)) [
    | inl new ↦ rw (new, update) (Values-insert P k (f d) m (pf d pd) h)
    | inr (v, old) ↦
        rw (old, update) (Values-insert P k (f v) m (pf v (Values-lookup P k m h old)) h)
  ]

  pub Values-retain :
      (P : V → Type 0) (p : V → Bool) (m : OrdMap K V) → Values P m → Values P (retain p m)
  unfolding retain
  Values-retain P p [] h = tt
  Values-retain P p ((j, w) ∷ m) h = ground (arith, Values-retain P p m h.1)

  pub length-remove : (k : K) (m : OrdMap K V) → length (remove k m) ≤ length m
  unfolding remove
  length-remove k [] = omega arith
  length-remove k ((j, w) ∷ m) = ground (arith, length-remove k m)

  pub Values-remove : (P : V → Type 0) (k : K) (m : OrdMap K V) → Values P m → Values P (remove k m)
  unfolding remove
  Values-remove P k [] h = h
  Values-remove P k ((j, w) ∷ m) h = ground (arith, Values-remove P k m)

  pub length-retain : (p : V → Bool) (m : OrdMap K V) → length (retain p m) ≤ length m
  unfolding retain
  length-retain p [] = omega arith
  length-retain p ((j, w) ∷ m) = ground (arith, length-retain p m)

  -- An entry that is found and kept is found again.
  pub lookup-retain :
      (p : V → Bool) (k : K) (v : V) (m : OrdMap K V)
      → lookup k m ≡ some v
      → p v ≡ true
      → lookup k (retain p m) ≡ some v
  unfolding lookup retain
  lookup-retain p k v [] h kept = h
  lookup-retain p k v ((j, w) ∷ m) h kept = elim (Bool-cases (k =? j)) [
    | inl here ↦
        let same : w ≡ v = ground (arith, here, h) in
        let stays : p w ≡ true = ap p same ∙ kept in rw stays (ground (arith, here, h))
    | inr later ↦
        let found : lookup k m ≡ some v = ground (arith, later, h) in
        let rest = lookup-retain p k v m found kept in ground (arith, later, rest)
  ]

  -- A key that is found takes its entry along.
  pub length-remove_found :
      (k : K) (v : V) (m : OrdMap K V) → lookup k m ≡ some v → length (remove k m) + 1 ≤ length m
  unfolding lookup remove
  length-remove_found k v [] h = cc
  length-remove_found k v ((j, w) ∷ m) h =
      ground (arith, length-remove k m, length-remove_found k v m)
