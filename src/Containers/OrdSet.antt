-- ===== src/Containers/OrdSet.antt =====
-- `BTreeSet`: its elements in ascending order.
use execution_aware_scanner.Prelude.{
  ◌+◌, ◌≡◌, refl, Ordering, Bool, true, false, ◌||◌, List, [], ◌∷◌, arith, length, if◌then◌else◌,
  Bool-cases, inl, inr, not, ◌&&◌,
}
use execution_aware_scanner.Containers.Order.{Ord, ◌=?◌, =?_refl}

abbrev pub OrdSet : Type 0 → Type 0
OrdSet K = List K

module _ {K : Type 0} ⦃o : Ord K⦄ where
  unfoldable pub contains : K → OrdSet K → Bool
  contains k [] = false
  contains k (x ∷ s) = k =? x || contains k s

  unfoldable pub place : K → OrdSet K → OrdSet K
  place k [] = k ∷ []
  place k (x ∷ s) = elim (o.cmp k x) [ Ordering.gt ↦ x ∷ place k s | _ ↦ k ∷ x ∷ s ]

  -- An element that is there already stays as it is.
  unfoldable pub insert : K → OrdSet K → OrdSet K
  unfolding contains place
  insert k s = if contains k s then s else place k s

  -- `extend`
  unfoldable pub insert_all : List K → OrdSet K → OrdSet K
  unfolding insert
  insert_all [] s = s
  insert_all (k ∷ ks) s = insert_all ks (insert k s)

  unfoldable pub remove : K → OrdSet K → OrdSet K
  remove k [] = []
  remove k (x ∷ s) = let rest = remove k s in if k =? x then rest else x ∷ rest

  contains-place : (j k : K) (s : OrdSet K) → contains j (place k s) ≡ (j =? k || contains j s)
  unfolding contains place
  contains-place j k [] = refl
  contains-place j k (x ∷ s) = ground (arith, contains-place j k s)

  pub contains-insert :
      (j k : K) (s : OrdSet K) → contains j (insert k s) ≡ (j =? k || contains j s)
  unfolding insert
  contains-insert j k s = elim (Bool-cases (contains k s)) [
    | inl old ↦ rw old (ground (arith, old, o.cmp_sound j k))
    | inr new ↦ rw new (contains-place j k s)
  ]

  pub contains-insert_self : (k : K) (s : OrdSet K) → contains k (insert k s) ≡ true
  contains-insert_self k s = rw (contains-insert k k s, =?_refl k)

  pub contains-insert_all :
      (j : K) (ks : List K) (s : OrdSet K)
      → contains j (insert_all ks s) ≡ (contains j ks || contains j s)
  unfolding insert_all contains
  contains-insert_all j [] s = refl
  contains-insert_all j (k ∷ ks) s =
      rw (contains-insert_all j ks (insert k s), contains-insert j k s) (ground arith)

  pub contains-remove :
      (j k : K) (s : OrdSet K) → contains j (remove k s) ≡ (not (j =? k) && contains j s)
  unfolding contains remove
  contains-remove j k [] = ground arith
  contains-remove j k (x ∷ s) = ground (
    arith,
    contains-remove j k s,
    o.cmp_sound j k,
    o.cmp_sound k x,
    o.cmp_sound j x,
    o.cmp_refl k,
    o.cmp_refl x,
  )

  length-place : (k : K) (s : OrdSet K) → length (place k s) ≡ length s + 1
  unfolding place
  length-place k [] = omega arith
  length-place k (x ∷ s) = ground (arith, length-place k s)

  -- A set grows by one element exactly when the element is new.
  pub length-insert :
      (k : K) (s : OrdSet K)
      → length (insert k s) ≡ (if contains k s then length s else length s + 1)
  unfolding insert
  length-insert k s = ground (arith, length-place k s)
