-- ===== src/Containers/Ring.antt =====
-- A vector that is kept to a capacity: at the limit a push removes the element at index 0 first.
use mathlib.Core.List.{append-nil, append_assoc}
use execution_aware_scanner.Prelude.{
  ℕ, zero, suc, ◌-◌, ◌≤◌, ◌<◌, ◌≡◌, refl, List, [], ◌∷◌, ◌++◌, arith, leb, if◌then◌else◌, length,
  length-append, drop_first, drop, All, All-append, All-drop_first, Bool-cases, inl, inr, sym, ap,
  ◌∙◌, true,
}

module _ {A : Type 0} where
  unfoldable pub push_capped : ℕ → List A → A → List A
  push_capped cap xs x = (if leb cap (length xs) then drop_first xs else xs) ++ x ∷ []

  pub length-push_capped :
      (cap : ℕ) (xs : List A) (x : A)
      → 0 < cap
      → length xs ≤ cap
      → length (push_capped cap xs x) ≤ cap
  unfolding push_capped
  length-push_capped cap [] x p h = ground arith
  length-push_capped cap (y ∷ xs) x p h =
      ground (arith, length-append xs (x ∷ []), length-append (y ∷ xs) (x ∷ []))

  pub All-push_capped :
      (P : A → Type 0) (cap : ℕ) (xs : List A) (x : A)
      → All P xs
      → P x
      → All P (push_capped cap xs x)
  unfolding push_capped
  All-push_capped P cap xs x h p = ground (
    arith,
    All-append P xs (x ∷ []) h (p, tt),
    All-append P (drop_first xs) (x ∷ []) (All-drop_first P xs h) (p, tt),
  )

  -- The newest elements, as many as the capacity.
  abbrev pub newest : ℕ → List A → List A
  newest cap xs = drop (length xs - cap) xs

  drop-snoc :
      (n : ℕ) (xs : List A) (x : A) → n ≤ length xs → drop n (xs ++ x ∷ []) ≡ drop n xs ++ x ∷ []
  drop-snoc zero xs x h = refl
  drop-snoc (suc n) [] x h = absurd (omega arith)
  drop-snoc (suc n) (y ∷ xs) x h = drop-snoc n xs x (omega arith)

  drop-suc : (n : ℕ) (xs : List A) → drop (suc n) xs ≡ drop_first (drop n xs)
  drop-suc zero [] = refl
  drop-suc zero (y ∷ xs) = refl
  drop-suc (suc n) [] = refl
  drop-suc (suc n) (y ∷ xs) = drop-suc n xs

  length-drop : (n : ℕ) (xs : List A) → length (drop n xs) ≡ length xs - n
  length-drop zero xs = omega arith
  length-drop (suc n) [] = omega arith
  length-drop (suc n) (y ∷ xs) = omega (arith, length-drop n xs)

  push_capped-newest :
      (cap : ℕ) (xs : List A) (x : A)
      → 0 < cap
      → push_capped cap (newest cap xs) x ≡ newest cap (xs ++ x ∷ [])
  unfolding push_capped
  push_capped-newest cap xs x p = elim (Bool-cases (leb cap (length xs))) [
    | inl full ↦
        let n = length xs - cap in
        let kept : leb cap (length (drop n xs)) ≡ true = ground (arith, length-drop n xs) in
        let count : length (xs ++ x ∷ []) - cap ≡ suc n =
          ground (arith, length-append xs (x ∷ [])) in
        rw (kept, count, ← drop-suc n xs) (sym (drop-snoc (suc n) xs x (ground arith)))
    | inr room ↦
        let none_over : length xs - cap ≡ 0 = ground arith in
        let none_over' : length (xs ++ x ∷ []) - cap ≡ 0 =
          ground (arith, length-append xs (x ∷ [])) in
        rw (none_over, none_over', room)
  ]

  unfoldable pub push_all : ℕ → List A → List A → List A
  unfolding push_capped
  push_all cap xs [] = xs
  push_all cap xs (y ∷ ys) = push_all cap (push_capped cap xs y) ys

  -- Pushes one after another leave the newest elements, as many as the capacity, in their order.
  pub push_all-newest :
      (cap : ℕ) (xs ys : List A) → 0 < cap → push_all cap (newest cap xs) ys ≡ newest cap (xs ++ ys)
  unfolding push_all
  push_all-newest cap xs [] p = rw (append-nil xs)
  push_all-newest cap xs (y ∷ ys) p =
      rw (push_capped-newest cap xs y p)
        (push_all-newest cap (xs ++ y ∷ []) ys p ∙ ap (newest cap) (append_assoc xs (y ∷ []) ys))

  pub push_all-append :
      (cap : ℕ) (xs ys zs : List A)
      → push_all cap xs (ys ++ zs) ≡ push_all cap (push_all cap xs ys) zs
  unfolding push_all
  push_all-append cap xs [] zs = refl
  push_all-append cap xs (y ∷ ys) zs = push_all-append cap (push_capped cap xs y) ys zs
