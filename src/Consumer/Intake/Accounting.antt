-- ===== src/Consumer/Intake/Accounting.antt =====
-- Where the records of a ring buffer go.
use execution_aware_scanner.Prelude.{
  ℕ, ◌≤◌, ◌≡◌, ◌≢◌, refl, ap, ◌∙◌, ◌⊎◌, inl, inr, Bool, Bool-cases, some, List, [], ◌∷◌, ◌++◌,
  length, All, if◌then◌else◌, leb→le,
}
use execution_aware_scanner.Consumer.Records.{Parsed, rejected, undefined_value, parsed}
use execution_aware_scanner.Consumer.Intake.{
  Progress, take_records, drop_record, filter_record, accept_record, is_full,
}
use execution_aware_scanner.Consumer.Intake.Steps.{
  IsStep, IsTaken, first-IsTaken, none-IsTaken, rejected-IsStep, filtered-IsStep, accepted-IsStep,
}

module _ {E S : Type 0} (parse : List ℕ → Parsed E) (leave_out : E → Bool) (apply : S → E → S)
    (batch_size : ℕ) where
  -- The loop returns, and this is where the records of the ring buffer have gone.
  pub record IsAccounted (ring : List (List ℕ)) (p : Progress E S) : Type 0 where
    pub taken : List (List ℕ)
    pub rest : List (List ℕ)
    pub final : Progress E S
    pub returned : take_records parse leave_out apply batch_size ring p ≡ some (final, rest)
    pub split : ring ≡ taken ++ rest
    pub sums : IsTaken parse leave_out apply batch_size taken p final rest

  more-IsAccounted :
      (d : List ℕ) (ds : List (List ℕ)) (p p' : Progress E S)
      → IsStep parse leave_out apply batch_size d p p'
      → take_records parse leave_out apply batch_size (d ∷ ds) p
        ≡ take_records parse leave_out apply batch_size ds p'
      → IsAccounted ds p'
      → IsAccounted (d ∷ ds) p
  more-IsAccounted d ds p p' one same more = record {
    taken = d ∷ more.taken;
    rest = more.rest;
    final = more.final;
    returned = same ∙ more.returned;
    split = ap (λ r. d ∷ r) more.split;
    sums =
        first-IsTaken parse leave_out apply batch_size d more.taken p p' more.final more.rest one
          more.sums;
  }

  last-IsAccounted :
      (d : List ℕ) (ds : List (List ℕ)) (p p' : Progress E S)
      → IsStep parse leave_out apply batch_size d p p'
      → take_records parse leave_out apply batch_size (d ∷ ds) p ≡ some (p', ds)
      → batch_size ≤ length p'.batch
      → IsAccounted (d ∷ ds) p
  last-IsAccounted d ds p p' one done full = record {
    taken = d ∷ [];
    rest = ds;
    final = p';
    returned = done;
    split = refl;
    sums =
        first-IsTaken parse leave_out apply batch_size d [] p p' p' ds one
          (none-IsTaken parse leave_out apply batch_size p' ds (inr full));
  }

  -- The loop goes on after a record unless the batch is full.
  step-IsAccounted :
      (d : List ℕ) (ds : List (List ℕ)) (p p' : Progress E S)
      → IsStep parse leave_out apply batch_size d p p'
      → take_records parse leave_out apply batch_size (d ∷ ds) p ≡ (
          if is_full parse leave_out apply batch_size p'
          then some (p', ds)
          else take_records parse leave_out apply batch_size ds p')
      → IsAccounted ds p'
      → IsAccounted (d ∷ ds) p
  step-IsAccounted d ds p p' one same more =
      elim (Bool-cases (is_full parse leave_out apply batch_size p')) [
        | inl full ↦
            last-IsAccounted d ds p p' one (same ∙ rw full refl)
              (leb→le batch_size (length p'.batch) full)
        | inr room ↦ more-IsAccounted d ds p p' one (same ∙ rw room refl) more
      ]

  Parsed-cases : (r : Parsed E) → r ≢ undefined_value → (r ≡ rejected) ⊎ ((e : E) × (r ≡ parsed e))
  Parsed-cases rejected h = inl refl
  Parsed-cases undefined_value h = absurd (h refl)
  Parsed-cases (parsed e) h = inr (e, refl)

  pub take_records-IsAccounted :
      (ring : List (List ℕ)) (p : Progress E S)
      → All (λ d. parse d ≢ undefined_value) ring
      → IsAccounted ring p
  unfolding take_records
  take_records-IsAccounted [] p h = record {
    taken = [];
    rest = [];
    final = p;
    returned = refl;
    split = refl;
    sums = none-IsTaken parse leave_out apply batch_size p [] (inl refl);
  }
  take_records-IsAccounted (d ∷ ds) p h = elim (Parsed-cases (parse d) h.0) [
    | inl bad ↦
        let p' = drop_record parse leave_out apply batch_size p in
        step-IsAccounted d ds p p' (rejected-IsStep parse leave_out apply batch_size d p bad)
          (rw (bad, take_records) refl) (take_records-IsAccounted ds p' h.1)
    | inr (e, good) ↦ elim (Bool-cases (leave_out e)) [
      | inl out ↦
          let p' = filter_record parse leave_out apply batch_size p in
          more-IsAccounted d ds p p'
            (filtered-IsStep parse leave_out apply batch_size d e p good out)
            (rw (good, out, take_records) refl) (take_records-IsAccounted ds p' h.1)
      | inr kept ↦
          let p' = accept_record parse leave_out apply batch_size p e in
          step-IsAccounted d ds p p'
            (accepted-IsStep parse leave_out apply batch_size d e p good kept)
            (rw (good, kept, take_records) refl) (take_records-IsAccounted ds p' h.1)
    ]
  ]
