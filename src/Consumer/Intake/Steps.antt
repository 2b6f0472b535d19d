-- ===== src/Consumer/Intake/Steps.antt =====
-- What the records that a loop takes off a ring buffer add up to.
use execution_aware_scanner.Prelude.{
  ℕ, ◌+◌, ◌%◌, ◌≤◌, ◌≡◌, refl, ap, ◌∙◌, sym, ◌⊎◌, Bool, true, false, List, [], ◌∷◌, ◌++◌, foldl,
  arith, length, length-append, if◌then◌else◌,
}
use mathlib.Core.List.{append_assoc, append-nil}
use execution_aware_scanner.Clock.{u64_mod}
use execution_aware_scanner.Consumer.Records.{Parsed, rejected, undefined_value, parsed}
use execution_aware_scanner.Consumer.Intake.{Progress, drop_record, filter_record, accept_record}

module _ {E S : Type 0} (parse : List ℕ → Parsed E) (leave_out : E → Bool) (apply : S → E → S)
    (batch_size : ℕ) where
  -- The events of some records that are neither rejected nor filtered.
  abbrev pub accepted_of : Parsed E → List E
  accepted_of rejected = []
  accepted_of undefined_value = []
  accepted_of (parsed e) = if leave_out e then [] else e ∷ []

  abbrev pub accepted : List (List ℕ) → List E
  accepted [] = []
  accepted (d ∷ ds) = accepted_of (parse d) ++ accepted ds

  abbrev pub rejected_one : Parsed E → ℕ
  rejected_one rejected = 1
  rejected_one _ = 0

  abbrev pub filtered_one : Parsed E → ℕ
  filtered_one (parsed e) = if leave_out e then 1 else 0
  filtered_one _ = 0

  abbrev pub rejections : List (List ℕ) → ℕ
  rejections [] = 0
  rejections (d ∷ ds) = rejected_one (parse d) + rejections ds

  abbrev pub filterings : List (List ℕ) → ℕ
  filterings [] = 0
  filterings (d ∷ ds) = filtered_one (parse d) + filterings ds

  -- The loop has taken some records off the front of the ring buffer, and what it changed is what
  -- they add up to; it has stopped with the buffer empty or the batch full.
  pub record IsTaken (taken : List (List ℕ)) (p q : Progress E S) (rest : List (List ℕ))
      : Type 0 where
    pub batch : q.batch ≡ p.batch ++ accepted taken
    pub store : q.store ≡ foldl apply p.store (accepted taken)
    pub count : q.count ≡ p.count + length (accepted taken)
    pub counted : q.counted ≡ p.counted + length (accepted taken)
    pub received : q.received % u64_mod ≡ (p.received + length taken) % u64_mod
    pub dropped : q.dropped % u64_mod ≡ (p.dropped + rejections taken) % u64_mod
    pub filtered : q.filtered % u64_mod ≡ (p.filtered + filterings taken) % u64_mod
    pub all_seen : length taken ≡ rejections taken + filterings taken + length (accepted taken)
    pub stopped : (rest ≡ []) ⊎ (batch_size ≤ length q.batch)

  -- The part of this that one record does.
  pub record IsStep (d : List ℕ) (p q : Progress E S) : Type 0 where
    pub batch : q.batch ≡ p.batch ++ accepted_of (parse d)
    pub store : q.store ≡ foldl apply p.store (accepted_of (parse d))
    pub count : q.count ≡ p.count + length (accepted_of (parse d))
    pub counted : q.counted ≡ p.counted + length (accepted_of (parse d))
    pub received : q.received % u64_mod ≡ (p.received + 1) % u64_mod
    pub dropped : q.dropped % u64_mod ≡ (p.dropped + rejected_one (parse d)) % u64_mod
    pub filtered : q.filtered % u64_mod ≡ (p.filtered + filtered_one (parse d)) % u64_mod
    pub seen : 1 ≡ rejected_one (parse d) + filtered_one (parse d) + length (accepted_of (parse d))

  foldl-append :
      (s : S) (xs ys : List E) → foldl apply s (xs ++ ys) ≡ foldl apply (foldl apply s xs) ys
  foldl-append s [] ys = refl
  foldl-append s (x ∷ xs) ys = foldl-append (apply s x) xs ys

  pub first-IsTaken :
      (d : List ℕ) (taken : List (List ℕ)) (p p' q : Progress E S) (rest : List (List ℕ))
      → IsStep d p p'
      → IsTaken taken p' q rest
      → IsTaken (d ∷ taken) p q rest
  first-IsTaken d taken p p' q rest one more =
      let size = length-append (accepted_of (parse d)) (accepted taken) in
      record {
        batch =
            more.batch
            ∙ ap (λ b. b ++ accepted taken) one.batch
            ∙ append_assoc p.batch (accepted_of (parse d)) (accepted taken);
        store =
            more.store
            ∙ ap (λ s. foldl apply s (accepted taken)) one.store
            ∙ sym (foldl-append p.store (accepted_of (parse d)) (accepted taken));
        count = omega (arith, more.count, one.count, size);
        counted = omega (arith, more.counted, one.counted, size);
        received = omega (arith, more.received, one.received);
        dropped = omega (arith, more.dropped, one.dropped);
        filtered = omega (arith, more.filtered, one.filtered);
        all_seen = omega (arith, more.all_seen, one.seen, size);
        stopped = more.stopped;
      }

  pub none-IsTaken :
      (p : Progress E S) (rest : List (List ℕ))
      → (rest ≡ []) ⊎ (batch_size ≤ length p.batch)
      → IsTaken [] p p rest
  none-IsTaken p rest stopped = record {
    batch = sym (append-nil p.batch);
    store = refl;
    count = omega arith;
    counted = omega arith;
    received = omega arith;
    dropped = omega arith;
    filtered = omega arith;
    all_seen = omega arith;
    stopped = stopped;
  }

  pub rejected-IsStep :
      (d : List ℕ) (p : Progress E S)
      → parse d ≡ rejected
      → IsStep d p (drop_record parse leave_out apply batch_size p)
  rejected-IsStep d p h = record {
    batch = rw h (sym (append-nil p.batch));
    store = rw h refl;
    count = rw h (omega arith);
    counted = rw h (omega arith);
    received = omega arith;
    dropped = rw h (omega arith);
    filtered = rw h (omega arith);
    seen = rw h (omega arith);
  }

  pub filtered-IsStep :
      (d : List ℕ) (e : E) (p : Progress E S)
      → parse d ≡ parsed e
      → leave_out e ≡ true
      → IsStep d p (filter_record parse leave_out apply batch_size p)
  filtered-IsStep d e p h out = record {
    batch = rw (h, out) (sym (append-nil p.batch));
    store = rw (h, out) refl;
    count = rw (h, out) (omega arith);
    counted = rw (h, out) (omega arith);
    received = omega arith;
    dropped = rw h (omega arith);
    filtered = rw (h, out) (omega arith);
    seen = rw (h, out) (omega arith);
  }

  pub accepted-IsStep :
      (d : List ℕ) (e : E) (p : Progress E S)
      → parse d ≡ parsed e
      → leave_out e ≡ false
      → IsStep d p (accept_record parse leave_out apply batch_size p e)
  accepted-IsStep d e p h kept = record {
    batch = rw (h, kept) refl;
    store = rw (h, kept) refl;
    count = rw (h, kept) (omega arith);
    counted = rw (h, kept) (omega arith);
    received = omega arith;
    dropped = rw h (omega arith);
    filtered = rw (h, kept) (omega arith);
    seen = rw (h, kept) (omega arith);
  }
