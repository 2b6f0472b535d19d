-- ===== src/Sla/Tracking.antt =====
-- From the start of an operation to its completion, whatever happens to others meanwhile.
use execution_aware_scanner.Prelude.{
  ℕ, ◌-◌, ◌≡◌, refl, ap, ◌∙◌, false, none, some, List, [], ◌∷◌, All, Option-cases, inl, inr,
}
use execution_aware_scanner.Text.{Text}
use execution_aware_scanner.Containers.Order.{text_ord, ◌=?◌, =?_refl}
use execution_aware_scanner.Containers.OrdMap.{
  OrdMap, lookup, remove, lookup-insert, lookup-insert_self, lookup-remove,
}
use execution_aware_scanner.Float.{Float}
use execution_aware_scanner.Sla.{
  TrackedOperation, SlaTracker, not_found, judge, start_operation, complete_operation, Call, starts,
  completes, id_of, step, run,
}

removed : {V : Type 0} (id : Text) (m : OrdMap Text V) → lookup id (remove id m) ≡ none
removed id m = lookup-remove id id m ∙ rw (=?_refl id) refl

module _ {F : Type 0} (t : SlaTracker F) (id operation : Text) (metadata : OrdMap Text Text)
    (began : ℕ) where
  started :
      lookup id (start_operation t id operation metadata began).in_flight
      ≡ some (record { operation = operation; started_at = began; metadata = metadata })
  unfolding start_operation
  started = lookup-insert_self id _ t.in_flight

  same_targets : (start_operation t id operation metadata began).targets ≡ t.targets
  unfolding start_operation
  same_targets = refl

module _ {F : Type 0} ⦃f : Float F⦄ (as_secs_f64 : ℕ → F) where
  -- Another operation's call.
  abbrev pub IsOther : Text → Call → Type 0
  IsOther id x = (id =? id_of x) ≡ false

  other_complete :
      (t : SlaTracker F) (id j : Text) (now : ℕ)
      → (id =? j) ≡ false
      → (lookup id (complete_operation as_secs_f64 t j now).0.in_flight ≡ lookup id t.in_flight)
        × ((complete_operation as_secs_f64 t j now).0.targets ≡ t.targets)
  unfolding complete_operation
  other_complete t id j now h = elim (Option-cases (lookup j t.in_flight)) [
    | inl missing ↦ rw (missing, complete_operation) (refl, refl)
    | inr (tracked, found) ↦
        rw (found, complete_operation) (lookup-remove id j t.in_flight ∙ rw h refl, refl)
  ]

  other_step :
      (t : SlaTracker F) (id : Text) (x : Call)
      → IsOther id x
      → (lookup id (step as_secs_f64 t x).in_flight ≡ lookup id t.in_flight)
        × ((step as_secs_f64 t x).targets ≡ t.targets)
  unfolding step start_operation
  other_step t id (starts j operation metadata now) h =
      (lookup-insert id j _ t.in_flight ∙ rw h refl, refl)
  other_step t id (completes j now) h = other_complete t id j now h

  other_run :
      (t : SlaTracker F) (id : Text) (xs : List Call)
      → All (IsOther id) xs
      → (lookup id (run as_secs_f64 t xs).in_flight ≡ lookup id t.in_flight)
        × ((run as_secs_f64 t xs).targets ≡ t.targets)
  unfolding run
  other_run t id [] h = (refl, refl)
  other_run t id (x ∷ xs) h =
      let (first, targets) = other_step t id x h.0 in
      let (rest, targets') = other_run (step as_secs_f64 t x) id xs h.1 in
      (rest ∙ first, targets' ∙ targets)

  complete_missing :
      (t : SlaTracker F) (id : Text) (now : ℕ)
      → lookup id t.in_flight ≡ none
      → complete_operation as_secs_f64 t id now ≡ (t, not_found)
  unfolding complete_operation
  complete_missing t id now h = rw (h, complete_operation) refl

  complete_found :
      (t : SlaTracker F) (id : Text) (tracked : TrackedOperation) (now : ℕ)
      → lookup id t.in_flight ≡ some tracked
      → ((complete_operation as_secs_f64 t id now).1
          ≡ (judge as_secs_f64 tracked
              (as_secs_f64 (now - tracked.started_at))
              (lookup tracked.operation t.targets)).1)
        × ((complete_operation as_secs_f64 t id now).0.in_flight ≡ remove id t.in_flight)
  unfolding complete_operation
  complete_found t id tracked now h = rw (h, complete_operation) (refl, refl)

  -- An operation that is started and later completed, with any calls for other operations between,
  -- is judged by the time between the two and by the target of its type, if there is one: it is a
  -- violation exactly if it took longer. Completed a second time, it is not found.
  complete-start :
      (t : SlaTracker F) (id operation : Text) (metadata : OrdMap Text Text) (began : ℕ)
      (others : List Call) (now now' : ℕ)
      → All (IsOther id) others
      → let t' = run as_secs_f64 (start_operation t id operation metadata began) others in
        let (done, result) = complete_operation as_secs_f64 t' id now in
        (result
          ≡ (judge as_secs_f64
              (record { operation = operation; started_at = began; metadata = metadata })
              (as_secs_f64 (now - began))
              (lookup operation t.targets)).1)
        × (complete_operation as_secs_f64 done id now' ≡ (done, not_found))
  complete-start t id operation metadata began others now now' h =
      let tracked : TrackedOperation = record {
        operation = operation;
        started_at = began;
        metadata = metadata;
      } in
      let t' = run as_secs_f64 (start_operation t id operation metadata began) others in
      let (kept, targets) = other_run (start_operation t id operation metadata began) id others h in
      let (result, gone) =
        complete_found t' id tracked now (kept ∙ started t id operation metadata began) in
      (
        result
            ∙ ap
                (λ ts.
                  (judge as_secs_f64 tracked (as_secs_f64 (now - began)) (lookup operation ts)).1)
                (targets ∙ same_targets t id operation metadata began),
        complete_missing _ id now' (ap (lookup id) gone ∙ removed id t'.in_flight),
      )
