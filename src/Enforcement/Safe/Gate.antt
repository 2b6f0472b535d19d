-- ===== src/Enforcement/Safe/Gate.antt =====
-- When an action is applied, and that none follows within five minutes.
use execution_aware_scanner.Prelude.{
  ℕ, ◌+◌, ◌<◌, ◌≡◌, refl, ◌↔◌, ◌⊎◌, Bool, true, false, List, [], ◌∷◌, arith, ltb, All, Bool-cases,
  inl, inr, ap, ◌∙◌,
}
use execution_aware_scanner.Text.{Text}
use execution_aware_scanner.Clock.{secs}
use execution_aware_scanner.Outcome.{ok, err, ScannerError}
use execution_aware_scanner.Common.Finding.{Finding, critical}
use execution_aware_scanner.Float.{Float, lit, ◌≼◌, ◌<?◌}
use execution_aware_scanner.Enforcement.Sanitize.{sanitize_shell_arg}
use execution_aware_scanner.Enforcement.Plan.{
  ActionType, enforcing, applied_message, blocked_error, cooling_error,
}
use execution_aware_scanner.Enforcement.Safe.{
  SafeEnforcer, is_cooling, record_action, enforce, evaluate, Attempt, attempt, run,
}

module _ {F : Type 0} ⦃f : Float F⦄ where
  -- What has to hold for an action to be applied.
  abbrev pub Approved : SafeEnforcer F → Finding F → F → Bool → ℕ → Type 0
  Approved e finding epss kev now =
      (e.mode ≡ enforcing)
      × (finding.priority ≡ critical)
      × (kev ≡ true)
      × ((lit 800 <? finding.score) ≡ true)
      × (e.risk_config.minimum_epss ≼ epss)
      × (is_cooling e now ≡ false)

  gate :
      (e : SafeEnforcer F) (finding : Finding F) (epss : F) (kev : Bool) (now : ℕ)
      → (((evaluate e finding epss kev).should_enforce ≡ true) × (is_cooling e now ≡ false))
        ↔ Approved e finding epss kev now
  unfolding evaluate
  gate e finding epss kev now = ground arith

module _ {F : Type 0} ⦃f : Float F⦄ (show : ℕ → Text) (e : SafeEnforcer F) (finding : Finding F)
    (action : ActionType) (epss : F) (kev : Bool) (now stamped cooled : ℕ) where
  -- Either the gate lets the action through, and it is recorded, or nothing changes.
  pub enforce-cases :
      (Approved e finding epss kev now
        × (enforce show e finding action epss kev now stamped cooled ≡ (
          record_action e (sanitize_shell_arg finding.signal.cve) action stamped cooled,
          ok (applied_message (sanitize_shell_arg finding.signal.cve)),
        )))
      ⊎ ((m : ScannerError) × (enforce show e finding action epss kev now stamped cooled
            ≡ (e, err m)))
  unfolding enforce
  enforce-cases = elim (Bool-cases (evaluate e finding epss kev).should_enforce) [
    | inr blocked ↦
        inr (
          blocked_error finding.signal.cve (evaluate e finding epss kev).rationale,
          rw blocked refl,
        )
    | inl passed ↦ elim (Bool-cases (is_cooling e now)) [
      | inl cooling ↦
          inr (cooling_error show finding.signal.cve e.cooldown_until, rw (passed, cooling) refl)
      | inr ready ↦ inl ((gate e finding epss kev now).0 (passed, ready), rw (passed, ready) refl)
    ]
  ]

  -- An action is applied exactly if the enforcer is in enforcing mode, the finding is critical and
  -- scores above eight, its CVE is in the KEV catalog and its EPSS is not below the minimum, and no
  -- cooldown is under way.
  pub enforce_iff_Approved :
      ((enforce show e finding action epss kev now stamped cooled).1
        ≡ ok (applied_message (sanitize_shell_arg finding.signal.cve)))
      ↔ Approved e finding epss kev now
  unfolding enforce
  enforce_iff_Approved = elim enforce-cases [
    | inl (approved, done) ↦ (λ h. approved, λ h. ap (λ r. r.1) done)
    | inr (m, blocked) ↦ (
      λ h. ground (arith, ap (λ r. r.1) blocked),
      λ h. let (passed, ready) = (gate e finding epss kev now).1 h in rw (passed, ready) refl,
    )
  ]

  -- A refused action changes nothing: neither the record of actions nor the cooldown.
  pub enforce_err :
      {m : ScannerError}
      → (enforce show e finding action epss kev now stamped cooled).1 ≡ err m
      → (enforce show e finding action epss kev now stamped cooled).0 ≡ e
  enforce_err h = elim enforce-cases [
    | inl (approved, done) ↦ ground (arith, ap (λ r. r.1) done)
    | inr (m', blocked) ↦ ap (λ r. r.0) blocked
  ]

  -- An applied action starts a cooldown of five minutes.
  pub enforce_ok_cools :
      {m : Text}
      → (enforce show e finding action epss kev now stamped cooled).1 ≡ ok m
      → (enforce show e finding action epss kev now stamped cooled).0
        ≡ record_action e (sanitize_shell_arg finding.signal.cve) action stamped cooled
  enforce_ok_cools h = elim enforce-cases [
    | inl (approved, done) ↦ ap (λ r. r.0) done
    | inr (m', blocked) ↦ ground (arith, ap (λ r. r.1) blocked)
  ]

module _ {F : Type 0} ⦃f : Float F⦄ (show : ℕ → Text) where
  cooling_attempt :
      (e : SafeEnforcer F) (a : Attempt F) → is_cooling e a.now ≡ true → (attempt show e a).0 ≡ e
  unfolding attempt
  cooling_attempt e a h =
      elim (enforce-cases show e a.finding a.action a.epss a.kev a.now a.stamped a.cooled) [
        | inl (approved, done) ↦ ground (arith, approved)
        | inr (m, blocked) ↦ ap (λ r. r.0) blocked
      ]

  cooling_run :
      (e : SafeEnforcer F) (attempts : List (Attempt F))
      → All (λ (a : Attempt F). is_cooling e a.now ≡ true) attempts
      → run show e attempts ≡ e
  unfolding run
  cooling_run e [] h = refl
  cooling_run e (a ∷ attempts) h =
      ap (λ k. run show k attempts) (cooling_attempt e a h.0) ∙ cooling_run e attempts h.1

  -- After an action that was applied, attempts on any findings, as many as there are, leave the
  -- enforcer as it is while their clocks read less than five minutes after the end of that action.
  pub cooldown_blocks :
      (e : SafeEnforcer F) (a : Attempt F) (attempts : List (Attempt F)) {m : Text}
      → (attempt show e a).1 ≡ ok m
      → All (λ (b : Attempt F). b.now < a.cooled + secs 300) attempts
      → run show (attempt show e a).0 attempts ≡ (attempt show e a).0
  unfolding attempt
  cooldown_blocks e a attempts h times =
      let done =
        enforce_ok_cools show e a.finding a.action a.epss a.kev a.now a.stamped a.cooled h in
      rw done (cooling_run _ attempts (cooling attempts times))
    where
      cooling :
          (bs : List (Attempt F))
          → All (λ (b : Attempt F). b.now < a.cooled + secs 300) bs
          → All (λ (b : Attempt F). ltb b.now (a.cooled + secs 300) ≡ true) bs
      cooling [] t = tt
      cooling (b ∷ bs) t = (ground (arith, t.0), cooling bs t.1)
