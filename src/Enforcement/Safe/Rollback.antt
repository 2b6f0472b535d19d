-- ===== src/Enforcement/Safe/Rollback.antt =====
-- What is recorded for taking an action back, and that it is safe to paste into a shell.
use execution_aware_scanner.Prelude.{
  ℕ, ◌≡◌, refl, Bool, true, false, some, List, [], ◌∷◌, ◌++◌, arith, if◌then◌else◌, All, inl, inr,
  ap, ◌∙◌, length,
}
use execution_aware_scanner.Text.{Text, codes, decimal}
use execution_aware_scanner.Outcome.{ok}
use execution_aware_scanner.Containers.Order.{text_ord, ◌=?◌}
use execution_aware_scanner.Containers.OrdMap.{OrdMap, lookup, lookup-insert, Values, Values-insert}
use execution_aware_scanner.Float.{Float}
use execution_aware_scanner.Risk.Evaluate.{RiskConfig}
use execution_aware_scanner.Enforcement.Sanitize.{sanitize_shell_arg, sanitize_path, sanitize_ip}
use execution_aware_scanner.Enforcement.Sanitize.Commands.{
  IsPlain, IsPlain-append, sanitize_shell_arg-IsPlain, sanitize_path-IsPlain, sanitize_ip-IsPlain,
  decimal-IsPlain, literal-IsPlain,
}
use execution_aware_scanner.Enforcement.Plan.{
  EnforcementMode, EnforcementAction, ActionType, seccomp_profile, network_block, quarantine,
  rollback_of,
}
use execution_aware_scanner.Enforcement.Safe.{
  SafeEnforcer, rollback_entry, with_command, new, rollback, rollback_all, report, Attempt, attempt,
  run,
}
use execution_aware_scanner.Enforcement.Safe.Gate.{enforce-cases, enforce_ok_cools}

five-IsPlain :
    (a b c d e : Text)
    → IsPlain a
    → IsPlain b
    → IsPlain c
    → IsPlain d
    → IsPlain e
    → IsPlain (a ++ b ++ c ++ d ++ e)
five-IsPlain a b c d e ha hb hc hd he =
    IsPlain-append (a ++ b ++ c ++ d) e
      (IsPlain-append (a ++ b ++ c) d (IsPlain-append (a ++ b) c (IsPlain-append a b ha hb) hc) hd)
      he

rollback_of-IsPlain : (a : ActionType) → IsPlain (rollback_of a)
unfolding rollback_of
rollback_of-IsPlain (seccomp_profile path) =
    IsPlain-append (codes "kubectl delete seccompprofile ") (sanitize_path path)
      (literal-IsPlain _ refl) (sanitize_path-IsPlain path)
rollback_of-IsPlain (network_block ip port) =
    five-IsPlain (codes "tc filter del dev eth0 protocol ip prio 1 u32 match ip dst ")
      (sanitize_ip ip) (codes " match ip dport ") (decimal port) (codes " 0xffff")
      (literal-IsPlain _ refl) (sanitize_ip-IsPlain ip) (literal-IsPlain _ refl)
      (decimal-IsPlain port) (literal-IsPlain _ refl)
rollback_of-IsPlain (quarantine namespace pod) =
    five-IsPlain (codes "kubectl label pods ") (sanitize_shell_arg pod) (codes " -n ")
      (sanitize_shell_arg namespace) (codes " security.execution-aware-scanner/quarantine-")
      (literal-IsPlain _ refl) (sanitize_shell_arg-IsPlain pod) (literal-IsPlain _ refl)
      (sanitize_shell_arg-IsPlain namespace) (literal-IsPlain _ refl)

-- The action has a command to take it back, and a shell takes that command as it is.
record CanUndo (a : EnforcementAction) : Type 0 where
  command : Text
  recorded : a.rollback_command ≡ some command
  plain : IsPlain command

with_command-CanUndo :
    (actions : OrdMap Text EnforcementAction)
    → Values CanUndo actions
    → (length (with_command actions) ≡ length actions)
      × All (λ (r : Text × Text). IsPlain r.1) (with_command actions)
with_command-CanUndo [] h = (refl, tt)
with_command-CanUndo ((cve, action) ∷ actions) (u, h) =
    let (count, plain) = with_command-CanUndo actions h in
    rw u.recorded (omega (arith, count), (u.plain, plain))

module _ {F : Type 0} ⦃f : Float F⦄ (show : ℕ → Text) where
  attempt-CanUndo :
      (e : SafeEnforcer F) (a : Attempt F)
      → Values CanUndo e.applied_actions
      → Values CanUndo (attempt show e a).0.applied_actions
  unfolding attempt
  attempt-CanUndo e a h =
      elim (enforce-cases show e a.finding a.action a.epss a.kev a.now a.stamped a.cooled) [
        | inl (approved, done) ↦ rw done (
            Values-insert CanUndo _ _ e.applied_actions
              (record {
                command = rollback_of a.action;
                recorded = refl;
                plain = rollback_of-IsPlain a.action;
              })
              h)
        | inr (m, blocked) ↦ rw blocked h
      ]

  run-CanUndo :
      (e : SafeEnforcer F) (attempts : List (Attempt F))
      → Values CanUndo e.applied_actions
      → Values CanUndo (run show e attempts).applied_actions
  unfolding run
  run-CanUndo e [] h = h
  run-CanUndo e (a ∷ attempts) h = run-CanUndo (attempt show e a).0 attempts (attempt-CanUndo e a h)

  -- Whatever a new enforcer attempts, on findings and actions with any text in them, it can list a
  -- command to take back each action that it reports as enforced, and each of these commands has
  -- only letters, digits, `-`, `_`, `.`, `/` and spaces.
  pub rollback_all-IsPlain :
      (mode : EnforcementMode) (config : RiskConfig F) (attempts : List (Attempt F))
      → let e = run show (new mode config) attempts in
        (length (rollback_all e) ≡ (report e).total_enforced)
        × ((report e).total_enforced ≡ (report e).rollback_available)
        × All (λ (r : Text × Text). IsPlain r.1) (rollback_all e)
  unfolding rollback_all report new
  rollback_all-IsPlain mode config attempts =
      let (count, plain) = with_command-CanUndo _ (run-CanUndo (new mode config) attempts tt) in
      (count, refl, plain)

  -- After an applied action, the rollback of its CVE, under the name without the characters that are
  -- not safe in a shell, is the command that undoes it; every other name has the rollback it had,
  -- also the CVE's own where a character of it is not safe.
  pub rollback-enforce :
      (e : SafeEnforcer F) (a : Attempt F) (id : Text) {m : Text}
      → (attempt show e a).1 ≡ ok m
      → rollback (attempt show e a).0 id ≡ (
          if id =? sanitize_shell_arg a.finding.signal.cve
          then ok (codes "To rollback, execute: " ++ rollback_of a.action)
          else rollback e id)
  unfolding attempt rollback
  rollback-enforce e a id h =
      let cve = sanitize_shell_arg a.finding.signal.cve in
      rw (enforce_ok_cools show e a.finding a.action a.epss a.kev a.now a.stamped a.cooled h)
        (ap (rollback_entry id) (lookup-insert id cve _ e.applied_actions) ∙ entry_if (id =? cve))
    where
      entry_if :
          (b : Bool)
          → rollback_entry id (
              if b
              then some (record {
                cve_id = sanitize_shell_arg a.finding.signal.cve;
                timestamp = a.stamped;
                action_type = a.action;
                rollback_command = some (rollback_of a.action);
              })
              else lookup id e.applied_actions)
            ≡ (if b
                then ok (codes "To rollback, execute: " ++ rollback_of a.action)
                else rollback_entry id (lookup id e.applied_actions))
      entry_if true = refl
      entry_if false = refl
