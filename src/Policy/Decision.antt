-- ===== src/Policy/Decision.antt =====
-- What `evaluate` of scanner-agent/src/policy_engine.rs decides.
use execution_aware_scanner.Prelude.{
  ◌≡◌, refl, sym, ap, ◌∙◌, ◌⊎◌, inl, inr, Bool, true, false, Option, none, some, List, [], ◌∷◌,
  ◌++◌, All,
}
use execution_aware_scanner.Text.{Text}
use execution_aware_scanner.Policy.{
  PolicyInfo, PolicyDecision, PolicyEngine, PolicyInput, Opa, evaluate_policy, decide,
  first_decision, if_decides, evaluate_all, evaluate,
}

-- A policy that is switched off, or decides nothing, or fails
abbrev pub IsUndecided : Opa → Text → PolicyInfo → Type 0
IsUndecided opa input p = (p.enabled ≡ false) ⊎ (decide opa p input ≡ none)

-- The first of some policies that decides, and what it decides
pub record IsFirst (opa : Opa) (input : Text) (ps : List PolicyInfo) (d : PolicyDecision)
    : Type 0 where
  pub before : List PolicyInfo
  pub policy : PolicyInfo
  pub behind : List PolicyInfo
  pub split : ps ≡ before ++ policy ∷ behind
  pub undecided : All (IsUndecided opa input) before
  pub enabled : policy.enabled ≡ true
  pub decides : decide opa policy input ≡ some d

abbrev pub Decided : Opa → Text → List PolicyInfo → Option PolicyDecision → Type 0
Decided opa input ps r =
    ((r ≡ none) × All (IsUndecided opa input) ps)
    ⊎ ((d : PolicyDecision) × ((r ≡ some d) × IsFirst opa input ps d))

pass_over :
    (opa : Opa) (input : Text) (p : PolicyInfo) (ps : List PolicyInfo) (r : Option PolicyDecision)
    → IsUndecided opa input p
    → Decided opa input ps r
    → Decided opa input (p ∷ ps) r
pass_over opa input p ps r h (inl (nothing, all)) = inl (nothing, (h, all))
pass_over opa input p ps r h (inr (d, (result, f))) = inr (
  d,
  (
    result,
    record {
      before = p ∷ f.before;
      policy = f.policy;
      behind = f.behind;
      split = ap (λ (xs : List PolicyInfo). p ∷ xs) f.split;
      undecided = (h, f.undecided);
      enabled = f.enabled;
      decides = f.decides;
    },
  ),
)

if_decides_lem :
    (opa : Opa) (input : Text) (p : PolicyInfo) (ps : List PolicyInfo)
    (rest : Option PolicyDecision) (enabled : Bool) (decision : Option PolicyDecision)
    → p.enabled ≡ enabled
    → decide opa p input ≡ decision
    → Decided opa input ps rest
    → Decided opa input (p ∷ ps) (if_decides enabled decision rest)
if_decides_lem opa input p ps rest false decision off h k =
    pass_over opa input p ps rest (inl off) k
if_decides_lem opa input p ps rest true none on h k = pass_over opa input p ps rest (inr h) k
if_decides_lem opa input p ps rest true (some d) on h k = inr (
  d,
  (
    refl,
    record {
      before = [];
      policy = p;
      behind = ps;
      split = refl;
      undecided = tt;
      enabled = on;
      decides = h;
    },
  ),
)

first_decision_lem :
    (opa : Opa) (input : Text) (ps : List PolicyInfo)
    → Decided opa input ps (first_decision opa ps input)
unfolding first_decision
first_decision_lem opa input [] = inl (refl, tt)
first_decision_lem opa input (p ∷ ps) =
    if_decides_lem opa input p ps (first_decision opa ps input) p.enabled (decide opa p input) refl
      refl (first_decision_lem opa input ps)

same_decision :
    (opa : Opa) (ps : List PolicyInfo) (s t : Text)
    → first_decision opa ps s ≡ first_decision opa ps t
unfolding first_decision decide evaluate_policy
same_decision opa [] s t = refl
same_decision opa (p ∷ ps) s t =
    ap (if_decides p.enabled (decide opa p s)) (same_decision opa ps s t)

evaluate_all-some :
    (opa : Opa) (ps : List PolicyInfo) (s : Text)
    → evaluate_all opa ps (some s) ≡ first_decision opa ps s
unfolding first_decision
evaluate_all-some opa [] s = refl
evaluate_all-some opa (p ∷ ps) s = refl

module _ {F : Type 0} where
  evaluate_decides :
      (to_json : PolicyInput F → Option Text) (opa : Opa) (e : PolicyEngine) (x : PolicyInput F)
      (s : Text)
      → to_json x ≡ some s
      → evaluate to_json opa e x ≡ first_decision opa e.policies s
  unfolding evaluate
  evaluate_decides to_json opa e x s h =
      ap (evaluate_all opa e.policies) h ∙ evaluate_all-some opa e.policies s

  -- For an input that serializes: the result is the decision of the first policy that is enabled and
  -- decides, whatever others behind it decide; or nothing, and then each policy is switched off, or
  -- decides nothing, or fails.
  pub evaluate_first :
      (to_json : PolicyInput F → Option Text) (opa : Opa) (e : PolicyEngine) (x : PolicyInput F)
      (s : Text)
      → to_json x ≡ some s
      → Decided opa s e.policies (evaluate to_json opa e x)
  evaluate_first to_json opa e x s h =
      rw (evaluate_decides to_json opa e x s h) (first_decision_lem opa s e.policies)

  -- Whatever the program `opa` is: two findings that serialize get the same decision, whatever is in
  -- them.
  pub evaluate_ignores_finding :
      (to_json : PolicyInput F → Option Text) (opa : Opa) (e : PolicyEngine) (x y : PolicyInput F)
      (s t : Text)
      → to_json x ≡ some s
      → to_json y ≡ some t
      → evaluate to_json opa e x ≡ evaluate to_json opa e y
  evaluate_ignores_finding to_json opa e x y s t h k =
      evaluate_decides to_json opa e x s h
      ∙ same_decision opa e.policies s t
      ∙ sym (evaluate_decides to_json opa e y t k)
