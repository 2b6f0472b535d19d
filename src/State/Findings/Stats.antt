-- ===== src/State/Findings/Stats.antt =====
-- The counts of `FindingStore::stats`.
use execution_aware_scanner.Prelude.{
  ◌+◌, ◌≡◌, refl, Bool, List, [], ◌∷◌, arith, length, count_if, true, false, subst, sym,
}
use execution_aware_scanner.Text.{Text, compare_text}
use execution_aware_scanner.Common.Finding.{Priority, priority_name, low, medium, high, critical}
use execution_aware_scanner.Containers.Order.{text_ord, ◌=?◌, =?_sound}
use execution_aware_scanner.State.Findings.{
  FindingSummary, FindingStats, FindingStore, count_finding, count_findings, stats,
}

-- The priority that a summary's text names.
abbrev pub has_priority : {F : Type 0} → Priority → FindingSummary F → Bool
has_priority p f = f.priority =? priority_name p

-- The names of the priorities that are counted apart differ.
exclusive :
    (t : Text) (p q : Priority)
    → (priority_name p =? priority_name q) ≡ false
    → (t =? priority_name p) ≡ true
    → (t =? priority_name q) ≡ false
exclusive t p q h e =
    subst (λ u. (u =? priority_name q) ≡ false) (sym (=?_sound t (priority_name p) e)) h

-- One round adds one to the count of the finding's priority, the first that its name is.
abbrev pub Counts : {F : Type 0} → FindingStats → FindingStats → List (FindingSummary F) → Type 0
Counts t u fs =
    (u.critical ≡ t.critical + count_if (has_priority critical) fs)
    × (u.high ≡ t.high + count_if (has_priority high) fs)
    × (u.medium ≡ t.medium + count_if (has_priority medium) fs)
    × (u.low ≡ t.low + count_if (has_priority low) fs)
    × (u.acknowledged ≡ t.acknowledged + count_if (λ f. f.acknowledged) fs)
    × (u.critical + u.high + u.medium + u.low + u.informational
        ≡ t.critical + t.high + t.medium + t.low + t.informational + length fs)
    × (u.total ≡ t.total)

module _ {F : Type 0} where
  count_finding-Counts :
      (t : FindingStats) (f : FindingSummary F) → Counts t (count_finding t f) (f ∷ [])
  unfolding count_finding compare_text
  count_finding-Counts t f = ground (
    arith,
    exclusive f.priority critical high refl,
    exclusive f.priority critical medium refl,
    exclusive f.priority critical low refl,
    exclusive f.priority high medium refl,
    exclusive f.priority high low refl,
    exclusive f.priority medium low refl,
  )

  count_findings-Counts :
      (t : FindingStats) (fs : List (FindingSummary F)) → Counts t (count_findings t fs) fs
  unfolding count_findings
  count_findings-Counts t [] = omega arith
  count_findings-Counts t (f ∷ fs) =
      omega (arith, count_finding-Counts t f, count_findings-Counts (count_finding t f) fs)

  -- The counts of the critical, high, medium and low findings are right, that of the informational
  -- ones is the rest, so the five add up to the total, which is the number of findings; and the
  -- acknowledged ones are counted apart.
  stats_lem :
      (s : FindingStore F)
      → let t = stats s in
        let count = λ (p : Priority). count_if (has_priority p) s.findings in
        (t.critical ≡ count critical)
        × (t.high ≡ count high)
        × (t.medium ≡ count medium)
        × (t.low ≡ count low)
        × (t.critical + t.high + t.medium + t.low + t.informational ≡ t.total)
        × (t.total ≡ length s.findings)
        × (t.acknowledged ≡ count_if (λ (f : FindingSummary F). f.acknowledged) s.findings)
  unfolding stats
  stats_lem s = omega (
    arith,
    count_findings-Counts
        (record {
          total = length s.findings;
          critical = 0;
          high = 0;
          medium = 0;
          low = 0;
          informational = 0;
          acknowledged = 0;
        })
        s.findings,
  )
