-- ===== src/State/Findings/Acknowledge.antt =====
-- `FindingStore::acknowledge` against `FindingStore::get`.
use mathlib.Core.Option
use execution_aware_scanner.Prelude.{
  ℕ, ◌≡◌, ◌≢◌, refl, ◌↔◌, Option, none, some, List, [], ◌∷◌, ◌++◌, find, length, arith,
  if◌then◌else◌,
}
use execution_aware_scanner.Text.{Text, codes}
use execution_aware_scanner.Containers.Order.{text_ord, ◌=?◌, =?_sound, =?_refl}
use execution_aware_scanner.State.Findings.{
  FindingSummary, FindingStore, ok, err, get, mark, acknowledge_first, acknowledge,
}

module _ {F : Type 0} where
  abbrev at_id : Text → List (FindingSummary F) → Option (FindingSummary F)
  at_id id fs = find (λ (f : FindingSummary F). f.id =? id) fs

  -- What acknowledging does to a list: it fails if the id is missing, and otherwise marks what a
  -- search for the id finds, in a list of the same length, and nothing else.
  abbrev Acknowledged :
      List (FindingSummary F)
      → Text
      → ℕ
      → Option Text
      → Text
      → Option (List (FindingSummary F))
      → Type 0
  Acknowledged fs id now reason j none = at_id id fs ≡ none
  Acknowledged fs id now reason j (some fs') =
      (at_id id fs ≢ none)
      × (at_id j fs'
          ≡ (if j =? id then Option.map (λ f. mark f now reason) (at_id id fs) else at_id j fs))
      × (length fs' ≡ length fs)

  acknowledge_first-Acknowledged :
      (fs : List (FindingSummary F)) (id : Text) (now : ℕ) (reason : Option Text) (j : Text)
      → Acknowledged fs id now reason j (acknowledge_first fs id now reason)
  unfolding acknowledge_first
  acknowledge_first-Acknowledged [] id now reason j = refl
  acknowledge_first-Acknowledged (f ∷ fs) id now reason j = ground (
    arith,
    acknowledge_first-Acknowledged fs id now reason j,
    =?_sound f.id id,
    =?_sound f.id j,
    =?_sound j id,
    =?_refl id,
    =?_refl j,
  )

  -- Acknowledging a finding fails exactly if no finding has the id, with a message that names it.
  pub acknowledge_err :
      (s : FindingStore F) (id : Text) (now : ℕ) (reason : Option Text)
      → (get s id ≡ none)
        ↔ (acknowledge s id now reason ≡ err (codes "Finding " ++ id ++ codes " not found"))
  unfolding get acknowledge
  acknowledge_err s id now reason =
      let lem = acknowledge_first-Acknowledged s.findings id now reason id in
      (λ h. ground (arith, lem), λ h. ground (arith, lem))

  -- When acknowledging a finding succeeds, a search for its id finds what it found before, marked as
  -- acknowledged with the time and the reason, a search for any other id finds what it found before,
  -- and the number of findings is the same.
  acknowledge_ok :
      (s : FindingStore F) {t : FindingStore F} (id : Text) (now : ℕ) (reason : Option Text)
      (j : Text)
      → acknowledge s id now reason ≡ ok t
      → (get t j ≡ (if j =? id then Option.map (λ f. mark f now reason) (get s id) else get s j))
        × (length t.findings ≡ length s.findings)
  unfolding get acknowledge
  acknowledge_ok s id now reason j h =
      ground (arith, acknowledge_first-Acknowledged s.findings id now reason j)
