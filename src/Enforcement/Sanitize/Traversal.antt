-- ===== src/Enforcement/Sanitize/Traversal.antt =====
-- That the removal of `..` comes before the removal of other characters.
use execution_aware_scanner.Prelude.{
  ℕ, ◌≡◌, refl, Bool, true, false, not, ◌&&◌, [], ◌∷◌, ◌++◌, arith, ◌==◌, keep, all, Bool-cases,
  inl, inr, ap, ◌∙◌,
}
use execution_aware_scanner.Text.{Text}
use execution_aware_scanner.Enforcement.Sanitize.{is_path_char, sanitize_path, remove_parents}

-- A character of a path other than the dot.
unfoldable pub is_name_char : ℕ → Bool
is_name_char c = is_path_char c && not (c == b'.')

name_char : (c : ℕ) → is_name_char c ≡ true → (is_path_char c ≡ true) × ((c == b'.') ≡ false)
unfolding is_name_char
name_char c h = ground arith

first_name :
    (c : ℕ) (s : Text)
    → all is_name_char (c ∷ s) ≡ true
    → (is_path_char c ≡ true) × ((c == b'.') ≡ false) × (all is_name_char s ≡ true)
first_name c s h = elim (Bool-cases (is_name_char c)) [
  | inl name ↦ let here = name_char c name in (here.0, here.1, ground arith)
  | inr other ↦ ground arith
]

keep_names : (s : Text) → all is_name_char s ≡ true → keep is_path_char s ≡ s
keep_names [] h = refl
keep_names (c ∷ s) h = let (path, dot, rest) = first_name c s h in rw (path, keep_names s rest) refl

remove_from_names : (s : Text) → all is_name_char s ≡ true → remove_parents s ≡ s
unfolding remove_parents
remove_from_names [] h = refl
remove_from_names (a ∷ []) h = refl
remove_from_names (a ∷ b ∷ s) h =
    let (path, dot, rest) = first_name a (b ∷ s) h in rw (dot, remove_from_names (b ∷ s) rest) refl

keep-append : (s t : Text) → keep is_path_char (s ++ t) ≡ keep is_path_char s ++ keep is_path_char t
keep-append [] t = refl
keep-append (a ∷ s) t = elim (Bool-cases (is_path_char a)) [
  | inl path ↦ rw (path, keep-append s t) refl
  | inr other ↦ rw (other, keep-append s t) refl
]

remove_first :
    (a : ℕ) (t : Text) → (a == b'.') ≡ false → remove_parents (a ∷ t) ≡ a ∷ remove_parents t
unfolding remove_parents
remove_first a [] h = refl
remove_first a (b ∷ t) h = rw h refl

remove_names :
    (s t : Text) → all is_name_char s ≡ true → remove_parents (s ++ t) ≡ s ++ remove_parents t
remove_names [] t h = refl
remove_names (a ∷ s) t h =
    let (path, dot, rest) = first_name a s h in
    remove_first a (s ++ t) dot ∙ ap (λ r. a ∷ r) (remove_names s t rest)

path_is_no_dot : (c : ℕ) → is_path_char c ≡ false → (c == b'.') ≡ false
path_is_no_dot c h = ground arith

remove_dot :
    (c : ℕ) (after : Text)
    → (c == b'.') ≡ false
    → all is_name_char after ≡ true
    → remove_parents (b'.' ∷ c ∷ b'.' ∷ after) ≡ b'.' ∷ c ∷ b'.' ∷ after
unfolding remove_parents
remove_dot c [] h k = rw h refl
remove_dot c (a ∷ after) h k =
    let (path, dot, rest) = first_name a after k in
    rw (h, dot, remove_from_names (a ∷ after) k) refl

-- Between names without dots, two dots with a character between them that a path must not hold come
-- out as `..`: that character is dropped only after the parent steps have been.
sanitize_path_traverses :
    (before after : Text) (c : ℕ)
    → all is_name_char before ≡ true
    → all is_name_char after ≡ true
    → is_path_char c ≡ false
    → sanitize_path (before ++ b'.' ∷ c ∷ b'.' ∷ after) ≡ before ++ b'.' ∷ b'.' ∷ after
unfolding sanitize_path
sanitize_path_traverses before after c hb ha hc =
    let dots : Text = b'.' ∷ c ∷ b'.' ∷ after in
    rw (remove_names before dots hb, remove_dot c after (path_is_no_dot c hc) ha)
      (rw (keep-append before dots, keep_names before hb, hc, keep_names after ha) refl)
