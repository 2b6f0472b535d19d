-- ===== src/Streaming/Alerts.antt =====
-- How often a path raises an alert.
use execution_aware_scanner.Prelude.{
  ℕ, ◌+◌, ◌<◌, ◌≡◌, refl, sym, ap, ◌∙◌, subst, Bool, true, false, Bool-cases, inl, inr, some, List,
  [], ◌∷◌, arith, All,
}
use execution_aware_scanner.Text.{Text}
use execution_aware_scanner.Containers.Order.{text_ord, ◌=?◌, =?_sound}
use execution_aware_scanner.Containers.OrdMap.{lookup, lookup-insert, lookup-insert_self}
use execution_aware_scanner.Float.{Float, IsIeee, lit, ◌≼◌, ◌<?◌}
use execution_aware_scanner.Streaming.{
  StreamingState, crosses, is_cooling, with_confidence, with_alert, should_alert, Reading, read,
  read_all,
}

-- Of a reading for a path: something about it, and nothing about one for another path.
abbrev pub IfFor : {F : Type 0} → Text → (Reading F → Type 0) → Reading F → Type 0
IfFor id P r = elim (id =? r.path_id) [ true ↦ P r | false ↦ Unit ]

module _ {F : Type 0} ⦃f : Float F⦄ where
  -- The path's last alert was at that time.
  record IsAlerted (id : Text) (t cooldown : ℕ) (s : StreamingState F) : Type 0 where
    last : lookup id s.last_alert ≡ some t
    cooldown_is : s.alert_cooldown ≡ cooldown

  cooling :
      (s : StreamingState F) (id : Text) (t cooldown now : ℕ)
      → 0 < cooldown
      → now < t + cooldown
      → IsAlerted id t cooldown s
      → is_cooling s id now ≡ true
  cooling s id t cooldown now p h a =
      let same = a.cooldown_is in rw (a.last, is_cooling) (ground (arith, same))

  quiet_read :
      (s : StreamingState F) (id : Text) (t cooldown : ℕ) (r : Reading F)
      → 0 < cooldown
      → IfFor id (λ r. r.now < t + cooldown) r
      → IsAlerted id t cooldown s
      → IsAlerted id t cooldown (read s r).0
  unfolding read should_alert
  quiet_read s id t cooldown r p h a = elim (Bool-cases (crosses s r.path_id r.confidence)) [
    | inr stays ↦
        rw (stays, read, should_alert) (record { last = a.last; cooldown_is = a.cooldown_is })
    | inl rises ↦ elim (Bool-cases (is_cooling s r.path_id r.now)) [
      | inl wait ↦ rw (rises, wait, read, should_alert) a
      | inr free ↦ elim (Bool-cases (id =? r.path_id)) [
        | inl mine ↦
            let same : id ≡ r.path_id = =?_sound id r.path_id mine in
            let early : r.now < t + cooldown = rw (mine, IfFor) at h in
            let wait : is_cooling s r.path_id r.now ≡ true =
              subst (λ j. is_cooling s j r.now ≡ true) same
                (cooling s id t cooldown r.now p early a) in
            absurd (ground (arith, wait, free))
        | inr other ↦
            rw (rises, free, read, should_alert)
              (record {
                last = lookup-insert id r.path_id r.noted s.last_alert ∙ rw other a.last;
                cooldown_is = a.cooldown_is;
              })
      ]
    ]
  ]

  quiet_reads :
      (s : StreamingState F) (id : Text) (t cooldown : ℕ) (rs : List (Reading F))
      → 0 < cooldown
      → All (IfFor id (λ r. r.now < t + cooldown)) rs
      → IsAlerted id t cooldown s
      → IsAlerted id t cooldown (read_all s rs)
  unfolding read_all
  quiet_reads s id t cooldown [] p h a = a
  quiet_reads s id t cooldown (r ∷ rs) p h a =
      quiet_reads (read s r).0 id t cooldown rs p h.1 (quiet_read s id t cooldown r p h.0 a)

  alert-cases :
      (s : StreamingState F) (r : Reading F)
      → (read s r).1 ≡ true
      → (lit 80 ≼ r.confidence)
        × (read s r
            ≡ (with_confidence (with_alert s r.path_id r.noted) r.path_id r.confidence, true))
  unfolding read should_alert
  alert-cases s r h = elim (Bool-cases (crosses s r.path_id r.confidence)) [
    | inr stays ↦ ground (arith, stays, h)
    | inl rises ↦ elim (Bool-cases (is_cooling s r.path_id r.now)) [
      | inl wait ↦ ground (arith, rises, wait, h)
      | inr free ↦ (ground (arith, rises), rw (rises, free, read, should_alert) refl)
    ]
  ]

  silent_while_cooling :
      (s : StreamingState F) (r : Reading F)
      → is_cooling s r.path_id r.now ≡ true
      → (read s r).1 ≡ false
  unfolding read should_alert
  silent_while_cooling s r h = elim (Bool-cases (crosses s r.path_id r.confidence)) [
    | inr stays ↦ rw (stays, read, should_alert) refl
    | inl rises ↦ rw (rises, h, read, should_alert) refl
  ]

  -- After a path has raised an alert, no reading for it raises another before the cooldown (which is
  -- not zero) has passed since then, whatever readings of this and of other paths come between, as
  -- long as those of this path are that early too.
  alerts_apart :
      (s : StreamingState F) (first : Reading F) (rs : List (Reading F)) (later : Reading F)
      → 0 < s.alert_cooldown
      → (read s first).1 ≡ true
      → All (IfFor first.path_id (λ r. r.now < first.noted + s.alert_cooldown)) rs
      → later.path_id ≡ first.path_id
      → later.now < first.noted + s.alert_cooldown
      → (read (read_all (read s first).0 rs) later).1 ≡ false
  alerts_apart s first rs later p alerted early same soon =
      let (high, done) = alert-cases s first alerted in
      let state = ap (λ (r : StreamingState F × Bool). r.0) done in
      let began : IsAlerted first.path_id first.noted s.alert_cooldown (read s first).0 =
        rw state (record {
          last = lookup-insert_self first.path_id first.noted s.last_alert;
          cooldown_is = refl;
        }) in
      let after =
        quiet_reads (read s first).0 first.path_id first.noted s.alert_cooldown rs p early began in
      let wait =
        cooling (read_all (read s first).0 rs) first.path_id first.noted s.alert_cooldown later.now
          p soon after in
      silent_while_cooling (read_all (read s first).0 rs) later
        (subst (λ j. is_cooling (read_all (read s first).0 rs) j later.now ≡ true) (sym same) wait)

  -- The confidence that is known of the path is not below the threshold.
  record IsHigh (id : Text) (s : StreamingState F) : Type 0 where
    known : F
    stored : lookup id s.path_confidence ≡ some known
    high : lit 80 ≼ known

  with_confidence-IsHigh :
      (s : StreamingState F) (id : Text) (r : Reading F)
      → IfFor id (λ r. lit 80 ≼ r.confidence) r
      → IsHigh id s
      → IsHigh id (with_confidence s r.path_id r.confidence)
  with_confidence-IsHigh s id r h a = elim (Bool-cases (id =? r.path_id)) [
    | inl mine ↦ record {
      known = r.confidence;
      stored = lookup-insert id r.path_id r.confidence s.path_confidence ∙ rw mine refl;
      high = rw (mine, IfFor) at h;
    }
    | inr other ↦ record {
      known = a.known;
      stored = lookup-insert id r.path_id r.confidence s.path_confidence ∙ rw other a.stored;
      high = a.high;
    }
  ]

  read-IsHigh :
      (s : StreamingState F) (id : Text) (r : Reading F)
      → IfFor id (λ r. lit 80 ≼ r.confidence) r
      → IsHigh id s
      → IsHigh id (read s r).0
  unfolding read should_alert
  read-IsHigh s id r h a = elim (Bool-cases (crosses s r.path_id r.confidence)) [
    | inr stays ↦ rw (stays, read, should_alert) (with_confidence-IsHigh s id r h a)
    | inl rises ↦ elim (Bool-cases (is_cooling s r.path_id r.now)) [
      | inl wait ↦ rw (rises, wait, read, should_alert) a
      | inr free ↦
          rw (rises, free, read, should_alert)
            (with_confidence-IsHigh (with_alert s r.path_id r.noted) id r h
              (record { known = a.known; stored = a.stored; high = a.high }))
    ]
  ]

  read_all-IsHigh :
      (s : StreamingState F) (id : Text) (rs : List (Reading F))
      → All (IfFor id (λ r. lit 80 ≼ r.confidence)) rs
      → IsHigh id s
      → IsHigh id (read_all s rs)
  unfolding read_all
  read_all-IsHigh s id [] h a = a
  read_all-IsHigh s id (r ∷ rs) h a =
      read_all-IsHigh (read s r).0 id rs h.1 (read-IsHigh s id r h.0 a)

  silent_while_high :
      (laws : IsIeee F) (s : StreamingState F) (r : Reading F)
      → IsHigh r.path_id s
      → (read s r).1 ≡ false
  unfolding read should_alert
  silent_while_high laws s r a =
      let below : (a.known <? lit 80) ≡ false =
        ground (arith, laws.lt-eq a.known (lit 80), a.high) in
      let stays : crosses s r.path_id r.confidence ≡ false =
        rw (a.stored, crosses) (ground (arith, below)) in
      rw (stays, read, should_alert) refl

  -- After a path has raised an alert, no reading for it raises another while the confidences that
  -- are read for it meanwhile all reach the threshold, however much time passes and whatever is read
  -- for other paths: only a reading below 0.8 can lead to the next one.
  alerts_once_while_high :
      (laws : IsIeee F) (s : StreamingState F) (first : Reading F) (rs : List (Reading F))
      (later : Reading F)
      → (read s first).1 ≡ true
      → All (IfFor first.path_id (λ r. lit 80 ≼ r.confidence)) rs
      → later.path_id ≡ first.path_id
      → (read (read_all (read s first).0 rs) later).1 ≡ false
  alerts_once_while_high laws s first rs later alerted high same =
      let (reached, done) = alert-cases s first alerted in
      let state = ap (λ (r : StreamingState F × Bool). r.0) done in
      let began : IsHigh first.path_id (read s first).0 = rw state (record {
        known = first.confidence;
        stored = lookup-insert_self first.path_id first.confidence s.path_confidence;
        high = reached;
      }) in
      silent_while_high laws (read_all (read s first).0 rs) later (
        subst (λ j. IsHigh j (read_all (read s first).0 rs)) (sym same)
          (read_all-IsHigh (read s first).0 first.path_id rs high began))
