-- ===== src/Webhook/Manager/Once.antt =====
-- That scanner-agent/src/webhook_sender.rs sends an alert once in a while.
use execution_aware_scanner.Prelude.{
  ℕ, ◌+◌, ◌-◌, ◌≤◌, ◌<◌, ◌≡◌, refl, ap, ◌∙◌, subst, true, false, some, List, [], ◌∷◌, arith, length,
  All, Bool-cases, inl, inr,
}
use execution_aware_scanner.Text.{Text}
use execution_aware_scanner.Containers.Order.{text_ord, ◌=?◌, =?_sound}
use execution_aware_scanner.Containers.OrdMap.{
  OrdMap, lookup, insert, length-retain, lookup-insert, lookup-insert_self, lookup-retain,
}
use execution_aware_scanner.Webhook.{AlertPayload}
use execution_aware_scanner.Webhook.Sender.{Outcomes}
use execution_aware_scanner.Webhook.Manager.{
  WebhookManager, Readings, max_dedup_entries, is_fresh, is_duplicate, make_room, mark_sent,
  broadcast, send_alert_once,
}
use execution_aware_scanner.Webhook.Manager.Dedup.{Call, call, call_all, insert_grows}

-- The cache has an entry of the path that will still count at a time.
record Remembers (p : Text) (t ttl : ℕ) (m : WebhookManager) : Type 0 where
  same_ttl : m.dedup_ttl ≡ ttl
  noted : ℕ
  there : lookup p m.dedup_cache ≡ some noted
  fresh : t - noted < ttl

remembered_is_duplicate :
    (p : Text) (t ttl asked : ℕ) (m : WebhookManager)
    → Remembers p t ttl m
    → asked ≤ t
    → is_duplicate m p asked ≡ true
unfolding is_duplicate
remembered_is_duplicate p t ttl asked m h before =
    let soon : asked - h.noted < m.dedup_ttl =
      let e = h.same_ttl in let n = h.fresh in omega (arith, e, n, before) in
    rw (h.there) (ground (arith, soon))

room_is_kept : (m : OrdMap Text ℕ) (q : Text) → length m < max_dedup_entries → make_room m q ≡ m
unfolding make_room
room_is_kept m q room = ground (arith, room)

length-mark_sent :
    (m : WebhookManager) (q : Text) (noted now : ℕ)
    → length m.dedup_cache < max_dedup_entries
    → length (mark_sent m q noted now).dedup_cache ≤ length m.dedup_cache + 1
unfolding mark_sent
length-mark_sent m q noted now room =
    let cleaned =
      length-retain (is_fresh m.dedup_ttl now) (insert q noted (make_room m.dedup_cache q)) in
    let grown = insert_grows q noted (make_room m.dedup_cache q) in
    let kept : length (make_room m.dedup_cache q) ≡ length m.dedup_cache =
      ap (λ (x : OrdMap Text ℕ). length x) (room_is_kept m.dedup_cache q room) in
    omega (arith, cleaned, grown, kept)

-- An alert that is noted is remembered.
mark_sent-Remembers :
    (m : WebhookManager) (p : Text) (noted now t : ℕ)
    → now ≤ t
    → t - noted < m.dedup_ttl
    → Remembers p t m.dedup_ttl (mark_sent m p noted now)
unfolding mark_sent
mark_sent-Remembers m p noted now t before fresh = record {
  same_ttl = refl;
  noted = noted;
  there =
      lookup-retain (is_fresh m.dedup_ttl now) p noted (insert p noted (make_room m.dedup_cache p))
        (lookup-insert_self p noted (make_room m.dedup_cache p))
        (let soon : now - noted < m.dedup_ttl = omega (arith, before, fresh) in
          ground (arith, soon));
  fresh = fresh;
}

-- An alert of another path leaves it remembered.
other-Remembers :
    (m : WebhookManager) (p q : Text) (noted now t ttl : ℕ)
    → p =? q ≡ false
    → now ≤ t
    → length m.dedup_cache < max_dedup_entries
    → Remembers p t ttl m
    → Remembers p t ttl (mark_sent m q noted now)
unfolding mark_sent
other-Remembers m p q noted now t ttl other before room h = record {
  same_ttl = h.same_ttl;
  noted = h.noted;
  there =
      lookup-retain (is_fresh m.dedup_ttl now) p h.noted
        (insert q noted (make_room m.dedup_cache q))
        (lookup-insert p q noted (make_room m.dedup_cache q)
          ∙ rw (other, room_is_kept m.dedup_cache q room) (h.there))
        (let soon : now - h.noted < m.dedup_ttl =
            let e = h.same_ttl in let n = h.fresh in omega (arith, before, e, n) in
          ground (arith, soon));
  fresh = h.fresh;
}

other_path :
    (p q : Text) (t ttl asked : ℕ) (m : WebhookManager)
    → Remembers p t ttl m
    → asked ≤ t
    → is_duplicate m q asked ≡ false
    → p =? q ≡ false
other_path p q t ttl asked m h before new = elim (Bool-cases (p =? q)) [
  | inl same ↦
      let path : p ≡ q = =?_sound p q same in
      let known = remembered_is_duplicate p t ttl asked m h before in
      let known_too : is_duplicate m q asked ≡ true =
        subst (λ (x : Text). is_duplicate m x asked ≡ true) path known in
      ground (arith, known_too, new)
  | inr other ↦ other
]

module _ {F : Type 0} where
  call_known :
      (m : WebhookManager) (c : Call F)
      → is_duplicate m c.path_id c.readings.asked ≡ true
      → call m c ≡ m
  unfolding send_alert_once
  call_known m c known = rw (call, known) refl

  abbrev pub IsNear : ℕ → Call F → Type 0
  IsNear t c = (c.readings.asked ≤ t) × (c.readings.cleaned ≤ t)

  cache-call :
      (m : WebhookManager) (c : Call F)
      → is_duplicate m c.path_id c.readings.asked ≡ false
      → (call m c).dedup_cache
        ≡ (mark_sent m c.path_id c.readings.noted c.readings.cleaned).dedup_cache
  unfolding send_alert_once broadcast
  cache-call m c new = rw (call, new) refl

  ttl-call : (m : WebhookManager) (c : Call F) → (call m c).dedup_ttl ≡ m.dedup_ttl
  unfolding send_alert_once broadcast mark_sent
  ttl-call m c = elim (Bool-cases (is_duplicate m c.path_id c.readings.asked)) [
    | inl known ↦ rw (call, known) refl
    | inr new ↦ rw (call, new) refl
  ]

  -- What a call leaves of the memory of a path.
  call-Remembers :
      (m : WebhookManager) (p : Text) (t ttl : ℕ) (c : Call F)
      → IsNear t c
      → length m.dedup_cache < max_dedup_entries
      → Remembers p t ttl m
      → Remembers p t ttl (call m c) × (length (call m c).dedup_cache ≤ length m.dedup_cache + 1)
  call-Remembers m p t ttl c near room h =
      elim (Bool-cases (is_duplicate m c.path_id c.readings.asked)) [
        | inl known ↦ rw (call_known m c known) (h, omega arith)
        | inr new ↦
            let other : p =? c.path_id ≡ false =
              other_path p c.path_id t ttl c.readings.asked m h near.0 new in
            let o =
              other-Remembers m p c.path_id c.readings.noted c.readings.cleaned t ttl other near.1
                room h in
            (
              record {
                same_ttl = ttl-call m c ∙ h.same_ttl;
                noted = o.noted;
                there = ap (lookup p) (cache-call m c new) ∙ o.there;
                fresh = o.fresh;
              },
              rw (cache-call m c new)
                  (length-mark_sent m c.path_id c.readings.noted c.readings.cleaned room),
            )
      ]

  call_all-Remembers :
      (m : WebhookManager) (p : Text) (t ttl : ℕ) (cs : List (Call F))
      → All (IsNear t) cs
      → length m.dedup_cache + length cs ≤ max_dedup_entries
      → Remembers p t ttl m
      → Remembers p t ttl (call_all m cs)
  call_all-Remembers m p t ttl [] near room h = h
  call_all-Remembers m p t ttl (c ∷ cs) near room h =
      let (next, grown) = call-Remembers m p t ttl c near.0 (omega (arith, room)) h in
      call_all-Remembers (call m c) p t ttl cs near.1 (omega (arith, room, grown)) next

  -- After an alert of a path that was no duplicate, and any calls for any paths that the cache has room
  -- for: another alert of the path, asked about within the time to live of the first one and not
  -- before what the calls in between read, is sent to no webhook and changes nothing.
  pub send_alert_once_lem :
      (m : WebhookManager) (c : Call F) (cs : List (Call F)) (p : AlertPayload F) (r : Readings)
      (os : List Outcomes)
      → is_duplicate m c.path_id c.readings.asked ≡ false
      → All (IsNear r.asked) (c ∷ cs)
      → length m.dedup_cache + length (c ∷ cs) ≤ max_dedup_entries
      → r.asked - c.readings.noted < m.dedup_ttl
      → send_alert_once (call_all m (c ∷ cs)) c.path_id p r os ≡ (call_all m (c ∷ cs), [])
  unfolding send_alert_once
  send_alert_once_lem m c cs p r os new near room soon =
      let first =
        mark_sent-Remembers m c.path_id c.readings.noted c.readings.cleaned r.asked near.0.1 soon in
      let size =
        length-mark_sent m c.path_id c.readings.noted c.readings.cleaned (omega (arith, room)) in
      let grown : length (call m c).dedup_cache ≤ length m.dedup_cache + 1 =
        rw (cache-call m c new) size in
      let one : Remembers c.path_id r.asked m.dedup_ttl (call m c) = record {
        same_ttl = ttl-call m c;
        noted = first.noted;
        there = ap (lookup c.path_id) (cache-call m c new) ∙ first.there;
        fresh = first.fresh;
      } in
      let last =
        call_all-Remembers (call m c) c.path_id r.asked m.dedup_ttl cs near.1
          (omega (arith, room, grown)) one in
      rw
        (remembered_is_duplicate c.path_id r.asked m.dedup_ttl r.asked (call_all m (c ∷ cs)) last
          (omega arith))
        refl
