-- ===== src/Consumer/Intake/Batches.antt =====
-- What one call of `consume_exec_batch` and of `consume_net_batch` does.
use execution_aware_scanner.Prelude.{
  ℕ, suc, ◌+◌, ◌%◌, ◌<◌, ◌≡◌, ◌≢◌, refl, ap, ◌∙◌, false, Bool-cases, inl, inr, some, List, [], ◌∷◌,
  arith, leb, ltb, length, All,
}
use execution_aware_scanner.Clock.{u64_mod}
use execution_aware_scanner.Common.Events.{NetEvent}
use execution_aware_scanner.Float.{Float}
use execution_aware_scanner.State.Store.{StateStore, apply_exec, apply_net}
use execution_aware_scanner.Consumer.Records.{
  rejected, undefined_value, parse_exec_event, parse_net_event, exec_size, net_memory,
}
use execution_aware_scanner.Consumer.Records.RoundTrip.{parse_net_event-net_memory}
use execution_aware_scanner.Consumer.Filter.{should_filter_exec, should_filter_net}
use execution_aware_scanner.Consumer.Intake.{
  Progress, take_records, Shared, start, stop, consume_exec_batch, consume_net_batch,
}
use execution_aware_scanner.Consumer.Intake.Accounting.{IsAccounted, take_records-IsAccounted}

exec_is_defined : (d : List ℕ) → parse_exec_event d ≢ undefined_value
unfolding parse_exec_event
exec_is_defined d h = elim (Bool-cases (ltb (length d) exec_size)) [
  | inl short ↦ ground (arith, short, h)
  | inr long ↦ ground (arith, long, h)
]

pub exec_ring_is_defined :
    (ring : List (List ℕ)) → All (λ d. parse_exec_event d ≢ undefined_value) ring
exec_ring_is_defined [] = tt
exec_ring_is_defined (d ∷ ds) = (exec_is_defined d, exec_ring_is_defined ds)

-- The memory of a network event, as the kernel programs hand it over.
abbrev pub IsNetRecord : List ℕ → Type 0
IsNetRecord d =
    (e : NetEvent) × ((padding : List ℕ) × ((length padding ≡ 4) × (d ≡ net_memory e padding)))

net_rejected : (d : List ℕ) → IsNetRecord d → parse_net_event d ≡ rejected
net_rejected d (e, (padding, (four, same))) =
    ap parse_net_event same ∙ (parse_net_event-net_memory e padding four).1

module _ {F : Type 0} ⦃f : Float F⦄ where
  -- A call that empties the ring buffer of process starts returns, and accounts for each record that
  -- it took: it was dropped, filtered or accepted; the accepted events were put behind the batch in
  -- their order and applied to the store one after another; the counters and the result grew by
  -- their numbers (as wrapping `u64` sums where they are such); and it stopped with the buffer empty
  -- or the batch full.
  pub consume_exec_batch_lem :
      (s : Shared F) (ring : List (List ℕ))
      → s.consumer.exec_rb ≡ some ring
      → (a : IsAccounted parse_exec_event should_filter_exec apply_exec s.consumer.batch_size ring
          (start s s.consumer.exec_batch))
        × (consume_exec_batch s
            ≡ some (
                stop a.final
                  (record s.consumer { exec_rb = some a.rest; exec_batch = a.final.batch })))
  unfolding consume_exec_batch
  consume_exec_batch_lem s ring h =
      let a =
        take_records-IsAccounted parse_exec_event should_filter_exec apply_exec
          s.consumer.batch_size ring (start s s.consumer.exec_batch) (exec_ring_is_defined ring) in
      (a, rw (h, consume_exec_batch, a.returned) refl)

  take_net_records :
      (batch_size : ℕ) (ring : List (List ℕ)) (p : Progress NetEvent (StateStore F))
      → All IsNetRecord ring
      → length p.batch < batch_size
      → p.received < u64_mod
      → p.dropped < u64_mod
      → take_records parse_net_event should_filter_net apply_net batch_size ring p
        ≡ some (
          record p {
            received = (p.received + length ring) % u64_mod;
            dropped = (p.dropped + length ring) % u64_mod;
          },
          [],
        )
  unfolding take_records
  take_net_records batch_size [] p h room r d =
      let received : (p.received + 0) % u64_mod ≡ p.received = omega (arith, r) in
      let dropped : (p.dropped + 0) % u64_mod ≡ p.dropped = omega (arith, d) in
      rw (received, dropped) refl
  take_net_records batch_size (x ∷ xs) p h room r d =
      let p' : Progress NetEvent (StateStore F) = record p {
        received = (p.received + 1) % u64_mod;
        dropped = (p.dropped + 1) % u64_mod;
      } in
      let more = take_net_records batch_size xs p' h.1 room (omega arith) (omega arith) in
      let not_full : leb batch_size (length p.batch) ≡ false = ground (arith, room) in
      let received : ((p.received + 1) % u64_mod + length xs) % u64_mod
          ≡ (p.received + suc (length xs)) % u64_mod =
        omega arith in
      let dropped : ((p.dropped + 1) % u64_mod + length xs) % u64_mod
          ≡ (p.dropped + suc (length xs)) % u64_mod =
        omega arith in
      rw (net_rejected x h.0, take_records, not_full, more, received, dropped) refl

  -- A call that empties the ring buffer of network events drops every record of it, as long as the
  -- batch has room: no event reaches the batch or the store, and the buffer is empty afterwards. (The
  -- two counters are `u64` values.)
  pub consume_net_batch_lem :
      (s : Shared F) (ring : List (List ℕ))
      → s.consumer.net_rb ≡ some ring
      → All IsNetRecord ring
      → length s.consumer.net_batch < s.consumer.batch_size
      → s.consumer.events_received < u64_mod
      → s.consumer.events_dropped < u64_mod
      → consume_net_batch s
        ≡ some (
          record s {
            consumer = record s.consumer {
              net_rb = some [];
              events_received = (s.consumer.events_received + length ring) % u64_mod;
              events_dropped = (s.consumer.events_dropped + length ring) % u64_mod;
            };
          },
          0,
        )
  unfolding consume_net_batch
  consume_net_batch_lem s ring h records room r d =
      let all =
        take_net_records s.consumer.batch_size ring (start s s.consumer.net_batch) records room r
          d in
      rw (h, consume_net_batch, all) refl
