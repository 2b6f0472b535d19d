-- ===== src/Consumer/Security/Batch.antt =====
-- `consume_security_batch` of scanner-agent/src/event_consumer.rs, over the records that the ring
-- buffer yields before it yields nothing.
use execution_aware_scanner.Prelude.{
  ℕ, ◌+◌, ◌%◌, Bool, true, false, ◌||◌, Option, none, some, List, [], ◌∷◌, ◌++◌, leb, length,
  if◌then◌else◌,
}
use execution_aware_scanner.Clock.{u64_mod}
use execution_aware_scanner.Common.Events.{ExecEvent, FileEvent, NetEvent}
use execution_aware_scanner.Float.{Float}
use execution_aware_scanner.State.Store.{StateStore, apply_exec, apply_file, apply_net}
use execution_aware_scanner.Consumer.Filter.{
  should_filter_exec, should_filter_file, should_filter_net,
}
use execution_aware_scanner.Consumer.Security.{
  SecurityEvent, parse_security_event, security_to_exec, security_to_file, security_to_net,
}

-- What the loop changes: the three batches, the counters, the store, and the number that
-- `inc_events` has counted and that it returns.
pub record Progress (F : Type 0) : Type 0 where
  pub exec_batch : List ExecEvent
  pub file_batch : List FileEvent
  pub net_batch : List NetEvent
  pub received : ℕ
  pub dropped : ℕ
  pub filtered : ℕ
  pub store : StateStore F
  pub counted : ℕ
  pub count : ℕ

module _ {F : Type 0} ⦃f : Float F⦄ where
  -- The three blocks of the loop: what each leaves, and whether it sets `accepted`.
  unfoldable pub take_exec : Progress F → Option ExecEvent → Progress F × Bool
  take_exec p none = (p, false)
  take_exec p (some x) =
      if should_filter_exec x
      then (p, false)
      else (record p { exec_batch = p.exec_batch ++ x ∷ []; store = apply_exec p.store x }, true)

  unfoldable pub take_file : Progress F → Option FileEvent → Progress F × Bool
  take_file p none = (p, false)
  take_file p (some x) =
      if should_filter_file x
      then (p, false)
      else (record p { file_batch = p.file_batch ++ x ∷ []; store = apply_file p.store x }, true)

  unfoldable pub take_net : Progress F → Option NetEvent → Progress F × Bool
  take_net p none = (p, false)
  take_net p (some x) =
      if should_filter_net x
      then (p, false)
      else (record p { net_batch = p.net_batch ++ x ∷ []; store = apply_net p.store x }, true)

  abbrev pub finish : Progress F → Bool → Progress F
  finish p accepted =
      if accepted
      then record p { count = p.count + 1; counted = p.counted + 1 }
      else record p { filtered = (p.filtered + 1) % u64_mod }

  unfoldable pub handle : Progress F → Option SecurityEvent → Progress F
  unfolding take_exec take_file take_net
  handle p none = record p {
    received = (p.received + 1) % u64_mod;
    dropped = (p.dropped + 1) % u64_mod;
  }
  handle p (some e) =
      let begun : Progress F = record p { received = (p.received + 1) % u64_mod } in
      let (with_exec, exec_accepted) = take_exec begun (security_to_exec e) in
      let (with_file, file_accepted) = take_file with_exec (security_to_file e) in
      let (with_net, net_accepted) = take_net with_file (security_to_net e) in
      finish with_net (exec_accepted || file_accepted || net_accepted)

  abbrev pub is_full : ℕ → Progress F → Bool
  is_full batch_size p =
      leb batch_size (length p.exec_batch)
      || leb batch_size (length p.file_batch)
      || leb batch_size (length p.net_batch)

  -- What the loop has done, and the records that are left.
  unfoldable pub consume_security_batch :
      ℕ → List (List ℕ) → Progress F → Progress F × List (List ℕ)
  unfolding handle
  consume_security_batch batch_size [] p = (p, [])
  consume_security_batch batch_size (d ∷ ds) p =
      let p' = handle p (parse_security_event d) in
      let rest = consume_security_batch batch_size ds p' in
      if is_full batch_size p' then (p', ds) else rest
