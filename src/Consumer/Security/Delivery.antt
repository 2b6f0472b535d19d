-- ===== src/Consumer/Security/Delivery.antt =====
-- Where the records of the single ring buffer go.
use execution_aware_scanner.Prelude.{
  ℕ, ◌+◌, ◌%◌, ◌≡◌, refl, sym, ap, subst, ◌∙◌, ◌⊎◌, inl, inr, true, Bool-cases, Option, none, some,
  List, [], ◌∷◌, ◌++◌, arith, length, length-append,
}
use execution_aware_scanner.Clock.{u64_mod}
use execution_aware_scanner.Float.{Float}
use execution_aware_scanner.State.Store.{StateStore, Event, apply, apply_all}
use execution_aware_scanner.Consumer.Filter.{
  should_filter_exec, should_filter_file, should_filter_net,
}
use execution_aware_scanner.Consumer.Security.{SecurityEvent, parse_security_event}
use execution_aware_scanner.Consumer.Security.Batch.{
  Progress, take_exec, take_file, take_net, handle, is_full, consume_security_batch,
}
use execution_aware_scanner.Consumer.Security.Conversion.{
  to_exec, to_file, to_net, to_nothing, converts, delivered_by, delivered,
}

module _ {F : Type 0} ⦃f : Float F⦄ where
  abbrev pub batched : Progress F → ℕ
  batched p = length p.exec_batch + length p.file_batch + length p.net_batch

  -- What some records of the ring buffer have changed.
  pub record IsDelivered (events : List Event) (records : ℕ) (p q : Progress F) : Type 0 where
    pub store : q.store ≡ apply_all p.store events
    pub batches : batched q ≡ batched p + length events
    pub count : q.count ≡ p.count + length events
    pub counted : q.counted ≡ p.counted + length events
    pub received : q.received % u64_mod ≡ (p.received + records) % u64_mod
    pub others :
        (q.dropped + q.filtered + length events) % u64_mod
        ≡ (p.dropped + p.filtered + records) % u64_mod

  handle-IsDelivered :
      (p : Progress F) (o : Option SecurityEvent) → IsDelivered (delivered_by o) 1 p (handle p o)
  unfolding handle apply_all apply take_exec take_file take_net
  handle-IsDelivered p none = (record {
    store = refl;
    batches = omega arith;
    count = omega arith;
    counted = omega arith;
    received = omega arith;
    others = omega arith;
  })
  handle-IsDelivered p (some e) = elim (converts e) [
    | to_exec x he hf hn ↦ elim (Bool-cases (should_filter_exec x)) [
      | inl out ↦
          rw (he, hf, hn, out, handle)
            (record {
              store = refl;
              batches = omega arith;
              count = omega arith;
              counted = omega arith;
              received = omega arith;
              others = omega arith;
            })
      | inr kept ↦
          rw (he, hf, hn, kept, handle)
            (record {
              store = refl;
              batches = omega (arith, length-append p.exec_batch (x ∷ []));
              count = omega arith;
              counted = omega arith;
              received = omega arith;
              others = omega arith;
            })
    ]
    | to_file x he hf hn ↦ elim (Bool-cases (should_filter_file x)) [
      | inl out ↦
          rw (he, hf, hn, out, handle)
            (record {
              store = refl;
              batches = omega arith;
              count = omega arith;
              counted = omega arith;
              received = omega arith;
              others = omega arith;
            })
      | inr kept ↦
          rw (he, hf, hn, kept, handle)
            (record {
              store = refl;
              batches = omega (arith, length-append p.file_batch (x ∷ []));
              count = omega arith;
              counted = omega arith;
              received = omega arith;
              others = omega arith;
            })
    ]
    | to_net x he hf hn ↦ elim (Bool-cases (should_filter_net x)) [
      | inl out ↦
          rw (he, hf, hn, out, handle)
            (record {
              store = refl;
              batches = omega arith;
              count = omega arith;
              counted = omega arith;
              received = omega arith;
              others = omega arith;
            })
      | inr kept ↦
          rw (he, hf, hn, kept, handle)
            (record {
              store = refl;
              batches = omega (arith, length-append p.net_batch (x ∷ []));
              count = omega arith;
              counted = omega arith;
              received = omega arith;
              others = omega arith;
            })
    ]
    | to_nothing he hf hn ↦
        rw (he, hf, hn, handle)
          (record {
            store = refl;
            batches = omega arith;
            count = omega arith;
            counted = omega arith;
            received = omega arith;
            others = omega arith;
          })
  ]

  apply_all-append :
      (s : StateStore F) (xs ys : List Event)
      → apply_all s (xs ++ ys) ≡ apply_all (apply_all s xs) ys
  unfolding apply_all
  apply_all-append s [] ys = refl
  apply_all-append s (x ∷ xs) ys = apply_all-append (apply s x) xs ys

  both-IsDelivered :
      (xs ys : List Event) (m n : ℕ) (p p' q : Progress F)
      → IsDelivered xs m p p'
      → IsDelivered ys n p' q
      → IsDelivered (xs ++ ys) (m + n) p q
  both-IsDelivered xs ys m n p p' q a b =
      let size = length-append xs ys in
      record {
        store = b.store ∙ ap (λ s. apply_all s ys) a.store ∙ sym (apply_all-append p.store xs ys);
        batches = omega (arith, a.batches, b.batches, size);
        count = omega (arith, a.count, b.count, size);
        counted = omega (arith, a.counted, b.counted, size);
        received = omega (arith, a.received, b.received);
        others = omega (arith, a.others, b.others, size);
      }

  none-IsDelivered : (p : Progress F) → IsDelivered [] 0 p p
  unfolding apply_all
  none-IsDelivered p = record {
    store = refl;
    batches = omega arith;
    count = omega arith;
    counted = omega arith;
    received = omega arith;
    others = omega arith;
  }

  -- Which records the loop took, and that it stopped with the buffer empty or a batch full.
  pub record IsTaken (batch_size : ℕ) (ring : List (List ℕ)) (p : Progress F)
      (result : Progress F × List (List ℕ)) : Type 0 where
    pub taken : List (List ℕ)
    pub split : ring ≡ taken ++ result.1
    pub sums : IsDelivered (delivered taken) (length taken) p result.0
    pub stopped : (result.1 ≡ []) ⊎ (is_full batch_size result.0 ≡ true)

  last_record :
      (batch_size : ℕ) (d : List ℕ) (ds : List (List ℕ)) (p p' : Progress F)
      → IsDelivered (delivered_by (parse_security_event d)) 1 p p'
      → is_full batch_size p' ≡ true
      → IsTaken batch_size (d ∷ ds) p (p', ds)
  last_record batch_size d ds p p' one full = record {
    taken = d ∷ [];
    split = refl;
    sums =
        both-IsDelivered (delivered_by (parse_security_event d)) [] 1 0 p p' p' one
          (none-IsDelivered p');
    stopped = inr full;
  }

  more_records :
      (batch_size : ℕ) (d : List ℕ) (ds : List (List ℕ)) (p p' : Progress F)
      (result : Progress F × List (List ℕ))
      → IsDelivered (delivered_by (parse_security_event d)) 1 p p'
      → IsTaken batch_size ds p' result
      → IsTaken batch_size (d ∷ ds) p result
  more_records batch_size d ds p p' result one more = record {
    taken = d ∷ more.taken;
    split = ap (λ r. d ∷ r) more.split;
    sums =
        subst (λ n. IsDelivered (delivered (d ∷ more.taken)) n p result.0) (omega arith)
          (both-IsDelivered (delivered_by (parse_security_event d)) (delivered more.taken) 1
            (length more.taken) p p' result.0 one more.sums);
    stopped = more.stopped;
  }

  -- Emptying the single ring buffer takes records off its front until it is empty or a batch is full.
  -- Each record taken stands for at most one event of the store, by its kind and the filters; these
  -- events were applied to the store in their order, the three batches together grew by their
  -- number, as did the result, and every other record was counted as dropped or as filtered (in sums
  -- that wrap at 64 bits).
  pub consume_security_batch_lem :
      (batch_size : ℕ) (ring : List (List ℕ)) (p : Progress F)
      → IsTaken batch_size ring p (consume_security_batch batch_size ring p)
  unfolding consume_security_batch
  consume_security_batch_lem batch_size [] p = record {
    taken = [];
    split = refl;
    sums = none-IsDelivered p;
    stopped = inl refl;
  }
  consume_security_batch_lem batch_size (d ∷ ds) p =
      let p' = handle p (parse_security_event d) in
      let one = handle-IsDelivered p (parse_security_event d) in
      elim (Bool-cases (is_full batch_size p')) [
        | inl full ↦ rw (full, consume_security_batch) (last_record batch_size d ds p p' one full)
        | inr room ↦
            rw (room, consume_security_batch)
              (more_records batch_size d ds p p' (consume_security_batch batch_size ds p') one
                (consume_security_batch_lem batch_size ds p'))
      ]
