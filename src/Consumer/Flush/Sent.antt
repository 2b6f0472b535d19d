-- ===== src/Consumer/Flush/Sent.antt =====
-- What `flush_all` of scanner-agent/src/event_consumer.rs sends, as far as one looks at its edges.
use mathlib.Core.List.{append_assoc, append-nil}
use execution_aware_scanner.Prelude.{
  ℕ, ◌≡◌, refl, sym, ◌∙◌, Bool, true, false, List, [], ◌∷◌, ◌++◌, foldl, concat_map, arith,
  if◌then◌else◌, Bool-cases, inl, inr,
}
use execution_aware_scanner.Text.{Text, codes, decimal}
use execution_aware_scanner.Float.{Float}
use execution_aware_scanner.Common.CString.{c_string}
use execution_aware_scanner.Common.Events.{ExecEvent, FileEvent, NetEvent}
use execution_aware_scanner.State.Workload.{is_sensitive_path}
use execution_aware_scanner.Attack.Nodes.{GraphUpdate, dotted}
use execution_aware_scanner.Streaming.Engine.{StreamEvent, bpf_event, graph_update}
use execution_aware_scanner.Consumer.Intake.{EventConsumer}
use execution_aware_scanner.Consumer.Flush.{
  Bus, is_connect, loads_library, process_name, resolve_on, emit, exec_edge, lib_edge, net_edge,
  process_exec, report_sensitive, report_load, process_file, report_suspicious,
  is_suspicious_destination, report_connection, process_net, process_exec_batch, process_file_batch,
  process_net_batch, is_empty, is_idle, flush_all,
}

module _ {F : Type 0} (pick : GraphUpdate F → List Text) where
  -- What one looks for in the updates
  abbrev pub picked : List (StreamEvent F) → List Text
  picked [] = []
  picked (graph_update u ∷ es) = pick u ++ picked es
  picked (_ ∷ es) = picked es

  picked-append : (es es' : List (StreamEvent F)) → picked (es ++ es') ≡ picked es ++ picked es'
  picked-append [] es' = refl
  picked-append (graph_update u ∷ es) es' =
      rw (picked-append es es') (sym (append_assoc (pick u) (picked es) (picked es')))
  picked-append (_ ∷ es) es' = picked-append es es'

  picked_if :
      (test : Bool) (x y : Bus F) (ts : List Text)
      → picked x.emitted ≡ picked y.emitted ++ ts
      → picked (if test then x else y).emitted ≡ picked y.emitted ++ (if test then ts else [])
  picked_if true x y ts h = h
  picked_if false x y ts h = sym (append-nil (picked y.emitted))

  picked_message :
      (b : Bus F) (time : ℕ) (kind details : Text)
      → picked (b.emitted ++ bpf_event time kind details ∷ []) ≡ picked b.emitted
  picked_message b time kind details =
      picked-append b.emitted (bpf_event time kind details ∷ []) ∙ append-nil (picked b.emitted)

  picked_if_message :
      (test : Bool) (b : Bus F) (time : ℕ) (kind details : Text)
      → picked (if test then emit true (bpf_event time kind details) b else b).emitted
        ≡ picked b.emitted
  unfolding emit
  picked_if_message true b time kind details = picked_message b time kind details
  picked_if_message false b time kind details = refl

  picked_folded :
      {E : Type 0} (step : Bus F → E → Bus F) (news : E → List Text)
      → ((b : Bus F) (e : E) → picked (step b e).emitted ≡ picked b.emitted ++ news e)
      → (es : List E) (b : Bus F)
      → picked (foldl step b es).emitted ≡ picked b.emitted ++ concat_map news es
  picked_folded step news h [] b = sym (append-nil (picked b.emitted))
  picked_folded step news h (e ∷ es) b =
      picked_folded step news h es (step b e)
      ∙ rw (h b e) (append_assoc (picked b.emitted) (news e) (concat_map news es))

empty-nil : {A : Type 0} (xs : List A) → is_empty xs ≡ true → xs ≡ []
empty-nil [] h = refl
empty-nil (x ∷ xs) h = cc

idle-exec : (c : EventConsumer) → is_idle c ≡ true → c.exec_batch ≡ []
idle-exec c h = let e : is_empty c.exec_batch ≡ true = ground (arith, h) in empty-nil c.exec_batch e

idle-file : (c : EventConsumer) → is_idle c ≡ true → c.file_batch ≡ []
idle-file c h = let e : is_empty c.file_batch ≡ true = ground (arith, h) in empty-nil c.file_batch e

idle-net : (c : EventConsumer) → is_idle c ≡ true → c.net_batch ≡ []
idle-net c h = let e : is_empty c.net_batch ≡ true = ground (arith, h) in empty-nil c.net_batch e

module _ {F : Type 0} ⦃f : Float F⦄ (pick : GraphUpdate F → List Text) (xs : ExecEvent → List Text)
    (ys : FileEvent → List Text) (zs : NetEvent → List Text)
    (of_exec : (e : ExecEvent) → pick (exec_edge e) ≡ xs e)
    (of_lib : (e : FileEvent) (name : Text) → pick (lib_edge e name) ≡ ys e)
    (of_net : (e : NetEvent) (name : Text) → pick (net_edge e name) ≡ zs e) where
  abbrev pub of_file : FileEvent → List Text
  of_file e = if loads_library e then ys e else []

  abbrev pub of_connection : NetEvent → List Text
  of_connection e = if is_connect e.kind then zs e else []

  -- A message and an update behind what was sent
  two_sent :
      (es : List (StreamEvent F)) (time : ℕ) (kind details : Text) (u : GraphUpdate F)
      → picked pick (es ++ bpf_event time kind details ∷ [] ++ graph_update u ∷ [])
        ≡ picked pick es ++ pick u
  two_sent es time kind details u =
      rw (append_assoc es) (rw (sym (append-nil (pick u))) (picked-append pick es _))

  one_sent :
      (es : List (StreamEvent F)) (u : GraphUpdate F)
      → picked pick (es ++ graph_update u ∷ []) ≡ picked pick es ++ pick u
  one_sent es u = picked-append pick es (graph_update u ∷ []) ∙ rw (append-nil (pick u)) refl

  picked-process_exec :
      (b : Bus F) (e : ExecEvent)
      → picked pick (process_exec true b e).emitted ≡ picked pick b.emitted ++ xs e
  unfolding process_exec emit resolve_on
  picked-process_exec b e = rw (sym (of_exec e)) (two_sent b.emitted _ _ _ (exec_edge e))

  picked-process_file :
      (b : Bus F) (e : FileEvent)
      → picked pick (process_file true b e).emitted ≡ picked pick b.emitted ++ of_file e
  unfolding process_file report_sensitive report_load emit resolve_on
  picked-process_file b e =
      let told = report_sensitive true b e in
      let found = (resolve_on told e.cgroup_id).1 in
      picked_if pick (loads_library e)
        (emit true (graph_update (lib_edge e (process_name found))) (
          emit true
            (bpf_event e.timestamp_ns (codes "library_load")
              (process_name found ++ codes " -> " ++ c_string e.path))
            (resolve_on told e.cgroup_id).0))
        told (ys e)
        (rw (sym (of_lib e (process_name found)))
          (two_sent told.emitted _ _ _ (lib_edge e (process_name found))))
      ∙ rw
          (picked_if_message pick (is_sensitive_path (c_string e.path)) b e.timestamp_ns
            (codes "file") (codes "sensitive: " ++ c_string e.path))
          refl

  picked-process_net :
      (b : Bus F) (e : NetEvent)
      → picked pick (process_net true b e).emitted ≡ picked pick b.emitted ++ of_connection e
  unfolding process_net report_suspicious report_connection emit resolve_on
  picked-process_net b e =
      let told = report_suspicious true b e in
      let found = (resolve_on told e.cgroup_id).1 in
      picked_if pick (is_connect e.kind)
        (emit true (graph_update (net_edge e (process_name found))) (resolve_on told e.cgroup_id).0)
        told (zs e)
        (rw (sym (of_net e (process_name found)))
          (one_sent told.emitted (net_edge e (process_name found))))
      ∙ rw
          (picked_if_message pick (is_suspicious_destination e.daddr e.dport) b e.timestamp_ns
            (codes "suspicious_net") (dotted e.daddr ++ codes ":" ++ decimal e.dport))
          refl

  picked_batches :
      (x : List ExecEvent) (y : List FileEvent) (z : List NetEvent) (b : Bus F)
      → picked pick
          (process_net_batch true z
            (process_file_batch true y (process_exec_batch true x b))).emitted
        ≡ picked pick b.emitted
          ++ (concat_map xs x ++ (concat_map of_file y ++ concat_map of_connection z))
  unfolding process_exec_batch process_file_batch process_net_batch
  picked_batches x y z b =
      let after_exec = process_exec_batch true x b in
      picked_folded pick (process_net true) of_connection picked-process_net z
        (process_file_batch true y after_exec)
      ∙ rw
          (
            picked_folded pick (process_file true) of_file picked-process_file y after_exec,
            picked_folded pick (process_exec true) xs picked-process_exec x b,
          )
          (append_assoc (picked pick b.emitted ++ concat_map xs x) _ _
            ∙ append_assoc (picked pick b.emitted) _ _)

  -- What a flush sends, and that it leaves the batches empty.
  pub picked-flush_all :
      (now : ℕ) (c : EventConsumer) (b : Bus F)
      → (picked pick (flush_all true now c b).1.emitted
          ≡ picked pick b.emitted
            ++ (concat_map xs c.exec_batch
                ++ (concat_map of_file c.file_batch ++ concat_map of_connection c.net_batch)))
        × (((flush_all true now c b).0.exec_batch ≡ [])
            × (((flush_all true now c b).0.file_batch ≡ [])
                × ((flush_all true now c b).0.net_batch ≡ [])))
  unfolding flush_all
  picked-flush_all now c b = elim (Bool-cases (is_idle c)) [
    | inl idle ↦
        rw (idle, idle-exec c idle, idle-file c idle, idle-net c idle)
          (sym (append-nil (picked pick b.emitted)), (refl, (refl, refl)))
    | inr busy ↦
        rw busy (picked_batches c.exec_batch c.file_batch c.net_batch b, (refl, (refl, refl)))
  ]
