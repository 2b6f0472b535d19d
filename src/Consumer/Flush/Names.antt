-- ===== src/Consumer/Flush/Names.antt =====
-- How the edges that scanner-agent/src/event_consumer.rs sends name a process.
use mathlib.Core.List.{append_assoc}
use execution_aware_scanner.Prelude.{
  ℕ, zero, suc, ◌+◌, ◌/◌, ◌%◌, ◌<◌, ◌≡◌, ◌≢◌, refl, ap, sym, ◌∙◌, Bool, true, false, ◌||◌, ◌==◌,
  ltb, Option, none, some, List, [], ◌∷◌, ◌++◌, foldl_keeps, arith, if◌then◌else◌, Bool-cases, inl,
  inr, All, All-append,
}
use execution_aware_scanner.Text.{Text, codes, decimal, decimal_digits, starts_with, compare_text}
use execution_aware_scanner.Containers.Order.{text_ord, ◌=?◌}
use execution_aware_scanner.Float.{Float}
use execution_aware_scanner.Common.CString.{c_string}
use execution_aware_scanner.Common.Events.{ExecEvent, FileEvent, NetEvent}
use execution_aware_scanner.State.Workload.{is_sensitive_path}
use execution_aware_scanner.Attack.Nodes.{
  edge_added, RuntimeEdge, library_loaded, network_connection,
}
use execution_aware_scanner.Streaming.Engine.{StreamEvent, bpf_event, graph_update}
use execution_aware_scanner.Consumer.Intake.{EventConsumer}
use execution_aware_scanner.Consumer.Flush.{
  Bus, process_node, process_name, loads_library, is_connect, is_suspicious_destination, is_idle,
  resolve_on, emit, exec_edge, lib_edge, net_edge, process_exec, report_sensitive, report_load,
  process_file, report_suspicious, report_connection, process_net, process_exec_batch,
  process_file_batch, process_net_batch, flush_all,
}

-- What stands behind the first colon
abbrev after_colon : Text → Text
after_colon [] = []
after_colon (a ∷ s) = if a == b':' then s else after_colon s

-- The name in the identifier of a process node
abbrev name_of : Text → Text
name_of node = after_colon (after_colon node)

digits_then :
    (fuel n : ℕ) (ds rest : Text)
    → decimal_digits fuel n ds ++ rest ≡ decimal_digits fuel n (ds ++ rest)
unfolding decimal_digits
digits_then zero n ds rest = refl
digits_then (suc fuel) n ds rest =
    ground (arith, digits_then fuel (n / 10) ((b'0' + n % 10) ∷ ds) rest)

skip_digit : (d : ℕ) (ds : Text) → d < 10 → after_colon ((b'0' + d) ∷ ds) ≡ after_colon ds
skip_digit d ds h = ground arith

skip_digits : (fuel n : ℕ) (ds : Text) → after_colon (decimal_digits fuel n ds) ≡ after_colon ds
unfolding decimal_digits
skip_digits zero n ds = refl
skip_digits (suc fuel) n ds = elim (Bool-cases (ltb n 10)) [
  | inl small ↦ let s : n < 10 = ground (arith, small) in rw small (skip_digit n ds s)
  | inr large ↦
      rw large
        (skip_digits fuel (n / 10) ((b'0' + n % 10) ∷ ds) ∙ skip_digit (n % 10) ds (omega arith))
]

skip_decimal : (n : ℕ) (s : Text) → after_colon (decimal n ++ (codes ":" ++ s)) ≡ s
unfolding decimal
skip_decimal n s =
    ap after_colon (digits_then (suc n) n [] (codes ":" ++ s))
    ∙ skip_digits (suc n) n (codes ":" ++ s)

name_of-process_node : (pid : ℕ) (name : Text) → name_of (process_node pid name) ≡ name
unfolding process_node
name_of-process_node pid name =
    ap name_of (
      append_assoc (codes "proc:" ++ decimal pid) (codes ":") name
      ∙ append_assoc (codes "proc:") (decimal pid) (codes ":" ++ name))
    ∙ skip_decimal pid name

-- A name that the loops give to a process that they know only by its number
abbrev pub is_made_up : Text → Bool
is_made_up name = name =? codes "unknown" || starts_with name (codes "pid-")

starts_with_nothing : (s : Text) → starts_with s [] ≡ true
unfolding starts_with
starts_with_nothing [] = refl
starts_with_nothing (a ∷ s) = refl

is_made_up-process_name : (found : Option (Text × ℕ)) → is_made_up (process_name found) ≡ true
unfolding process_name starts_with compare_text
is_made_up-process_name none = refl
is_made_up-process_name (some (container, pid)) = starts_with_nothing (decimal pid)

abbrev HasMadeUpName : Text → Type 0
HasMadeUpName from = is_made_up (name_of from) ≡ true

named-HasMadeUpName :
    (pid : ℕ) (found : Option (Text × ℕ)) → HasMadeUpName (process_node pid (process_name found))
named-HasMadeUpName pid found =
    ap is_made_up (name_of-process_node pid (process_name found)) ∙ is_made_up-process_name found

-- The node of a started process
abbrev pub started_node : ExecEvent → Text
started_node e = process_node e.pid (c_string e.command)

not_linked :
    (from : Text) (e : ExecEvent)
    → HasMadeUpName from
    → is_made_up (c_string e.command) ≡ false
    → started_node e ≢ from
not_linked from e h k same =
    let named : is_made_up (c_string e.command) ≡ true =
      ap is_made_up (sym (name_of-process_node e.pid (c_string e.command)) ∙ ap name_of same) ∙ h in
    ground (arith, named, k)

unlinked_one :
    (from : Text) (es : List ExecEvent)
    → HasMadeUpName from
    → All (λ e. is_made_up (c_string e.command) ≡ false) es
    → All (λ e. started_node e ≢ from) es
unlinked_one from [] h k = tt
unlinked_one from (e ∷ es) h k = (not_linked from e h k.0, unlinked_one from es h k.1)

unlinked :
    (froms : List Text) (es : List ExecEvent)
    → All HasMadeUpName froms
    → All (λ e. is_made_up (c_string e.command) ≡ false) es
    → All (λ from. All (λ e. started_node e ≢ from) es) froms
unlinked [] es h k = tt
unlinked (from ∷ froms) es h k = (unlinked_one from es h.0 k, unlinked froms es h.1 k)

module _ {F : Type 0} where
  -- The process from which a library or a connection is said to come
  abbrev source_of : Text → RuntimeEdge F → List Text
  source_of from (library_loaded time c) = from ∷ []
  source_of from (network_connection time bytes count c) = from ∷ []
  source_of from _ = []

  abbrev pub sources : List (StreamEvent F) → List Text
  sources [] = []
  sources (graph_update (edge_added from to edge) ∷ es) = source_of from edge ++ sources es
  sources (_ ∷ es) = sources es

  abbrev AreMadeUp : Bus F → Type 0
  AreMadeUp b = All HasMadeUpName (sources b.emitted)

  sources-append : (es es' : List (StreamEvent F)) → sources (es ++ es') ≡ sources es ++ sources es'
  sources-append [] es' = refl
  sources-append (graph_update (edge_added from to edge) ∷ es) es' =
      rw (sources-append es es')
        (sym (append_assoc (source_of from edge) (sources es) (sources es')))
  sources-append (graph_update _ ∷ es) es' = sources-append es es'
  sources-append (_ ∷ es) es' = sources-append es es'

  emit-AreMadeUp :
      (has_sender : Bool) (e : StreamEvent F) (b : Bus F)
      → All HasMadeUpName (sources (e ∷ []))
      → AreMadeUp b
      → AreMadeUp (emit has_sender e b)
  unfolding emit
  emit-AreMadeUp true e b h k =
      rw (sources-append b.emitted (e ∷ []))
        (All-append HasMadeUpName (sources b.emitted) (sources (e ∷ [])) k h)
  emit-AreMadeUp false e b h k = k

  resolve_on-AreMadeUp : (b : Bus F) (id : ℕ) → AreMadeUp b → AreMadeUp (resolve_on b id).0
  unfolding resolve_on
  resolve_on-AreMadeUp b id h = h

  if-AreMadeUp :
      (test : Bool) (x y : Bus F) → AreMadeUp x → AreMadeUp y → AreMadeUp (if test then x else y)
  if-AreMadeUp true x y h k = h
  if-AreMadeUp false x y h k = k

module _ {F : Type 0} ⦃f : Float F⦄ where
  process_exec-AreMadeUp :
      (s : Bool) (b : Bus F) (e : ExecEvent) → AreMadeUp b → AreMadeUp (process_exec s b e)
  unfolding process_exec
  process_exec-AreMadeUp s b e h = emit-AreMadeUp s (graph_update (exec_edge e)) _ tt (
      emit-AreMadeUp s (bpf_event e.timestamp_ns (codes "exec") _) (resolve_on b e.cgroup_id).0 tt
        (resolve_on-AreMadeUp b e.cgroup_id h))

  process_file-AreMadeUp :
      (s : Bool) (b : Bus F) (e : FileEvent) → AreMadeUp b → AreMadeUp (process_file s b e)
  unfolding process_file report_sensitive report_load
  process_file-AreMadeUp s b e h =
      let told = report_sensitive s b e in
      let k : AreMadeUp told =
        if-AreMadeUp (is_sensitive_path (c_string e.path)) _ b (emit-AreMadeUp s _ b tt h) h in
      let found = (resolve_on told e.cgroup_id).1 in
      if-AreMadeUp (loads_library e) _ told
        (emit-AreMadeUp s (graph_update (lib_edge e (process_name found))) _
          (named-HasMadeUpName e.pid found, tt)
          (emit-AreMadeUp s _ (resolve_on told e.cgroup_id).0 tt
            (resolve_on-AreMadeUp told e.cgroup_id k)))
        k

  process_net-AreMadeUp :
      (s : Bool) (b : Bus F) (e : NetEvent) → AreMadeUp b → AreMadeUp (process_net s b e)
  unfolding process_net report_suspicious report_connection
  process_net-AreMadeUp s b e h =
      let told = report_suspicious s b e in
      let k : AreMadeUp told =
        if-AreMadeUp (is_suspicious_destination e.daddr e.dport) _ b (emit-AreMadeUp s _ b tt h)
          h in
      let found = (resolve_on told e.cgroup_id).1 in
      if-AreMadeUp (is_connect e.kind) _ told
        (emit-AreMadeUp s (graph_update (net_edge e (process_name found))) _
          (named-HasMadeUpName e.pid found, tt) (resolve_on-AreMadeUp told e.cgroup_id k))
        k

  flush_all-AreMadeUp :
      (s : Bool) (now : ℕ) (c : EventConsumer) (b : Bus F)
      → AreMadeUp b
      → AreMadeUp (flush_all s now c b).1
  unfolding flush_all process_exec_batch process_file_batch process_net_batch
  flush_all-AreMadeUp s now c b h = elim (Bool-cases (is_idle c)) [
    | inl idle ↦ rw idle h
    | inr busy ↦ rw busy (
        foldl_keeps AreMadeUp (process_net s) (process_net-AreMadeUp s)
          (process_file_batch s c.file_batch (process_exec_batch s c.exec_batch b)) c.net_batch
          (foldl_keeps AreMadeUp (process_file s) (process_file-AreMadeUp s)
            (process_exec_batch s c.exec_batch b) c.file_batch
            (foldl_keeps AreMadeUp (process_exec s) (process_exec-AreMadeUp s) b c.exec_batch h)))
  ]

  -- Where no command is called `unknown` or begins with `pid-`: of the edges to libraries and addresses
  -- that a call sends, with none sent before, none comes from the node of a process start in its
  -- batch, whatever its number.
  pub flush_all_unlinked :
      (has_sender : Bool) (now : ℕ) (c : EventConsumer) (b : Bus F)
      → All (λ e. is_made_up (c_string e.command) ≡ false) c.exec_batch
      → sources b.emitted ≡ []
      → All
          (λ from. All (λ e. started_node e ≢ from) c.exec_batch)
          (sources (flush_all has_sender now c b).1.emitted)
  flush_all_unlinked has_sender now c b named fresh =
      let start : AreMadeUp b = rw fresh tt in
      unlinked (sources (flush_all has_sender now c b).1.emitted) c.exec_batch
        (flush_all-AreMadeUp has_sender now c b start) named
