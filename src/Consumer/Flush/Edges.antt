-- ===== src/Consumer/Flush/Edges.antt =====
-- The edges that `flush_all` of scanner-agent/src/event_consumer.rs sends.
use execution_aware_scanner.Prelude.{
  ℕ, ◌≡◌, refl, true, List, [], ◌∷◌, ◌++◌, concat_map, if◌then◌else◌,
}
use execution_aware_scanner.Text.{Text}
use execution_aware_scanner.Float.{Float}
use execution_aware_scanner.Common.CString.{c_string}
use execution_aware_scanner.Common.Events.{ExecEvent, FileEvent, NetEvent}
use execution_aware_scanner.Attack.Nodes.{GraphUpdate, edge_added}
use execution_aware_scanner.Streaming.Engine.{StreamEvent}
use execution_aware_scanner.Consumer.Intake.{EventConsumer}
use execution_aware_scanner.Consumer.Flush.{
  Bus, is_connect, process_node, lib_node, net_node, loads_library, flush_all,
}
use execution_aware_scanner.Consumer.Flush.Sent.{picked, picked-flush_all}

abbrev pub exec_targets : ExecEvent → List Text
exec_targets e = process_node e.pid (c_string e.command) ∷ []

abbrev pub file_targets : FileEvent → List Text
file_targets e = if loads_library e then lib_node (c_string e.path) ∷ [] else []

abbrev pub net_targets : NetEvent → List Text
net_targets e = if is_connect e.kind then net_node e ∷ [] else []

-- Where an added edge leads
abbrev pub target_of : {F : Type 0} → GraphUpdate F → List Text
target_of (edge_added from to edge) = to ∷ []
target_of _ = []

abbrev pub targets : {F : Type 0} → List (StreamEvent F) → List Text
targets es = picked target_of es

module _ {F : Type 0} ⦃f : Float F⦄ where
  -- With a sender, one call sends an edge for each event that asks for one, and no other, in the order
  -- of the batches and the events in them: to the process of each start, to the library of each
  -- mapping of one, and to the address of each connection; and it leaves the batches empty.
  pub flush_all_targets :
      (now : ℕ) (c : EventConsumer) (b : Bus F)
      → (targets (flush_all true now c b).1.emitted
          ≡ targets b.emitted
            ++ (concat_map exec_targets c.exec_batch
                ++ (concat_map file_targets c.file_batch ++ concat_map net_targets c.net_batch)))
        × (((flush_all true now c b).0.exec_batch ≡ [])
            × (((flush_all true now c b).0.file_batch ≡ [])
                × ((flush_all true now c b).0.net_batch ≡ [])))
  flush_all_targets now c b =
      picked-flush_all target_of exec_targets (λ e. lib_node (c_string e.path) ∷ [])
        (λ e. net_node e ∷ []) (λ e. refl) (λ e name. refl) (λ e name. refl) now c b
