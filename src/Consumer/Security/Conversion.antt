-- ===== src/Consumer/Security/Conversion.antt =====
-- What a record of the single ring buffer stands for.
use execution_aware_scanner.Prelude.{
  ℕ, ◌==◌, ◌≡◌, refl, Bool, Option, none, some, List, [], ◌∷◌, ◌++◌, if◌then◌else◌,
}
use execution_aware_scanner.Common.Kind.{open_, mmap, connect, tcp_send, udp_send}
use execution_aware_scanner.Consumer.Bytes.{byte_at}
use execution_aware_scanner.Common.Events.{ExecEvent, FileEvent, NetEvent}
use execution_aware_scanner.State.Store.{Event, exec_event, file_event, net_event}
use execution_aware_scanner.Consumer.Filter.{
  should_filter_exec, should_filter_file, should_filter_net,
}
use execution_aware_scanner.Consumer.Security.{
  exec_of, file_of, net_of, SecurityEvent, SecurityEventKind, exec, file, mmap_, connect_,
  net_transfer, dns, exit, suspicious, parse_security_event, security_to_exec, security_to_file,
  security_to_net,
}

-- What a security event becomes: one event of the store, or none.
pub data Converts (e : SecurityEvent) : Type 0 where
  to_exec :
      (x : ExecEvent)
      → security_to_exec e ≡ some x
      → security_to_file e ≡ none
      → security_to_net e ≡ none
      → Converts e
  to_file :
      (x : FileEvent)
      → security_to_exec e ≡ none
      → security_to_file e ≡ some x
      → security_to_net e ≡ none
      → Converts e
  to_net :
      (x : NetEvent)
      → security_to_exec e ≡ none
      → security_to_file e ≡ none
      → security_to_net e ≡ some x
      → Converts e
  to_nothing :
      security_to_exec e ≡ none → security_to_file e ≡ none → security_to_net e ≡ none → Converts e

pub converts : (e : SecurityEvent) → Converts e
unfolding security_to_exec security_to_file security_to_net
converts e = of_kind e.kind refl
  where
    of_kind : (k : SecurityEventKind) → e.kind ≡ k → Converts e
    of_kind exec h =
        to_exec (exec_of e) (rw (h, security_to_exec) refl) (rw (h, security_to_file) refl)
          (rw (h, security_to_net) refl)
    of_kind file h =
        to_file (file_of e open_) (rw (h, security_to_exec) refl) (rw (h, security_to_file) refl)
          (rw (h, security_to_net) refl)
    of_kind mmap_ h =
        to_file (file_of e mmap) (rw (h, security_to_exec) refl) (rw (h, security_to_file) refl)
          (rw (h, security_to_net) refl)
    of_kind connect_ h =
        to_net (net_of e connect) (rw (h, security_to_exec) refl) (rw (h, security_to_file) refl)
          (rw (h, security_to_net) refl)
    of_kind net_transfer h =
        to_net (net_of e (if byte_at 24 e.data_ == 17 then udp_send else tcp_send))
          (rw (h, security_to_exec) refl) (rw (h, security_to_file) refl)
          (rw (h, security_to_net) refl)
    of_kind dns h =
        to_nothing (rw (h, security_to_exec) refl) (rw (h, security_to_file) refl)
          (rw (h, security_to_net) refl)
    of_kind exit h =
        to_nothing (rw (h, security_to_exec) refl) (rw (h, security_to_file) refl)
          (rw (h, security_to_net) refl)
    of_kind suspicious h =
        to_nothing (rw (h, security_to_exec) refl) (rw (h, security_to_file) refl)
          (rw (h, security_to_net) refl)

abbrev pub unless : {A : Type 0} → Bool → A → List A
unless left_out x = if left_out then [] else x ∷ []

abbrev pub exec_events : Option ExecEvent → List Event
exec_events none = []
exec_events (some x) = unless (should_filter_exec x) (exec_event x)

abbrev pub file_events : Option FileEvent → List Event
file_events none = []
file_events (some x) = unless (should_filter_file x) (file_event x)

abbrev pub net_events : Option NetEvent → List Event
net_events none = []
net_events (some x) = unless (should_filter_net x) (net_event x)

-- The events of the store that a record stands for: at most one.
abbrev pub delivered_by : Option SecurityEvent → List Event
delivered_by none = []
delivered_by (some e) =
    exec_events (security_to_exec e)
    ++ (file_events (security_to_file e) ++ net_events (security_to_net e))

abbrev pub delivered : List (List ℕ) → List Event
delivered [] = []
delivered (d ∷ ds) = delivered_by (parse_security_event d) ++ delivered ds
