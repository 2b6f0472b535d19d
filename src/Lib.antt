-- ===== src/Lib.antt =====
-- Verification library of the execution-aware scanner: an agent that watches workloads through eBPF
-- programs, keeps what it sees of each, scores the vulnerabilities of their packages by whether the
-- code runs, and may act on the worst of them.
--
-- How the parts work together. Kernel programs write event records, which the agent decodes with the
-- types of scanner-common and applies to its state store, one entry for each control group. The risk
-- engine scores a CVE of a workload, with what the store has seen, and turns it into a finding, which
-- the finding store keeps for the REST interface and the enforcers may act on. The reliability layer
-- stands around the pipeline: it throttles, breaks circuits, watches components and counts events.
--
-- Which module models which file:
--   Common       scanner-common/src/lib.rs: EventKind, the event records, the records of findings and
--                c_string with the UTF-8 decoding that it relies on
--   State        scanner-agent/src/state.rs: WorkloadState, StateStore and FindingStore with their
--                methods
--   Risk         scanner-agent/src/risk_engine.rs: calculate_exf_score, evaluate with the texts that it
--                writes, and the cache of scores
--   Reliability  scanner-agent/src/reliability.rs: ReliabilityConfig, BackpressureController,
--                CircuitBreaker, Watchdog, ReliabilityMetrics and HealthMonitor
--   Enforcement  scanner-agent/src/safe_enforcement.rs (Plan, Safe and Sanitize) and
--                scanner-agent/src/enforcement.rs (Controller and Seccomp, which also has
--                build_seccomp_profile of scanner-agent/src/risk_engine.rs)
--   Consumer     scanner-agent/src/event_consumer.rs: the parsers of the kernel's records with their
--                layouts in memory (Bytes, Records), the filters (Filter), the loops that empty the
--                three older ring buffers (Intake), and the single newer one (Security), the flush of
--                the batches (Flush), and the loops around these (Loop)
--   Attack       scanner-agent/src/runtime_attack_graph_v2.rs: RuntimeAttackGraph, the attack paths that
--                it collects for findings, their ranking and their use
--   Traffic      scanner-agent/src/tc_enforcer.rs: TcEnforcer over the maps of the loaded eBPF object
--   Sla          scanner-agent/src/sla_tracker.rs: SlaTracker
--   Cgroup       scanner-agent/src/cgroup.rs: CgroupResolver, which finds the container of a control
--                group in /proc
--   Webhook      scanner-agent/src/webhook_sender.rs: the payload of an alert, WebhookSender with its
--                rate limit and retries (Sender), and WebhookManager (Manager)
--   Policy       scanner-agent/src/policy_engine.rs: PolicyEngine over the files of the policies and the
--                program opa
--   Audit        scanner-agent/src/audit_trail.rs: AuditLogger over the files of its directory
--   Correlation  scanner-agent/src/runtime_correlation.rs: correlate_vulnerability, which finds the
--                libraries of a vulnerable package among what a workload has loaded
--   Streaming    scanner-agent/src/streaming_engine.rs: StreamingState, and StreamingEngine with its
--                loop (Engine)
-- Prelude, Text, Containers, Clock, Float and Outcome hold what these share: numbers and lists, strings
-- as lists of code points, the standard library's ordered sets and maps, and vectors that are kept to
-- a capacity.
--
-- How state and operations correspond. A struct is a record, an enum a data type, and a method a
-- function from the state before to the state after and its result. A method that takes locks one
-- after another is one step. A call that reads the clock takes the reading as an argument, in
-- nanoseconds; so do identifiers that are drawn at random. A hash map is an ordered map, which is one
-- of the orders in which it may be traversed. Counters of machine width wrap as they do in a release
-- build. The tasks that ReliabilityMetrics spawns are values that the scheduler may run in any order.
-- A ring buffer is the list of the records that it yields, and a record is its bytes. A parser that
-- may read a tag which no variant has says so with a value of its own, undefined_value.
--
-- The maps that the kernel holds are a parameter: the record Traffic.KernelMaps.KernelMaps has the calls
-- of them, each of which may fail, and IsHashMap states what is documented of their effect.
--
-- The crate petgraph is a parameter too: Attack.DiGraph.DiGraph has the calls of its graph, IsDiGraph what
-- it documents, and Attack.DiGraph.Listed shows that this can hold.
--
-- What stands outside the program is an argument of the functions that meet it: what a walk of /proc or
-- a policy directory finds, how the program opa ends and what serde_json reads in its output, and what
-- each HTTP request of a webhook comes to.
--
-- Floating point is a parameter: the record Float has the operations, and IsIeee states what the
-- theorems use of IEEE 754, that comparison is a total order away from NaN, that rounding keeps order
-- and sign, and that NaN is contagious in sums and products. Float.Fixed shows that these laws can
-- hold. How a float, a set or an Instant prints is a parameter too.
--
-- All loops are by structural recursion, except three on fuel: the digits of a number, with one
-- round more than the number itself, which exceeds its number of digits; the prefixes and suffixes
-- that are trimmed off a text, with one round for each of its characters; and the retries of a webhook, with
-- one round for each attempt that is configured (or one), after which Webhook.Retry shows that the
-- loop has ended.
--
-- What is not modelled: logging; the rules of EnforcementController, which no method fills; the run
-- loop of ProductionRunner; the serde implementations of scanner-common; and the parts of the program
-- around these files, which are the loading of eBPF programs, the older attack graphs, intelligence feeds, the
-- JSON formats of the webhooks, the aggregator and the user interfaces.
pub mod Prelude
pub mod Text
pub mod Traffic
pub mod Cgroup
pub mod Webhook
pub mod Policy
pub mod Correlation
pub mod Audit
pub mod Attack
pub mod Containers
pub mod Clock
pub mod Float
pub mod Common
pub mod Reliability
pub mod State
pub mod Outcome
pub mod Enforcement
pub mod Consumer
pub mod Sla
pub mod Streaming
mod Fixtures
pub mod Risk
