-- ===== src/Attack/Nodes.antt =====
-- The nodes, edges, paths and updates of scanner-agent/src/runtime_attack_graph_v2.rs. `F` is `f32`.
use execution_aware_scanner.Prelude.{
  ℕ, ◌/◌, ◌%◌, Bool, true, false, ◌&&◌, Option, none, some, List, ◌++◌, ltb, leb, length, any, map,
}
use execution_aware_scanner.Text.{Text, codes, decimal}
use execution_aware_scanner.Containers.OrdMap.{OrdMap}
use execution_aware_scanner.Float.{Float, lit, ◌≤?◌}

pub record AttackGraphConfig (F : Type 0) : Type 0 where
  pub mmap_window_secs : ℕ
  pub network_window_secs : ℕ
  pub min_bytes_threshold : ℕ
  pub top_k : ℕ
  pub min_enforcement_confidence : F
  pub min_enforcement_depth : ℕ
  pub dedup_enabled : Bool

abbrev pub default_config : {F : Type 0} ⦃f : Float F⦄ → AttackGraphConfig F
default_config = record {
  mmap_window_secs = 300;
  network_window_secs = 30;
  min_bytes_threshold = 1024;
  top_k = 3;
  min_enforcement_confidence = lit 80;
  min_enforcement_depth = 3;
  dedup_enabled = true;
}

pub record VulnerabilityNode (F : Type 0) : Type 0 where
  pub cve_id : Text
  pub package_ : Text
  pub cvss : F
  pub epss : F
  pub kev : Bool

pub data RuntimeNode (F : Type 0) : Type 0 where
  process : ℕ → Text → ℕ → RuntimeNode F
  library : Text → List Text → RuntimeNode F
  network : Text → ℕ → Text → RuntimeNode F
  vulnerability : VulnerabilityNode F → RuntimeNode F
  technique : Text → Option Text → RuntimeNode F

-- Process, library and connection carry a time; a connection also its bytes and its events.
pub data RuntimeEdge (F : Type 0) : Type 0 where
  process_created : ℕ → F → RuntimeEdge F
  library_loaded : ℕ → F → RuntimeEdge F
  vulnerable : F → RuntimeEdge F
  network_connection : ℕ → ℕ → ℕ → F → RuntimeEdge F
  exploitation_attempt : F → Text → RuntimeEdge F
  uses_technique : F → RuntimeEdge F

abbrev pub process_id : ℕ → Text
process_id pid = codes "proc:" ++ decimal pid

abbrev pub library_id : Text → Text
library_id path = codes "lib:" ++ path

abbrev pub network_id : Text → ℕ → Text
network_id ip port = codes "net:" ++ ip ++ codes ":" ++ decimal port

abbrev pub vulnerability_id : Text → Text
vulnerability_id cve_id = codes "vuln:" ++ cve_id

pub record AttackPath (F : Type 0) : Type 0 where
  pub path_id : Text
  pub nodes : List (RuntimeNode F)
  pub edges : List (ℕ × ℕ × RuntimeEdge F)
  pub confidence : F
  pub risk_score : F
  pub time_window_secs : ℕ
  pub indicators : List Text
  pub depth : ℕ
  pub signal_types : List Text
  pub total_bytes : ℕ
  pub rank : Option ℕ

pub record AttackPathSummary (F : Type 0) : Type 0 where
  pub path_id : Text
  pub node_types : List Text
  pub node_count : ℕ
  pub depth : ℕ
  pub confidence : F
  pub risk_score : F
  pub total_bytes : ℕ
  pub signal_types : List Text
  pub indicators : List Text
  pub rank : Option ℕ
  pub is_burst : Bool

pub record AttackPathMetrics (F : Type 0) : Type 0 where
  pub paths_total : ℕ
  pub high_confidence_paths : ℕ
  pub avg_confidence : F
  pub paths_per_pid : OrdMap ℕ ℕ
  pub burst_events_collapsed : ℕ

pub data GraphUpdate (F : Type 0) : Type 0 where
  edge_added : Text → Text → RuntimeEdge F → GraphUpdate F
  edge_updated : Text → Text → ℕ → GraphUpdate F
  confidence_changed : Text → F → F → GraphUpdate F
  new_path : AttackPath F → GraphUpdate F

module _ {F : Type 0} where
  unfoldable pub node_id : RuntimeNode F → Text
  node_id (process pid name cgroup_id) = process_id pid
  node_id (library path cve_ids) = library_id path
  node_id (network ip port protocol) = network_id ip port
  node_id (vulnerability v) = vulnerability_id v.cve_id
  node_id (technique name tactic) = codes "tech:" ++ name

  abbrev pub node_type : RuntimeNode F → Text
  node_type (process pid name cgroup_id) = codes "process"
  node_type (library path cve_ids) = codes "library"
  node_type (network ip port protocol) = codes "network"
  node_type (vulnerability v) = codes "vulnerability"
  node_type (technique name tactic) = codes "technique"

  -- More than one event on a connection.
  abbrev pub is_burst : RuntimeEdge F → Bool
  is_burst (network_connection time total_bytes event_count confidence) = ltb 1 event_count
  is_burst _ = false

  abbrev pub timestamp_ns : RuntimeEdge F → Option ℕ
  timestamp_ns (process_created time confidence) = some time
  timestamp_ns (library_loaded time confidence) = some time
  timestamp_ns (network_connection time total_bytes event_count confidence) = some time
  timestamp_ns _ = none

  abbrev pub is_library_loaded : RuntimeEdge F → Bool
  is_library_loaded (library_loaded time confidence) = true
  is_library_loaded _ = false

  abbrev pub is_vulnerable : RuntimeEdge F → Bool
  is_vulnerable (vulnerable confidence) = true
  is_vulnerable _ = false

  abbrev pub is_network : RuntimeEdge F → Bool
  is_network (network_connection time total_bytes event_count confidence) = true
  is_network _ = false

  -- The bytes that an edge of a connection carries.
  abbrev pub edge_bytes : RuntimeEdge F → ℕ
  edge_bytes (network_connection time total_bytes event_count confidence) = total_bytes
  edge_bytes _ = 0

  unfoldable pub to_summary : AttackPath F → AttackPathSummary F
  to_summary p = record {
    path_id = p.path_id;
    node_types = map node_type p.nodes;
    node_count = length p.nodes;
    depth = p.depth;
    confidence = p.confidence;
    risk_score = p.risk_score;
    total_bytes = p.total_bytes;
    signal_types = p.signal_types;
    indicators = p.indicators;
    rank = p.rank;
    is_burst = any (λ (e : ℕ × ℕ × RuntimeEdge F). is_burst e.2) p.edges;
  }

  unfoldable pub meets_enforcement_criteria :
      ⦃f : Float F⦄ → AttackPath F → AttackGraphConfig F → Bool
  meets_enforcement_criteria p config =
      leb config.min_enforcement_depth p.depth
      && (config.min_enforcement_confidence ≤? p.confidence)
      && leb 2 (length p.signal_types)

-- `daddr_h` is `u32::from_be` of the address, so its high byte is the low one of the record; the four
-- bytes are printed from the high one down.
unfoldable pub dotted : ℕ → Text
dotted daddr =
    decimal (daddr % 256)
    ++ codes "."
    ++ decimal (daddr / 256 % 256)
    ++ codes "."
    ++ decimal (daddr / 65536 % 256)
    ++ codes "."
    ++ decimal (daddr / 16777216 % 256)
