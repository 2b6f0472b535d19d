-- ===== src/Common/Finding.antt =====
-- The vulnerability records of scanner-common/src/lib.rs, over the type of its `f32` values.
use execution_aware_scanner.Prelude.{ℕ, Bool, List}
use execution_aware_scanner.Text.{Text, codes}
use execution_aware_scanner.Containers.OrdSet.{OrdSet}
use execution_aware_scanner.Containers.OrdMap.{OrdMap}

pub record RuntimeIdentity : Type 0 where
  pub node_name : Text
  pub namespace : Text
  pub pod_name : Text
  pub container_name : Text
  pub image : Text
  pub workload : Text
  pub labels : OrdMap Text Text

pub data RuntimeDisposition : Type 0 where
  reachable dormant unknown : RuntimeDisposition

pub data Priority : Type 0 where
  informational low medium high critical : Priority

-- `format!("{:?}", priority)`
abbrev pub priority_name : Priority → Text
priority_name informational = codes "Informational"
priority_name low = codes "Low"
priority_name medium = codes "Medium"
priority_name high = codes "High"
priority_name critical = codes "Critical"

pub record RiskSignal (F : Type 0) : Type 0 where
  pub cve : Text
  pub cvss : F
  pub epss : F
  pub kev : Bool
  pub runtime : RuntimeDisposition
  pub package_ : Text
  pub observed_paths : OrdSet Text
  pub signal_weight : F

pub record SignalEvidence (F : Type 0) : Type 0 where
  pub signal_type : Text
  pub timestamp_ns : ℕ
  pub details : Text
  pub confidence : F

pub record RiskComponents (F : Type 0) : Type 0 where
  pub cvss : F
  pub epss : F
  pub kev : Bool
  pub runtime : RuntimeDisposition
  pub signal_boost : F

pub record ExplainabilityReport (F : Type 0) : Type 0 where
  pub decision : Text
  pub confidence : F
  pub components : RiskComponents F
  pub signals : List (SignalEvidence F)
  pub ablation_disabled : List Text

pub record Finding (F : Type 0) : Type 0 where
  pub id : Text
  pub detected_at : ℕ
  pub identity : RuntimeIdentity
  pub signal : RiskSignal F
  pub score : F
  pub priority : Priority
  pub recommendation : Text
  pub explainability : ExplainabilityReport F

pub record SeccompRule : Type 0 where
  pub names : List Text
  pub action : Text

pub record SeccompProfile : Type 0 where
  pub default_action : Text
  pub architectures : List Text
  pub syscalls : List SeccompRule
