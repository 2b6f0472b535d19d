-- ===== src/Fixtures.antt =====
-- A workload, a vulnerability in it and the finding of it, for the tests.
use execution_aware_scanner.Prelude.{Bool, true, some, [], ◌∷◌}
use execution_aware_scanner.Text.{Text, codes}
use execution_aware_scanner.Common.Finding.{
  RuntimeIdentity, RiskSignal, reachable, Finding, critical,
}
use execution_aware_scanner.Float.Fixed.{Fixed}

abbrev pub nginx : RuntimeIdentity
nginx = record {
  node_name = codes "node-1";
  namespace = codes "default";
  pod_name = codes "nginx-0";
  container_name = codes "nginx";
  image = codes "nginx:1.27";
  workload = codes "nginx";
  labels = [];
}

-- A CVE of that name with a CVSS value, in the KEV catalog or not.
abbrev pub openssl_signal : Text → Fixed → Bool → RiskSignal Fixed
openssl_signal cve cvss kev = record {
  cve = cve;
  cvss = cvss;
  epss = some 91;
  kev = kev;
  runtime = reachable;
  package_ = codes "openssl";
  observed_paths = codes "/usr/lib/libssl.so" ∷ [];
  signal_weight = some 200;
}

abbrev pub finding_of_cve : Text → Finding Fixed
finding_of_cve cve = record {
  id = codes "f-1";
  detected_at = 1;
  identity = nginx;
  signal = openssl_signal cve (some 980) true;
  score = some 950;
  priority = critical;
  recommendation = [];
  explainability = record {
    decision = [];
    confidence = some 80;
    components = record {
      cvss = some 980;
      epss = some 91;
      kev = true;
      runtime = reachable;
      signal_boost = some 200;
    };
    signals = [];
    ablation_disabled = [];
  };
}
