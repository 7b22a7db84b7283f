-- ===== src/Detect/FlowEngine.antt =====
-- The flow detectors over each record: listed addresses, then scans
-- (api/src/flow/detect.ts, `FlowDetectionEngine`). The set of indicators is an argument.
pub mod Laws
pub mod Alert
use network_monitoring.Base.{
  ℕ, ◌+◌, Bool, true, false, Option, none, some, List, [], ◌∷◌, ◌++◌, nat_beq, leb, if◌then◌else◌,
  Str, codes, list_eq, nat_eq,
}
use network_monitoring.Detect.Attempt.{DetectionSettings}
use network_monitoring.Detect.Cooldown as Cooldown
use network_monitoring.Detect.Cooldown.{BoundedMap, should_report}
use network_monitoring.Detect.Finding.{Finding, Value, text, number, threat_intel, word}
use network_monitoring.Detect.FlowFinding.{version_name}
use network_monitoring.Detect.FlowScan as FlowScan
use network_monitoring.Detect.FlowScan.{
  FlowScanDetector, new_flow_scan_detector, FlowDetectionStats,
}
use network_monitoring.Detect.IntelFinding.{
  direction_name, type_name, assessment_params, note_evidence, or_empty,
}
use network_monitoring.Detect.ThreatIntel.{intel_cooldown_ms, max_tracked_pairs}
use network_monitoring.Flow.Types.{FlowRecord}
use network_monitoring.Intel.Assess.{Assessment, direction_of, assess}
use network_monitoring.Intel.Indicators.{IndicatorSet, IndicatorMatch, size, match_ip}
use network_monitoring.Js.Date.{Date}

abbrev pub sweep_interval_ms : ℕ
sweep_interval_ms = 10_000

pub record FlowDetectionEngine : Type 0 where
  pub scan : FlowScanDetector
  pub intel_reported : BoundedMap Str ℕ
  pub intel_matches : ℕ
  pub last_sweep : ℕ

abbrev pub new_flow_detection_engine : DetectionSettings → FlowDetectionEngine
new_flow_detection_engine settings = record {
  scan = new_flow_scan_detector settings;
  intel_reported = record { entries = []; max_entries = max_tracked_pairs };
  intel_matches = 0;
  last_sweep = 0;
}

unfoldable pub assess_flow : FlowRecord → Option Str → Option Str → IndicatorMatch → Assessment
assess_flow flow observed peer found = assess found (record {
  local_ip = peer;
  remote_ip = observed;
  direction = direction_of flow.src_ip flow.dst_ip;
  via = record {
    key = codes "threat_intel.via.flow_export";
    params =
        (codes "version", word (version_name flow.protocol_version))
        ∷ (codes "exporter", word flow.exporter)
        ∷ [];
  };
})

unfoldable pub flow_intel_finding : FlowRecord → IndicatorMatch → Assessment → Finding Date
flow_intel_finding flow found grade = record {
  kind = threat_intel;
  severity = grade.severity;
  message_key = grade.message_key;
  message_params = assessment_params grade.message_params;
  dedup_key = grade.dedup_key;
  source_ip = flow.src_ip;
  source_mac = flow.src_mac;
  target_ip = flow.dst_ip;
  target_mac = flow.dst_mac;
  protocol = some flow.protocol_name;
  port = none;
  evidence =
      (codes "indicator", text found.indicator)
      ∷ (codes "indicatorType", text (type_name found.kind))
      ∷ (codes "matchedAddress", text found.observed)
      ∷ (codes "feed", text found.source)
      ∷ (note_evidence found.note
          ++ ((codes "direction", text (direction_name (direction_of flow.src_ip flow.dst_ip)))
              ∷ (codes "observedVia", text (version_name flow.protocol_version))
              ∷ (codes "exporter", text flow.exporter)
              ∷ (codes "destinationPort", number flow.dst_port)
              ∷ (codes "flowPackets", number flow.packets)
              ∷ (codes "flowBytes", number flow.bytes)
              ∷ []));
  timestamp = flow.end;
}

-- The first end that is listed decides: it is reported, or its pairing is in its cooldown and
-- nothing is.
unfoldable pub match_ends :
    IndicatorSet
    → FlowRecord
    → List (Option Str × Option Str)
    → FlowDetectionEngine
    → List (Finding Date) × FlowDetectionEngine
match_ends set flow [] engine = ([], engine)
match_ends set flow ((observed, peer) ∷ ends) engine = elim (match_ip (or_empty observed) set) [
  | none ↦ match_ends set flow ends engine
  | some found ↦
      let grade = assess_flow flow observed peer found in
      let (due, reported) =
        should_report intel_cooldown_ms grade.dedup_key flow.observed_at engine.intel_reported in
      if due
      then (
        flow_intel_finding flow found grade ∷ [],
        record engine { intel_reported = reported; intel_matches = engine.intel_matches + 1 },
      )
      else ([], record engine { intel_reported = reported })
]

unfoldable pub intel_findings :
    IndicatorSet → FlowRecord → FlowDetectionEngine → List (Finding Date) × FlowDetectionEngine
intel_findings set flow engine =
    if nat_beq (size set) 0
    then ([], engine)
    else match_ends set flow ((flow.dst_ip, flow.src_ip) ∷ (flow.src_ip, flow.dst_ip) ∷ []) engine

-- State expires at an interval.
unfoldable pub sweep_when_due : ℕ → FlowDetectionEngine → FlowDetectionEngine
sweep_when_due now engine =
    if leb (engine.last_sweep + sweep_interval_ms) now
    then record engine { scan = FlowScan.sweep now engine.scan; last_sweep = now }
    else engine

-- No part of it throws, so the source's `catch` is not reached.
unfoldable pub inspect :
    DetectionSettings
    → IndicatorSet
    → FlowRecord
    → FlowDetectionEngine
    → List (Finding Date) × FlowDetectionEngine
inspect settings set flow engine =
    let (matched, after_intel) = intel_findings set flow engine in
    let (scanned, scan) = FlowScan.inspect settings flow after_intel.scan in
    (matched ++ scanned, sweep_when_due flow.observed_at (record after_intel { scan = scan }))

unfoldable pub stats : FlowDetectionEngine → FlowDetectionStats
stats engine = record (FlowScan.stats engine.scan) {
  findings = (FlowScan.stats engine.scan).findings + engine.intel_matches;
  intel_matches = engine.intel_matches;
}

unfoldable pub reset : FlowDetectionEngine → FlowDetectionEngine
reset engine = record {
  scan = FlowScan.reset engine.scan;
  intel_reported = Cooldown.reset engine.intel_reported;
  intel_matches = 0;
  last_sweep = 0;
}
