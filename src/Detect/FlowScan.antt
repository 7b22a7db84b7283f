-- ===== src/Detect/FlowScan.antt =====
-- Port scans, host sweeps and floods seen in flow records (api/src/flow/detect.ts,
-- `FlowScanDetector`). Windows run on the time of arrival.
pub mod Soundness
pub mod Evidence
pub mod Accounting
use network_monitoring.Base.{
  ℕ, ◌+◌, ◌/◌, Bool, true, false, ◌||◌, Option, none, some, List, [], ◌∷◌, ◌++◌, leb, nat_beq,
  if◌then◌else◌, length, Str, codes, list_eq, nat_eq, take, max,
}
use network_monitoring.Detect.Attempt.{
  DetectionSettings, Attempt, is_client_traffic, max_tracked_sources, rounded_seconds,
  port_service_name, service_evidence, is_known, sort_numbers, port_key, sweep_key, pair, addressed,
}
use network_monitoring.Detect.Cooldown as Cooldown
use network_monitoring.Detect.Cooldown.{BoundedMap}
use network_monitoring.Detect.Finding.{
  Finding, Value, text, number, flag, texts, numbers, text_or_null, high, port_scan, host_sweep,
  syn_flood,
}
use network_monitoring.Detect.FlowFinding.{
  flow_port_scan_finding, flow_host_sweep_finding, flow_flood_finding,
}
use network_monitoring.Detect.Scan.{report_when}
use network_monitoring.Detect.Window as Window
use network_monitoring.Detect.Window.{SlidingWindow, add, total, distinct}
use network_monitoring.Flow.Types.{
  FlowRecord, FlowProtocol, netflow5, netflow9, ipfix, is_unanswered_tcp, describe_tcp_flags,
}
use network_monitoring.Js.Date.{Date}
use network_monitoring.Js.Text.{to_string}

pub record FlowScanDetector : Type 0 where
  pub ports_per_target : SlidingWindow ℕ
  pub hosts_per_port : SlidingWindow Str
  pub attempts : SlidingWindow Str
  pub last_reported : BoundedMap Str ℕ
  pub flows_inspected : ℕ
  pub unanswered_flows : ℕ
  pub finding_count : ℕ

unfoldable pub new_flow_scan_detector : DetectionSettings → FlowScanDetector
new_flow_scan_detector settings = record {
  ports_per_target = record { entries = []; window_ms = settings.scan_window_ms };
  hosts_per_port = record { entries = []; window_ms = settings.scan_window_ms };
  attempts = record { entries = []; window_ms = settings.flood_window_ms };
  last_reported = record { entries = []; max_entries = max_tracked_sources };
  flows_inspected = 0;
  unanswered_flows = 0;
  finding_count = 0;
}

abbrev pub flood_key : Attempt → Str
flood_key attempt = codes "sf|" ++ attempt.source

unfoldable pub flow_ports :
    DetectionSettings
    → FlowRecord
    → Attempt
    → FlowScanDetector
    → List (Finding Date) × FlowScanDetector
flow_ports settings flow attempt detector =
    let (count, window) =
      add (port_key attempt) attempt.port attempt.now detector.ports_per_target in
    let ports = sort_numbers (distinct (port_key attempt) attempt.now window) in
    let (findings, reported) =
      report_when (leb settings.port_scan_ports count) (codes "ps|" ++ port_key attempt) attempt.now
        (flow_port_scan_finding settings flow attempt count ports) detector.last_reported in
    (findings, record detector { ports_per_target = window; last_reported = reported })

unfoldable pub flow_hosts :
    DetectionSettings
    → FlowRecord
    → Attempt
    → FlowScanDetector
    → List (Finding Date) × FlowScanDetector
flow_hosts settings flow attempt detector =
    let (count, window) =
      add (sweep_key attempt) attempt.target attempt.now detector.hosts_per_port in
    let hosts = distinct (sweep_key attempt) attempt.now window in
    let (findings, reported) =
      report_when (leb settings.host_sweep_hosts count) (codes "hs|" ++ sweep_key attempt)
        attempt.now (flow_host_sweep_finding settings flow attempt count hosts)
        detector.last_reported in
    if is_client_traffic attempt.port
    then ([], detector)
    else (findings, record detector { hosts_per_port = window; last_reported = reported })

unfoldable pub flow_rate :
    DetectionSettings
    → FlowRecord
    → Attempt
    → FlowScanDetector
    → List (Finding Date) × FlowScanDetector
flow_rate settings flow attempt detector =
    let (distinct_count, window) =
      add (flood_key attempt) (pair attempt) attempt.now detector.attempts in
    let count = total (flood_key attempt) attempt.now window in
    let targets = length (distinct (flood_key attempt) attempt.now window) in
    let (findings, reported) =
      report_when (leb settings.syn_flood_attempts count) (codes "fl|" ++ attempt.source)
        attempt.now (flow_flood_finding settings flow attempt count targets)
        detector.last_reported in
    (findings, record detector { attempts = window; last_reported = reported })

-- The attempt that a flow records: addressed, and never answered.
unfoldable pub flow_attempt_of : FlowRecord → Option Attempt
flow_attempt_of flow = elim (addressed flow.src_ip flow.dst_ip flow.dst_port flow.observed_at) [
  | none ↦ none
  | some attempt ↦ if is_unanswered_tcp flow then some attempt else none
]

unfoldable pub inspect_flow_attempt :
    DetectionSettings
    → FlowRecord
    → Attempt
    → FlowScanDetector
    → List (Finding Date) × FlowScanDetector
inspect_flow_attempt settings flow attempt detector =
    let (scans, detector1) = flow_ports settings flow attempt detector in
    let (sweeps, detector2) = flow_hosts settings flow attempt detector1 in
    let (floods, detector3) = flow_rate settings flow attempt detector2 in
    let findings = scans ++ (sweeps ++ floods) in
    (findings, record detector3 { finding_count = detector3.finding_count + length findings })

unfoldable pub inspect :
    DetectionSettings → FlowRecord → FlowScanDetector → List (Finding Date) × FlowScanDetector
inspect settings flow detector =
    let counted = record detector { flows_inspected = detector.flows_inspected + 1 } in
    elim (flow_attempt_of flow) [
      | none ↦ ([], counted)
      | some attempt ↦
          inspect_flow_attempt settings flow attempt
            (record counted { unanswered_flows = counted.unanswered_flows + 1 })
    ]

unfoldable pub sweep : ℕ → FlowScanDetector → FlowScanDetector
sweep now detector = record detector {
  ports_per_target = Window.sweep now detector.ports_per_target;
  hosts_per_port = Window.sweep now detector.hosts_per_port;
  attempts = Window.sweep now detector.attempts;
}

pub record FlowDetectionStats : Type 0 where
  pub flows_inspected : ℕ
  pub unanswered_flows : ℕ
  pub findings : ℕ
  pub intel_matches : ℕ

unfoldable pub stats : FlowScanDetector → FlowDetectionStats
stats detector = record {
  flows_inspected = detector.flows_inspected;
  unanswered_flows = detector.unanswered_flows;
  findings = detector.finding_count;
  intel_matches = 0;
}

unfoldable pub reset : FlowScanDetector → FlowScanDetector
reset detector = record {
  ports_per_target = Window.reset detector.ports_per_target;
  hosts_per_port = Window.reset detector.hosts_per_port;
  attempts = Window.reset detector.attempts;
  last_reported = Cooldown.reset detector.last_reported;
  flows_inspected = 0;
  unanswered_flows = 0;
  finding_count = 0;
}
