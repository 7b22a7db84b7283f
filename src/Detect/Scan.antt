-- ===== src/Detect/Scan.antt =====
-- Port scans, host sweeps and floods seen in packets (api/src/packet/detect/scan.ts).
pub mod Laws
pub mod Evidence
use network_monitoring.Base.{
  ℕ, ◌+◌, ◌/◌, Bool, true, false, Option, none, some, List, [], ◌∷◌, ◌++◌, leb, if◌then◌else◌,
  length, Str, codes, list_eq, nat_eq, take, max,
}
use network_monitoring.Detect.Attempt.{
  DetectionSettings, Attempt, attempt_of, is_client_traffic, max_tracked_sources,
  report_cooldown_ms, rounded_seconds, port_service_name, service_evidence, is_known, sort_numbers,
  source_mac, target_mac, port_key, sweep_key, syn_key, pair,
}
use network_monitoring.Detect.Cooldown as Cooldown
use network_monitoring.Detect.Cooldown.{BoundedMap, should_report}
use network_monitoring.Detect.Finding.{
  Finding, Value, text, number, flag, texts, numbers, text_or_null, high, port_scan, host_sweep,
  syn_flood,
}
use network_monitoring.Detect.Window as Window
use network_monitoring.Detect.Window.{SlidingWindow, add, total, distinct}
use network_monitoring.Js.Text.{to_string}
use network_monitoring.Packet.Headers.{DecodedPacket}

pub record ScanDetector : Type 0 where
  pub ports_per_target : SlidingWindow ℕ
  pub hosts_per_port : SlidingWindow Str
  pub syn_count : SlidingWindow Str
  pub last_reported : BoundedMap Str ℕ

unfoldable pub new_scan_detector : DetectionSettings → ScanDetector
new_scan_detector settings = record {
  ports_per_target = record { entries = []; window_ms = settings.scan_window_ms };
  hosts_per_port = record { entries = []; window_ms = settings.scan_window_ms };
  syn_count = record { entries = []; window_ms = settings.flood_window_ms };
  last_reported = record { entries = []; max_entries = max_tracked_sources };
}

unfoldable pub port_scan_finding :
    DetectionSettings → DecodedPacket → Attempt → ℕ → List ℕ → Finding ℕ
port_scan_finding settings packet attempt count ports = record {
  kind = port_scan;
  severity = high;
  message_key = codes "port_scan.packet";
  message_params =
      (codes "source", text attempt.source)
      ∷ (codes "target", text attempt.target)
      ∷ (codes "count", number count)
      ∷ (codes "seconds", number (rounded_seconds settings.scan_window_ms))
      ∷ [];
  dedup_key = codes "port_scan|" ++ (attempt.source ++ (codes "|" ++ attempt.target));
  source_ip = some attempt.source;
  source_mac = source_mac packet.ethernet;
  target_ip = some attempt.target;
  target_mac = target_mac packet.ethernet;
  protocol = some (codes "TCP");
  port = none;
  evidence =
      (codes "scanner", text attempt.source)
      ∷ (codes "target", text attempt.target)
      ∷ (codes "distinctPortsProbed", number count)
      ∷ (codes "samplePorts", numbers (take 40 ports))
      ∷ (codes "windowSeconds", number (rounded_seconds settings.scan_window_ms))
      ∷ [];
  timestamp = packet.timestamp;
}

unfoldable pub host_sweep_finding :
    DetectionSettings → DecodedPacket → Attempt → ℕ → List Str → Finding ℕ
host_sweep_finding settings packet attempt count hosts = record {
  kind = host_sweep;
  severity = high;
  message_key = codes "host_sweep.packet";
  message_params =
      (codes "source", text attempt.source)
      ∷ (codes "port", text (to_string 10 attempt.port))
      ∷ (codes "count", number count)
      ∷ (codes "seconds", number (rounded_seconds settings.scan_window_ms))
      ∷ (codes "service", text_or_null (port_service_name attempt.port))
      ∷ (codes "hasService", flag (is_known (port_service_name attempt.port)))
      ∷ [];
  dedup_key = codes "host_sweep|" ++ (attempt.source ++ (codes "|" ++ to_string 10 attempt.port));
  source_ip = some attempt.source;
  source_mac = source_mac packet.ethernet;
  target_ip = none;
  target_mac = none;
  protocol = some (codes "TCP");
  port = some attempt.port;
  evidence =
      (codes "scanner", text attempt.source)
      ∷ (codes "port", number attempt.port)
      ∷ (codes "service", service_evidence (port_service_name attempt.port))
      ∷ (codes "distinctHostsProbed", number count)
      ∷ (codes "sampleHosts", texts (take 30 hosts))
      ∷ (codes "windowSeconds", number (rounded_seconds settings.scan_window_ms))
      ∷ [];
  timestamp = packet.timestamp;
}

unfoldable pub syn_flood_finding : DetectionSettings → DecodedPacket → Attempt → ℕ → ℕ → Finding ℕ
syn_flood_finding settings packet attempt attempts targets = record {
  kind = syn_flood;
  severity = high;
  message_key = codes "syn_flood.packet";
  message_params =
      (codes "source", text attempt.source)
      ∷ (codes "count", number attempts)
      ∷ (codes "seconds", number (max 1 (rounded_seconds settings.flood_window_ms)))
      ∷ [];
  dedup_key = codes "syn_flood|" ++ attempt.source;
  source_ip = some attempt.source;
  source_mac = source_mac packet.ethernet;
  target_ip = none;
  target_mac = none;
  protocol = some (codes "TCP");
  port = none;
  evidence =
      (codes "source", text attempt.source)
      ∷ (codes "attemptsInWindow", number attempts)
      ∷ (codes "windowSeconds", number (max 1 (rounded_seconds settings.flood_window_ms)))
      ∷ (codes "distinctTargets", number targets)
      ∷ [];
  timestamp = packet.timestamp;
}

-- `reached && this.shouldReport(key, now)`, and the finding that it guards: the table of reports is
-- asked only if the threshold is reached.
unfoldable pub report_when :
    {T : Type 0}
    → Bool
    → Str
    → ℕ
    → Finding T
    → BoundedMap Str ℕ
    → List (Finding T) × BoundedMap Str ℕ
report_when false key now finding table = ([], table)
report_when true key now finding table =
    let (due, after) = should_report report_cooldown_ms key now table in
    (if due then finding ∷ [] else [], after)

unfoldable pub inspect_ports :
    DetectionSettings → DecodedPacket → Attempt → ScanDetector → List (Finding ℕ) × ScanDetector
inspect_ports settings packet attempt detector =
    let (count, window) =
      add (port_key attempt) attempt.port attempt.now detector.ports_per_target in
    let ports = sort_numbers (distinct (port_key attempt) attempt.now window) in
    let (findings, reported) =
      report_when (leb settings.port_scan_ports count) (codes "ps|" ++ port_key attempt) attempt.now
        (port_scan_finding settings packet attempt count ports) detector.last_reported in
    (findings, record detector { ports_per_target = window; last_reported = reported })

unfoldable pub inspect_hosts :
    DetectionSettings → DecodedPacket → Attempt → ScanDetector → List (Finding ℕ) × ScanDetector
inspect_hosts settings packet attempt detector =
    let (count, window) =
      add (sweep_key attempt) attempt.target attempt.now detector.hosts_per_port in
    let hosts = distinct (sweep_key attempt) attempt.now window in
    let (findings, reported) =
      report_when (leb settings.host_sweep_hosts count) (codes "hs|" ++ sweep_key attempt)
        attempt.now (host_sweep_finding settings packet attempt count hosts)
        detector.last_reported in
    if is_client_traffic attempt.port
    then ([], detector)
    else (findings, record detector { hosts_per_port = window; last_reported = reported })

unfoldable pub inspect_rate :
    DetectionSettings → DecodedPacket → Attempt → ScanDetector → List (Finding ℕ) × ScanDetector
inspect_rate settings packet attempt detector =
    let (count, window) = add (syn_key attempt) (pair attempt) attempt.now detector.syn_count in
    let attempts = total (syn_key attempt) attempt.now window in
    let targets = length (distinct (syn_key attempt) attempt.now window) in
    let (findings, reported) =
      report_when (leb settings.syn_flood_attempts attempts) (codes "sf|" ++ attempt.source)
        attempt.now (syn_flood_finding settings packet attempt attempts targets)
        detector.last_reported in
    (findings, record detector { syn_count = window; last_reported = reported })

unfoldable pub inspect_attempt :
    DetectionSettings → DecodedPacket → Attempt → ScanDetector → List (Finding ℕ) × ScanDetector
inspect_attempt settings packet attempt detector =
    let (scans, detector1) = inspect_ports settings packet attempt detector in
    let (sweeps, detector2) = inspect_hosts settings packet attempt detector1 in
    let (floods, detector3) = inspect_rate settings packet attempt detector2 in
    (scans ++ (sweeps ++ floods), detector3)

unfoldable pub inspect :
    DetectionSettings → DecodedPacket → ScanDetector → List (Finding ℕ) × ScanDetector
inspect settings packet detector = elim (attempt_of packet) [
  | none ↦ ([], detector)
  | some attempt ↦ inspect_attempt settings packet attempt detector
]

unfoldable pub sweep : ℕ → ScanDetector → ScanDetector
sweep now detector = record detector {
  ports_per_target = Window.sweep now detector.ports_per_target;
  hosts_per_port = Window.sweep now detector.hosts_per_port;
  syn_count = Window.sweep now detector.syn_count;
}

unfoldable pub reset : ScanDetector → ScanDetector
reset detector = record {
  ports_per_target = Window.reset detector.ports_per_target;
  hosts_per_port = Window.reset detector.hosts_per_port;
  syn_count = Window.reset detector.syn_count;
  last_reported = Cooldown.reset detector.last_reported;
}
