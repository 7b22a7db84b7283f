-- ===== src/Detect/FlowFinding.antt =====
-- The findings that flow records give rise to (api/src/flow/detect.ts).
use network_monitoring.Base.{
  ℕ, Option, none, some, List, [], ◌∷◌, ◌++◌, Str, codes, list_eq, nat_eq, take, max,
}
use network_monitoring.Detect.Attempt.{
  DetectionSettings, Attempt, rounded_seconds, port_service_name, service_evidence, is_known,
}
use network_monitoring.Detect.Finding.{
  Finding, Value, text, number, flag, texts, numbers, text_or_null, high, port_scan, host_sweep,
  syn_flood,
}
use network_monitoring.Flow.Types.{
  FlowRecord, FlowProtocol, netflow5, netflow9, ipfix, describe_tcp_flags,
}
use network_monitoring.Js.Date.{Date}
use network_monitoring.Js.Text.{to_string}

abbrev pub version_name : FlowProtocol → Str
version_name netflow5 = codes "netflow5"
version_name netflow9 = codes "netflow9"
version_name ipfix = codes "ipfix"

abbrev interface_evidence : Option ℕ → List (Str × Value)
interface_evidence none = []
interface_evidence (some index) = (codes "exporterIngressInterface", number index) ∷ []

abbrev flags_evidence : Option ℕ → Value
flags_evidence none = text (codes "not reported by exporter")
flags_evidence (some flags) = text_or_null (describe_tcp_flags (some flags))

unfoldable pub provenance : FlowRecord → List (Str × Value)
provenance flow =
    (codes "observedVia", text (version_name flow.protocol_version))
    ∷ (codes "exporter", text flow.exporter)
    ∷ (interface_evidence flow.ingress_interface
        ++ ((codes "tcpFlags", flags_evidence flow.tcp_flags)
            ∷ (codes "flowPackets", number flow.packets)
            ∷ (codes "flowBytes", number flow.bytes)
            ∷ []))

unfoldable pub flow_port_scan_finding :
    DetectionSettings → FlowRecord → Attempt → ℕ → List ℕ → Finding Date
flow_port_scan_finding settings flow attempt count ports = record {
  kind = port_scan;
  severity = high;
  message_key = codes "port_scan.flow";
  message_params =
      (codes "source", text attempt.source)
      ∷ (codes "target", text attempt.target)
      ∷ (codes "count", number count)
      ∷ (codes "seconds", number (rounded_seconds settings.scan_window_ms))
      ∷ (codes "exporter", text flow.exporter)
      ∷ [];
  dedup_key = codes "port_scan|" ++ (attempt.source ++ (codes "|" ++ attempt.target));
  source_ip = some attempt.source;
  source_mac = flow.src_mac;
  target_ip = some attempt.target;
  target_mac = flow.dst_mac;
  protocol = some flow.protocol_name;
  port = none;
  evidence =
      (codes "scanner", text attempt.source)
      ∷ (codes "target", text attempt.target)
      ∷ (codes "distinctPortsProbed", number count)
      ∷ (codes "samplePorts", numbers (take 40 ports))
      ∷ (codes "windowSeconds", number (rounded_seconds settings.scan_window_ms))
      ∷ provenance flow;
  timestamp = flow.end;
}

unfoldable pub flow_host_sweep_finding :
    DetectionSettings → FlowRecord → Attempt → ℕ → List Str → Finding Date
flow_host_sweep_finding settings flow attempt count hosts = record {
  kind = host_sweep;
  severity = high;
  message_key = codes "host_sweep.flow";
  message_params =
      (codes "source", text attempt.source)
      ∷ (codes "port", text (to_string 10 attempt.port))
      ∷ (codes "count", number count)
      ∷ (codes "seconds", number (rounded_seconds settings.scan_window_ms))
      ∷ (codes "service", text_or_null (port_service_name attempt.port))
      ∷ (codes "hasService", flag (is_known (port_service_name attempt.port)))
      ∷ [];
  dedup_key = codes "host_sweep|" ++ (attempt.source ++ (codes "|" ++ to_string 10 attempt.port));
  source_ip = some attempt.source;
  source_mac = flow.src_mac;
  target_ip = none;
  target_mac = none;
  protocol = some flow.protocol_name;
  port = some attempt.port;
  evidence =
      (codes "scanner", text attempt.source)
      ∷ (codes "port", number attempt.port)
      ∷ (codes "service", service_evidence (port_service_name attempt.port))
      ∷ (codes "distinctHostsProbed", number count)
      ∷ (codes "sampleHosts", texts (take 30 hosts))
      ∷ (codes "windowSeconds", number (rounded_seconds settings.scan_window_ms))
      ∷ provenance flow;
  timestamp = flow.end;
}

unfoldable pub flow_flood_finding : DetectionSettings → FlowRecord → Attempt → ℕ → ℕ → Finding Date
flow_flood_finding settings flow attempt count targets = record {
  kind = syn_flood;
  severity = high;
  message_key = codes "syn_flood.flow";
  message_params =
      (codes "source", text attempt.source)
      ∷ (codes "count", number count)
      ∷ (codes "seconds", number (max 1 (rounded_seconds settings.flood_window_ms)))
      ∷ [];
  dedup_key = codes "syn_flood|" ++ attempt.source;
  source_ip = some attempt.source;
  source_mac = flow.src_mac;
  target_ip = none;
  target_mac = none;
  protocol = some flow.protocol_name;
  port = none;
  evidence =
      (codes "source", text attempt.source)
      ∷ (codes "attemptsInWindow", number count)
      ∷ (codes "windowSeconds", number (max 1 (rounded_seconds settings.flood_window_ms)))
      ∷ (codes "distinctTargets", number targets)
      ∷ provenance flow;
  timestamp = flow.end;
}
