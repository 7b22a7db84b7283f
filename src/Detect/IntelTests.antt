-- ===== src/Detect/IntelTests.antt =====
-- Listed addresses and names in a query and in two flows.
use network_monitoring.Base.{
  ℕ, ◌≡◌, refl, true, none, some, List, [], ◌∷◌, map, arith, codes, list_eq, nat_eq,
}
use network_monitoring.Base.Int.{pos}
use network_monitoring.Detect.Attempt.{DetectionSettings}
use network_monitoring.Detect.Cooldown.{get}
use network_monitoring.Detect.DnsTests.{query}
use network_monitoring.Detect.Finding.{Finding, critical, threat_intel}
use network_monitoring.Detect.FlowEngine as FlowEngine
use network_monitoring.Detect.FlowEngine.{FlowDetectionEngine, new_flow_detection_engine}
use network_monitoring.Detect.FlowEngine.Alert.{IsContact, IsBetween, inspect-alert_once}
use network_monitoring.Detect.FlowEngine.Laws.{inspect_flows, flow_of, stats-inspect_flows}
use network_monitoring.Detect.FlowScan as FlowScan
use network_monitoring.Detect.FlowScan.Accounting.{attempts_in}
use network_monitoring.Detect.ThreatIntel.{new_threat_intel_detector, inspect}
use network_monitoring.Detect.ThreatIntel.Laws.{ReturnsReport, inspect-ReturnsReport}
use network_monitoring.Flow.Types.{FlowRecord, netflow9}
use network_monitoring.Intel.Address.{octet, octets, ipv4_to_int, int_to_ipv4, is_non_routable_v4}
use network_monitoring.Intel.Assess.{is_private_address}
use network_monitoring.Intel.Indicators.{IndicatorSet, Meta, new_set, size}
use network_monitoring.Intel.Loading.{IsSound}
use network_monitoring.Js.Date.{Date, at}
use network_monitoring.Js.Decimal.{of_digits}
use network_monitoring.Js.Map
use network_monitoring.Js.Strings.{includes, all_decimal, every}
use network_monitoring.Js.Text.{split, split_from}
use network_monitoring.Packet.Headers.{DecodedPacket, unparsed, raw_link}

abbrev pub meta : Meta
meta = record { source = codes "feed"; note = none }

-- 8.8.8.8, and a name.
abbrev pub indicators : IndicatorSet
indicators = record (new_set 4) {
  ipv4 = (134_744_072, meta) ∷ [];
  domains = (codes "www.example", meta) ∷ [];
}

indicators-IsSound : IsSound indicators
unfolding size is_non_routable_v4
indicators-IsSound = record {
  routable = (refl, tt);
  routable_v6 = tt;
  sealed = tt;
  ordered = tt;
  bounded = omega arith;
}

abbrev pub packet : DecodedPacket
packet = record (unparsed [] 1_000 raw_link) {
  udp = some (record { src_port = 50_000; dst_port = 53; length_field = 0; checksum = 0 });
  payload = some query;
}

inspect-ReturnsReport_example :
    ReturnsReport indicators packet new_threat_intel_detector
      (inspect indicators packet new_threat_intel_detector)
inspect-ReturnsReport_example = inspect-ReturnsReport indicators packet new_threat_intel_detector

abbrev pub settings : DetectionSettings
settings = record {
  port_scan_ports = 1;
  host_sweep_hosts = 1;
  scan_window_ms = 60_000;
  syn_flood_attempts = 5;
  flood_window_ms = 10_000;
}

abbrev flow : ℕ → FlowRecord
flow observed_at = record {
  exporter = codes "10.0.0.254";
  observation_domain = 0;
  protocol_version = netflow9;
  protocol = 6;
  protocol_name = codes "TCP";
  src_ip = some (codes "10.0.0.1");
  dst_ip = some (int_to_ipv4 134_744_072);
  src_port = 50_000;
  dst_port = 443;
  packets = 9;
  bytes = 900;
  tcp_flags = some 27;
  src_mac = none;
  dst_mac = none;
  ingress_interface = none;
  egress_interface = none;
  start = at (pos 1_000);
  end = at (pos 2_000);
  observed_at = observed_at;
}

local : is_private_address (some (codes "10.0.0.1")) ≡ true
unfolding is_private_address octet octets ipv4_to_int is_non_routable_v4 of_digits all_decimal every
    split split_from includes
local = refl

contact : IsContact indicators (codes "10.0.0.1") 134_744_072
unfolding Map.get
contact = record {
  meta = meta;
  small = omega arith;
  sound = indicators-IsSound;
  listed = refl;
  local = local;
}

between : (observed_at : ℕ) → IsBetween (flow observed_at) (codes "10.0.0.1") 134_744_072
between observed_at = record { source = refl; target = refl }

abbrev engine : FlowDetectionEngine
engine = new_flow_detection_engine settings

inspect-alert_once_example :
    ((finding : Finding Date) × ((FlowEngine.inspect settings indicators (flow 5_000) engine).0
        ≡ finding ∷ (FlowScan.inspect settings (flow 5_000) engine.scan).0)
      × (finding.kind ≡ threat_intel)
      × (finding.severity ≡ critical)
      × (finding.source_ip ≡ some (codes "10.0.0.1"))
      × (finding.target_ip ≡ some (int_to_ipv4 134_744_072)))
    × ((FlowEngine.inspect settings indicators
          (flow 64_999)
          (FlowEngine.inspect settings indicators (flow 5_000) engine).1).0
        ≡ (FlowScan.inspect settings
            (flow 64_999)
            (FlowEngine.inspect settings indicators (flow 5_000) engine).1.scan).0)
unfolding get Map.get
inspect-alert_once_example =
    inspect-alert_once settings indicators indicators (codes "10.0.0.1") 134_744_072 (flow 5_000)
      (flow 64_999) engine contact contact (between 5_000) (between 64_999) refl (omega arith)

abbrev flows : List (FlowRecord × IndicatorSet)
flows = (flow 5_000, indicators) ∷ (flow 64_999, indicators) ∷ []

stats-inspect_flows_example :
    ((FlowEngine.stats (inspect_flows settings flows engine).1).flows_inspected ≡ 2)
    × ((FlowEngine.stats (inspect_flows settings flows engine).1).unanswered_flows
        ≡ attempts_in (map flow_of flows))
    × ((FlowEngine.stats (inspect_flows settings flows engine).1).findings
        ≡ (inspect_flows settings flows engine).0)
stats-inspect_flows_example = stats-inspect_flows settings flows
