-- ===== src/Detect/FlowTests.antt =====
-- The detector of flows at a flow that was never answered.
use network_monitoring.Base.{◌≡◌, ◌⊎◌, refl, none, some, [], arith, codes, list_eq, nat_eq, All}
use network_monitoring.Base.Int.{pos}
use network_monitoring.Detect.Attempt.{DetectionSettings, Attempt}
use network_monitoring.Detect.FlowScan.{FlowScanDetector, flow_attempt_of, inspect}
use network_monitoring.Detect.FlowScan.Evidence.{IsFlowEvident, IsAttemptOf, inspect-IsFlowEvident}
use network_monitoring.Detect.FlowScan.Soundness.{IsFlowSound}
use network_monitoring.Flow.Types.{FlowRecord, netflow9, is_unanswered_tcp}
use network_monitoring.Js.Date.{at}

abbrev settings : DetectionSettings
settings = record {
  port_scan_ports = 1;
  host_sweep_hosts = 1;
  scan_window_ms = 60_000;
  syn_flood_attempts = 5;
  flood_window_ms = 10_000;
}

abbrev probe : FlowRecord
probe = record {
  exporter = codes "10.0.0.254";
  observation_domain = 0;
  protocol_version = netflow9;
  protocol = 6;
  protocol_name = codes "TCP";
  src_ip = some (codes "10.0.0.1");
  dst_ip = some (codes "10.0.0.2");
  src_port = 50_000;
  dst_port = 22;
  packets = 1;
  bytes = 60;
  tcp_flags = some 2;
  src_mac = none;
  dst_mac = none;
  ingress_interface = some 3;
  egress_interface = none;
  start = at (pos 1_000);
  end = at (pos 2_000);
  observed_at = 5_000;
}

abbrev attempt : Attempt
attempt = record { source = codes "10.0.0.1"; target = codes "10.0.0.2"; port = 22; now = 5_000 }

recorded : flow_attempt_of probe ≡ some attempt
unfolding flow_attempt_of is_unanswered_tcp
recorded = refl

abbrev fresh : FlowScanDetector
fresh = record {
  ports_per_target = record { entries = []; window_ms = 60_000 };
  hosts_per_port = record { entries = []; window_ms = 60_000 };
  attempts = record { entries = []; window_ms = 10_000 };
  last_reported = record { entries = []; max_entries = 8_192 };
  flows_inspected = 0;
  unanswered_flows = 0;
  finding_count = 0;
}

fresh-IsFlowSound : IsFlowSound fresh
fresh-IsFlowSound = record {
  ports = omega arith;
  hosts = omega arith;
  reports = record { some_room = omega arith; bounded = omega arith };
}

inspect-IsFlowEvident_example :
    ((inspect settings probe fresh).0 ≡ [])
    ⊎ ((attempt : Attempt) × IsAttemptOf probe attempt
        × All
            (IsFlowEvident settings probe attempt (inspect settings probe fresh).1)
            (inspect settings probe fresh).0)
inspect-IsFlowEvident_example = inspect-IsFlowEvident settings probe fresh fresh-IsFlowSound
