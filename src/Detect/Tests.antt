-- ===== src/Detect/Tests.antt =====
-- Runs of the detectors, and their theorems at small inputs.
use network_monitoring.Base.{
  ℕ, ◌≤◌, ◌≡◌, refl, true, false, none, some, List, [], ◌∷◌, arith, length, Str, codes, list_eq,
  nat_eq, All,
}
use network_monitoring.Detect.Attempt.{
  DetectionSettings, Attempt, attempt_of, is_client_traffic, is_attempt, port_key,
}
use network_monitoring.Detect.Cooldown.{BoundedMap, should_report, get, set}
use network_monitoring.Detect.Cooldown.Laws.{reports, reports-le-one}
use network_monitoring.Detect.Finding.{Finding, port_scan}
use network_monitoring.Detect.Scan.{ScanDetector, new_scan_detector, inspect, sweep, reset}
use network_monitoring.Detect.Scan.Evidence.{inspect-IsEvident, IsEvident, inspect-reports_scan}
use network_monitoring.Detect.Scan.Laws.{IsSound, inspect-IsSound, new_scan_detector-IsSound}
use network_monitoring.Detect.Window.{SlidingWindow, add, total, distinct, count_item}
use network_monitoring.Js.Map
use network_monitoring.Packet.Headers.{DecodedPacket, raw_link}
use network_monitoring.Packet.Decode.{ip_addresses}
use network_monitoring.Detect.Scan.{
  inspect_ports, inspect_hosts, inspect_rate, inspect_attempt, report_when,
}

abbrev window : SlidingWindow ℕ
window = record { entries = []; window_ms = 1_000 }

abbrev filled : SlidingWindow ℕ
filled = record window {
  entries = (codes "a", record { items = (80, 2) ∷ []; expires_at = 7 }) ∷ [];
}

abbrev table : BoundedMap Str ℕ
table = record { entries = []; max_entries = 8 }

reports-le-one_example :
    reports 15_000
      (codes "k")
      ((codes "k", 100) ∷ (codes "j", 200) ∷ (codes "k", 15_099) ∷ [])
      table
    ≤ 1
reports-le-one_example =
    reports-le-one 15_000 100 (codes "k")
      ((codes "k", 100) ∷ (codes "j", 200) ∷ (codes "k", 15_099) ∷ []) table (omega arith)
      (omega arith)

-- One port is enough.
abbrev settings : DetectionSettings
settings = record {
  scan_window_ms = 60_000;
  flood_window_ms = 10_000;
  port_scan_ports = 1;
  host_sweep_hosts = 20;
  syn_flood_attempts = 300;
}

abbrev syn_packet : DecodedPacket
syn_packet = record {
  timestamp = 1_000;
  frame_length = 0;
  raw = [];
  link_type = raw_link;
  ethernet = none;
  llc = none;
  vlan = none;
  ipv4 = some (record {
    version = 4;
    header_length = 20;
    tos = 0;
    total_length = 40;
    identification = 0;
    flags = record { reserved = false; dont_fragment = false; more_fragment = false };
    fragment_offset = 0;
    ttl = 64;
    protocol = 6;
    protocol_name = codes "TCP";
    header_checksum = 0;
    src_addr = codes "10.0.0.1";
    dst_addr = codes "10.0.0.2";
  });
  ipv6 = none;
  arp = none;
  tcp = some (record {
    src_port = 50_000;
    dst_port = 22;
    sequence_number = 0;
    acknowledgment_number = 0;
    data_offset = 20;
    urg = false;
    ack = false;
    psh = false;
    rst = false;
    syn = true;
    fin = false;
    window = 0;
    checksum = 0;
    urgent_pointer = 0;
  });
  udp = none;
  payload = none;
  ethernet_pad = [];
}

abbrev attempt : Attempt
attempt = record { source = codes "10.0.0.1"; target = codes "10.0.0.2"; port = 22; now = 1_000 }

attempted : attempt_of syn_packet ≡ some attempt
unfolding attempt_of is_attempt ip_addresses
attempted = refl

abbrev fresh : ScanDetector
fresh = record {
  ports_per_target = record { entries = []; window_ms = 60_000 };
  hosts_per_port = record { entries = []; window_ms = 60_000 };
  syn_count = record { entries = []; window_ms = 10_000 };
  last_reported = record { entries = []; max_entries = 8192 };
}

fresh-IsSound : IsSound fresh
unfolding new_scan_detector
fresh-IsSound = new_scan_detector-IsSound settings (omega arith) (omega arith)

inspect-IsSound_example :
    IsSound (inspect settings syn_packet fresh).1
    × IsSound (sweep 60_000 fresh)
    × IsSound (reset fresh)
inspect-IsSound_example = inspect-IsSound settings syn_packet 60_000 fresh fresh-IsSound

inspect-IsEvident_example :
    All
      (IsEvident settings attempt (inspect settings syn_packet fresh).1)
      (inspect settings syn_packet fresh).0
inspect-IsEvident_example =
    inspect-IsEvident settings syn_packet fresh attempt fresh-IsSound attempted

enough_ports :
    1
    ≤ length
        (distinct (port_key attempt) 1_000 (inspect settings syn_packet fresh).1.ports_per_target)
unfolding inspect inspect_attempt inspect_ports inspect_hosts inspect_rate report_when should_report
    is_client_traffic get set attempt_of is_attempt ip_addresses add total distinct count_item
    Map.get Map.set
enough_ports = omega arith

inspect-reports_scan_example :
    (finding : Finding ℕ) × (rest : List (Finding ℕ)) × ((inspect settings syn_packet fresh).0
      ≡ finding ∷ rest)
    × (finding.kind ≡ port_scan)
    × (finding.target_ip ≡ some (codes "10.0.0.2"))
unfolding get Map.get
inspect-reports_scan_example =
    inspect-reports_scan settings syn_packet fresh attempt fresh-IsSound attempted enough_ports refl
