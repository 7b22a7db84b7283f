-- ===== src/Detect/Scan/Laws.antt =====
-- The windows of the scan detector (api/src/packet/detect/scan.ts).
use network_monitoring.Base.{
  ℕ, ◌≤◌, Bool, true, false, arith, Str, Eq, list_eq, nat_eq, Bool-cases, Option-cases, inl, inr,
}
use network_monitoring.Detect.Attempt.{
  DetectionSettings, Attempt, attempt_of, is_client_traffic, report_cooldown_ms, port_key,
  sweep_key, syn_key, pair,
}
use network_monitoring.Detect.Cooldown as Cooldown
use network_monitoring.Detect.Cooldown.{BoundedMap}
use network_monitoring.Detect.Cooldown.Laws.{IsWithin, should_report-IsWithin}
use network_monitoring.Detect.Finding.{Finding}
use network_monitoring.Detect.Scan.{
  ScanDetector, new_scan_detector, inspect_ports, inspect_hosts, inspect_rate, inspect_attempt,
  inspect, report_when, sweep, reset,
}
use network_monitoring.Detect.Window as Window
use network_monitoring.Detect.Window.{SlidingWindow, add}
use network_monitoring.Detect.Window.Sweeping.{IsUnique, add-IsUnique, sweep-IsUnique}
use network_monitoring.Packet.Headers.{DecodedPacket}

-- A window lasts, and holds no key twice.
pub record IsLasting {T : Type 0} (window : SlidingWindow T) : Type 0 where
  pub lasts : 1 ≤ window.window_ms
  pub unique : IsUnique window.entries

pub record IsSound (detector : ScanDetector) : Type 0 where
  pub ports : IsLasting detector.ports_per_target
  pub hosts : IsLasting detector.hosts_per_port
  pub rate : IsLasting detector.syn_count
  pub reports : IsWithin detector.last_reported

pub report_when-IsWithin :
    {T : Type 0} (reached : Bool) (key : Str) (now : ℕ) (finding : Finding T)
    (table : BoundedMap Str ℕ)
    → IsWithin table
    → IsWithin (report_when reached key now finding table).1
unfolding report_when
report_when-IsWithin false key now finding table h = h
report_when-IsWithin true key now finding table h =
    should_report-IsWithin report_cooldown_ms key now table h

module _ (settings : DetectionSettings) (packet : DecodedPacket) (attempt : Attempt)
    (detector : ScanDetector) (h : IsSound detector) where
  pub inspect_ports-IsSound : IsSound (inspect_ports settings packet attempt detector).1
  unfolding inspect_ports add
  inspect_ports-IsSound = record {
    ports = record {
      lasts = h.ports.lasts;
      unique =
          add-IsUnique (port_key attempt) attempt.port attempt.now detector.ports_per_target
            h.ports.unique;
    };
    hosts = h.hosts;
    rate = h.rate;
    reports = report_when-IsWithin _ _ _ _ _ h.reports;
  }

  pub inspect_hosts-IsSound : IsSound (inspect_hosts settings packet attempt detector).1
  unfolding inspect_hosts add
  inspect_hosts-IsSound = elim (Bool-cases (is_client_traffic attempt.port)) [
    | inl usual ↦ rw usual h
    | inr unusual ↦ rw unusual (record {
      ports = h.ports;
      hosts = record {
        lasts = h.hosts.lasts;
        unique =
            add-IsUnique (sweep_key attempt) attempt.target attempt.now detector.hosts_per_port
              h.hosts.unique;
      };
      rate = h.rate;
      reports = report_when-IsWithin _ _ _ _ _ h.reports;
    })
  ]

  inspect_rate-IsSound : IsSound (inspect_rate settings packet attempt detector).1
  unfolding inspect_rate add
  inspect_rate-IsSound = record {
    ports = h.ports;
    hosts = h.hosts;
    rate = record {
      lasts = h.rate.lasts;
      unique =
          add-IsUnique (syn_key attempt) (pair attempt) attempt.now detector.syn_count
            h.rate.unique;
    };
    reports = report_when-IsWithin _ _ _ _ _ h.reports;
  }

inspect-keeps :
    (settings : DetectionSettings) (packet : DecodedPacket) (detector : ScanDetector)
    → IsSound detector
    → IsSound (inspect settings packet detector).1
unfolding inspect inspect_attempt
inspect-keeps settings packet detector h = elim (Option-cases (attempt_of packet)) [
  | inl nothing ↦ rw (nothing, inspect) h
  | inr (attempt, e) ↦
      rw (e, inspect)
        (inspect_rate-IsSound settings packet attempt _ (
          inspect_hosts-IsSound settings packet attempt _
            (inspect_ports-IsSound settings packet attempt detector h)))
]

sweep-IsLasting :
    {T : Type 0} ⦃e : Eq T⦄ (now : ℕ) (window : SlidingWindow T)
    → IsLasting window
    → IsLasting (Window.sweep now window)
unfolding Window.sweep
sweep-IsLasting now window h = record {
  lasts = h.lasts;
  unique = sweep-IsUnique now window h.unique;
}

sweep-keeps : (now : ℕ) (detector : ScanDetector) → IsSound detector → IsSound (sweep now detector)
unfolding sweep
sweep-keeps now detector h = record {
  ports = sweep-IsLasting now detector.ports_per_target h.ports;
  hosts = sweep-IsLasting now detector.hosts_per_port h.hosts;
  rate = sweep-IsLasting now detector.syn_count h.rate;
  reports = h.reports;
}

reset-keeps : (detector : ScanDetector) → IsSound detector → IsSound (reset detector)
unfolding reset Window.reset Cooldown.reset
reset-keeps detector h = record {
  ports = record { lasts = h.ports.lasts; unique = tt };
  hosts = record { lasts = h.hosts.lasts; unique = tt };
  rate = record { lasts = h.rate.lasts; unique = tt };
  reports = record { some_room = h.reports.some_room; bounded = omega arith };
}

-- A packet, a sweep and a reset keep the detector sound: each window holds a key once, and the table
-- of reports its bound.
pub inspect-IsSound :
    (settings : DetectionSettings) (packet : DecodedPacket) (now : ℕ) (detector : ScanDetector)
    → IsSound detector
    → IsSound (inspect settings packet detector).1
      × IsSound (sweep now detector)
      × IsSound (reset detector)
inspect-IsSound settings packet now detector h =
    (inspect-keeps settings packet detector h, sweep-keeps now detector h, reset-keeps detector h)

pub new_scan_detector-IsSound :
    (settings : DetectionSettings)
    → 1 ≤ settings.scan_window_ms
    → 1 ≤ settings.flood_window_ms
    → IsSound (new_scan_detector settings)
unfolding new_scan_detector
new_scan_detector-IsSound settings h k = record {
  ports = record { lasts = h; unique = tt };
  hosts = record { lasts = h; unique = tt };
  rate = record { lasts = k; unique = tt };
  reports = record { some_room = omega arith; bounded = omega arith };
}
