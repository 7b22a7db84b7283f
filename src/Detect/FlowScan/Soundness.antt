-- ===== src/Detect/FlowScan/Soundness.antt =====
-- The windows and the table of reports of the flow detector (api/src/flow/detect.ts).
use network_monitoring.Base.{◌≤◌, list_eq, nat_eq, Bool-cases, inl, inr}
use network_monitoring.Detect.Attempt.{DetectionSettings, Attempt, is_client_traffic}
use network_monitoring.Detect.Cooldown.Laws.{IsWithin}
use network_monitoring.Detect.FlowScan.{FlowScanDetector, flow_ports, flow_hosts}
use network_monitoring.Detect.Scan.Laws.{report_when-IsWithin}
use network_monitoring.Detect.Window.{add}
use network_monitoring.Flow.Types.{FlowRecord}

-- The windows last, and the table of reports is within its bound.
pub record IsFlowSound (detector : FlowScanDetector) : Type 0 where
  pub ports : 1 ≤ detector.ports_per_target.window_ms
  pub hosts : 1 ≤ detector.hosts_per_port.window_ms
  pub reports : IsWithin detector.last_reported

module _ (settings : DetectionSettings) (flow : FlowRecord) (attempt : Attempt)
    (detector : FlowScanDetector) where
  module _ (h : IsFlowSound detector) where
    pub flow_ports-IsFlowSound : IsFlowSound (flow_ports settings flow attempt detector).1
    unfolding flow_ports add
    flow_ports-IsFlowSound = record {
      ports = h.ports;
      hosts = h.hosts;
      reports = report_when-IsWithin _ _ _ _ _ h.reports;
    }

    pub flow_hosts-IsFlowSound : IsFlowSound (flow_hosts settings flow attempt detector).1
    unfolding flow_hosts add
    flow_hosts-IsFlowSound = elim (Bool-cases (is_client_traffic attempt.port)) [
      | inl usual ↦ rw usual h
      | inr unusual ↦ rw unusual (record {
        ports = h.ports;
        hosts = h.hosts;
        reports = report_when-IsWithin _ _ _ _ _ h.reports;
      })
    ]
