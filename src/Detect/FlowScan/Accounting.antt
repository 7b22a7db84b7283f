-- ===== src/Detect/FlowScan/Accounting.antt =====
-- The counters of the flow detector (api/src/flow/detect.ts, `stats`).
use network_monitoring.Base.{
  ℕ, ◌+◌, ◌≡◌, refl, ◌∙◌, none, some, Option, List, [], ◌∷◌, arith, length, Bool-cases,
  Option-cases, inl, inr,
}
use network_monitoring.Detect.Attempt.{DetectionSettings, Attempt, is_client_traffic}
use network_monitoring.Detect.FlowScan.{
  FlowScanDetector, flow_ports, flow_hosts, flow_rate, flow_attempt_of, inspect_flow_attempt,
  inspect,
}
use network_monitoring.Flow.Types.{FlowRecord}

abbrev pub one_if_some : Option Attempt → ℕ
one_if_some none = 0
one_if_some (some attempt) = 1

-- How many flows record an attempt.
unfoldable pub attempts_in : List FlowRecord → ℕ
attempts_in [] = 0
attempts_in (flow ∷ flows) = one_if_some (flow_attempt_of flow) + attempts_in flows

-- The counters of `before` stand in `after`.
abbrev HasCountersOf : FlowScanDetector → FlowScanDetector → Type 0
HasCountersOf before after =
    (after.flows_inspected ≡ before.flows_inspected)
    × (after.unanswered_flows ≡ before.unanswered_flows)
    × (after.finding_count ≡ before.finding_count)

module _ (settings : DetectionSettings) (flow : FlowRecord) (attempt : Attempt) where
  module _ (detector : FlowScanDetector) where
    flow_ports-counters : HasCountersOf detector (flow_ports settings flow attempt detector).1
    unfolding flow_ports
    flow_ports-counters = (refl, refl, refl)

    flow_hosts-counters : HasCountersOf detector (flow_hosts settings flow attempt detector).1
    unfolding flow_hosts
    flow_hosts-counters = elim (Bool-cases (is_client_traffic attempt.port)) [
      | inl usual ↦ rw usual (refl, refl, refl)
      | inr unusual ↦ rw unusual (refl, refl, refl)
    ]

    flow_rate-counters : HasCountersOf detector (flow_rate settings flow attempt detector).1
    unfolding flow_rate
    flow_rate-counters = (refl, refl, refl)

  inspect_flow_attempt-counters :
      (detector : FlowScanDetector)
      → ((inspect_flow_attempt settings flow attempt detector).1.flows_inspected
          ≡ detector.flows_inspected)
        × ((inspect_flow_attempt settings flow attempt detector).1.unanswered_flows
            ≡ detector.unanswered_flows)
        × ((inspect_flow_attempt settings flow attempt detector).1.finding_count
            ≡ detector.finding_count
              + length (inspect_flow_attempt settings flow attempt detector).0)
  unfolding inspect_flow_attempt
  inspect_flow_attempt-counters detector =
      let first = (flow_ports settings flow attempt detector).1 in
      let second = (flow_hosts settings flow attempt first).1 in
      let ports = flow_ports-counters detector in
      let hosts = flow_hosts-counters first in
      let rate = flow_rate-counters second in
      (
        rate.0 ∙ hosts.0 ∙ ports.0,
        rate.1 ∙ hosts.1 ∙ ports.1,
        omega (arith, rate.2, hosts.2, ports.2),
      )

-- A flow is counted, as unanswered if it records an attempt, and so are its findings.
pub inspect-counters :
    (settings : DetectionSettings) (flow : FlowRecord) (detector : FlowScanDetector)
    → ((inspect settings flow detector).1.flows_inspected ≡ detector.flows_inspected + 1)
      × ((inspect settings flow detector).1.unanswered_flows
          ≡ detector.unanswered_flows + one_if_some (flow_attempt_of flow))
      × ((inspect settings flow detector).1.finding_count
          ≡ detector.finding_count + length (inspect settings flow detector).0)
unfolding inspect
inspect-counters settings flow detector = elim (Option-cases (flow_attempt_of flow)) [
  | inl unrecorded ↦ rw (unrecorded, inspect) (refl, omega arith, omega arith)
  | inr (attempt, recorded) ↦
      rw (recorded, inspect)
        (inspect_flow_attempt-counters settings flow attempt (record detector {
          flows_inspected = detector.flows_inspected + 1;
          unanswered_flows = detector.unanswered_flows + 1;
        }))
]
