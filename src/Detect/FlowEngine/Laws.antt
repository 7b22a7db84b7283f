-- ===== src/Detect/FlowEngine/Laws.antt =====
-- The counters of the flow engine and its findings
-- (api/src/flow/detect.ts, `FlowDetectionEngine`).
use network_monitoring.Base.{
  ℕ, ◌+◌, ◌≡◌, refl, ◌∙◌, ap, Option, List, [], ◌∷◌, map, arith, length, length-append, Str,
  list_eq, nat_eq, nat_beq, leb, Bool-cases, Option-cases, inl, inr,
}
use network_monitoring.Detect.Attempt.{DetectionSettings}
use network_monitoring.Detect.Cooldown.{should_report}
use network_monitoring.Detect.Finding.{Finding}
use network_monitoring.Detect.FlowEngine.{
  FlowDetectionEngine, new_flow_detection_engine, assess_flow, match_ends, intel_findings,
  sweep_when_due, inspect, stats,
}
use network_monitoring.Detect.FlowScan as FlowScan
use network_monitoring.Detect.FlowScan.{new_flow_scan_detector}
use network_monitoring.Detect.FlowScan.Accounting.{one_if_some, attempts_in, inspect-counters}
use network_monitoring.Detect.IntelFinding.{or_empty}
use network_monitoring.Detect.ThreatIntel.{intel_cooldown_ms}
use network_monitoring.Flow.Types.{FlowRecord}
use network_monitoring.Intel.Indicators.{IndicatorSet, size, match_ip}
use network_monitoring.Js.Date.{Date}

-- The counters of a step that gave `count` indicator findings.
abbrev HasCounted : FlowDetectionEngine → List (Finding Date) × FlowDetectionEngine → Type 0
HasCounted before (findings, after) =
    (after.intel_matches ≡ before.intel_matches + length findings) × (after.scan ≡ before.scan)

match_ends-counted :
    (set : IndicatorSet) (flow : FlowRecord) (ends : List (Option Str × Option Str))
    (engine : FlowDetectionEngine)
    → HasCounted engine (match_ends set flow ends engine)
unfolding match_ends
match_ends-counted set flow [] engine = (omega arith, refl)
match_ends-counted set flow ((observed, peer) ∷ ends) engine =
    elim (Option-cases (match_ip (or_empty observed) set)) [
      | inl unlisted ↦ rw (unlisted, match_ends) (match_ends-counted set flow ends engine)
      | inr (found, listed) ↦
          let key = (assess_flow flow observed peer found).dedup_key in
          rw (listed, match_ends)
            (elim (Bool-cases
              (should_report intel_cooldown_ms key flow.observed_at engine.intel_reported).0) [
                | inl due ↦ rw due (refl, refl)
                | inr cooling ↦ rw cooling (omega arith, refl)
              ])
    ]

intel_findings-counted :
    (set : IndicatorSet) (flow : FlowRecord) (engine : FlowDetectionEngine)
    → HasCounted engine (intel_findings set flow engine)
unfolding intel_findings
intel_findings-counted set flow engine = elim (Bool-cases (nat_beq (size set) 0)) [
  | inl empty ↦ rw empty (omega arith, refl)
  | inr loaded ↦ rw loaded (match_ends-counted set flow _ engine)
]

sweep_when_due-counters :
    (now : ℕ) (engine : FlowDetectionEngine) → stats (sweep_when_due now engine) ≡ stats engine
unfolding sweep_when_due stats FlowScan.stats FlowScan.sweep
sweep_when_due-counters now engine = elim (Bool-cases (leb (engine.last_sweep + 10_000) now)) [
  | inl due ↦ rw due refl
  | inr early ↦ rw early refl
]

inspect-stats :
    (settings : DetectionSettings) (set : IndicatorSet) (flow : FlowRecord)
    (engine : FlowDetectionEngine)
    → ((stats (inspect settings set flow engine).1).flows_inspected
        ≡ (stats engine).flows_inspected + 1)
      × ((stats (inspect settings set flow engine).1).unanswered_flows
          ≡ (stats engine).unanswered_flows + one_if_some (FlowScan.flow_attempt_of flow))
      × ((stats (inspect settings set flow engine).1).findings
          ≡ (stats engine).findings + length (inspect settings set flow engine).0)
unfolding inspect stats FlowScan.stats
inspect-stats settings set flow engine =
    let matched = intel_findings set flow engine in
    let counted = intel_findings-counted set flow engine in
    let scanned = FlowScan.inspect settings flow matched.1.scan in
    let step = inspect-counters settings flow matched.1.scan in
    let swept = sweep_when_due-counters flow.observed_at (record matched.1 { scan = scanned.1 }) in
    (
      ap (λ s. s.flows_inspected) swept ∙ step.0 ∙ ap (λ d. d.flows_inspected + 1) counted.1,
      ap (λ s. s.unanswered_flows) swept
          ∙ step.1
          ∙ ap (λ d. d.unanswered_flows + one_if_some (FlowScan.flow_attempt_of flow)) counted.1,
      ap (λ s. s.findings) swept
          ∙ omega (
            arith,
            step.2,
            counted.0,
            ap (λ d. d.finding_count) counted.1,
            length-append matched.0 scanned.0,
          ),
    )

-- Inspect flows in turn, each under the set that is loaded then: how many findings they give, and the
-- engine after.
unfoldable pub inspect_flows :
    DetectionSettings
    → List (FlowRecord × IndicatorSet)
    → FlowDetectionEngine
    → ℕ × FlowDetectionEngine
inspect_flows settings [] engine = (0, engine)
inspect_flows settings ((flow, set) ∷ flows) engine =
    let (findings, after) = inspect settings set flow engine in
    let (later, final) = inspect_flows settings flows after in (length findings + later, final)

abbrev pub flow_of : FlowRecord × IndicatorSet → FlowRecord
flow_of (flow, set) = flow

stats-inspect_flows_from :
    (settings : DetectionSettings) (flows : List (FlowRecord × IndicatorSet))
    (engine : FlowDetectionEngine)
    → ((stats (inspect_flows settings flows engine).1).flows_inspected
        ≡ (stats engine).flows_inspected + length flows)
      × ((stats (inspect_flows settings flows engine).1).unanswered_flows
          ≡ (stats engine).unanswered_flows + attempts_in (map flow_of flows))
      × ((stats (inspect_flows settings flows engine).1).findings
          ≡ (stats engine).findings + (inspect_flows settings flows engine).0)
unfolding inspect_flows attempts_in
stats-inspect_flows_from settings [] engine = (omega arith, omega arith, omega arith)
stats-inspect_flows_from settings ((flow, set) ∷ flows) engine =
    let step = inspect-stats settings set flow engine in
    let rest = stats-inspect_flows_from settings flows (inspect settings set flow engine).1 in
    (omega (arith, step.0, rest.0), omega (arith, step.1, rest.1), omega (arith, step.2, rest.2))

-- After any flows, under whatever sets of indicators, an engine that started new reports how many
-- flows it inspected, how many of them were addressed and never answered, and how many findings it
-- gave, those on listed addresses included.
pub stats-inspect_flows :
    (settings : DetectionSettings) (flows : List (FlowRecord × IndicatorSet))
    → ((stats (inspect_flows settings flows (new_flow_detection_engine settings)).1).flows_inspected
        ≡ length flows)
      × ((stats
            (inspect_flows settings flows (new_flow_detection_engine settings)).1).unanswered_flows
          ≡ attempts_in (map flow_of flows))
      × ((stats (inspect_flows settings flows (new_flow_detection_engine settings)).1).findings
          ≡ (inspect_flows settings flows (new_flow_detection_engine settings)).0)
unfolding stats FlowScan.stats new_flow_scan_detector
stats-inspect_flows settings flows =
    let counted = stats-inspect_flows_from settings flows (new_flow_detection_engine settings) in
    (omega (arith, counted.0), omega (arith, counted.1), omega (arith, counted.2))
