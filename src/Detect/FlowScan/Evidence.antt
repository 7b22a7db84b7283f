-- ===== src/Detect/FlowScan/Evidence.antt =====
-- What a finding of the flow detector says of its windows and its flow (api/src/flow/detect.ts).
use network_monitoring.Base.{
  ℕ, ◌+◌, ◌++◌, ◌≤◌, ◌≡◌, ◌⊎◌, Option, none, [], Option-cases, Str, nat_beq, ◌||◌, subst, refl, ap,
  ◌∙◌, true, false, some, arith, length, list_eq, nat_eq, All, All-append, Bool-cases, inl, inr,
  leb→le,
}
use mathlib.Core.Option.{some-injective}
use network_monitoring.Detect.Attempt.{
  DetectionSettings, Attempt, addressed, is_client_traffic, port_key, sweep_key,
}
use network_monitoring.Detect.Finding.{
  Finding, AlertKind, port_scan, host_sweep, syn_flood, arp_spoofing, plaintext_credentials,
  dns_tunneling, new_device, threat_intel,
}
use network_monitoring.Detect.FlowScan.{
  FlowScanDetector, flow_ports, flow_hosts, flow_rate, flow_attempt_of, inspect_flow_attempt,
  inspect, flood_key,
}
use network_monitoring.Detect.FlowFinding.{
  flow_port_scan_finding, flow_host_sweep_finding, flow_flood_finding,
}
use network_monitoring.Detect.FlowScan.Soundness.{
  IsFlowSound, flow_ports-IsFlowSound, flow_hosts-IsFlowSound,
}
use network_monitoring.Detect.Scan.Evidence.{All-report_when}
use network_monitoring.Detect.Window.{total, distinct}
use network_monitoring.Detect.Window.Laws.{add-distinct}
use network_monitoring.Flow.Types.{FlowRecord, is_unanswered_tcp}
use network_monitoring.Js.Date.{Date}

-- The evidence in the windows for a finding of each kind.
abbrev pub IsFlowJustified : DetectionSettings → Attempt → FlowScanDetector → AlertKind → Type 0
IsFlowJustified settings attempt detector port_scan =
    settings.port_scan_ports
    ≤ length (distinct (port_key attempt) attempt.now detector.ports_per_target)
IsFlowJustified settings attempt detector host_sweep =
    (is_client_traffic attempt.port ≡ false)
    × (settings.host_sweep_hosts
        ≤ length (distinct (sweep_key attempt) attempt.now detector.hosts_per_port))
IsFlowJustified settings attempt detector syn_flood =
    settings.syn_flood_attempts ≤ total (flood_key attempt) attempt.now detector.attempts
IsFlowJustified settings attempt detector arp_spoofing = ⊥
IsFlowJustified settings attempt detector plaintext_credentials = ⊥
IsFlowJustified settings attempt detector dns_tunneling = ⊥
IsFlowJustified settings attempt detector new_device = ⊥
IsFlowJustified settings attempt detector threat_intel = ⊥

-- The finding is about the attempt and dated by the flow, and the windows justify it.
pub record IsFlowEvident (settings : DetectionSettings) (flow : FlowRecord) (attempt : Attempt)
    (detector : FlowScanDetector) (finding : Finding Date) : Type 0 where
  pub source : finding.source_ip ≡ some attempt.source
  pub dated : finding.timestamp ≡ flow.end
  pub justified : IsFlowJustified settings attempt detector finding.kind

module _ (settings : DetectionSettings) (flow : FlowRecord) (attempt : Attempt)
    (detector final : FlowScanDetector) (h : IsFlowSound detector) where
  flow_ports-IsFlowEvident :
      final.ports_per_target ≡ (flow_ports settings flow attempt detector).1.ports_per_target
      → All
          (IsFlowEvident settings flow attempt final)
          (flow_ports settings flow attempt detector).0
  unfolding flow_ports flow_port_scan_finding
  flow_ports-IsFlowEvident e = All-report_when _ _ _ _ _ _ (λ reached. record {
    source = refl;
    dated = refl;
    justified = omega (
      arith,
      ap (λ w. length (distinct (port_key attempt) attempt.now w)) e,
      leb→le _ _ reached,
      add-distinct (port_key attempt) attempt.port attempt.now detector.ports_per_target h.ports,
    );
  })

  flow_hosts-IsFlowEvident :
      final.hosts_per_port ≡ (flow_hosts settings flow attempt detector).1.hosts_per_port
      → All
          (IsFlowEvident settings flow attempt final)
          (flow_hosts settings flow attempt detector).0
  unfolding flow_hosts flow_host_sweep_finding
  flow_hosts-IsFlowEvident e = elim (Bool-cases (is_client_traffic attempt.port)) [
    | inl usual ↦ rw usual tt
    | inr unusual ↦ rw unusual (
        All-report_when _ _ _ _ _ _ (λ reached. record {
          source = refl;
          dated = refl;
          justified = (
            unusual,
            omega (
              arith,
              ap (λ w. length (distinct (sweep_key attempt) attempt.now w)) (rw unusual at e),
              leb→le _ _ reached,
              add-distinct (sweep_key attempt) attempt.target attempt.now detector.hosts_per_port
                  h.hosts,
            ),
          );
        }))
  ]

  flow_rate-IsFlowEvident :
      final.attempts ≡ (flow_rate settings flow attempt detector).1.attempts
      → All (IsFlowEvident settings flow attempt final) (flow_rate settings flow attempt detector).0
  unfolding flow_rate flow_flood_finding
  flow_rate-IsFlowEvident e = All-report_when _ _ _ _ _ _ (λ reached. record {
    source = refl;
    dated = refl;
    justified =
        omega (arith, ap (λ w. total (flood_key attempt) attempt.now w) e, leb→le _ _ reached);
  })

module _ (settings : DetectionSettings) (flow : FlowRecord) (attempt : Attempt)
    (detector : FlowScanDetector) where
  flow_hosts-ports :
      (flow_hosts settings flow attempt detector).1.ports_per_target ≡ detector.ports_per_target
  unfolding flow_hosts
  flow_hosts-ports = ground arith

  flow_rate-hosts :
      (flow_rate settings flow attempt detector).1.hosts_per_port ≡ detector.hosts_per_port
  unfolding flow_rate
  flow_rate-hosts = refl

  flow_rate-ports :
      (flow_rate settings flow attempt detector).1.ports_per_target ≡ detector.ports_per_target
  unfolding flow_rate
  flow_rate-ports = refl

-- The attempt that a flow records is its own, and was never answered.
pub record IsAttemptOf (flow : FlowRecord) (attempt : Attempt) : Type 0 where
  pub source : flow.src_ip ≡ some attempt.source
  pub target : flow.dst_ip ≡ some attempt.target
  pub port : attempt.port ≡ flow.dst_port
  pub now : attempt.now ≡ flow.observed_at
  pub unanswered : is_unanswered_tcp flow ≡ true

addressed-own :
    (source target : Option Str) (port now : ℕ) {attempt : Attempt}
    → addressed source target port now ≡ some attempt
    → (source ≡ some attempt.source)
      × (target ≡ some attempt.target)
      × (attempt.port ≡ port)
      × (attempt.now ≡ now)
addressed-own none target port now e = cc
addressed-own (some source) none port now e = cc
addressed-own (some source) (some target) port now {attempt} e =
    elim (Bool-cases (nat_beq (length source) 0 || nat_beq (length target) 0)) [
      | inl empty ↦ absurd (none-ne (rw empty at e))
      | inr there ↦ subst IsIt (some-injective _ attempt (rw there at e)) (refl, refl, refl, refl)
    ]
  where
    IsIt : Attempt → Type 0
    IsIt a =
        (some source ≡ some a.source)
        × (some target ≡ some a.target)
        × (a.port ≡ port)
        × (a.now ≡ now)

    none-ne : none ≡ some attempt → ⊥
    none-ne h = cc

flow_attempt_of-IsAttemptOf :
    (flow : FlowRecord) {attempt : Attempt}
    → flow_attempt_of flow ≡ some attempt
    → IsAttemptOf flow attempt
unfolding flow_attempt_of
flow_attempt_of-IsAttemptOf flow {attempt} e =
    elim (Option-cases (addressed flow.src_ip flow.dst_ip flow.dst_port flow.observed_at)) [
      | inl missing ↦ absurd (none-ne (rw (missing, flow_attempt_of) at e))
      | inr (own, found) ↦ elim (Bool-cases (is_unanswered_tcp flow)) [
        | inl unanswered ↦
            let fields =
              addressed-own flow.src_ip flow.dst_ip flow.dst_port flow.observed_at
                (found ∙ (rw (found, unanswered, flow_attempt_of) at e)) in
            record {
              source = fields.0;
              target = fields.1;
              port = fields.2;
              now = fields.3;
              unanswered = unanswered;
            }
        | inr answered ↦ absurd (none-ne (rw (found, answered, flow_attempt_of) at e))
      ]
    ]
  where
    none-ne : none ≡ some attempt → ⊥
    none-ne h = cc

inspect-unrecorded :
    (settings : DetectionSettings) (flow : FlowRecord) (detector : FlowScanDetector)
    → flow_attempt_of flow ≡ none
    → (inspect settings flow detector).0 ≡ []
unfolding inspect
inspect-unrecorded settings flow detector e = rw (e, inspect) refl

inspect-recorded :
    (settings : DetectionSettings) (flow : FlowRecord) (detector : FlowScanDetector)
    (attempt : Attempt)
    → IsFlowSound detector
    → flow_attempt_of flow ≡ some attempt
    → All
        (IsFlowEvident settings flow attempt (inspect settings flow detector).1)
        (inspect settings flow detector).0
unfolding inspect inspect_flow_attempt
inspect-recorded settings flow detector attempt h e =
    let begun : FlowScanDetector = record detector {
      flows_inspected = detector.flows_inspected + 1;
      unanswered_flows = detector.unanswered_flows + 1;
    } in
    let begun_sound : IsFlowSound begun = record {
      ports = h.ports;
      hosts = h.hosts;
      reports = h.reports;
    } in
    let first = (flow_ports settings flow attempt begun).1 in
    let second = (flow_hosts settings flow attempt first).1 in
    let third = (flow_rate settings flow attempt second).1 in
    let findings =
      (flow_ports settings flow attempt begun).0
      ++ ((flow_hosts settings flow attempt first).0
          ++ (flow_rate settings flow attempt second).0) in
    let final : FlowScanDetector = record third {
      finding_count = third.finding_count + length findings;
    } in
    let first_sound = flow_ports-IsFlowSound settings flow attempt begun begun_sound in
    let second_sound = flow_hosts-IsFlowSound settings flow attempt first first_sound in
    rw (e, inspect)
      (All-append (IsFlowEvident settings flow attempt final)
        (flow_ports settings flow attempt begun).0 _
        (flow_ports-IsFlowEvident settings flow attempt begun final begun_sound (
          flow_rate-ports settings flow attempt second
          ∙ flow_hosts-ports settings flow attempt first))
        (All-append (IsFlowEvident settings flow attempt final)
          (flow_hosts settings flow attempt first).0 _
          (flow_hosts-IsFlowEvident settings flow attempt first final first_sound
            (flow_rate-hosts settings flow attempt second))
          (flow_rate-IsFlowEvident settings flow attempt second final second_sound refl)))

-- A flow gives no findings, or it is an attempt at a connection that was never answered; each finding is
-- then about the flow's source, dated by the flow's end, and justified by the windows after the flow.
pub inspect-IsFlowEvident :
    (settings : DetectionSettings) (flow : FlowRecord) (detector : FlowScanDetector)
    → IsFlowSound detector
    → ((inspect settings flow detector).0 ≡ [])
      ⊎ ((attempt : Attempt) × IsAttemptOf flow attempt
          × All
              (IsFlowEvident settings flow attempt (inspect settings flow detector).1)
              (inspect settings flow detector).0)
inspect-IsFlowEvident settings flow detector h = elim (Option-cases (flow_attempt_of flow)) [
  | inl unrecorded ↦ inl (inspect-unrecorded settings flow detector unrecorded)
  | inr (attempt, recorded) ↦ inr (
    attempt,
    flow_attempt_of-IsAttemptOf flow recorded,
    inspect-recorded settings flow detector attempt h recorded,
  )
]
