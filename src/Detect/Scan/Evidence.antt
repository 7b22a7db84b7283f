-- ===== src/Detect/Scan/Evidence.antt =====
-- What a finding of the scan detector says of its windows (api/src/packet/detect/scan.ts).
use network_monitoring.Base.{
  ℕ, ◌≤◌, ◌≡◌, refl, ap, ◌∙◌, Bool, true, false, some, List, [], ◌∷◌, ◌++◌, arith, leb, length, Str,
  codes, list_eq, nat_eq, All, All-append, Bool-cases, inl, inr, leb→le, le→leb,
}
use network_monitoring.Detect.Attempt.{
  DetectionSettings, Attempt, attempt_of, is_client_traffic, report_cooldown_ms, port_key,
  sweep_key, syn_key, sort_numbers,
}
use network_monitoring.Detect.Cooldown.{BoundedMap, should_report, get, is_cooling}
use network_monitoring.Detect.Finding.{
  Finding, AlertKind, port_scan, host_sweep, syn_flood, arp_spoofing, plaintext_credentials,
  dns_tunneling, new_device, threat_intel,
}
use network_monitoring.Detect.Scan.{
  ScanDetector, inspect_ports, inspect_hosts, inspect_rate, inspect_attempt, inspect, report_when,
  port_scan_finding, host_sweep_finding, syn_flood_finding,
}
use network_monitoring.Detect.Scan.Laws.{IsSound, inspect_ports-IsSound, inspect_hosts-IsSound}
use network_monitoring.Detect.Window.{add, total, distinct}
use network_monitoring.Detect.Window.Laws.{add-distinct}
use network_monitoring.Packet.Headers.{DecodedPacket}

-- The evidence in the windows for a finding of each kind, about the source of the attempt.
abbrev pub IsJustified : DetectionSettings → Attempt → ScanDetector → AlertKind → Type 0
IsJustified settings attempt detector port_scan =
    settings.port_scan_ports
    ≤ length (distinct (port_key attempt) attempt.now detector.ports_per_target)
IsJustified settings attempt detector host_sweep =
    (is_client_traffic attempt.port ≡ false)
    × (settings.host_sweep_hosts
        ≤ length (distinct (sweep_key attempt) attempt.now detector.hosts_per_port))
IsJustified settings attempt detector syn_flood =
    settings.syn_flood_attempts ≤ total (syn_key attempt) attempt.now detector.syn_count
IsJustified settings attempt detector arp_spoofing = ⊥
IsJustified settings attempt detector plaintext_credentials = ⊥
IsJustified settings attempt detector dns_tunneling = ⊥
IsJustified settings attempt detector new_device = ⊥
IsJustified settings attempt detector threat_intel = ⊥

-- The finding is about the attempt, and its windows justify it.
pub record IsEvident (settings : DetectionSettings) (attempt : Attempt) (detector : ScanDetector)
    (finding : Finding ℕ) : Type 0 where
  pub source : finding.source_ip ≡ some attempt.source
  pub justified : IsJustified settings attempt detector finding.kind

pub All-report_when {ℓ} :
    {T : Type 0} (P : Finding T → Type ℓ) (reached : Bool) (key : Str) (now : ℕ)
    (finding : Finding T) (table : BoundedMap Str ℕ)
    → (reached ≡ true → P finding)
    → All P (report_when reached key now finding table).0
unfolding report_when
All-report_when P false key now finding table h = tt
All-report_when P true key now finding table h =
    elim (Bool-cases (should_report report_cooldown_ms key now table).0) [
      | inl due ↦ rw due (h refl, tt)
      | inr cooling ↦ rw cooling tt
    ]

-- The evidence is stated of the detector after the packet, whose windows are those of the stages.
module _ (settings : DetectionSettings) (packet : DecodedPacket) (attempt : Attempt)
    (detector final : ScanDetector) (h : IsSound detector) where
  inspect_ports-IsEvident :
      final.ports_per_target ≡ (inspect_ports settings packet attempt detector).1.ports_per_target
      → All (IsEvident settings attempt final) (inspect_ports settings packet attempt detector).0
  unfolding inspect_ports port_scan_finding
  inspect_ports-IsEvident e = All-report_when _ _ _ _ _ _ (λ reached. record {
    source = refl;
    justified = omega (
      arith,
      ap (λ w. length (distinct (port_key attempt) attempt.now w)) e,
      leb→le _ _ reached,
      add-distinct (port_key attempt) attempt.port attempt.now detector.ports_per_target
          h.ports.lasts,
    );
  })

  inspect_hosts-IsEvident :
      final.hosts_per_port ≡ (inspect_hosts settings packet attempt detector).1.hosts_per_port
      → All (IsEvident settings attempt final) (inspect_hosts settings packet attempt detector).0
  unfolding inspect_hosts host_sweep_finding
  inspect_hosts-IsEvident e = elim (Bool-cases (is_client_traffic attempt.port)) [
    | inl usual ↦ rw usual tt
    | inr unusual ↦ rw unusual (
        All-report_when _ _ _ _ _ _ (λ reached. record {
          source = refl;
          justified = (
            unusual,
            omega (
              arith,
              ap (λ w. length (distinct (sweep_key attempt) attempt.now w)) (rw unusual at e),
              leb→le _ _ reached,
              add-distinct (sweep_key attempt) attempt.target attempt.now detector.hosts_per_port
                  h.hosts.lasts,
            ),
          );
        }))
  ]

  inspect_rate-IsEvident :
      final.syn_count ≡ (inspect_rate settings packet attempt detector).1.syn_count
      → All (IsEvident settings attempt final) (inspect_rate settings packet attempt detector).0
  unfolding inspect_rate syn_flood_finding
  inspect_rate-IsEvident e = All-report_when _ _ _ _ _ _ (λ reached. record {
    source = refl;
    justified =
        omega (arith, ap (λ w. total (syn_key attempt) attempt.now w) e, leb→le _ _ reached);
  })

module _ (settings : DetectionSettings) (packet : DecodedPacket) (attempt : Attempt)
    (detector : ScanDetector) where
  inspect_hosts-ports :
      (inspect_hosts settings packet attempt detector).1.ports_per_target
      ≡ detector.ports_per_target
  unfolding inspect_hosts
  inspect_hosts-ports = ground arith

  inspect_rate-hosts :
      (inspect_rate settings packet attempt detector).1.hosts_per_port ≡ detector.hosts_per_port
  unfolding inspect_rate
  inspect_rate-hosts = refl

  inspect_rate-ports :
      (inspect_rate settings packet attempt detector).1.ports_per_target ≡ detector.ports_per_target
  unfolding inspect_rate
  inspect_rate-ports = refl

-- Every finding for a connection attempt is about its source, and the windows after the packet
-- justify it: enough distinct ports of the target for a port scan, enough distinct hosts at a port
-- that is no usual client traffic for a host sweep, enough attempts for a flood.
pub inspect-IsEvident :
    (settings : DetectionSettings) (packet : DecodedPacket) (detector : ScanDetector)
    (attempt : Attempt)
    → IsSound detector
    → attempt_of packet ≡ some attempt
    → All
        (IsEvident settings attempt (inspect settings packet detector).1)
        (inspect settings packet detector).0
unfolding inspect inspect_attempt
inspect-IsEvident settings packet detector attempt h e =
    let first = (inspect_ports settings packet attempt detector).1 in
    let second = (inspect_hosts settings packet attempt first).1 in
    let final = (inspect_rate settings packet attempt second).1 in
    let first_sound = inspect_ports-IsSound settings packet attempt detector h in
    let second_sound = inspect_hosts-IsSound settings packet attempt first first_sound in
    rw (e, inspect)
      (All-append (IsEvident settings attempt final)
        (inspect_ports settings packet attempt detector).0 _
        (inspect_ports-IsEvident settings packet attempt detector final h (
          inspect_rate-ports settings packet attempt second
          ∙ inspect_hosts-ports settings packet attempt first))
        (All-append (IsEvident settings attempt final)
          (inspect_hosts settings packet attempt first).0 _
          (inspect_hosts-IsEvident settings packet attempt first final first_sound
            (inspect_rate-hosts settings packet attempt second))
          (inspect_rate-IsEvident settings packet attempt second final second_sound refl)))

report_when-due :
    (key : Str) (now : ℕ) (finding : Finding ℕ) (table : BoundedMap Str ℕ)
    → is_cooling report_cooldown_ms now (get key table) ≡ false
    → (report_when true key now finding table).0 ≡ finding ∷ []
unfolding report_when should_report
report_when-due key now finding table due = rw due refl

module _ (settings : DetectionSettings) (packet : DecodedPacket) (attempt : Attempt)
    (detector : ScanDetector) (h : IsSound detector) where
  inspect_ports-reports :
      settings.port_scan_ports
        ≤ length (
            distinct
              (port_key attempt)
              attempt.now
              (inspect_ports settings packet attempt detector).1.ports_per_target)
      → is_cooling report_cooldown_ms attempt.now
          (get (codes "ps|" ++ port_key attempt) detector.last_reported)
        ≡ false
      → (finding : Finding ℕ) × ((inspect_ports settings packet attempt detector).0 ≡ finding ∷ [])
        × (finding.kind ≡ port_scan)
        × (finding.target_ip ≡ some attempt.target)
  unfolding inspect_ports port_scan_finding
  inspect_ports-reports enough due =
      let (count, window) =
        add (port_key attempt) attempt.port attempt.now detector.ports_per_target in
      let ports = sort_numbers (distinct (port_key attempt) attempt.now window) in
      let reached : leb settings.port_scan_ports count ≡ true =
        le→leb settings.port_scan_ports count (
          omega (
            arith,
            enough,
            add-distinct (port_key attempt) attempt.port attempt.now detector.ports_per_target
                h.ports.lasts,
          )) in
      (
        port_scan_finding settings packet attempt count ports,
        rw reached (report_when-due (codes "ps|" ++ port_key attempt) attempt.now _ _ due),
        refl,
        refl,
      )

  inspect-ports :
      attempt_of packet ≡ some attempt
      → (inspect settings packet detector).1.ports_per_target
        ≡ (inspect_ports settings packet attempt detector).1.ports_per_target
  unfolding inspect inspect_attempt
  inspect-ports e =
      let first = (inspect_ports settings packet attempt detector).1 in
      let second = (inspect_hosts settings packet attempt first).1 in
      rw (e, inspect)
        (inspect_rate-ports settings packet attempt second
          ∙ inspect_hosts-ports settings packet attempt first)

-- A source that has probed enough ports of a target in the window is reported, unless it was in the
-- last fifteen seconds.
pub inspect-reports_scan :
    (settings : DetectionSettings) (packet : DecodedPacket) (detector : ScanDetector)
    (attempt : Attempt)
    → IsSound detector
    → attempt_of packet ≡ some attempt
    → settings.port_scan_ports
      ≤ length (
          distinct
            (port_key attempt)
            attempt.now
            (inspect settings packet detector).1.ports_per_target)
    → is_cooling report_cooldown_ms attempt.now
        (get (codes "ps|" ++ port_key attempt) detector.last_reported)
      ≡ false
    → (finding : Finding ℕ) × (rest : List (Finding ℕ)) × ((inspect settings packet detector).0
        ≡ finding ∷ rest)
      × (finding.kind ≡ port_scan)
      × (finding.target_ip ≡ some attempt.target)
unfolding inspect inspect_attempt
inspect-reports_scan settings packet detector attempt h e enough due =
    let (finding, found, kind, target) =
      inspect_ports-reports settings packet attempt detector h
        (omega (
          arith,
          enough,
          ap (λ w. length (distinct (port_key attempt) attempt.now w))
              (inspect-ports settings packet attempt detector h e),
        ))
        due in
    let first = (inspect_ports settings packet attempt detector).1 in
    let second = (inspect_hosts settings packet attempt first).1 in
    (
      finding,
      (inspect_hosts settings packet attempt first).0
          ++ (inspect_rate settings packet attempt second).0,
      rw (e, inspect) (rw found refl),
      kind,
      target,
    )
