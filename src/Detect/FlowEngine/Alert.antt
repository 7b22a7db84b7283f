-- ===== src/Detect/FlowEngine/Alert.antt =====
-- Flows from a local host to a listed address
-- (api/src/flow/detect.ts, `intelFindings`).
use network_monitoring.Base.{
  ℕ, ◌+◌, ◌^◌, ◌<◌, ◌≡◌, refl, ◌∙◌, ap, true, false, Option, some, List, [], ◌∷◌, ◌++◌, Str, codes,
  list_eq, nat_eq, leb, Bool-cases, inl, inr, if◌then◌else◌,
}
use network_monitoring.Detect.Attempt.{DetectionSettings}
use network_monitoring.Detect.Cooldown as Cooldown
use network_monitoring.Detect.Cooldown.{is_cooling, should_report}
use network_monitoring.Detect.Cooldown.Laws.{should_report-cooling}
use network_monitoring.Detect.Finding.{Finding, critical, threat_intel}
use network_monitoring.Detect.FlowEngine.{
  FlowDetectionEngine, assess_flow, flow_intel_finding, match_ends, intel_findings, inspect,
  sweep_when_due,
}
use network_monitoring.Detect.FlowScan as FlowScan
use network_monitoring.Detect.ThreatIntel.{intel_cooldown_ms}
use network_monitoring.Flow.Types.{FlowRecord}
use network_monitoring.Intel.Address.{int_to_ipv4}
use network_monitoring.Intel.Assess.{
  is_private_address, direction_of, outbound, assess, assess_address, graded,
}
use network_monitoring.Intel.Assess.Laws.{listed-public}
use network_monitoring.Intel.Indicators.{IndicatorSet, IndicatorMatch, Meta, ipv4, exact_match}
use network_monitoring.Intel.Loading.{IsSound}
use network_monitoring.Intel.Matching.{match_ip-listed, size-listed}
use network_monitoring.Js.Date.{Date}
use network_monitoring.Js.Evicting
use network_monitoring.Js.Map

-- A local host, and an address that is an indicator of its own in a sound set.
pub record IsContact (set : IndicatorSet) (peer : Str) (n : ℕ) : Type 0 where
  pub meta : Meta
  pub small : n < 2 ^ 32
  pub sound : IsSound set
  pub listed : Map.get n set.ipv4 ≡ some meta
  pub local : is_private_address (some peer) ≡ true

-- The flow goes from the one to the other.
pub record IsBetween (flow : FlowRecord) (peer : Str) (n : ℕ) : Type 0 where
  pub source : flow.src_ip ≡ some peer
  pub target : flow.dst_ip ≡ some (int_to_ipv4 n)

abbrev pub contact_key : Str → ℕ → Str
contact_key peer n = codes "threat_intel|outbound|" ++ (int_to_ipv4 n ++ (codes "|" ++ peer))

sweep_when_due-reported :
    (now : ℕ) (engine : FlowDetectionEngine)
    → (sweep_when_due now engine).intel_reported ≡ engine.intel_reported
unfolding sweep_when_due
sweep_when_due-reported now engine = elim (Bool-cases (leb (engine.last_sweep + 10_000) now)) [
  | inl due ↦ rw due refl
  | inr early ↦ rw early refl
]

module _ (set : IndicatorSet) (peer : Str) (n : ℕ) (contact : IsContact set peer n) where
  abbrev found : IndicatorMatch
  found = exact_match ipv4 (int_to_ipv4 n) (int_to_ipv4 n) contact.meta

  direction_of-IsContact : direction_of (some peer) (some (int_to_ipv4 n)) ≡ outbound
  unfolding direction_of
  direction_of-IsContact =
      rw
        (listed-public n set contact.meta contact.small contact.sound contact.listed, contact.local)
        refl

  assess_flow-critical :
      (flow : FlowRecord)
      → IsBetween flow peer n
      → ((assess_flow flow (some (int_to_ipv4 n)) (some peer) found).severity ≡ critical)
        × ((assess_flow flow (some (int_to_ipv4 n)) (some peer) found).dedup_key
            ≡ contact_key peer n)
  unfolding assess_flow assess assess_address graded
  assess_flow-critical flow between =
      rw (between.source, between.target, direction_of-IsContact) (refl, refl)

  -- The flow's finding on the address.
  abbrev alert : FlowRecord → Finding Date
  alert flow =
      flow_intel_finding flow found (assess_flow flow (some (int_to_ipv4 n)) (some peer) found)

  -- What the engine does with the flow, by the table of reports.
  abbrev outcome :
      Str → FlowRecord → FlowDetectionEngine → List (Finding Date) × FlowDetectionEngine
  outcome key flow engine =
      let (due, reported) =
        should_report intel_cooldown_ms key flow.observed_at engine.intel_reported in
      if due
      then (
        alert flow ∷ [],
        record engine { intel_reported = reported; intel_matches = engine.intel_matches + 1 },
      )
      else ([], record engine { intel_reported = reported })

  match_ends-outcome :
      (flow : FlowRecord) (ends : List (Option Str × Option Str)) (engine : FlowDetectionEngine)
      → IsBetween flow peer n
      → match_ends set flow ((some (int_to_ipv4 n), some peer) ∷ ends) engine
        ≡ outcome (contact_key peer n) flow engine
  unfolding match_ends
  match_ends-outcome flow ends engine between =
      rw (match_ip-listed n set contact.meta contact.small contact.listed, match_ends)
        (ap (λ key. outcome key flow engine) (assess_flow-critical flow between).1)

  intel_findings-outcome :
      (flow : FlowRecord) (engine : FlowDetectionEngine)
      → IsBetween flow peer n
      → intel_findings set flow engine ≡ outcome (contact_key peer n) flow engine
  unfolding intel_findings
  intel_findings-outcome flow engine between = rw (size-listed n set contact.meta contact.listed) (
      ap (λ d. match_ends set flow ((d, flow.src_ip) ∷ (flow.src_ip, d) ∷ []) engine) between.target
      ∙ ap
          (λ s.
            match_ends set flow ((some (int_to_ipv4 n), s) ∷ (s, some (int_to_ipv4 n)) ∷ []) engine)
          between.source
      ∙ match_ends-outcome flow _ engine between)

  -- Such a flow that is not in its cooldown gives, first of all, a critical finding, and the scan's
  -- own after it.
  inspect-alert :
      (settings : DetectionSettings) (flow : FlowRecord) (engine : FlowDetectionEngine)
      → IsBetween flow peer n
      → is_cooling intel_cooldown_ms flow.observed_at
          (Cooldown.get (contact_key peer n) engine.intel_reported)
        ≡ false
      → ((inspect settings set flow engine).0
          ≡ alert flow ∷ (FlowScan.inspect settings flow engine.scan).0)
        × (Cooldown.get (contact_key peer n) (inspect settings set flow engine).1.intel_reported
            ≡ some flow.observed_at)
  unfolding inspect should_report Cooldown.get Cooldown.set
  inspect-alert settings flow engine between due =
      let e = intel_findings-outcome flow engine between in
      let logged =
        Evicting.get-insert_self engine.intel_reported.max_entries (contact_key peer n)
          flow.observed_at engine.intel_reported.entries in
      let after = record engine {
        intel_reported = Cooldown.set (contact_key peer n) flow.observed_at engine.intel_reported;
        intel_matches = engine.intel_matches + 1;
        scan = (FlowScan.inspect settings flow engine.scan).1;
      } in
      rw (e, due)
        (
          refl,
          ap (Cooldown.get (contact_key peer n)) (sweep_when_due-reported flow.observed_at after)
              ∙ logged,
        )

  inspect-quiet :
      (settings : DetectionSettings) (flow : FlowRecord) (engine : FlowDetectionEngine) (last : ℕ)
      → IsBetween flow peer n
      → Cooldown.get (contact_key peer n) engine.intel_reported ≡ some last
      → flow.observed_at < last + intel_cooldown_ms
      → (inspect settings set flow engine).0 ≡ (FlowScan.inspect settings flow engine.scan).0
  unfolding inspect
  inspect-quiet settings flow engine last between logged early =
      rw
        (
          intel_findings-outcome flow engine between,
          should_report-cooling intel_cooldown_ms (contact_key peer n) last flow.observed_at
              engine.intel_reported logged early,
        )
        refl

-- Two flows from a local host to an IPv4 address that is an exact indicator, the second, maybe under
-- another set, less than a minute after the first: if the first is not in its cooldown, it gives a
-- critical finding on the two hosts before the scan's own findings, and the second gives the scan's
-- own findings only.
pub inspect-alert_once :
    (settings : DetectionSettings) (set later : IndicatorSet) (peer : Str) (n : ℕ)
    (first second : FlowRecord) (engine : FlowDetectionEngine)
    → IsContact set peer n
    → IsContact later peer n
    → IsBetween first peer n
    → IsBetween second peer n
    → is_cooling intel_cooldown_ms first.observed_at
        (Cooldown.get (contact_key peer n) engine.intel_reported)
      ≡ false
    → second.observed_at < first.observed_at + intel_cooldown_ms
    → ((finding : Finding Date) × ((inspect settings set first engine).0
          ≡ finding ∷ (FlowScan.inspect settings first engine.scan).0)
        × (finding.kind ≡ threat_intel)
        × (finding.severity ≡ critical)
        × (finding.source_ip ≡ some peer)
        × (finding.target_ip ≡ some (int_to_ipv4 n)))
      × ((inspect settings later second (inspect settings set first engine).1).0
          ≡ (FlowScan.inspect settings second (inspect settings set first engine).1.scan).0)
unfolding flow_intel_finding
inspect-alert_once settings set later peer n first second engine contact again between between' due
      early =
    let alerted = inspect-alert set peer n contact settings first engine between due in
    (
      (
        alert set peer n contact first,
        alerted.0,
        refl,
        (assess_flow-critical set peer n contact first between).0,
        between.source,
        between.target,
      ),
      inspect-quiet later peer n again settings second (inspect settings set first engine).1
          first.observed_at between' alerted.1 early,
    )
