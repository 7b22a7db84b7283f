-- ===== src/Detect/ThreatIntel/Laws.antt =====
-- The findings on listed addresses and names in packets
-- (api/src/packet/detect/threat-intel.ts, `ThreatIntelDetector`).
use network_monitoring.Base.{
  ℕ, ◌+◌, ◌≡◌, ◌⊎◌, refl, sym, true, false, All, Option, none, some, List, [], ◌∷◌, Str, list_eq,
  nat_eq, nat_beq, Bool-cases, Option-cases, inl, inr, subst,
}
use network_monitoring.Base.Checked.{Checked, ok, Returns-of_ne}
use network_monitoring.Detect.Cooldown.{get, set, is_cooling, should_report}
use network_monitoring.Detect.Dns.{read_first_question}
use network_monitoring.Detect.Dns.Laws.{read_first_question-ne-fault}
use network_monitoring.Detect.Finding.{Finding, Value}
use network_monitoring.Detect.IntelFinding.{or_empty}
use network_monitoring.Detect.ThreatIntel.{
  ThreatIntelDetector, intel_cooldown_ms, raise, build_finding, address_evidence, question_evidence,
  assess_packet, assess_question, inspect_ends, inspect_question, inspect_payload, inspect_dns,
  after_dns, inspect, or_else, is_query, source_ip, target_ip,
}
use network_monitoring.Intel.Assess.{Assessment, direction_of}
use network_monitoring.Intel.Indicators.{IndicatorSet, IndicatorMatch, size, match_ip, match_domain}
use network_monitoring.Js.Buffer.{Buffer}
use network_monitoring.Js.Evicting
use network_monitoring.Packet.Headers.{DecodedPacket}

-- An end of the conversation with the other: the target first, or the source first.
abbrev pub IsEnd : DecodedPacket → Option Str × Option Str → Type 0
IsEnd packet ends =
    (ends ≡ (target_ip packet.ipv4 packet.ipv6, source_ip packet.ipv4 packet.ipv6))
    ⊎ (ends ≡ (source_ip packet.ipv4 packet.ipv6, target_ip packet.ipv4 packet.ipv6))

-- What the finding is about: an end that the set lists, or the question of a query for a name that it
-- lists.
pub data IsAbout (indicators : IndicatorSet) (packet : DecodedPacket) (finding : Finding ℕ)
    : Type 0 where
  listed_end :
      (observed peer : Option Str) (found : IndicatorMatch)
      → IsEnd packet (observed, peer)
      → match_ip (or_empty observed) indicators ≡ some found
      → finding
        ≡ build_finding packet (assess_packet packet observed peer found) (
            address_evidence packet found (
              direction_of (source_ip packet.ipv4 packet.ipv6) (target_ip packet.ipv4 packet.ipv6)))
      → IsAbout indicators packet finding
  listed_name :
      (payload : Buffer) (question : Str) (found : IndicatorMatch)
      → is_query packet.udp ≡ true
      → packet.payload ≡ some payload
      → read_first_question payload ≡ ok (some question)
      → match_domain question indicators ≡ some found
      → finding
        ≡ build_finding packet
            (assess_question packet found)
            (question_evidence found (target_ip packet.ipv4 packet.ipv6))
      → IsAbout indicators packet finding

-- A finding of the detector: it is about a listed end or name, and its pairing was not in its cooldown,
-- and now is.
pub record IsRaised (indicators : IndicatorSet) (packet : DecodedPacket)
    (before after : ThreatIntelDetector) (finding : Finding ℕ) : Type 0 where
  pub about : IsAbout indicators packet finding
  pub due :
      is_cooling intel_cooldown_ms packet.timestamp (get finding.dedup_key before.last_reported)
      ≡ false
  pub logged : get finding.dedup_key after.last_reported ≡ some packet.timestamp
  pub counted : after.matches ≡ before.matches + 1

-- One finding at most; without one, the detector is left as it was.
abbrev pub IsReported :
    IndicatorSet
    → DecodedPacket
    → ThreatIntelDetector
    → List (Finding ℕ) × ThreatIntelDetector
    → Type 0
IsReported indicators packet before ([], after) = after ≡ before
IsReported indicators packet before (finding ∷ [], after) =
    IsRaised indicators packet before after finding
IsReported indicators packet before (finding ∷ another ∷ findings, after) = ⊥

abbrev as_list : Option (Finding ℕ) × ThreatIntelDetector → List (Finding ℕ) × ThreatIntelDetector
as_list (none, detector) = ([], detector)
as_list (some finding, detector) = (finding ∷ [], detector)

raise-IsReported :
    (indicators : IndicatorSet) (packet : DecodedPacket) (grade : Assessment)
    (evidence : List (Str × Value)) (detector : ThreatIntelDetector)
    → IsAbout indicators packet (build_finding packet grade evidence)
    → IsReported indicators packet detector (as_list (raise packet grade evidence detector))
unfolding raise should_report build_finding get set
raise-IsReported indicators packet grade evidence detector about =
    elim (Bool-cases (
      is_cooling intel_cooldown_ms packet.timestamp (get grade.dedup_key detector.last_reported))) [
        | inl cooling ↦ rw cooling refl
        | inr due ↦ rw due (record {
          about = about;
          due = due;
          logged =
              Evicting.get-insert_self detector.last_reported.max_entries grade.dedup_key
                packet.timestamp detector.last_reported.entries;
          counted = refl;
        })
      ]

or_else-IsReported :
    (indicators : IndicatorSet) (packet : DecodedPacket) (before : ThreatIntelDetector)
    (tried : Option (Finding ℕ) × ThreatIntelDetector)
    (rest : ThreatIntelDetector → List (Finding ℕ) × ThreatIntelDetector)
    → IsReported indicators packet before (as_list tried)
    → IsReported indicators packet before (rest before)
    → IsReported indicators packet before (or_else tried rest)
or_else-IsReported indicators packet before (some finding, detector) rest h k = h
or_else-IsReported indicators packet before (none, detector) rest h k =
    subst (λ d. IsReported indicators packet before (rest d)) (sym h) k

inspect_ends-IsReported :
    (indicators : IndicatorSet) (packet : DecodedPacket) (ends : List (Option Str × Option Str))
    (detector : ThreatIntelDetector)
    → All (IsEnd packet) ends
    → IsReported indicators packet detector (inspect_ends indicators packet ends detector)
unfolding inspect_ends
inspect_ends-IsReported indicators packet [] detector h = refl
inspect_ends-IsReported indicators packet ((observed, peer) ∷ ends) detector h =
    let rest = inspect_ends-IsReported indicators packet ends detector h.1 in
    elim (Option-cases (match_ip (or_empty observed) indicators)) [
      | inl unlisted ↦ rw (unlisted, inspect_ends) rest
      | inr (found, listed) ↦
          let about = listed_end observed peer found h.0 listed refl in
          rw (listed, inspect_ends)
            (or_else-IsReported indicators packet detector _ (inspect_ends indicators packet ends)
              (raise-IsReported indicators packet (assess_packet packet observed peer found) _
                detector about)
              rest)
    ]

inspect_question-IsReported :
    (indicators : IndicatorSet) (packet : DecodedPacket) (payload : Buffer) (question : Option Str)
    (detector : ThreatIntelDetector)
    → is_query packet.udp ≡ true
    → packet.payload ≡ some payload
    → read_first_question payload ≡ ok question
    → IsReported indicators packet detector
        (as_list (inspect_question indicators packet question detector))
unfolding inspect_question
inspect_question-IsReported indicators packet payload none detector query carried read = refl
inspect_question-IsReported indicators packet payload (some question) detector query carried read =
    elim (Option-cases (match_domain question indicators)) [
      | inl unlisted ↦ rw (unlisted, inspect_question) refl
      | inr (found, listed) ↦
          let about = listed_name payload question found query carried read listed refl in
          rw (listed, inspect_question)
            (raise-IsReported indicators packet (assess_question packet found) _ detector about)
    ]

-- The outcome is there, and is such a report.
abbrev pub ReturnsReport :
    IndicatorSet
    → DecodedPacket
    → ThreatIntelDetector
    → Checked (List (Finding ℕ) × ThreatIntelDetector)
    → Type 0
ReturnsReport indicators packet before run =
    (outcome : List (Finding ℕ) × ThreatIntelDetector) × (run ≡ ok outcome)
    × IsReported indicators packet before outcome

-- The attempt at the question returns, and is such a report.
abbrev ReturnsAsked :
    IndicatorSet
    → DecodedPacket
    → ThreatIntelDetector
    → Checked (Option (Finding ℕ) × ThreatIntelDetector)
    → Type 0
ReturnsAsked indicators packet before run =
    (asked : Option (Finding ℕ) × ThreatIntelDetector) × (run ≡ ok asked)
    × IsReported indicators packet before (as_list asked)

inspect_payload-ReturnsAsked :
    (indicators : IndicatorSet) (packet : DecodedPacket) (payload : Option Buffer)
    (detector : ThreatIntelDetector)
    → is_query packet.udp ≡ true
    → packet.payload ≡ payload
    → ReturnsAsked indicators packet detector (inspect_payload indicators packet payload detector)
unfolding inspect_payload
inspect_payload-ReturnsAsked indicators packet none detector query carried =
    ((none, detector), refl, refl)
inspect_payload-ReturnsAsked indicators packet (some payload) detector query carried =
    let (question, read) =
      Returns-of_ne (read_first_question payload) (read_first_question-ne-fault payload) in
    rw read (
      inspect_question indicators packet question detector,
      refl,
      inspect_question-IsReported indicators packet payload question detector query carried read,
    )

inspect_dns-ReturnsAsked :
    (indicators : IndicatorSet) (packet : DecodedPacket) (detector : ThreatIntelDetector)
    → ReturnsAsked indicators packet detector (inspect_dns indicators packet detector)
unfolding inspect_dns
inspect_dns-ReturnsAsked indicators packet detector = elim (Bool-cases (is_query packet.udp)) [
  | inr other ↦ rw other ((none, detector), refl, refl)
  | inl query ↦
      rw query (inspect_payload-ReturnsAsked indicators packet packet.payload detector query refl)
]

-- The detector returns on every packet and under every set of indicators. It gives one finding at
-- most, about an end of the packet that the set lists or a name that it lists and the packet asks for,
-- with the grade and the evidence of that match, whose pairing was not in its cooldown and from then on is, and which
-- is counted; without a finding the detector is left as it was.
pub inspect-ReturnsReport :
    (indicators : IndicatorSet) (packet : DecodedPacket) (detector : ThreatIntelDetector)
    → ReturnsReport indicators packet detector (inspect indicators packet detector)
unfolding inspect after_dns
inspect-ReturnsReport indicators packet detector = elim (Bool-cases (nat_beq (size indicators) 0)) [
  | inl empty ↦ rw empty (([], detector), refl, refl)
  | inr loaded ↦
      let (asked, run, reported) = inspect_dns-ReturnsAsked indicators packet detector in
      let ends =
        (target_ip packet.ipv4 packet.ipv6, source_ip packet.ipv4 packet.ipv6)
        ∷ (source_ip packet.ipv4 packet.ipv6, target_ip packet.ipv4 packet.ipv6)
        ∷ [] in
      rw (loaded, run)
        (
          or_else asked (inspect_ends indicators packet ends),
          refl,
          or_else-IsReported indicators packet detector asked (inspect_ends indicators packet ends)
              reported
              (inspect_ends-IsReported indicators packet ends detector (inl refl, (inr refl, tt))),
        )
]
