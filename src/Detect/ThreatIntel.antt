-- ===== src/Detect/ThreatIntel.antt =====
-- Packets to or from listed addresses, and questions for listed names
-- (api/src/packet/detect/threat-intel.ts). The set of indicators is an argument.
pub mod Laws
pub mod Question
use network_monitoring.Base.{
  ℕ, ◌+◌, Bool, true, false, Option, none, some, List, [], ◌∷◌, ◌++◌, nat_beq, if◌then◌else◌, Str,
  list_eq, nat_eq, codes,
}
use network_monitoring.Base.Checked.{Checked, ok, fault, ◌>>=◌}
use network_monitoring.Detect.Attempt.{source_mac, target_mac}
use network_monitoring.Detect.Cooldown as Cooldown
use network_monitoring.Detect.Cooldown.{BoundedMap, should_report}
use network_monitoring.Detect.Dns.{read_first_question}
use network_monitoring.Detect.Finding.{Finding, Value, text, number, text_or_null, threat_intel}
use network_monitoring.Detect.IntelFinding.{
  direction_name, type_name, assessment_params, note_evidence, or_empty,
}
use network_monitoring.Intel.Assess.{Assessment, Context, Direction, outbound, direction_of, assess}
use network_monitoring.Intel.Indicators.{IndicatorSet, IndicatorMatch, size, match_ip, match_domain}
use network_monitoring.Js.Buffer.{Buffer}
use network_monitoring.Packet.Headers.{DecodedPacket, Ipv4Header, Ipv6Header, TcpHeader, UdpHeader}

abbrev pub intel_cooldown_ms : ℕ
intel_cooldown_ms = 60_000

abbrev pub max_tracked_pairs : ℕ
max_tracked_pairs = 8192

pub record ThreatIntelDetector : Type 0 where
  pub last_reported : BoundedMap Str ℕ
  pub matches : ℕ

abbrev pub new_threat_intel_detector : ThreatIntelDetector
new_threat_intel_detector = record {
  last_reported = record { entries = []; max_entries = max_tracked_pairs };
  matches = 0;
}

abbrev pub source_ip : Option Ipv4Header → Option Ipv6Header → Option Str
source_ip (some ip) ipv6 = some ip.src_addr
source_ip none (some ip) = some ip.src_addr
source_ip none none = none

abbrev pub target_ip : Option Ipv4Header → Option Ipv6Header → Option Str
target_ip (some ip) ipv6 = some ip.dst_addr
target_ip none (some ip) = some ip.dst_addr
target_ip none none = none

abbrev protocol_of : Option TcpHeader → Option UdpHeader → Option Ipv4Header → Option Str
protocol_of (some tcp) udp ipv4 = some (codes "TCP")
protocol_of none (some udp) ipv4 = some (codes "UDP")
protocol_of none none (some ip) = some ip.protocol_name
protocol_of none none none = none

abbrev port_evidence : Option TcpHeader → Option UdpHeader → List (Str × Value)
port_evidence (some tcp) udp = (codes "destinationPort", number tcp.dst_port) ∷ []
port_evidence none (some udp) = (codes "destinationPort", number udp.dst_port) ∷ []
port_evidence none none = []

unfoldable pub build_finding : DecodedPacket → Assessment → List (Str × Value) → Finding ℕ
build_finding packet grade evidence = record {
  kind = threat_intel;
  severity = grade.severity;
  message_key = grade.message_key;
  message_params = assessment_params grade.message_params;
  dedup_key = grade.dedup_key;
  source_ip = source_ip packet.ipv4 packet.ipv6;
  source_mac = source_mac packet.ethernet;
  target_ip = target_ip packet.ipv4 packet.ipv6;
  target_mac = target_mac packet.ethernet;
  protocol = protocol_of packet.tcp packet.udp packet.ipv4;
  port = none;
  evidence = evidence;
  timestamp = packet.timestamp;
}

abbrev pub address_evidence : DecodedPacket → IndicatorMatch → Direction → List (Str × Value)
address_evidence packet found direction =
    (codes "indicator", text found.indicator)
    ∷ (codes "indicatorType", text (type_name found.kind))
    ∷ (codes "matchedAddress", text found.observed)
    ∷ (codes "feed", text found.source)
    ∷ (note_evidence found.note
        ++ ((codes "direction", text (direction_name direction))
            ∷ (codes "observedVia", text (codes "packet capture"))
            ∷ port_evidence packet.tcp packet.udp))

abbrev pub question_evidence : IndicatorMatch → Option Str → List (Str × Value)
question_evidence found resolver =
    (codes "indicator", text found.indicator)
    ∷ (codes "indicatorType", text (codes "domain"))
    ∷ (codes "queriedName", text found.observed)
    ∷ (codes "feed", text found.source)
    ∷ (note_evidence found.note
        ++ ((codes "resolver", text_or_null resolver)
            ∷ (codes "observedVia", text (codes "DNS query"))
            ∷ []))

-- The grade of a packet whose end `observed` is listed.
unfoldable pub assess_packet : DecodedPacket → Option Str → Option Str → IndicatorMatch → Assessment
assess_packet packet observed peer found = assess found (record {
  local_ip = peer;
  remote_ip = observed;
  direction = direction_of (source_ip packet.ipv4 packet.ipv6) (target_ip packet.ipv4 packet.ipv6);
  via = record { key = codes "threat_intel.via.packet_capture"; params = [] };
})

unfoldable pub assess_question : DecodedPacket → IndicatorMatch → Assessment
assess_question packet found = assess found (record {
  local_ip = source_ip packet.ipv4 packet.ipv6;
  remote_ip = target_ip packet.ipv4 packet.ipv6;
  direction = outbound;
  via = record { key = codes "threat_intel.via.dns_query"; params = [] };
})

-- `this.shouldReport(...)`, the count of matches and the finding, or nothing.
unfoldable pub raise :
    DecodedPacket
    → Assessment
    → List (Str × Value)
    → ThreatIntelDetector
    → Option (Finding ℕ) × ThreatIntelDetector
raise packet grade evidence detector =
    let (due, reported) =
      should_report intel_cooldown_ms grade.dedup_key packet.timestamp detector.last_reported in
    if due
    then (
      some (build_finding packet grade evidence),
      record detector { last_reported = reported; matches = detector.matches + 1 },
    )
    else (none, record detector { last_reported = reported })

-- What a try gives, or else what comes after it.
abbrev pub or_else :
    Option (Finding ℕ) × ThreatIntelDetector
    → (ThreatIntelDetector → List (Finding ℕ) × ThreatIntelDetector)
    → List (Finding ℕ) × ThreatIntelDetector
or_else (some finding, detector) rest = (finding ∷ [], detector)
or_else (none, detector) rest = rest detector

-- The loop over the two ends, each with the other: an end that is not listed, or whose pairing is in
-- its cooldown, is passed over.
unfoldable pub inspect_ends :
    IndicatorSet
    → DecodedPacket
    → List (Option Str × Option Str)
    → ThreatIntelDetector
    → List (Finding ℕ) × ThreatIntelDetector
inspect_ends set packet [] detector = ([], detector)
inspect_ends set packet ((observed, peer) ∷ ends) detector =
    elim (match_ip (or_empty observed) set) [
      | none ↦ inspect_ends set packet ends detector
      | some found ↦
          let direction =
            direction_of (source_ip packet.ipv4 packet.ipv6) (target_ip packet.ipv4 packet.ipv6) in
          or_else
            (raise packet (assess_packet packet observed peer found)
              (address_evidence packet found direction) detector)
            (λ after. inspect_ends set packet ends after)
    ]

abbrev pub is_query : Option UdpHeader → Bool
is_query none = false
is_query (some udp) = nat_beq udp.dst_port 53

unfoldable pub inspect_question :
    IndicatorSet
    → DecodedPacket
    → Option Str
    → ThreatIntelDetector
    → Option (Finding ℕ) × ThreatIntelDetector
inspect_question set packet none detector = (none, detector)
inspect_question set packet (some question) detector = elim (match_domain question set) [
  | none ↦ (none, detector)
  | some found ↦
      raise packet (assess_question packet found)
        (question_evidence found (target_ip packet.ipv4 packet.ipv6)) detector
]

unfoldable pub inspect_payload :
    IndicatorSet
    → DecodedPacket
    → Option Buffer
    → ThreatIntelDetector
    → Checked (Option (Finding ℕ) × ThreatIntelDetector)
inspect_payload set packet none detector = ok (none, detector)
inspect_payload set packet (some payload) detector =
    read_first_question payload >>= λ question. ok (inspect_question set packet question detector)

unfoldable pub inspect_dns :
    IndicatorSet
    → DecodedPacket
    → ThreatIntelDetector
    → Checked (Option (Finding ℕ) × ThreatIntelDetector)
inspect_dns set packet detector =
    if is_query packet.udp
    then inspect_payload set packet packet.payload detector
    else ok (none, detector)

-- The question's finding, or what the two ends give: the target first.
unfoldable pub after_dns :
    IndicatorSet
    → DecodedPacket
    → Option (Finding ℕ) × ThreatIntelDetector
    → List (Finding ℕ) × ThreatIntelDetector
after_dns set packet asked =
    let source = source_ip packet.ipv4 packet.ipv6 in
    let target = target_ip packet.ipv4 packet.ipv6 in
    or_else asked (inspect_ends set packet ((target, source) ∷ (source, target) ∷ []))

unfoldable pub inspect :
    IndicatorSet
    → DecodedPacket
    → ThreatIntelDetector
    → Checked (List (Finding ℕ) × ThreatIntelDetector)
inspect set packet detector =
    if nat_beq (size set) 0
    then ok ([], detector)
    else inspect_dns set packet detector >>= λ asked. ok (after_dns set packet asked)

unfoldable pub reset : ThreatIntelDetector → ThreatIntelDetector
reset detector = record { last_reported = Cooldown.reset detector.last_reported; matches = 0 }
