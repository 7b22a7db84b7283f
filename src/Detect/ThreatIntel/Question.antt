-- ===== src/Detect/ThreatIntel/Question.antt =====
-- A query for a listed name (api/src/packet/detect/threat-intel.ts, `inspectDns`).
use network_monitoring.Base.{
  ℕ, ◌+◌, ◌≡◌, refl, ap, ◌∙◌, codes, true, false, some, List, [], ◌∷◌, Str, list_eq, nat_eq,
  nat_beq,
}
use network_monitoring.Base.Checked.{ok}
use network_monitoring.Detect.Cooldown.{get, set, is_cooling, should_report}
use network_monitoring.Detect.Dns.{read_first_question}
use network_monitoring.Detect.Finding.{Finding, Value, critical}
use network_monitoring.Detect.ThreatIntel.{
  ThreatIntelDetector, intel_cooldown_ms, raise, build_finding, assess_question, inspect_question,
  inspect_payload, inspect_dns, after_dns, inspect, question_evidence, is_query, target_ip,
}
use network_monitoring.Intel.Assess.{Assessment, assess, graded}
use network_monitoring.Intel.Indicators.{IndicatorSet, IndicatorMatch, domain, size, match_domain}
use network_monitoring.Js.Buffer.{Buffer}
use network_monitoring.Packet.Headers.{DecodedPacket}

abbrev pub question_finding : DecodedPacket → IndicatorMatch → Finding ℕ
question_finding packet found =
    build_finding packet (assess_question packet found)
      (question_evidence found (target_ip packet.ipv4 packet.ipv6))

pub assess_question-critical :
    (packet : DecodedPacket) (found : IndicatorMatch)
    → found.kind ≡ domain
    → ((assess_question packet found).severity ≡ critical)
      × ((assess_question packet found).message_key ≡ codes "threat_intel.domain")
unfolding assess_question assess graded
assess_question-critical packet found kind = rw kind (refl, refl)

raise-due :
    (packet : DecodedPacket) (grade : Assessment) (evidence : List (Str × Value))
    (detector : ThreatIntelDetector)
    → is_cooling intel_cooldown_ms packet.timestamp (get grade.dedup_key detector.last_reported)
      ≡ false
    → (after : ThreatIntelDetector) × (raise packet grade evidence detector
        ≡ (some (build_finding packet grade evidence), after))
unfolding raise should_report
raise-due packet grade evidence detector due = (
  record {
    last_reported = set grade.dedup_key packet.timestamp detector.last_reported;
    matches = detector.matches + 1;
  },
  rw due refl,
)

inspect_payload-asked :
    (indicators : IndicatorSet) (packet : DecodedPacket) (payload : Buffer)
    (detector : ThreatIntelDetector) (question : Str) (found : IndicatorMatch)
    → read_first_question payload ≡ ok (some question)
    → match_domain question indicators ≡ some found
    → inspect_payload indicators packet (some payload) detector
      ≡ ok (
          raise packet
            (assess_question packet found)
            (question_evidence found (target_ip packet.ipv4 packet.ipv6))
            detector)
unfolding inspect_payload inspect_question
inspect_payload-asked indicators packet payload detector question found read listed =
    rw (read, listed, inspect_question) refl

-- A query for a name that is a listed domain, or under one of two labels or more, from a packet whose
-- pairing is not in its cooldown, gives the finding on that question alone, whatever the two ends would
-- give.
pub inspect-asked :
    (indicators : IndicatorSet) (packet : DecodedPacket) (detector : ThreatIntelDetector)
    (payload : Buffer) (question : Str) (found : IndicatorMatch)
    → nat_beq (size indicators) 0 ≡ false
    → is_query packet.udp ≡ true
    → packet.payload ≡ some payload
    → read_first_question payload ≡ ok (some question)
    → match_domain question indicators ≡ some found
    → is_cooling intel_cooldown_ms packet.timestamp
        (get (assess_question packet found).dedup_key detector.last_reported)
      ≡ false
    → (after : ThreatIntelDetector) × (inspect indicators packet detector
        ≡ ok (question_finding packet found ∷ [], after))
unfolding inspect inspect_dns after_dns build_finding
inspect-asked indicators packet detector payload question found loaded query carried read listed
      due =
    let evidence = question_evidence found (target_ip packet.ipv4 packet.ipv6) in
    let (after, raised) = raise-due packet (assess_question packet found) evidence detector due in
    let asked : inspect_payload indicators packet packet.payload detector
        ≡ ok (some (question_finding packet found), after) =
      ap (λ p. inspect_payload indicators packet p detector) carried
      ∙ inspect_payload-asked indicators packet payload detector question found read listed
      ∙ ap ok raised in
    (after, rw (loaded, query, asked) refl)
