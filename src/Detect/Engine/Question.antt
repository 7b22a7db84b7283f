-- ===== src/Detect/Engine/Question.antt =====
-- A query for a listed name among the other detectors of an engine
-- (api/src/packet/detect/index.ts, api/src/packet/detect/threat-intel.ts).
use network_monitoring.Base.{
  ℕ, ◌+◌, ◌*◌, ◌≤◌, ◌<◌, ◌≡◌, refl, ap, sym, ◌∙◌, true, false, some, List, [], ◌∷◌, ◌++◌, map, leb,
  nat_beq, Bool-cases, inl, inr, Str, list_eq, nat_eq, All, All-append, length, drop, codes, arith,
  Option, none, is_some,
}
use network_monitoring.Base.Checked.{ok}
use network_monitoring.Detect.Cooldown.{get, is_cooling}
use network_monitoring.Detect.Dns.{lower_latin1}
use network_monitoring.Detect.Dns.Laws.{IsLabel, encode_labels, read_first_question-encode}
use network_monitoring.Detect.Engine.{
  Running, inspect_one, inspect_all, inspect, run_threat_intel, sweep_interval_ms,
}
use network_monitoring.Detect.Engine.Isolation.{
  engine_of, IsSteady, inspect_all-append, inspect_all-IsSteady, sweep_all-IsSteady,
}
use network_monitoring.Detect.Finding.{critical}
use network_monitoring.Detect.ThreatIntel.{
  ThreatIntelDetector, intel_cooldown_ms, is_query, assess_question, build_finding,
}
use network_monitoring.Detect.ThreatIntel.Question.{
  question_finding, assess_question-critical, inspect-asked,
}
use network_monitoring.Intel.Domains.{
  IsParentMatch, match_domain-listed, match_domain-IsParentMatch, match_domain-kind,
}
use network_monitoring.Intel.Indicators.{IndicatorSet, IndicatorMatch, Meta, size, match_domain}
use network_monitoring.Intel.Names.{normalize_domain}
use network_monitoring.Js.Buffer.{Buffer}
use network_monitoring.Js.Map
use network_monitoring.Js.Text.{split, join}
use network_monitoring.Packet.Headers.{DecodedPacket}

-- The threat-intelligence detector of a session, in some state.
abbrev pub asking : (DecodedPacket → IndicatorSet) → ThreatIntelDetector → Running
asking loaded detector = record { detector = (run_threat_intel loaded).detector; state = detector }

-- The packet carries a query of one question for `name`, whatever follows the question.
pub record IsQueryFor (packet : DecodedPacket) (name : Str) : Type 0 where
  pub id_and_flags : Buffer
  pub hi : ℕ
  pub lo : ℕ
  pub counts : Buffer
  pub label : Str
  pub labels : List Str
  pub rest : Buffer
  pub query : is_query packet.udp ≡ true
  pub carried :
      packet.payload
      ≡ some (id_and_flags ++ (hi ∷ lo ∷ (counts ++ (encode_labels (label ∷ labels) ++ rest))))
  pub four : length id_and_flags ≡ 4
  pub six : length counts ≡ 6
  pub asked : 1 ≤ hi * 256 + lo
  pub short : All IsLabel (label ∷ labels)
  pub few : length labels ≤ 62
  pub spelt : name ≡ map lower_latin1 (join (codes ".") (label ∷ labels))

-- The name, in its normal form, or a parent of it of two labels or more is a listed domain.
pub record IsListedName (indicators : IndicatorSet) (name normalized : Str) : Type 0 where
  pub depth : ℕ
  pub meta : Meta
  pub normal : normalize_domain name ≡ some normalized
  pub two_left : depth + 1 < length (split b'.' normalized)
  pub listed :
      Map.get (join (codes ".") (drop depth (split b'.' normalized))) indicators.domains ≡ some meta

-- Nothing was reported within the cooldown before `now`.
abbrev pub IsQuiet : ℕ → ThreatIntelDetector → Type 0
IsQuiet now detector =
    (key : Str) → is_cooling intel_cooldown_ms now (get key detector.last_reported) ≡ false

length-get :
    (key : Str) (m : List (Str × Meta)) (meta : Meta) → Map.get key m ≡ some meta → 1 ≤ length m
unfolding Map.get
length-get key [] meta listed = cc
length-get key (b ∷ m) meta listed = omega arith

size-IsListedName :
    (indicators : IndicatorSet) (name normalized : Str)
    → IsListedName indicators name normalized
    → nat_beq (size indicators) 0 ≡ false
unfolding size
size-IsListedName indicators name normalized h =
    ground (arith, length-get _ indicators.domains h.meta h.listed)

inspect-findings :
    (packet : DecodedPacket) (detectors : List Running) (last_sweep : ℕ)
    → All IsSteady detectors
    → (inspect packet (engine_of detectors last_sweep)).0 ≡ some (inspect_all packet detectors).0
unfolding inspect
inspect-findings packet detectors last_sweep h =
    let swept =
      sweep_all-IsSteady packet.timestamp (inspect_all packet detectors).1
        (inspect_all-IsSteady packet detectors h) in
    elim (Bool-cases (leb (last_sweep + sweep_interval_ms) packet.timestamp)) [
      | inl due ↦ rw (due, swept.0) refl
      | inr early ↦ rw early refl
    ]

asking-IsSteady :
    (loaded : DecodedPacket → IndicatorSet) (detector : ThreatIntelDetector)
    → IsSteady (asking loaded detector)
asking-IsSteady loaded detector now state = refl

there {ℓ} : {A : Type ℓ} (o : Option A) → is_some o ≡ true → (a : A) × (o ≡ some a)
there none h = cc
there (some a) h = (a, refl)

-- A query for a name that is a listed domain, or under one of two labels or more, gives, in an engine
-- whose sweeps do not throw and whose threat-intelligence detector has reported nothing in the last
-- minute, the finding on that name: critical, with the listed domain that matches, and between those of
-- the detectors before and those of the detectors after, whether these throw on the packet or not.
pub inspect-asked_amid :
    (loaded : DecodedPacket → IndicatorSet) (detector : ThreatIntelDetector)
    (left right : List Running) (last_sweep : ℕ) (packet : DecodedPacket) (name normalized : Str)
    → All IsSteady left
    → All IsSteady right
    → IsQueryFor packet name
    → IsListedName (loaded packet) name normalized
    → IsQuiet packet.timestamp detector
    → (found : IndicatorMatch) × IsParentMatch
        (split b'.' normalized)
        normalized
        (loaded packet)
        found
      × ((inspect packet (engine_of (left ++ (asking loaded detector ∷ right)) last_sweep)).0
          ≡ some (
              (inspect_all packet left).0
              ++ (question_finding packet found ∷ (inspect_all packet right).0)))
      × ((question_finding packet found).severity ≡ critical)
      × ((question_finding packet found).message_key ≡ codes "threat_intel.domain")
unfolding inspect_all inspect_one build_finding
inspect-asked_amid loaded detector left right last_sweep packet name normalized steady steady' query
      listed quiet =
    let read =
      read_first_question-encode query.id_and_flags query.hi query.lo query.counts query.label
        query.labels query.rest query.four query.six query.asked query.short query.few
      ∙ ap (λ n. ok (some n)) (sym query.spelt) in
    let (found, matched) = there (match_domain name (loaded packet)) (
      match_domain-listed name normalized (loaded packet) listed.depth listed.meta listed.normal
        listed.two_left listed.listed) in
    let (after, alone) =
      inspect-asked (loaded packet) packet detector _ name found
        (size-IsListedName (loaded packet) name normalized listed) query.query query.carried read
        matched (quiet (assess_question packet found).dedup_key) in
    let grade =
      assess_question-critical packet found
        (match_domain-kind name (loaded packet) found matched) in
    (
      found,
      match_domain-IsParentMatch name normalized (loaded packet) found listed.normal matched,
      inspect-findings packet (left ++ (asking loaded detector ∷ right)) last_sweep
            (All-append IsSteady left _ steady (asking-IsSteady loaded detector, steady'))
          ∙ ap (λ r. some r.0) (inspect_all-append packet left (asking loaded detector ∷ right))
          ∙ rw alone refl,
      grade.0,
      grade.1,
    )
