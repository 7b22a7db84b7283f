-- ===== src/Detect/IntelFinding.antt =====
-- What the findings on listed addresses and names hold (api/src/intel/assess.ts, the parameters of
-- a message; api/src/packet/detect/threat-intel.ts and api/src/flow/detect.ts, the evidence).
use network_monitoring.Base.{if◌then◌else◌, Bool, Option, none, some, List, [], ◌∷◌, Str, codes}
use network_monitoring.Detect.Finding.{
  Value, text, flag, ref, text_or_null, word, truth, word_or_absent,
}
use network_monitoring.Intel.Assess.{
  Direction, outbound, inbound, internal, unknown, FindingRef, Attribution, AssessmentParams,
  is_noted,
}
use network_monitoring.Intel.Indicators.{IndicatorType, ipv4, ipv6, cidr, domain}

abbrev pub direction_name : Direction → Str
direction_name outbound = codes "outbound"
direction_name inbound = codes "inbound"
direction_name internal = codes "internal"
direction_name unknown = codes "unknown"

abbrev pub type_name : IndicatorType → Str
type_name ipv4 = codes "ipv4"
type_name ipv6 = codes "ipv6"
type_name cidr = codes "cidr"
type_name domain = codes "domain"

abbrev ref_value : FindingRef → Value
ref_value message = ref message.key message.params

abbrev attribution_value : Attribution → Value
attribution_value attribution = ref (codes "threat_intel.attribution") (
    (codes "source", word attribution.source)
    ∷ (codes "note", word_or_absent attribution.note)
    ∷ (codes "hasNote", truth attribution.has_note)
    ∷ [])

abbrev remote_params : Option (Option Str) → Option Bool → List (Str × Value)
remote_params (some remote_ip) (some has_remote_ip) =
    (codes "remoteIp", text_or_null remote_ip) ∷ (codes "hasRemoteIp", flag has_remote_ip) ∷ []
remote_params remote_ip none = []
remote_params none (some has_remote_ip) = []

unfoldable pub assessment_params : AssessmentParams → List (Str × Value)
assessment_params params =
    (codes "observed", text params.observed)
    ∷ (codes "indicator", text params.indicator)
    ∷ (codes "attribution", attribution_value params.attribution)
    ∷ (codes "localIp", text_or_null params.local_ip)
    ∷ (codes "hasLocalIp", flag params.has_local_ip)
    ∷ (codes "via", ref_value params.via)
    ∷ remote_params params.remote_ip params.has_remote_ip

-- `...(match.note ? { feedNote: match.note } : {})`
abbrev pub note_evidence : Option Str → List (Str × Value)
note_evidence note = if is_noted note then (codes "feedNote", text_or_null note) ∷ [] else []

abbrev pub or_empty : Option Str → Str
or_empty none = []
or_empty (some s) = s
