-- ===== src/Intel/Assess.antt =====
-- How bad a match is, by which end of the conversation is local (api/src/intel/assess.ts).
pub mod Laws
use network_monitoring.Base.{
  ℕ, Bool, true, false, not, ◌&&◌, Option, none, some, List, [], ◌∷◌, ◌++◌, nat_beq, if◌then◌else◌,
  length, Str, codes,
}
use network_monitoring.Detect.Finding.{Severity, critical, high, medium, Scalar}
use network_monitoring.Intel.Address.{ipv4_to_int, is_non_routable_v4}
use network_monitoring.Intel.Indicators.{IndicatorMatch, IndicatorType, ipv4, ipv6, cidr, domain}
use network_monitoring.Intel.Names.{canonical_ipv6, is_non_routable_v6}
use network_monitoring.Js.Strings.{includes}

pub data Direction : Type 0 where
  outbound inbound internal unknown : Direction

abbrev private_v4 : Option ℕ → Bool
private_v4 none = false
private_v4 (some value) = is_non_routable_v4 value

abbrev private_v6 : Option Str → Bool
private_v6 none = false
private_v6 (some canonical) = is_non_routable_v6 canonical

unfoldable pub is_private_address : Option Str → Bool
is_private_address none = false
is_private_address (some address) =
    if nat_beq (length address) 0
    then false
    else if includes b':' address
    then private_v6 (canonical_ipv6 address)
    else private_v4 (ipv4_to_int address)

abbrev pub direction_between : Bool → Bool → Direction
direction_between true false = outbound
direction_between false true = inbound
direction_between true true = internal
direction_between false false = unknown

unfoldable pub direction_of : Option Str → Option Str → Direction
direction_of source_ip target_ip =
    direction_between (is_private_address source_ip) (is_private_address target_ip)

-- A reference to a text of the catalogue.
pub record FindingRef : Type 0 where
  pub key : Str
  pub params : List (Str × Scalar)

pub record Context : Type 0 where
  pub local_ip : Option Str
  pub remote_ip : Option Str
  pub direction : Direction
  pub via : FindingRef

pub record Attribution : Type 0 where
  pub source : Str
  pub note : Option Str
  pub has_note : Bool

-- The parameters of the message; the remote address is there for the last grade only.
pub record AssessmentParams : Type 0 where
  pub observed : Str
  pub indicator : Str
  pub attribution : Attribution
  pub local_ip : Option Str
  pub has_local_ip : Bool
  pub via : FindingRef
  pub remote_ip : Option (Option Str)
  pub has_remote_ip : Option Bool

pub record Assessment : Type 0 where
  pub severity : Severity
  pub message_key : Str
  pub message_params : AssessmentParams
  pub dedup_key : Str

abbrev is_there : Option Str → Bool
is_there none = false
is_there (some s) = true

-- `Boolean(match.note)`
abbrev pub is_noted : Option Str → Bool
is_noted none = false
is_noted (some note) = not (nat_beq (length note) 0)

abbrev or_unknown : Option Str → Str
or_unknown none = codes "unknown"
or_unknown (some s) = s

unfoldable pub common_params : IndicatorMatch → Context → AssessmentParams
common_params found context = record {
  observed = found.observed;
  indicator = found.indicator;
  attribution = record { source = found.source; note = found.note; has_note = is_noted found.note };
  local_ip = context.local_ip;
  has_local_ip = is_there context.local_ip;
  via = context.via;
  remote_ip = none;
  has_remote_ip = none;
}

-- The grades that name the indicator and the local end.
unfoldable pub graded : Severity → Str → IndicatorMatch → Context → Assessment
graded severity name found context = record {
  severity = severity;
  message_key = codes "threat_intel." ++ name;
  message_params = common_params found context;
  dedup_key =
      codes "threat_intel|"
      ++ (name ++ (codes "|" ++ (found.indicator ++ (codes "|" ++ or_unknown context.local_ip))));
}

unfoldable pub ungraded : IndicatorMatch → Context → Assessment
ungraded found context = record {
  severity = high;
  message_key = codes "threat_intel.unknown";
  message_params = record (common_params found context) {
    remote_ip = some context.remote_ip;
    has_remote_ip = some (is_there context.remote_ip);
  };
  dedup_key =
      codes "threat_intel|"
      ++ (found.indicator
          ++ (codes "|"
              ++ (or_unknown context.local_ip ++ (codes "|" ++ or_unknown context.remote_ip))));
}

unfoldable pub assess_address : Direction → IndicatorMatch → Context → Assessment
assess_address outbound found context = graded critical (codes "outbound") found context
assess_address inbound found context = graded medium (codes "inbound") found context
assess_address internal found context = ungraded found context
assess_address unknown found context = ungraded found context

abbrev is_domain : IndicatorType → Bool
is_domain ipv4 = false
is_domain ipv6 = false
is_domain cidr = false
is_domain domain = true

unfoldable pub assess : IndicatorMatch → Context → Assessment
assess found context =
    if is_domain found.kind
    then graded critical (codes "domain") found context
    else assess_address context.direction found context
