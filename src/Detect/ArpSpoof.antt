-- ===== src/Detect/ArpSpoof.antt =====
-- Conflicting claims of an address over ARP (api/src/packet/detect/arp-spoof.ts). The bindings of
-- `env.arpTrustedMappings` are an argument.
pub mod Laws
use network_monitoring.Base.{
  ℕ, ◌+◌, ◌*◌, Bool, true, false, not, ◌&&◌, ◌||◌, Option, none, some, List, [], ◌∷◌, ◌++◌, leb,
  ltb, if◌then◌else◌, length, Str, codes, ◌==◌, list_eq, nat_eq, take,
}
use network_monitoring.Detect.Cooldown.{BoundedMap, get, set}
use network_monitoring.Detect.Finding.{
  Finding, Value, text, texts, number, flag, Severity, critical, high, arp_spoofing,
}
use network_monitoring.Js.Map
use network_monitoring.Js.Strings.{lower}
use network_monitoring.Packet.Headers.{DecodedPacket, ArpHeader}

abbrev pub observations_before_trusted : ℕ
observations_before_trusted = 3

abbrev pub max_ips_per_mac : ℕ
max_ips_per_mac = 5

abbrev pub flip_window_ms : ℕ
flip_window_ms = 60_000

pub record Binding : Type 0 where
  pub mac : Str
  pub observations : ℕ
  pub first_seen : ℕ
  pub last_seen : ℕ
  pub history : List (Str × ℕ)
  pub flips : ℕ

pub record ArpSpoofDetector : Type 0 where
  pub bindings : BoundedMap Str Binding
  pub ips_per_mac : BoundedMap Str (List Str)
  pub reported_mac_sprawl : List Str

abbrev pub new_arp_spoof_detector : ArpSpoofDetector
new_arp_spoof_detector = record {
  bindings = record { entries = []; max_entries = 4096 };
  ips_per_mac = record { entries = []; max_entries = 4096 };
  reported_mac_sprawl = [];
}

-- What the sender of an ARP packet claims.
pub record Claim : Type 0 where
  pub ip : Str
  pub mac : Str
  pub now : ℕ
  pub operation : Str

unfoldable pub is_void : Str → Str → Bool
is_void ip mac =
    ip == codes "0.0.0.0" || (mac == codes "00:00:00:00:00:00" || mac == codes "ff:ff:ff:ff:ff:ff")

unfoldable pub claim_of : DecodedPacket → Option Claim
claim_of packet = elim packet.arp [
  | none ↦ none
  | some arp ↦
      if is_void arp.src_protocol_addr (lower arp.src_hardware_addr)
      then none
      else some (record {
        ip = arp.src_protocol_addr;
        mac = lower arp.src_hardware_addr;
        now = packet.timestamp;
        operation = arp.operation_name;
      })
]

abbrev finding_of :
    Claim → Severity → Str → List (Str × Value) → Str → Option Str → List (Str × Value) → Finding ℕ
finding_of claim severity message_key message_params dedup_key source_ip evidence = record {
  kind = arp_spoofing;
  severity = severity;
  message_key = message_key;
  message_params = message_params;
  dedup_key = dedup_key;
  source_ip = source_ip;
  source_mac = some claim.mac;
  target_ip = none;
  target_mac = none;
  protocol = some (codes "ARP");
  port = none;
  evidence = evidence;
  timestamp = claim.now;
}

unfoldable pub configured_finding : Claim → Str → Finding ℕ
configured_finding claim configured =
    finding_of claim critical (codes "arp_spoofing.configured")
      ((codes "ip", text claim.ip)
        ∷ (codes "mac", text claim.mac)
        ∷ (codes "operation", text claim.operation)
        ∷ (codes "configuredMac", text configured)
        ∷ [])
      (codes "arp_spoofing|configured|" ++ claim.ip) (some claim.ip)
      ((codes "claimedIp", text claim.ip)
        ∷ (codes "claimingMac", text claim.mac)
        ∷ (codes "configuredMac", text configured)
        ∷ (codes "arpOperation", text claim.operation)
        ∷ (codes "source", text (codes "ARP_TRUSTED_MAPPINGS"))
        ∷ [])

unfoldable pub check_configured : Claim → Option Str → List (Finding ℕ)
check_configured claim none = []
check_configured claim (some configured) =
    if lower configured == claim.mac then [] else configured_finding claim configured ∷ []

abbrev history_keys : List (Str × ℕ) → List Str
history_keys [] = []
history_keys ((mac, seen_at) ∷ history) = mac ∷ history_keys history

unfoldable pub conflict_finding : Claim → Binding → Binding → Finding ℕ
conflict_finding claim previous moved =
    finding_of claim (if ltb 0 moved.flips then critical else high) (codes "arp_spoofing.conflict")
      ((codes "ip", text claim.ip)
        ∷ (codes "previousMac", text previous.mac)
        ∷ (codes "mac", text claim.mac)
        ∷ (codes "observations", number previous.observations)
        ∷ (codes "flipping", flag (ltb 0 moved.flips))
        ∷ [])
      (codes "arp_spoofing|conflict|" ++ claim.ip) (some claim.ip)
      ((codes "claimedIp", text claim.ip)
        ∷ (codes "previousMac", text previous.mac)
        ∷ (codes "currentMac", text claim.mac)
        ∷ (codes "previousMacObservations", number previous.observations)
        ∷ (codes "alternations", number moved.flips)
        ∷ (codes "arpOperation", text claim.operation)
        ∷ (codes "knownMacsForIp", texts (history_keys moved.history))
        ∷ [])

-- The MAC was seen for this address within the window of a flip.
abbrev pub returns_within : ℕ → Option ℕ → Bool
returns_within now none = false
returns_within now (some seen_before) = ltb now (seen_before + flip_window_ms)

unfoldable pub first_binding : Claim → Binding
first_binding claim = record {
  mac = claim.mac;
  observations = 1;
  first_seen = claim.now;
  last_seen = claim.now;
  history = (claim.mac, claim.now) ∷ [];
  flips = 0;
}

unfoldable pub confirm : Claim → Binding → Binding
confirm claim binding = record binding {
  observations = binding.observations + 1;
  last_seen = claim.now;
  history = Map.set claim.mac claim.now binding.history;
}

unfoldable pub move : Claim → Binding → Binding
move claim binding = record binding {
  mac = claim.mac;
  observations = 1;
  last_seen = claim.now;
  history = Map.set claim.mac claim.now binding.history;
  flips =
      if returns_within claim.now (Map.get claim.mac binding.history)
      then binding.flips + 1
      else binding.flips;
}

abbrev is_configured : Option Str → Bool
is_configured none = false
is_configured (some mac) = true

-- The binding object is changed in place: its entry keeps its place in the map.
abbrev put_binding : Claim → Binding → BoundedMap Str Binding → BoundedMap Str Binding
put_binding claim binding bindings = record bindings {
  entries = Map.set claim.ip binding bindings.entries;
}

unfoldable pub learn :
    Claim → Option Str → BoundedMap Str Binding → List (Finding ℕ) × BoundedMap Str Binding
learn claim configured bindings = elim (get claim.ip bindings) [
  | none ↦ ([], set claim.ip (first_binding claim) bindings)
  | some binding ↦
      if binding.mac == claim.mac
      then ([], put_binding claim (confirm claim binding) bindings)
      else (
        if leb observations_before_trusted binding.observations && not (is_configured configured)
            then conflict_finding claim binding (move claim binding) ∷ []
            else [],
        put_binding claim (move claim binding) bindings,
      )
]

unfoldable pub has_text : Str → List Str → Bool
has_text s [] = false
has_text s (t ∷ ts) = (t == s) || has_text s ts

abbrev or_empty : Option (List Str) → List Str
or_empty none = []
or_empty (some ips) = ips

abbrev add_text : Str → List Str → List Str
add_text s ts = if has_text s ts then ts else ts ++ (s ∷ [])

-- A new set of addresses goes through the bound; a known one is changed in place.
unfoldable pub claim_ip : Claim → BoundedMap Str (List Str) → BoundedMap Str (List Str)
claim_ip claim table = elim (get claim.mac table) [
  | none ↦ set claim.mac (claim.ip ∷ []) table
  | some ips ↦ record table { entries = Map.set claim.mac (add_text claim.ip ips) table.entries }
]

unfoldable pub sprawl_finding : Claim → List Str → Finding ℕ
sprawl_finding claim ips =
    finding_of claim high (codes "arp_spoofing.sprawl")
      ((codes "mac", text claim.mac) ∷ (codes "count", number (length ips)) ∷ [])
      (codes "arp_spoofing|sprawl|" ++ claim.mac) none
      ((codes "mac", text claim.mac)
        ∷ (codes "claimedIpCount", number (length ips))
        ∷ (codes "claimedIps", texts (take 20 ips))
        ∷ [])

unfoldable pub check_sprawl : Claim → List Str → List Str → List (Finding ℕ) × List Str
check_sprawl claim ips reported =
    if ltb max_ips_per_mac (length ips) && not (has_text claim.mac reported)
    then (sprawl_finding claim ips ∷ [], add_text claim.mac reported)
    else ([], reported)

-- The addresses that the MAC has claimed, with this one.
abbrev pub claimed_of : Claim → ArpSpoofDetector → List Str
claimed_of claim detector = add_text claim.ip (or_empty (get claim.mac detector.ips_per_mac))

unfoldable pub inspect_claim :
    Option Str → Claim → ArpSpoofDetector → List (Finding ℕ) × ArpSpoofDetector
inspect_claim configured claim detector =
    let (conflicts, bindings) = learn claim configured detector.bindings in
    let table = claim_ip claim detector.ips_per_mac in
    let (sprawls, reported) =
      check_sprawl claim (claimed_of claim detector) detector.reported_mac_sprawl in
    (
      check_configured claim configured ++ (conflicts ++ sprawls),
      record { bindings = bindings; ips_per_mac = table; reported_mac_sprawl = reported },
    )

unfoldable pub inspect :
    List (Str × Str) → DecodedPacket → ArpSpoofDetector → List (Finding ℕ) × ArpSpoofDetector
inspect trusted packet detector = elim (claim_of packet) [
  | none ↦ ([], detector)
  | some claim ↦ inspect_claim (Map.get claim.ip trusted) claim detector
]

unfoldable pub recent_history : ℕ → Str → List (Str × ℕ) → List (Str × ℕ)
recent_history now current [] = []
recent_history now current ((mac, seen_at) ∷ history) =
    let rest = recent_history now current history in
    if ltb (seen_at + flip_window_ms * 10) now && not (mac == current)
    then rest
    else (mac, seen_at) ∷ rest

unfoldable pub sweep_bindings : ℕ → List (Str × Binding) → List (Str × Binding)
sweep_bindings now [] = []
sweep_bindings now ((ip, binding) ∷ bindings) =
    (ip, record binding { history = recent_history now binding.mac binding.history })
    ∷ sweep_bindings now bindings

unfoldable pub sweep : ℕ → ArpSpoofDetector → ArpSpoofDetector
sweep now detector = record detector {
  bindings = record detector.bindings { entries = sweep_bindings now detector.bindings.entries };
}

unfoldable pub reset : ArpSpoofDetector → ArpSpoofDetector
reset detector = record {
  bindings = record detector.bindings { entries = [] };
  ips_per_mac = record detector.ips_per_mac { entries = [] };
  reported_mac_sprawl = [];
}
