-- ===== src/Detect/NewDevice.antt =====
-- Devices that were not on the network before (api/src/packet/detect/new-device.ts). The calls of
-- `onDiscovered` and `onSeen` are part of the outcome.
pub mod Laws
use network_monitoring.Base.{
  ℕ, ◌+◌, ◌-◌, ◌%◌, Bool, true, false, not, ◌||◌, Option, none, some, List, [], ◌∷◌, ◌++◌, leb, ltb,
  nat_beq, if◌then◌else◌, length, Str, codes, ◌==◌, list_eq, nat_eq, take,
}
use network_monitoring.Detect.Cooldown.{BoundedMap, get, set, size}
use network_monitoring.Detect.Finding.{
  Finding, Value, text, number, flag, text_or_null, medium, new_device,
}
use network_monitoring.Intel.Names.{parse_hex}
use network_monitoring.Js.Map
use network_monitoring.Js.Strings.{lower}
use network_monitoring.Packet.Headers.{DecodedPacket, EthernetHeader, ArpHeader}

abbrev pub max_tracked_devices : ℕ
max_tracked_devices = 8192

-- A quarter of an hour.
abbrev pub touch_interval_ms : ℕ
touch_interval_ms = 900_000

pub record DeviceState : Type 0 where
  pub first_ip : Option Str
  pub touched_at : ℕ

pub data DeviceCall : Type 0 where
  on_discovered on_seen : Str → Option Str → DeviceCall

pub record NewDeviceDetector : Type 0 where
  pub seen : BoundedMap Str DeviceState
  pub learning_until : Option ℕ
  pub learning_period_ms : ℕ

abbrev pub new_device_detector : ℕ → NewDeviceDetector
new_device_detector learning_period_ms = record {
  seen = record { entries = []; max_entries = max_tracked_devices };
  learning_until = none;
  learning_period_ms = learning_period_ms;
}

pub record Outcome : Type 0 where
  pub findings : List (Finding ℕ)
  pub calls : List DeviceCall
  pub after : NewDeviceDetector

-- Broadcast, zero and group addresses, and text that does not begin with a hexadecimal octet.
unfoldable pub is_structural_address : Str → Bool
is_structural_address mac =
    if mac == codes "ff:ff:ff:ff:ff:ff" || mac == codes "00:00:00:00:00:00"
    then true
    else elim (parse_hex (take 2 mac)) [
      | none ↦ true
      | some first_octet ↦ nat_beq (first_octet % 2) 1
    ]

abbrev arp_source : Option ArpHeader → Option Str
arp_source none = none
arp_source (some arp) = some arp.src_protocol_addr

unfoldable pub source_ip_of : DecodedPacket → Option Str
source_ip_of packet = elim packet.ipv4 [
  | some ip ↦ some ip.src_addr
  | none ↦ elim packet.ipv6 [ some ip ↦ some ip.src_addr | none ↦ arp_source packet.arp ]
]

unfoldable pub seed : List Str → NewDeviceDetector → NewDeviceDetector
seed [] detector = detector
seed (mac ∷ macs) detector = seed macs (record detector {
  seen = set (lower mac) (record { first_ip = none; touched_at = 0 }) detector.seen;
})

abbrev device_mac : Option EthernetHeader → Str
device_mac none = []
device_mac (some ethernet) = lower ethernet.source_address

-- The address that a frame is judged by, if it is a device's.
unfoldable pub mac_of : DecodedPacket → Option Str
mac_of packet =
    let mac = device_mac packet.ethernet in
    if nat_beq (length mac) 0 || is_structural_address mac then none else some mac

abbrev is_known : Option Str → Bool
is_known none = false
is_known (some ip) = true

unfoldable pub new_device_finding : DecodedPacket → Str → Option Str → ℕ → Finding ℕ
new_device_finding packet mac ip known_before = record {
  kind = new_device;
  severity = medium;
  message_key = codes "new_device.discovered";
  message_params =
      (codes "mac", text mac)
      ∷ (codes "ip", text_or_null ip)
      ∷ (codes "hasIp", flag (is_known ip))
      ∷ (codes "vendorPrefix", text (take 8 mac))
      ∷ [];
  dedup_key = codes "new_device|" ++ mac;
  source_ip = ip;
  source_mac = some mac;
  target_ip = none;
  target_mac = none;
  protocol = none;
  port = none;
  evidence =
      (codes "macAddress", text mac)
      ∷ (codes "ipAddress", text_or_null ip)
      ∷ (codes "vendorPrefix", text (take 8 mac))
      ∷ (codes "knownDevicesBefore", number known_before)
      ∷ [];
  timestamp = packet.timestamp;
}

-- `learningUntil ??= now + learningPeriodMs`
abbrev pub or_start : Option ℕ → ℕ → ℕ
or_start none start = start
or_start (some limit) start = limit

-- A known device: the touch of its entry, which keeps its place in the map.
unfoldable pub inspect_known : DecodedPacket → Str → DeviceState → NewDeviceDetector → Outcome
inspect_known packet mac state detector =
    if leb (state.touched_at + touch_interval_ms) packet.timestamp
    then record {
      findings = [];
      calls = on_seen mac (source_ip_of packet) ∷ [];
      after = record detector {
        seen = record detector.seen {
          entries =
              Map.set mac (record state { touched_at = packet.timestamp }) detector.seen.entries;
        };
      };
    }
    else record { findings = []; calls = []; after = detector }

unfoldable pub inspect_unknown : DecodedPacket → Str → ℕ → NewDeviceDetector → Outcome
inspect_unknown packet mac learning_until detector =
    let ip = source_ip_of packet in
    let seen = set mac (record { first_ip = ip; touched_at = packet.timestamp }) detector.seen in
    record {
      findings =
          if ltb packet.timestamp learning_until
          then []
          else new_device_finding packet mac ip (size seen - 1) ∷ [];
      calls = on_discovered mac ip ∷ [];
      after = record detector { seen = seen };
    }

unfoldable pub inspect_mac : DecodedPacket → Str → NewDeviceDetector → Outcome
inspect_mac packet mac detector =
    let limit = or_start detector.learning_until (packet.timestamp + detector.learning_period_ms) in
    let started = record detector { learning_until = some limit } in
    elim (get mac detector.seen) [
      | some state ↦ inspect_known packet mac state started
      | none ↦ inspect_unknown packet mac limit started
    ]

unfoldable pub inspect : DecodedPacket → NewDeviceDetector → Outcome
inspect packet detector = elim (mac_of packet) [
  | none ↦ record { findings = []; calls = []; after = detector }
  | some mac ↦ inspect_mac packet mac detector
]

unfoldable pub reset : NewDeviceDetector → NewDeviceDetector
reset detector = record detector {
  seen = record detector.seen { entries = [] };
  learning_until = none;
}
