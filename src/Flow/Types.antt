-- ===== src/Flow/Types.antt =====
-- Flow records and parse results, and the test for an unanswered connection attempt
-- (api/src/flow/types.ts). `observed_at` is the time value of the collector's clock.
use network_monitoring.Base.{
  ℕ, ◌+◌, ◌/◌, ◌%◌, Bool, false, ◌&&◌, not, Option, none, some, List, [], ◌∷◌, Str, codes, nat_beq,
  ltb, leb, if◌then◌else◌,
}
use network_monitoring.Js.Date.{Date}
use network_monitoring.Js.Text.{join}

pub data FlowProtocol : Type 0 where
  netflow5 netflow9 ipfix : FlowProtocol

pub record FlowRecord : Type 0 where
  pub exporter : Str
  pub observation_domain : ℕ
  pub protocol_version : FlowProtocol
  pub protocol : ℕ
  pub protocol_name : Str
  pub src_ip : Option Str
  pub dst_ip : Option Str
  pub src_port : ℕ
  pub dst_port : ℕ
  pub packets : ℕ
  pub bytes : ℕ
  pub tcp_flags : Option ℕ
  pub src_mac : Option Str
  pub dst_mac : Option Str
  pub ingress_interface : Option ℕ
  pub egress_interface : Option ℕ
  pub start : Date
  pub end : Date
  pub observed_at : ℕ

pub record ParseResult : Type 0 where
  pub records : List FlowRecord
  pub pending_templates : ℕ
  pub malformed : ℕ

abbrev pub empty_result : ParseResult
empty_result = record { records = []; pending_templates = 0; malformed = 0 }

unfoldable pub add_malformed : ParseResult → ParseResult
add_malformed result = record result { malformed = result.malformed + 1 }

-- `(flags & bit) !== 0` at a power of two.
abbrev pub has_flag : ℕ → ℕ → Bool
has_flag flags bit = nat_beq (flags / bit % 2) 1

-- No flag data: judged by volume.
abbrev pub is_probe_sized : FlowRecord → Bool
is_probe_sized flow = ltb 0 flow.packets && (leb flow.packets 2 && leb flow.bytes 200)

abbrev pub unanswered_by_flags : FlowRecord → Option ℕ → Bool
unanswered_by_flags flow none = is_probe_sized flow
unanswered_by_flags flow (some flags) =
    if nat_beq flags 0
    then is_probe_sized flow
    else has_flag flags 0x02 && not (has_flag flags 0x10)

unfoldable pub is_unanswered_tcp : FlowRecord → Bool
is_unanswered_tcp flow =
    if nat_beq flow.protocol 6 then unanswered_by_flags flow flow.tcp_flags else false

-- The names and bits of TCP_FLAG, in order.
unfoldable pub tcp_flag_names : List (Str × ℕ)
tcp_flag_names =
    (codes "FIN", 0x01)
    ∷ (codes "SYN", 0x02)
    ∷ (codes "RST", 0x04)
    ∷ (codes "PSH", 0x08)
    ∷ (codes "ACK", 0x10)
    ∷ (codes "URG", 0x20)
    ∷ (codes "ECE", 0x40)
    ∷ (codes "CWR", 0x80)
    ∷ []

unfoldable pub names_in : ℕ → List (Str × ℕ) → List Str
names_in flags [] = []
names_in flags ((name, bit) ∷ rest) =
    let later = names_in flags rest in if has_flag flags bit then name ∷ later else later

unfoldable pub describe_tcp_flags : Option ℕ → Option Str
unfolding names_in tcp_flag_names
describe_tcp_flags none = none
describe_tcp_flags (some flags) = elim (names_in flags tcp_flag_names) [
  | [] ↦ some (codes "none")
  | name ∷ names ↦ some (join (codes ",") (name ∷ names))
]
