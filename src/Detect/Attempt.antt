-- ===== src/Detect/Attempt.antt =====
-- Connection attempts, the ports and settings that judge them (api/src/packet/detect/scan.ts). The
-- settings of `env.detection` are an argument.
use network_monitoring.Base.{
  ℕ, ◌+◌, ◌/◌, Bool, true, false, not, ◌&&◌, ◌||◌, Option, none, some, List, [], ◌∷◌, ◌++◌, leb,
  nat_beq, if◌then◌else◌, length, Str, codes,
}
use network_monitoring.Detect.Finding.{Value, text}
use network_monitoring.Js.Text.{to_string}
use network_monitoring.Packet.Decode.{ip_addresses}
use network_monitoring.Packet.Headers.{DecodedPacket, TcpHeader, EthernetHeader}

pub record DetectionSettings : Type 0 where
  pub scan_window_ms : ℕ
  pub flood_window_ms : ℕ
  pub port_scan_ports : ℕ
  pub host_sweep_hosts : ℕ
  pub syn_flood_attempts : ℕ

abbrev pub report_cooldown_ms : ℕ
report_cooldown_ms = 15_000

abbrev pub max_tracked_sources : ℕ
max_tracked_sources = 8192

unfoldable pub is_client_traffic : ℕ → Bool
is_client_traffic port =
    nat_beq port 53
    || (nat_beq port 80
        || (nat_beq port 123
            || (nat_beq port 443
                || (nat_beq port 853
                    || (nat_beq port 993
                        || (nat_beq port 995 || (nat_beq port 8080 || nat_beq port 8443)))))))

-- `Math.round(ms / 1000)`
abbrev pub rounded_seconds : ℕ → ℕ
rounded_seconds ms = (ms + 500) / 1000

unfoldable pub port_service_name : ℕ → Option Str
port_service_name port =
    if nat_beq port 21
    then some (codes "FTP")
    else if nat_beq port 22
    then some (codes "SSH")
    else if nat_beq port 23
    then some (codes "Telnet")
    else if nat_beq port 25
    then some (codes "SMTP")
    else if nat_beq port 110
    then some (codes "POP3")
    else if nat_beq port 135
    then some (codes "Windows RPC")
    else if nat_beq port 139
    then some (codes "NetBIOS")
    else if nat_beq port 143
    then some (codes "IMAP")
    else if nat_beq port 445
    then some (codes "SMB file sharing")
    else if nat_beq port 1433
    then some (codes "Microsoft SQL Server")
    else if nat_beq port 1521
    then some (codes "Oracle")
    else if nat_beq port 3306
    then some (codes "MySQL")
    else if nat_beq port 3389
    then some (codes "Remote Desktop")
    else if nat_beq port 5432
    then some (codes "PostgreSQL")
    else if nat_beq port 5900
    then some (codes "VNC")
    else if nat_beq port 6379
    then some (codes "Redis")
    else if nat_beq port 9200
    then some (codes "Elasticsearch")
    else if nat_beq port 27017
    then some (codes "MongoDB")
    else none

-- The code units that `replace(/[()\s]/g, '')` leaves, of the names above.
abbrev without_blanks : Str → Str
without_blanks [] = []
without_blanks (c ∷ s) =
    if nat_beq c 32 || (nat_beq c b'(' || nat_beq c b')')
    then without_blanks s
    else c ∷ without_blanks s

abbrev pub service_evidence : Option Str → Value
service_evidence none = text (codes "unknown")
service_evidence (some name) = text (without_blanks name)

abbrev pub is_known : Option Str → Bool
is_known none = false
is_known (some name) = true

-- `sort((a, b) => a - b)`
unfoldable pub insert_number : ℕ → List ℕ → List ℕ
insert_number n [] = n ∷ []
insert_number n (m ∷ ms) = let rest = insert_number n ms in if leb n m then n ∷ m ∷ ms else m ∷ rest

unfoldable pub sort_numbers : List ℕ → List ℕ
sort_numbers [] = []
sort_numbers (n ∷ ns) = insert_number n (sort_numbers ns)

-- A connection attempt: who, to whom, to which port and when.
pub record Attempt : Type 0 where
  pub source : Str
  pub target : Str
  pub port : ℕ
  pub now : ℕ

unfoldable pub is_attempt : TcpHeader → Bool
is_attempt tcp = tcp.syn && not tcp.ack

-- A missing or empty address makes no attempt.
abbrev pub addressed : Option Str → Option Str → ℕ → ℕ → Option Attempt
addressed none target port now = none
addressed (some source) none port now = none
addressed (some source) (some target) port now =
    if nat_beq (length source) 0 || nat_beq (length target) 0
    then none
    else some (record { source = source; target = target; port = port; now = now })

unfoldable pub attempt_of : DecodedPacket → Option Attempt
attempt_of packet = elim packet.tcp [
  | none ↦ none
  | some tcp ↦
      if is_attempt tcp
      then addressed (ip_addresses packet).0 (ip_addresses packet).1 tcp.dst_port packet.timestamp
      else none
]

abbrev pub source_mac : Option EthernetHeader → Option Str
source_mac none = none
source_mac (some ethernet) = some ethernet.source_address

abbrev pub target_mac : Option EthernetHeader → Option Str
target_mac none = none
target_mac (some ethernet) = some ethernet.destination_address

abbrev pub port_key : Attempt → Str
port_key attempt = attempt.source ++ (codes ">" ++ attempt.target)

abbrev pub sweep_key : Attempt → Str
sweep_key attempt = attempt.source ++ (codes ":" ++ to_string 10 attempt.port)

abbrev pub syn_key : Attempt → Str
syn_key attempt = codes "syn|" ++ attempt.source

abbrev pub pair : Attempt → Str
pair attempt = attempt.target ++ (codes ":" ++ to_string 10 attempt.port)
