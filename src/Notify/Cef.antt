-- ===== src/Notify/Cef.antt =====
-- The CEF form of a finding (api/src/notify/cef.ts).
pub mod Headers
pub mod Values
pub mod Lines
use network_monitoring.Base.{
  ℕ, ◌+◌, Bool, true, false, not, Option, none, some, List, [], ◌∷◌, ◌++◌, map, if◌then◌else◌,
  length, take, Str, codes, nat_beq,
}
use network_monitoring.Detect.Finding.{
  AlertKind, Severity, Value, text, number, flag, texts, numbers, null, ref, Scalar, word, truth,
  absent, critical, high, medium, low, info, arp_spoofing, port_scan, host_sweep, syn_flood,
  plaintext_credentials, dns_tunneling, new_device, threat_intel,
}
use network_monitoring.Js.Json.{quote, bracketed, object}
use network_monitoring.Js.Replace.{replace_all, replace_line_ends}
use network_monitoring.Js.Text.{join, to_string}
use network_monitoring.Notify.Types.{NotifiableFinding}

abbrev pub backslash : ℕ
backslash = 92

abbrev pub kind_name : AlertKind → Str
kind_name arp_spoofing = codes "arp_spoofing"
kind_name port_scan = codes "port_scan"
kind_name host_sweep = codes "host_sweep"
kind_name syn_flood = codes "syn_flood"
kind_name plaintext_credentials = codes "plaintext_credentials"
kind_name dns_tunneling = codes "dns_tunneling"
kind_name new_device = codes "new_device"
kind_name threat_intel = codes "threat_intel"

abbrev pub cef_severity : Severity → ℕ
cef_severity critical = 10
cef_severity high = 8
cef_severity medium = 5
cef_severity low = 3
cef_severity info = 1

unfoldable pub escape_header : Str → Str
escape_header value = replace_all 13 (32 ∷ []) (
    replace_all 10 (32 ∷ []) (
      replace_all b'|' (backslash ∷ b'|' ∷ [])
        (replace_all backslash (backslash ∷ backslash ∷ []) value)))

unfoldable pub escape_extension : Str → Str
escape_extension value = replace_all 13 (32 ∷ []) (
    replace_all 10 (32 ∷ []) (
      replace_line_ends (
        replace_all b'=' (backslash ∷ b'=' ∷ [])
          (replace_all backslash (backslash ∷ backslash ∷ []) value))))

abbrev pub cef_string_max : ℕ
cef_string_max = 1_023

abbrev json_scalar : Scalar → Str
json_scalar (word s) = quote s
json_scalar (truth true) = codes "true"
json_scalar (truth false) = codes "false"
json_scalar absent = codes "null"

abbrev json_entry : Str × Scalar → Str × Str
json_entry entry = (entry.0, json_scalar entry.1)

-- A list goes through `JSON.stringify`.
unfoldable pub stringify_evidence : Value → Str
stringify_evidence (text s) = s
stringify_evidence (number n) = to_string 10 n
stringify_evidence (flag true) = codes "true"
stringify_evidence (flag false) = codes "false"
stringify_evidence (texts ss) = bracketed (map quote ss)
stringify_evidence (numbers ns) = bracketed (map (to_string 10) ns)
stringify_evidence null = []
stringify_evidence (ref key params) =
    object ((codes "key", quote key) ∷ (codes "params", object (map json_entry params)) ∷ [])

abbrev pub evidence_value : Value → Str
evidence_value raw = take cef_string_max (escape_extension (stringify_evidence raw))

-- The collation of keys is that of the installation's ICU data: an argument.
module _ (is_before : Str → Str → Bool) where
  unfoldable pub insert_entry : Str × Value → List (Str × Value) → List (Str × Value)
  insert_entry entry [] = entry ∷ []
  insert_entry entry (next ∷ rest) =
      let later = insert_entry entry rest in
      if is_before entry.0 next.0 then entry ∷ next ∷ rest else next ∷ later

  unfoldable pub sort_entries : List (Str × Value) → List (Str × Value)
  sort_entries [] = []
  sort_entries (entry ∷ entries) = insert_entry entry (sort_entries entries)

unfoldable pub slots : ℕ → List (Str × Value) → List Str
slots slot [] = []
slots slot ((key, raw) ∷ entries) =
    (codes "cs" ++ (to_string 10 slot ++ (codes "Label=" ++ escape_extension key)))
    ∷ (codes "cs" ++ (to_string 10 slot ++ (codes "=" ++ evidence_value raw)))
    ∷ slots (slot + 1) entries

unfoldable pub evidence_extensions : (Str → Str → Bool) → Option (List (Str × Value)) → List Str
evidence_extensions is_before none = []
evidence_extensions is_before (some evidence) = slots 1 (take 6 (sort_entries is_before evidence))

abbrev pub header_fields : Str → NotifiableFinding → List Str
header_fields product_version finding =
    codes "CEF:0"
    ∷ escape_header (codes "NetworkMonitoring")
    ∷ escape_header (codes "NMT")
    ∷ escape_header product_version
    ∷ escape_header (kind_name finding.kind)
    ∷ escape_header finding.english_title
    ∷ to_string 10 (cef_severity finding.severity)
    ∷ []

-- A missing or empty address gives no field.
abbrev pub address_field : Str → Option Str → List Str
address_field key none = []
address_field key (some address) =
    if nat_beq (length address) 0 then [] else (key ++ escape_extension address) ∷ []

unfoldable pub extensions : (Str → Str → Bool) → NotifiableFinding → List Str
extensions is_before finding =
    (codes "rt=" ++ to_string 10 finding.last_seen)
    ∷ (codes "start=" ++ to_string 10 finding.first_seen)
    ∷ (codes "end=" ++ to_string 10 finding.last_seen)
    ∷ (codes "cnt=" ++ to_string 10 finding.occurrences)
    ∷ (codes "cat=" ++ escape_extension (kind_name finding.kind))
    ∷ (codes "dvchost=" ++ escape_extension finding.sensor_id)
    ∷ (codes "msg=" ++ escape_extension finding.english_description)
    ∷ (address_field (codes "src=") finding.source_ip
        ++ (address_field (codes "dst=") finding.target_ip
            ++ evidence_extensions is_before finding.evidence))

unfoldable pub render_cef : (Str → Str → Bool) → NotifiableFinding → Str → Str
render_cef is_before finding product_version =
    join (codes "|") (header_fields product_version finding)
    ++ (b'|' ∷ join (codes " ") (extensions is_before finding))
