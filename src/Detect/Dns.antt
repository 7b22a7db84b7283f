-- ===== src/Detect/Dns.antt =====
-- The name that a DNS query asks for (api/src/packet/detect/dns-tunneling.ts, `readFirstQuestion`).
pub mod Laws
use network_monitoring.Base.{
  ℕ, zero, suc, ◌+◌, Bool, true, false, ◌&&◌, not, Option, none, some, List, [], ◌∷◌, ◌++◌, map,
  ltb, leb, nat_beq, if◌then◌else◌, length, Str, codes,
}
use network_monitoring.Base.Checked.{Checked, ok, fault, ◌>>=◌}
use network_monitoring.Js.Buffer.{Buffer, read_uint8, read_uint16_be, subarray}
use network_monitoring.Js.Text.{join}

-- `toLowerCase` of a code unit below 256.
abbrev pub lower_latin1 : ℕ → ℕ
lower_latin1 c =
    if leb b'A' c && leb c b'Z'
    then c + 32
    else if leb 0xc0 c && (leb c 0xde && not (nat_beq c 0xd7))
    then c + 32
    else c

-- The labels from `offset` on. Each round reads one label, and 64 labels are too many.
unfoldable pub read_labels : ℕ → Buffer → ℕ → List Str → Checked (Option (List Str))
read_labels zero payload offset labels = fault
read_labels (suc fuel) payload offset labels =
    let continued = read_uint8 payload offset >>= λ size.
    let start = offset + 1 in
    let label = subarray payload start (start + size) in
    let longer = labels ++ (label ∷ []) in
    let rest = read_labels fuel payload (start + size) longer in
    if nat_beq size 0
    then ok (some labels)
    else if leb 64 size
    then ok none
    else if ltb (length payload) (start + size)
    then ok none
    else if ltb 63 (length longer)
    then ok none
    else rest in
    if ltb offset (length payload) then continued else ok (some labels)

abbrev pub name_of : Option (List Str) → Option Str
name_of none = none
name_of (some []) = none
name_of (some (label ∷ labels)) = some (map lower_latin1 (join (codes ".") (label ∷ labels)))

unfoldable pub read_first_question : Buffer → Checked (Option Str)
read_first_question payload =
    if ltb (length payload) 13
    then ok none
    else read_uint16_be payload 4 >>= λ question_count.
        if nat_beq question_count 0
        then ok none
        else read_labels 65 payload 12 [] >>= λ labels. ok (name_of labels)
