-- ===== src/Net/Prefix.antt =====
-- Prefixes of IPv4 and IPv6, and whether an address falls inside (api/src/net/prefix.ts).
use network_monitoring.Base.{
  ℕ, zero, suc, ◌+◌, ◌-◌, ◌*◌, ◌/◌, ◌%◌, ◌^◌, Bool, false, not, ◌&&◌, ◌||◌, Option, none, some,
  List, [], ◌∷◌, ◌++◌, ltb, leb, nat_beq, if◌then◌else◌, length, Str, codes,
}
use network_monitoring.Intel.Address.{ipv4_to_int, int_to_ipv4, parse_cidr}
use network_monitoring.Intel.Names.{canonical_ipv6, hex_from}
use network_monitoring.Js.Decimal.{of_digits}
use network_monitoring.Js.Strings.{trim, includes, all_decimal}
use network_monitoring.Js.Text.{split, to_string, join}

pub data Prefix : Type 0 where
  v4 : (bits start end : ℕ) (text : Str) → Prefix
  v6 : (bits start end : ℕ) (text : Str) → Prefix

unfoldable pub parse_bits : Str → ℕ → Option ℕ
parse_bits text max_bits =
    if not (all_decimal text)
    then none
    else if ltb (of_digits 0 text) 1 || ltb max_bits (of_digits 0 text)
    then none
    else some (of_digits 0 text)

-- The loop over the groups, from the value of those before. The groups of a canonical address are
-- hexadecimal and below 2 ^ 16, so the shift and the disjunction are a sum.
unfoldable pub value_of_groups : ℕ → List Str → ℕ
value_of_groups value [] = value
value_of_groups value (group ∷ groups) = value_of_groups (value * 2 ^ 16 + hex_from 0 group) groups

unfoldable pub ipv6_to_big_int : Str → ℕ
ipv6_to_big_int canonical = value_of_groups 0 (split b':' canonical)

-- The groups from the `count`-th last on.
unfoldable pub groups_of : ℕ → ℕ → List Str
groups_of zero value = []
groups_of (suc count) value =
    to_string 16 (value / 2 ^ (16 * count) % 2 ^ 16) ∷ groups_of count value

unfoldable pub big_int_to_ipv6 : ℕ → Str
big_int_to_ipv6 value = join (codes ":") (groups_of 8 value)

-- The text before the first separator, and the text behind it if there is one.
unfoldable pub cut : ℕ → Str → Str × Option Str
cut separator [] = ([], none)
cut separator (c ∷ s) =
    let rest = cut separator s in if nat_beq c separator then ([], some s) else (c ∷ rest.0, rest.1)

abbrev bits_of : Option Str → ℕ → Option ℕ
bits_of none max_bits = some max_bits
bits_of (some text) max_bits = parse_bits text max_bits

unfoldable pub v6_prefix : Str → ℕ → Prefix
v6_prefix canonical bits =
    let block_size = 2 ^ (128 - bits) in
    let start = ipv6_to_big_int canonical / block_size * block_size in
    v6 bits start (start + block_size - 1) (big_int_to_ipv6 start ++ (b'/' ∷ to_string 10 bits))

unfoldable pub v4_prefix : Str → ℕ → Option Prefix
v4_prefix address bits = elim (parse_cidr (address ++ (b'/' ∷ to_string 10 bits))) [
  | none ↦ none
  | some (start, end) ↦ some (v4 bits start end (int_to_ipv4 start ++ (b'/' ∷ to_string 10 bits)))
]

unfoldable pub prefix_of : Str × Option Str → Option Prefix
prefix_of (address, bits_text) =
    if includes b':' address
    then elim (canonical_ipv6 address) [
      | none ↦ none
      | some canonical ↦ elim (bits_of bits_text 128) [
        | none ↦ none
        | some bits ↦ some (v6_prefix canonical bits)
      ]
    ]
    else elim (bits_of bits_text 32) [ none ↦ none | some bits ↦ v4_prefix address bits ]

unfoldable pub parse_prefix : Str → Option Prefix
parse_prefix value =
    let text = trim value in if nat_beq (length text) 0 then none else prefix_of (cut b'/' text)

abbrev pub is_between : ℕ → ℕ → Option ℕ → Bool
is_between start end none = false
is_between start end (some value) = leb start value && leb value end

unfoldable pub contains_text : Prefix → Str → Bool
contains_text (v4 bits start end text) trimmed =
    if includes b':' trimmed then false else is_between start end (ipv4_to_int trimmed)
contains_text (v6 bits start end text) trimmed =
    if not (includes b':' trimmed) then false else elim (canonical_ipv6 trimmed) [
      | none ↦ false
      | some canonical ↦ is_between start end (some (ipv6_to_big_int canonical))
    ]

-- A missing address is `none`; the empty text, after trimming too, is no address.
unfoldable pub prefix_contains : Prefix → Option Str → Bool
prefix_contains prefix none = false
prefix_contains prefix (some address) =
    if nat_beq (length (trim address)) 0 then false else contains_text prefix (trim address)
