-- ===== src/Intel/Address.antt =====
-- IPv4 addresses as numbers, and CIDR prefixes as ranges of them (api/src/intel/match.ts,
-- `ipv4ToInt`, `isNonRoutableV4`, `parseCidr`; api/src/net/prefix.ts, `intToIpv4`).
pub mod Dotted
pub mod Blocks
pub mod Units
use network_monitoring.Base.{
  ℕ, zero, suc, ◌+◌, ◌-◌, ◌*◌, ◌/◌, ◌%◌, ◌^◌, Bool, true, false, not, ◌&&◌, ◌||◌, Option, none,
  some, List, [], ◌∷◌, ltb, leb, nat_beq, if◌then◌else◌, length, Str, codes,
}
use network_monitoring.Js.Decimal.{of_digits}
use network_monitoring.Js.Strings.{trim, all_decimal}
use network_monitoring.Js.Text.{split, to_string, join}

-- One of the four parts of a dotted address.
unfoldable pub octet : Str → Option ℕ
octet part =
    if nat_beq (length part) 0 || (ltb 3 (length part) || not (all_decimal part))
    then none
    else if ltb 255 (of_digits 0 part)
    then none
    else some (of_digits 0 part)

-- The loop over the parts, from the value of those before.
unfoldable pub octets : ℕ → List Str → Option ℕ
octets value [] = some value
octets value (part ∷ parts) = elim (octet part) [
  | none ↦ none
  | some n ↦ octets (value * 256 + n) parts
]

unfoldable pub ipv4_to_int : Str → Option ℕ
ipv4_to_int address =
    let parts = split b'.' address in
    if not (nat_beq (length parts) 4)
    then none
    else elim (octets 0 parts) [ none ↦ none | some value ↦ some (value % 2 ^ 32) ]

unfoldable pub int_to_ipv4 : ℕ → Str
int_to_ipv4 value = join (codes ".") (
    to_string 10 (value / 2 ^ 24 % 256)
    ∷ to_string 10 (value / 2 ^ 16 % 256)
    ∷ to_string 10 (value / 2 ^ 8 % 256)
    ∷ to_string 10 (value % 256)
    ∷ [])

unfoldable pub is_non_routable_v4 : ℕ → Bool
is_non_routable_v4 ip =
    let a = ip / 2 ^ 24 % 256 in
    let b = ip / 2 ^ 16 % 256 in
    if nat_beq a 0 || (nat_beq a 10 || nat_beq a 127)
    then true
    else if nat_beq a 172 && (leb 16 b && leb b 31)
    then true
    else if nat_beq a 192 && nat_beq b 168
    then true
    else if nat_beq a 169 && nat_beq b 254
    then true
    else if nat_beq a 100 && (leb 64 b && leb b 127)
    then true
    else leb 224 a

-- The addresses whose first `bits` bits are those of `base`: the mask of `bits` leading ones clears
-- the rest of a 32-bit number, and its complement sets them.
unfoldable pub block : ℕ → ℕ → ℕ × ℕ
block base bits =
    let host_size = 2 ^ (32 - bits) in
    let start = base / host_size * host_size in (start, start + (host_size - 1))

unfoldable pub masked : Str → Str → Option (ℕ × ℕ)
masked network bits_raw =
    if nat_beq (length network) 0 || not (all_decimal bits_raw)
    then none
    else let bits = of_digits 0 bits_raw in
      if ltb 32 bits
      then none
      else elim (ipv4_to_int network) [ none ↦ none | some base ↦ some (block base bits) ]

-- The first two parts of the text around a slash; without a slash the second is missing.
abbrev pub cidr_of : List Str → Option (ℕ × ℕ)
cidr_of [] = none
cidr_of (network ∷ []) = none
cidr_of (network ∷ bits_raw ∷ rest) = masked network bits_raw

unfoldable pub parse_cidr : Str → Option (ℕ × ℕ)
parse_cidr cidr = cidr_of (split b'/' (trim cidr))
