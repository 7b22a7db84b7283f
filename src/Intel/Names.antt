-- ===== src/Intel/Names.antt =====
-- IPv6 addresses and domain names in the form that indicators are compared in
-- (api/src/intel/match.ts, `canonicalIpv6`, `isNonRoutableV6`, `normalizeDomain`).
use network_monitoring.Base.{
  ℕ, ◌+◌, ◌-◌, ◌*◌, ◌/◌, ◌%◌, ◌^◌, Bool, true, false, not, ◌&&◌, ◌||◌, Option, none, some, List, [],
  ◌∷◌, ◌++◌, ltb, leb, nat_beq, if◌then◌else◌, length, replicate, Str, codes, ◌==◌, list_eq, nat_eq,
}
use network_monitoring.Js.Strings.{trim, lower, includes, every, is_decimal, is_letter}
use network_monitoring.Js.Text.{split, join}

abbrev is_hex : ℕ → Bool
is_hex c = is_decimal c || (leb b'a' c && leb c b'f')

-- `value.split('::')`, from left to right.
unfoldable pub split_elision : Str → Str → List Str
split_elision part [] = part ∷ []
split_elision part (c ∷ []) = (part ++ (c ∷ [])) ∷ []
split_elision part (c ∷ d ∷ s) =
    let closed = part ∷ split_elision [] s in
    let longer = split_elision (part ++ (c ∷ [])) (d ∷ s) in
    if nat_beq c b':' && nat_beq d b':' then closed else longer

unfoldable pub has_empty : List Str → Bool
has_empty [] = false
has_empty (group ∷ groups) = nat_beq (length group) 0 || has_empty groups

unfoldable pub split_half : Str → Option (List Str)
split_half half =
    if nat_beq (length half) 0
    then some []
    else if has_empty (split b':' half)
    then none
    else some (split b':' half)

-- The eight groups: with an elision, zeros for the groups that are missing, one at least.
unfoldable pub expand : List Str → Option (List Str)
expand [] = none
expand (whole ∷ []) = split_half whole
expand (before ∷ after ∷ []) = elim (split_half before) [
  | none ↦ none
  | some head ↦ elim (split_half after) [
    | none ↦ none
    | some tail ↦
        if ltb (length head + length tail) 8
        then some (head ++ (replicate (8 - length head - length tail) (codes "0") ++ tail))
        else none
  ]
]
expand (a ∷ b ∷ c ∷ rest) = none

unfoldable pub drop_zeros : Str → Str
drop_zeros [] = []
drop_zeros (c ∷ s) = let rest = drop_zeros s in if nat_beq c b'0' then rest else c ∷ s

abbrev or_zero : Str → Str
or_zero [] = codes "0"
or_zero (c ∷ s) = c ∷ s

unfoldable pub normalize_groups : List Str → Option (List Str)
normalize_groups [] = some []
normalize_groups (group ∷ groups) =
    if nat_beq (length group) 0 || ltb 4 (length group)
    then none
    else elim (normalize_groups groups) [
      | none ↦ none
      | some rest ↦ some (or_zero (drop_zeros group) ∷ rest)
    ]

abbrev eight_groups : List Str → Option Str
eight_groups groups =
    if not (nat_beq (length groups) 8) then none else elim (normalize_groups groups) [
      | none ↦ none
      | some normalized ↦ some (join (codes ":") normalized)
    ]

unfoldable pub canonical_ipv6 : Str → Option Str
canonical_ipv6 address =
    let value = lower (trim address) in
    if nat_beq (length value) 0 || not (includes b':' value)
    then none
    else if includes b'.' value || includes b'%' value
    then none
    else if not (every (λ c. is_hex c || nat_beq c b':') value)
    then none
    else elim (expand (split_elision [] value)) [ none ↦ none | some groups ↦ eight_groups groups ]

abbrev hex_value : ℕ → ℕ
hex_value c = if is_decimal c then c - b'0' else c - 87

-- The value of the leading hexadecimal digits after `acc`.
unfoldable pub hex_from : ℕ → Str → ℕ
hex_from acc [] = acc
hex_from acc (c ∷ s) =
    let longer = hex_from (acc * 16 + hex_value c) s in if is_hex c then longer else acc

-- `Number.parseInt(s, 16)` on text without a sign, a space or the prefix 0x, which a canonical
-- address does not hold; NaN is `none`.
unfoldable pub parse_hex : Str → Option ℕ
parse_hex [] = none
parse_hex (c ∷ s) = if is_hex c then some (hex_from 0 (c ∷ s)) else none

abbrev first_part : List Str → Str
first_part [] = []
first_part (part ∷ parts) = part

-- `(first & mask) === prefix` for a mask that clears the bits below `size`.
abbrev has_prefix : ℕ → ℕ → ℕ → Bool
has_prefix first size prefix = nat_beq (first % 2 ^ 16 / size * size) prefix

unfoldable pub is_non_routable_v6 : Str → Bool
is_non_routable_v6 canonical =
    if canonical == codes "0:0:0:0:0:0:0:0"
    then true
    else if canonical == codes "0:0:0:0:0:0:0:1"
    then true
    else elim (parse_hex (first_part (split b':' canonical))) [
      | none ↦ false
      | some first ↦
          has_prefix first 0x40 0xfe80
          || (has_prefix first 0x200 0xfc00 || has_prefix first 0x100 0xff00)
    ]

-- `s.replace(/\.$/, '')`
unfoldable pub drop_last_dot : Str → Str
drop_last_dot [] = []
drop_last_dot (c ∷ []) = if nat_beq c b'.' then [] else c ∷ []
drop_last_dot (c ∷ d ∷ s) = c ∷ drop_last_dot (d ∷ s)

abbrev last_part : List Str → Str
last_part [] = []
last_part (part ∷ []) = part
last_part (part ∷ next ∷ parts) = last_part (next ∷ parts)

-- `/^[a-z][a-z0-9-]*$/`
abbrev is_top_level : Str → Bool
is_top_level [] = false
is_top_level (c ∷ s) = is_letter c && every (λ d. is_letter d || (is_decimal d || nat_beq d b'-')) s

abbrev is_name_unit : ℕ → Bool
is_name_unit c =
    is_letter c || (is_decimal c || (nat_beq c b'.' || (nat_beq c b'_' || nat_beq c b'-')))

unfoldable pub normalize_domain : Str → Option Str
normalize_domain name =
    let trimmed = drop_last_dot (lower (trim name)) in
    if nat_beq (length trimmed) 0 || ltb 253 (length trimmed)
    then none
    else if not (includes b'.' trimmed)
    then none
    else if not (every is_name_unit trimmed)
    then none
    else if not (is_top_level (last_part (split b'.' trimmed)))
    then none
    else some trimmed
