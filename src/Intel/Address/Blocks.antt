-- ===== src/Intel/Address/Blocks.antt =====
-- The block of addresses of a CIDR prefix (api/src/intel/match.ts, `parseCidr`).
use network_monitoring.Base.{
  ℕ, zero, suc, ◌+◌, ◌-◌, ◌*◌, ◌/◌, ◌^◌, ◌≤◌, ◌≡◌, ◌↔◌, subst, if◌then◌else◌, Bool, arith, Str,
  List, [], ◌∷◌, some, none, ltb, nat_beq, not, ◌||◌, length, true, false, Option,
}
use network_monitoring.Intel.Address.{block, masked, parse_cidr, ipv4_to_int, cidr_of}
use network_monitoring.Js.Decimal.{of_digits}
use network_monitoring.Js.Strings.{trim, all_decimal}
use network_monitoring.Js.Text.{split}
use native.Mathlib.Nat.{le-div_iff_mul-le, div-lt_iff_lt-mul}

pub power_pos : (k : ℕ) → 1 ≤ 2 ^ k
power_pos zero = omega arith
power_pos (suc k) = omega (arith, power_pos k)

-- For a block of `size` addresses: the same quotient is the same range.
pub same_quotient :
    (size base x : ℕ)
    → 1 ≤ size
    → ((base / size * size ≤ x) × (x ≤ base / size * size + (size - 1))) ↔ (x / size ≡ base / size)
same_quotient size base x h = ground (
  arith,
  le-div_iff_mul-le {k = size} {x = base / size} {y = x} h,
  div-lt_iff_lt-mul {k = size} {x = x} {y = base / size + 1} h,
)

-- An address is in the block of a prefix exactly if its leading bits are those of the prefix.
pub block-bits :
    (base bits x : ℕ)
    → (((block base bits).0 ≤ x) × (x ≤ (block base bits).1))
      ↔ (x / 2 ^ (32 - bits) ≡ base / 2 ^ (32 - bits))
unfolding block
block-bits base bits x = same_quotient (2 ^ (32 - bits)) base x (power_pos (32 - bits))

-- No block is empty.
pub block-ordered : (base bits : ℕ) → (block base bits).0 ≤ (block base bits).1
unfolding block
block-ordered base bits = omega arith

-- A range that is there is not empty.
abbrev IsProper : Option (ℕ × ℕ) → Type 0
IsProper none = Unit
IsProper (some (start, end)) = start ≤ end

unless-IsProper :
    (test : Bool) (range : Option (ℕ × ℕ))
    → IsProper range
    → IsProper (if test then none else range)
unless-IsProper true range h = tt
unless-IsProper false range h = h

blocked-IsProper :
    (bits : ℕ) (base : Option ℕ)
    → IsProper (elim base [ none ↦ none | some address ↦ some (block address bits) ])
blocked-IsProper bits none = tt
blocked-IsProper bits (some base) = block-ordered base bits

masked-IsProper : (network bits_raw : Str) → IsProper (masked network bits_raw)
unfolding masked
masked-IsProper network bits_raw =
    unless-IsProper (nat_beq (length network) 0 || not (all_decimal bits_raw)) _ (
      unless-IsProper (ltb 32 (of_digits 0 bits_raw)) _
        (blocked-IsProper (of_digits 0 bits_raw) (ipv4_to_int network)))

cidr_of-IsProper : (parts : List Str) → IsProper (cidr_of parts)
cidr_of-IsProper [] = tt
cidr_of-IsProper (network ∷ []) = tt
cidr_of-IsProper (network ∷ bits_raw ∷ rest) = masked-IsProper network bits_raw

-- The range of a prefix is not empty.
pub parse_cidr-ordered :
    (cidr : Str) (start end : ℕ) → parse_cidr cidr ≡ some (start, end) → start ≤ end
unfolding parse_cidr
parse_cidr-ordered cidr start end e = subst IsProper e (cidr_of-IsProper (split b'/' (trim cidr)))
