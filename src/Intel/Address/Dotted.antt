-- ===== src/Intel/Address/Dotted.antt =====
-- Dotted addresses and their numbers (api/src/intel/match.ts, api/src/packet/addresses.ts).
use network_monitoring.Base.{
  ℕ, zero, suc, ◌+◌, ◌*◌, ◌/◌, ◌%◌, ◌^◌, ◌≤◌, ◌<◌, ◌≡◌, refl, ◌∙◌, ap, true, some, List, [], ◌∷◌,
  arith, ltb, lt→ltb, Bool-cases, inl, inr, length, All, All-get_or, Str, codes,
}
use network_monitoring.Intel.Address.{octet, octets, ipv4_to_int, int_to_ipv4}
use network_monitoring.Js.Buffer.{Buffer, byte_or_zero}
use network_monitoring.Js.Decimal.{of_digits-to_string, to_string-digits, IsDigit}
use network_monitoring.Js.Strings.{every, all_decimal, IsFree, split-join, is_decimal}
use network_monitoring.Js.Text.{digit, to_string, to_string_from, join}
use network_monitoring.Packet.Addresses.{read_ipv4}

pub digits-every : (s : Str) → All IsDigit s → every is_decimal s ≡ true
unfolding every
digits-every [] h = refl
digits-every (c ∷ s) h = ground (arith, digits-every s h.1, h.0.0, h.0.1)

pub digits-IsFree : (s : Str) → All IsDigit s → IsFree 46 s
digits-IsFree [] h = tt
digits-IsFree (c ∷ s) h = ((λ e. omega arith), digits-IsFree s h.1)

-- `10 ^ k`
abbrev power : ℕ → ℕ
power zero = 1
power (suc k) = 10 * power k

length-to_string_from :
    (k fuel n : ℕ) (acc : Str)
    → n < fuel
    → n < power (suc k)
    → length (to_string_from fuel 10 n acc) ≤ suc k + length acc
unfolding to_string_from
length-to_string_from k zero n acc h b = elim h [ ]
length-to_string_from zero (suc fuel) n acc h b =
    rw (lt→ltb n 10 (omega arith), to_string_from) (omega arith)
length-to_string_from (suc k) (suc fuel) n acc h b = elim (Bool-cases (ltb n 10)) [
  | inl small ↦ rw (small, to_string_from) (omega arith)
  | inr large ↦
      rw (large, to_string_from)
        (omega (
          arith,
          length-to_string_from k fuel (n / 10) (digit (n % 10) ∷ acc) (ground arith) (omega arith),
        ))
]

pub some_digits :
    (fuel n : ℕ) (acc : Str) → n < fuel → 1 + length acc ≤ length (to_string_from fuel 10 n acc)
unfolding to_string_from
some_digits zero n acc h = elim h [ ]
some_digits (suc fuel) n acc h = elim (Bool-cases (ltb n 10)) [
  | inl small ↦ rw (small, to_string_from) (omega arith)
  | inr large ↦
      rw (large, to_string_from)
        (omega (arith, some_digits fuel (n / 10) (digit (n % 10) ∷ acc) (ground arith)))
]

octet-to_string : (d : ℕ) → d < 256 → octet (to_string 10 d) ≡ some d
unfolding octet all_decimal to_string
octet-to_string d h = ground (
  arith,
  length-to_string_from 2 (suc d) d [] (omega arith) (omega arith),
  some_digits (suc d) d [] (omega arith),
  digits-every (to_string 10 d) (to_string-digits d),
  of_digits-to_string d,
)

to_string-IsFree : (d : ℕ) → IsFree 46 (to_string 10 d)
to_string-IsFree d = digits-IsFree (to_string 10 d) (to_string-digits d)

dotted : ℕ → ℕ → ℕ → ℕ → List Str
dotted a b c d = to_string 10 a ∷ to_string 10 b ∷ to_string 10 c ∷ to_string 10 d ∷ []

octets-part :
    (value : ℕ) (part : Str) (parts : List Str) {n : ℕ}
    → octet part ≡ some n
    → octets value (part ∷ parts) ≡ octets (value * 256 + n) parts
unfolding octets
octets-part value part parts e = rw (e, octets) refl

octets-first :
    (part : Str) (parts : List Str) {n : ℕ}
    → octet part ≡ some n
    → octets 0 (part ∷ parts) ≡ octets n parts
octets-first part parts e =
    octets-part 0 part parts e ∙ ap (λ value. octets value parts) (omega arith)

octets-dotted :
    (a b c d : ℕ)
    → a < 256
    → b < 256
    → c < 256
    → d < 256
    → octets 0 (dotted a b c d) ≡ some (((a * 256 + b) * 256 + c) * 256 + d)
unfolding octets dotted
octets-dotted a b c d ha hb hc hd =
    octets-first (to_string 10 a) (to_string 10 b ∷ to_string 10 c ∷ to_string 10 d ∷ [])
      (octet-to_string a ha)
    ∙ (octets-part a (to_string 10 b) (to_string 10 c ∷ to_string 10 d ∷ []) (octet-to_string b hb)
        ∙ (octets-part (a * 256 + b) (to_string 10 c) (to_string 10 d ∷ []) (octet-to_string c hc)
            ∙ octets-part ((a * 256 + b) * 256 + c) (to_string 10 d) [] (octet-to_string d hd)))

ipv4_to_int-dotted :
    (a b c d : ℕ)
    → a < 256
    → b < 256
    → c < 256
    → d < 256
    → ipv4_to_int (join (codes ".") (dotted a b c d)) ≡ some (((a * 256 + b) * 256 + c) * 256 + d)
unfolding ipv4_to_int dotted
ipv4_to_int-dotted a b c d ha hb hc hd =
    rw
      (
        split-join 46 (to_string 10 a) (to_string 10 b ∷ to_string 10 c ∷ to_string 10 d ∷ []) (
          to_string-IsFree a,
          (to_string-IsFree b, (to_string-IsFree c, (to_string-IsFree d, tt))),
        ),
        octets-dotted a b c d ha hb hc hd,
      )
      (ap some (omega arith))

-- A 32-bit number written as a dotted address is read back.
pub ipv4_to_int-int_to_ipv4 : (n : ℕ) → n < 2 ^ 32 → ipv4_to_int (int_to_ipv4 n) ≡ some n
unfolding int_to_ipv4 dotted
ipv4_to_int-int_to_ipv4 n h =
    ipv4_to_int-dotted (n / 2 ^ 24 % 256) (n / 2 ^ 16 % 256) (n / 2 ^ 8 % 256) (n % 256)
      (omega arith) (omega arith) (omega arith) (omega arith)
    ∙ ap some (omega arith)

-- The address that the decoder reads from four bytes of a frame, in text, is the number of these
-- bytes to the matcher.
pub ipv4_to_int-read_ipv4 :
    (frame : Buffer) (offset : ℕ)
    → All (λ b. b < 256) frame
    → ipv4_to_int (read_ipv4 frame offset)
      ≡ some (
          ((byte_or_zero frame offset * 256 + byte_or_zero frame (offset + 1)) * 256
              + byte_or_zero frame (offset + 2))
            * 256
          + byte_or_zero frame (offset + 3))
unfolding read_ipv4 dotted byte_or_zero
ipv4_to_int-read_ipv4 frame offset h =
    ipv4_to_int-dotted _ _ _ _ (All-get_or (λ b. b < 256) frame offset 0 h (omega arith))
      (All-get_or (λ b. b < 256) frame (offset + 1) 0 h (omega arith))
      (All-get_or (λ b. b < 256) frame (offset + 2) 0 h (omega arith))
      (All-get_or (λ b. b < 256) frame (offset + 3) 0 h (omega arith))
