-- ===== src/Intel/Address/Units.antt =====
-- The code units of a dotted address, and prefixes read back from their text
-- (api/src/intel/match.ts, `parseCidr`).
use network_monitoring.Base.{
  ℕ, suc, ◌/◌, ◌%◌, ◌^◌, ◌≤◌, ◌<◌, ◌≡◌, ◌≢◌, ◌∙◌, ap, false, some, [], ◌∷◌, ◌++◌, arith, nat_beq,
  length, All, Str, codes, length-append, All-append, sym,
}
use mathlib.Core.List.{append_assoc}
use network_monitoring.Intel.Address.{int_to_ipv4, parse_cidr, masked, cidr_of, block}
use network_monitoring.Intel.Address.Dotted.{digits-every, some_digits, ipv4_to_int-int_to_ipv4}
use network_monitoring.Js.Decimal.{of_digits-to_string, to_string-digits}
use network_monitoring.Js.Strings.{
  is_space, includes, includes-IsFree, All-join, trim, trim-no_space, all_decimal, split-join,
}
use network_monitoring.Js.Text.{to_string, join, split}

-- A digit or a dot.
abbrev IsDotted : ℕ → Type 0
IsDotted c = (46 ≤ c) × (c ≤ 57) × (c ≢ 47)

All-weaken {ℓ κ} :
    {P : ℕ → Type ℓ} {Q : ℕ → Type κ} (s : Str) → ((c : ℕ) → P c → Q c) → All P s → All Q s
All-weaken [] f h = tt
All-weaken (c ∷ s) f h = (f c h.0, All-weaken s f h.1)

number-IsDotted : (n : ℕ) → All IsDotted (to_string 10 n)
number-IsDotted n =
    All-weaken (to_string 10 n) (λ c h. (omega (arith, h.0), h.1, λ e. omega (arith, h.0, e)))
      (to_string-digits n)

int_to_ipv4-IsDotted : (n : ℕ) → All IsDotted (int_to_ipv4 n)
unfolding int_to_ipv4
int_to_ipv4-IsDotted n =
    All-join IsDotted (codes ".") _ ((omega arith, omega arith, λ e. omega arith), tt)
      (number-IsDotted _, (number-IsDotted _, (number-IsDotted _, (number-IsDotted _, tt))))

-- The text of an address holds no colon,
pub int_to_ipv4-colon : (n : ℕ) → includes b':' (int_to_ipv4 n) ≡ false
int_to_ipv4-colon n =
    includes-IsFree 58 (int_to_ipv4 n)
      (All-weaken (int_to_ipv4 n) (λ c h e. omega (arith, h.1, e)) (int_to_ipv4-IsDotted n))

-- and is not empty.
pub int_to_ipv4-some : (n : ℕ) → nat_beq (length (int_to_ipv4 n)) 0 ≡ false
unfolding int_to_ipv4 join
int_to_ipv4-some n = ground (
  arith,
  length-append (to_string 10 (n / 2 ^ 24 % 256) ++ codes ".") (
      join (codes ".") (
        to_string 10 (n / 2 ^ 16 % 256)
        ∷ to_string 10 (n / 2 ^ 8 % 256)
        ∷ to_string 10 (n % 256)
        ∷ [])),
  length-append (to_string 10 (n / 2 ^ 24 % 256)) (codes "."),
)

no_space : (c : ℕ) → (46 ≤ c) × (c ≤ 57) → is_space c ≡ false
unfolding is_space
no_space c h = ground (arith, h.0, h.1)

pub length-to_string : (n : ℕ) → 1 ≤ length (to_string 10 n)
unfolding to_string
length-to_string n = some_digits (suc n) n [] (omega arith)

masked-print :
    (n bits : ℕ)
    → n < 2 ^ 32
    → bits ≤ 32
    → masked (int_to_ipv4 n) (to_string 10 bits) ≡ some (block n bits)
unfolding masked all_decimal
masked-print n bits h k = ground (
  arith,
  int_to_ipv4-some n,
  of_digits-to_string bits,
  digits-every (to_string 10 bits) (to_string-digits bits),
  length-to_string bits,
  ipv4_to_int-int_to_ipv4 n h,
)

printed-no_space :
    (n bits : ℕ) → All (λ c. is_space c ≡ false) (int_to_ipv4 n ++ (b'/' ∷ to_string 10 bits))
printed-no_space n bits =
    All-append (λ c. is_space c ≡ false) (int_to_ipv4 n) (b'/' ∷ to_string 10 bits)
      (All-weaken (int_to_ipv4 n) (λ c h. no_space c (h.0, h.1)) (int_to_ipv4-IsDotted n))
      (
        no_space 47 (omega arith),
        All-weaken (to_string 10 bits) (λ c h. no_space c (omega (arith, h.0), h.1))
            (to_string-digits bits),
      )

split-print :
    (n bits : ℕ)
    → split b'/' (int_to_ipv4 n ++ (b'/' ∷ to_string 10 bits))
      ≡ int_to_ipv4 n ∷ to_string 10 bits ∷ []
unfolding join
split-print n bits =
    ap (split b'/') (sym (append_assoc (int_to_ipv4 n) (b'/' ∷ []) (to_string 10 bits)))
    ∙ split-join 47 (int_to_ipv4 n) (to_string 10 bits ∷ []) (
      All-weaken (int_to_ipv4 n) (λ c h. h.2) (int_to_ipv4-IsDotted n),
      (All-weaken (to_string 10 bits) (λ c h e. omega (arith, h.0, e)) (to_string-digits bits), tt),
    )

-- A prefix written as address and length is read back as the block of its addresses.
pub parse_cidr-print :
    (n bits : ℕ)
    → n < 2 ^ 32
    → bits ≤ 32
    → parse_cidr (int_to_ipv4 n ++ (b'/' ∷ to_string 10 bits)) ≡ some (block n bits)
unfolding parse_cidr
parse_cidr-print n bits h k =
    ap (λ text. cidr_of (split b'/' text)) (trim-no_space _ (printed-no_space n bits))
    ∙ (ap cidr_of (split-print n bits) ∙ masked-print n bits h k)

pub int_to_ipv4-trim : (n : ℕ) → trim (int_to_ipv4 n) ≡ int_to_ipv4 n
int_to_ipv4-trim n =
    trim-no_space (int_to_ipv4 n)
      (All-weaken (int_to_ipv4 n) (λ c h. no_space c (h.0, h.1)) (int_to_ipv4-IsDotted n))
