-- ===== src/Js/Strings.antt =====
-- Operations on strings: trimming, case, search, and what `split` undoes of `join`.
use network_monitoring.Base.{
  ℕ, ◌+◌, ◌≡◌, refl, ap, ◌∙◌, Bool, true, false, not, ◌&&◌, ◌||◌, List, [], ◌∷◌, ◌++◌, arith, leb,
  nat_beq, if◌then◌else◌, length, All, Str, ◌≢◌, nat_beq_iff, All-append,
}
use mathlib.Core.List.{append-nil, append_assoc}
use network_monitoring.Js.Text.{join, split, split_from}

-- The white space that `trim` removes.
unfoldable pub is_space : ℕ → Bool
is_space c =
    (leb 9 c && leb c 13)
    || (nat_beq c 32
        || (nat_beq c 0xa0
            || (nat_beq c 0x1680
                || ((leb 0x2000 c && leb c 0x200a)
                    || (nat_beq c 0x2028
                        || (nat_beq c 0x2029
                            || (nat_beq c 0x202f
                                || (nat_beq c 0x205f
                                    || (nat_beq c 0x3000 || nat_beq c 0xfeff)))))))))

abbrev is_empty : Str → Bool
is_empty [] = true
is_empty (c ∷ s) = false

unfoldable pub trim_start : Str → Str
trim_start [] = []
trim_start (c ∷ s) = let rest = trim_start s in if is_space c then rest else c ∷ s

unfoldable pub trim_end : Str → Str
trim_end [] = []
trim_end (c ∷ s) = let rest = trim_end s in if is_space c && is_empty rest then [] else c ∷ rest

-- `s.trim()`
unfoldable pub trim : Str → Str
trim s = trim_end (trim_start s)

-- `toLowerCase` on one code unit: the letters of ASCII, and the Kelvin sign, whose lower case is
-- the letter k. The lower case of any other code unit lies outside ASCII with the code unit.
abbrev pub lower_unit : ℕ → ℕ
lower_unit c = if leb b'A' c && leb c b'Z' then c + 32 else if nat_beq c 0x212a then b'k' else c

unfoldable pub lower : Str → Str
lower [] = []
lower (c ∷ s) = lower_unit c ∷ lower s

-- `s.includes(separator)` at one code unit.
unfoldable pub includes : ℕ → Str → Bool
includes separator [] = false
includes separator (c ∷ s) = nat_beq c separator || includes separator s

unfoldable pub every : (ℕ → Bool) → Str → Bool
every test [] = true
every test (c ∷ s) = test c && every test s

abbrev pub is_decimal : ℕ → Bool
is_decimal c = leb b'0' c && leb c b'9'

abbrev pub is_letter : ℕ → Bool
is_letter c = leb b'a' c && leb c b'z'

-- `/^\d+$/.test(s)`
unfoldable pub all_decimal : Str → Bool
all_decimal s = not (nat_beq (length s) 0) && every is_decimal s

-- No code unit of `s` is the separator.
abbrev pub IsFree : ℕ → Str → Type 0
IsFree separator s = All (λ c. c ≢ separator) s

split_from-free :
    (separator : ℕ) (part s : Str)
    → IsFree separator s
    → split_from separator part s ≡ (part ++ s) ∷ []
unfolding split_from
split_from-free separator part [] h = rw (append-nil part) refl
split_from-free separator part (c ∷ s) h = ground (
  arith,
  h.0,
  nat_beq_iff c separator,
  split_from-free separator (part ++ c ∷ []) s h.1,
  append_assoc part (c ∷ []) s,
)

split_from-part :
    (separator : ℕ) (part s rest : Str)
    → IsFree separator s
    → split_from separator part (s ++ (separator ∷ rest))
      ≡ (part ++ s) ∷ split_from separator [] rest
unfolding split_from
split_from-part separator part [] rest h =
    ground (arith, nat_beq_iff separator separator, append-nil part)
split_from-part separator part (c ∷ s) rest h = ground (
  arith,
  h.0,
  nat_beq_iff c separator,
  split_from-part separator (part ++ c ∷ []) s rest h.1,
  append_assoc part (c ∷ []) s,
)

-- Parts without the separator are read back from their join.
pub split-join :
    (separator : ℕ) (part : Str) (parts : List Str)
    → All (IsFree separator) (part ∷ parts)
    → split separator (join (separator ∷ []) (part ∷ parts)) ≡ part ∷ parts
unfolding split join
split-join separator part [] h = split_from-free separator [] part h.0
split-join separator part (next ∷ parts) h =
    rw (append_assoc part (separator ∷ []) (join (separator ∷ []) (next ∷ parts))) (
      split_from-part separator [] part (join (separator ∷ []) (next ∷ parts)) h.0
      ∙ ap (λ rest. part ∷ rest) (split-join separator next parts h.1))

pub All-join {ℓ} :
    (P : ℕ → Type ℓ) (separator : Str) (parts : List Str)
    → All P separator
    → All (All P) parts
    → All P (join separator parts)
unfolding join
All-join P separator [] h k = tt
All-join P separator (part ∷ []) h k = k.0
All-join P separator (part ∷ next ∷ parts) h k =
    All-append P (part ++ separator) _ (All-append P part separator k.0 h)
      (All-join P separator (next ∷ parts) h k.1)

pub includes-IsFree : (separator : ℕ) (s : Str) → IsFree separator s → includes separator s ≡ false
unfolding includes
includes-IsFree separator [] h = refl
includes-IsFree separator (c ∷ s) h =
    ground (arith, h.0, nat_beq_iff c separator, includes-IsFree separator s h.1)

trim_start-no_space : (s : Str) → All (λ c. is_space c ≡ false) s → trim_start s ≡ s
unfolding trim_start
trim_start-no_space [] h = refl
trim_start-no_space (c ∷ s) h = rw h.0 refl

trim_end-no_space : (s : Str) → All (λ c. is_space c ≡ false) s → trim_end s ≡ s
unfolding trim_end
trim_end-no_space [] h = refl
trim_end-no_space (c ∷ s) h = rw h.0 (ap (λ rest. c ∷ rest) (trim_end-no_space s h.1))

-- Text without white space is not trimmed.
pub trim-no_space : (s : Str) → All (λ c. is_space c ≡ false) s → trim s ≡ s
unfolding trim
trim-no_space s h = ap trim_end (trim_start-no_space s h) ∙ trim_end-no_space s h
