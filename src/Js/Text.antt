-- ===== src/Js/Text.antt =====
-- Text: a number in a radix, padding and joining.
use network_monitoring.Base.{
  ℕ, zero, suc, ◌+◌, ◌-◌, ◌/◌, ◌%◌, true, false, List, [], ◌∷◌, ◌++◌, ltb, nat_beq, if◌then◌else◌,
  length, replicate, Str,
}

unfoldable pub digit : ℕ → ℕ
digit d = if ltb d 10 then b'0' + d else b'a' + (d - 10)

-- The fuel is one more than the number, which falls with each digit.
unfoldable pub to_string_from : ℕ → ℕ → ℕ → Str → Str
to_string_from zero radix n acc = acc
to_string_from (suc fuel) radix n acc = elim (ltb n radix) [
  | true ↦ digit n ∷ acc
  | false ↦ to_string_from fuel radix (n / radix) (digit (n % radix) ∷ acc)
]

-- `n.toString(radix)`
unfoldable pub to_string : ℕ → ℕ → Str
to_string radix n = to_string_from (suc n) radix n []

-- `s.padStart(width, '0')`
unfoldable pub pad_start : ℕ → Str → Str
pad_start width s = replicate (width - length s) b'0' ++ s

-- `parts.join(separator)`
unfoldable pub join : Str → List Str → Str
join separator [] = []
join separator (s ∷ []) = s
join separator (s ∷ s' ∷ rest) = s ++ separator ++ join separator (s' ∷ rest)

-- `text.split(separator)` at one code unit: one part more than there are separators.
unfoldable pub split_from : ℕ → Str → Str → List Str
split_from separator part [] = part ∷ []
split_from separator part (c ∷ s) =
    let closed = part ∷ split_from separator [] s in
    let longer = split_from separator (part ++ c ∷ []) s in
    if nat_beq c separator then closed else longer

unfoldable pub split : ℕ → Str → List Str
unfolding split_from
split separator s = split_from separator [] s
