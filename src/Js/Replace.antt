-- ===== src/Js/Replace.antt =====
-- `replaceAll` of one code unit, and of the pair that ends a line.
use network_monitoring.Base.{
  ℕ, ◌≡◌, refl, ◌≢◌, ◌&&◌, [], ◌∷◌, ◌++◌, arith, nat_beq, nat_beq_iff, if◌then◌else◌, Str, All,
  All-append, Bool-cases, inl, inr,
}

-- `s.replaceAll(unit, text)`
unfoldable pub replace_all : ℕ → Str → Str → Str
replace_all unit text [] = []
replace_all unit text (c ∷ s) = (if nat_beq c unit then text else c ∷ []) ++ replace_all unit text s

-- `s.replaceAll('\r\n', ' ')`
unfoldable pub replace_line_ends : Str → Str
replace_line_ends [] = []
replace_line_ends (c ∷ []) = c ∷ []
replace_line_ends (c ∷ d ∷ s) =
    let joined = 32 ∷ replace_line_ends s in
    let apart = c ∷ replace_line_ends (d ∷ s) in
    if nat_beq c 13 && nat_beq d 10 then joined else apart

pub replace_line_ends-other :
    (c : ℕ) (s : Str) → c ≢ 13 → replace_line_ends (c ∷ s) ≡ c ∷ replace_line_ends s
unfolding replace_line_ends
replace_line_ends-other c [] h = refl
replace_line_ends-other c (d ∷ s) h = ground (arith, h)

pub replace_line_ends-apart :
    (c d : ℕ) (s : Str) → d ≢ 10 → replace_line_ends (c ∷ d ∷ s) ≡ c ∷ replace_line_ends (d ∷ s)
unfolding replace_line_ends
replace_line_ends-apart c d s h = ground (arith, h)

-- A property of all units survives, if the text that is put in has it.
pub All-replace_all {ℓ} :
    (P : ℕ → Type ℓ) (unit : ℕ) (text s : Str)
    → All P text
    → All P s
    → All P (replace_all unit text s)
unfolding replace_all
All-replace_all P unit text [] h k = tt
All-replace_all P unit text (c ∷ s) h k = elim (Bool-cases (nat_beq c unit)) [
  | inl same ↦ rw same (All-append P text _ h (All-replace_all P unit text s h k.1))
  | inr other ↦ rw other (k.0, All-replace_all P unit text s h k.1)
]

-- What is replaced is gone, unless the text puts it back.
pub replace_all-gone :
    (unit : ℕ) (text s : Str)
    → All (λ c. c ≢ unit) text
    → All (λ c. c ≢ unit) (replace_all unit text s)
unfolding replace_all
replace_all-gone unit text [] h = tt
replace_all-gone unit text (c ∷ s) h = elim (Bool-cases (nat_beq c unit)) [
  | inl same ↦ rw same (All-append (λ x. x ≢ unit) text _ h (replace_all-gone unit text s h))
  | inr other ↦ rw other (ground (arith, nat_beq_iff c unit, other), replace_all-gone unit text s h)
]
