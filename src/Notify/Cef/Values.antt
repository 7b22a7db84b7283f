-- ===== src/Notify/Cef/Values.antt =====
-- A reader of CEF values, and what it reads from an escaped text (api/src/notify/cef.ts).
use network_monitoring.Base.{
  ℕ, suc, ◌≡◌, refl, ◌≢◌, ap, ◌∙◌, Option, none, some, [], ◌∷◌, ◌++◌, arith, nat_beq, nat_beq_iff,
  if◌then◌else◌, Str, All, Bool-cases, inl, inr, length, take, ◌⊎◌, sym,
}
use network_monitoring.Js.Replace.{
  replace_all, replace_line_ends, replace_line_ends-other, replace_line_ends-apart,
}
use network_monitoring.Notify.Cef.{backslash, escape_extension, evidence_value, stringify_evidence}
use network_monitoring.Detect.Finding.{text}

abbrev push : ℕ → Option Str → Option Str
push c none = none
push c (some value) = some (c ∷ value)

-- A backslash makes the next unit plain; a bare `=` would begin another field, and a backslash at the
-- end would reach for what follows the value.
unfoldable pub read_value : Str → Option Str
read_value [] = some []
read_value (c ∷ []) =
    if nat_beq c backslash then none else if nat_beq c b'=' then none else some (c ∷ [])
read_value (c ∷ d ∷ s) =
    let escaped = push d (read_value s) in
    let plain = push c (read_value (d ∷ s)) in
    if nat_beq c backslash then escaped else if nat_beq c b'=' then none else plain

-- Line ends as the spaces that they become.
unfoldable pub joined_lines : Str → Str
joined_lines value = replace_all 13 (32 ∷ []) (replace_all 10 (32 ∷ []) (replace_line_ends value))

abbrev escaped_marks : Str → Str
escaped_marks value =
    replace_all b'=' (backslash ∷ b'=' ∷ [])
      (replace_all backslash (backslash ∷ backslash ∷ []) value)

abbrev line_unit : ℕ → ℕ
line_unit c = if nat_beq c 10 then 32 else if nat_beq c 13 then 32 else c

abbrev spaced : Str → Str
spaced value = replace_all 13 (32 ∷ []) (replace_all 10 (32 ∷ []) value)

escaped_marks-plain :
    (c : ℕ) (s : Str) → c ≢ backslash → c ≢ b'=' → escaped_marks (c ∷ s) ≡ c ∷ escaped_marks s
unfolding replace_all
escaped_marks-plain c s h k = ground (arith, h, k)

-- A mark stays a mark behind its backslash.
escape_extension-backslash :
    (s : Str) → escape_extension (backslash ∷ s) ≡ backslash ∷ backslash ∷ escape_extension s
unfolding escape_extension replace_all
escape_extension-backslash s = ap spaced (
    replace_line_ends-other backslash (backslash ∷ escaped_marks s) (omega arith)
    ∙ ap (λ x. backslash ∷ x) (replace_line_ends-other backslash (escaped_marks s) (omega arith)))

escape_extension-equals :
    (s : Str) → escape_extension (b'=' ∷ s) ≡ backslash ∷ b'=' ∷ escape_extension s
unfolding escape_extension replace_all
escape_extension-equals s = ap spaced (
    replace_line_ends-other backslash (b'=' ∷ escaped_marks s) (omega arith)
    ∙ ap (λ x. backslash ∷ x) (replace_line_ends-other b'=' (escaped_marks s) (omega arith)))

escape_extension-pair : (s : Str) → escape_extension (13 ∷ 10 ∷ s) ≡ 32 ∷ escape_extension s
unfolding escape_extension replace_all replace_line_ends
escape_extension-pair s = refl

spaced-cons : (c : ℕ) (s : Str) → spaced (c ∷ s) ≡ line_unit c ∷ spaced s
unfolding replace_all
spaced-cons c s = ground arith

escape_extension-plain :
    (c : ℕ) (s : Str)
    → c ≢ backslash
    → c ≢ b'='
    → c ≢ 13
    → escape_extension (c ∷ s) ≡ line_unit c ∷ escape_extension s
unfolding escape_extension
escape_extension-plain c s h k l =
    ap (λ x. spaced (replace_line_ends x)) (escaped_marks-plain c s h k)
    ∙ ap spaced (replace_line_ends-other c (escaped_marks s) l)
    ∙ spaced-cons c (replace_line_ends (escaped_marks s))

-- The text that follows a return does not begin with the other half of a line's end.
escaped_marks-return :
    (d : ℕ) (s : Str)
    → d ≢ 10
    → replace_line_ends (13 ∷ escaped_marks (d ∷ s))
      ≡ 13 ∷ replace_line_ends (escaped_marks (d ∷ s))
unfolding replace_all
escaped_marks-return d s h = ground (
  arith,
  h,
  replace_line_ends-apart 13 backslash (backslash ∷ escaped_marks s),
  replace_line_ends-apart 13 backslash (b'=' ∷ escaped_marks s),
  replace_line_ends-apart 13 d (escaped_marks s),
)

escape_extension-return :
    (d : ℕ) (s : Str) → d ≢ 10 → escape_extension (13 ∷ d ∷ s) ≡ 32 ∷ escape_extension (d ∷ s)
unfolding escape_extension replace_all
escape_extension-return d s h =
    ap spaced (escaped_marks-return d s h)
    ∙ spaced-cons 13 (replace_line_ends (escaped_marks (d ∷ s)))

joined_lines-other :
    (c : ℕ) (s : Str) → c ≢ 13 → joined_lines (c ∷ s) ≡ line_unit c ∷ joined_lines s
unfolding joined_lines
joined_lines-other c s h =
    ap spaced (replace_line_ends-other c s h) ∙ spaced-cons c (replace_line_ends s)

joined_lines-return :
    (d : ℕ) (s : Str) → d ≢ 10 → joined_lines (13 ∷ d ∷ s) ≡ 32 ∷ joined_lines (d ∷ s)
unfolding joined_lines
joined_lines-return d s h =
    ap spaced (replace_line_ends-apart 13 d s h) ∙ spaced-cons 13 (replace_line_ends (d ∷ s))

read_value-plain :
    (c : ℕ) (s : Str) → c ≢ backslash → c ≢ b'=' → read_value (c ∷ s) ≡ push c (read_value s)
unfolding read_value
read_value-plain c [] h k = ground (arith, h, k)
read_value-plain c (d ∷ s) h k = ground (arith, h, k)

-- A unit that does not begin the end of a line.
read_value-unit :
    (c : ℕ) (s : Str)
    → c ≢ 13
    → read_value (escape_extension s) ≡ some (joined_lines s)
    → read_value (escape_extension (c ∷ s)) ≡ some (joined_lines (c ∷ s))
unfolding read_value
read_value-unit c s h e = elim (Bool-cases (nat_beq c backslash)) [
  | inl slash ↦ rw ((nat_beq_iff c backslash).0 slash) (
      ap read_value (escape_extension-backslash s)
      ∙ ap (push backslash) e
      ∙ ap some (sym (joined_lines-other backslash s (omega arith))))
  | inr other ↦ elim (Bool-cases (nat_beq c b'=')) [
    | inl equals ↦ rw ((nat_beq_iff c b'=').0 equals) (
        ap read_value (escape_extension-equals s)
        ∙ ap (push b'=') e
        ∙ ap some (sym (joined_lines-other b'=' s (omega arith))))
    | inr plain ↦
        ap read_value (escape_extension-plain c s (ground (arith, other)) (ground (arith, plain)) h)
        ∙ read_value-plain (line_unit c) (escape_extension s) (ground (arith, other))
            (ground (arith, plain))
        ∙ ap (push (line_unit c)) e
        ∙ ap some (sym (joined_lines-other c s h))
  ]
]

read_value-empty : read_value (escape_extension []) ≡ some (joined_lines [])
unfolding read_value escape_extension joined_lines replace_all replace_line_ends
read_value-empty = refl

read_value-last_return : read_value (escape_extension (13 ∷ [])) ≡ some (joined_lines (13 ∷ []))
unfolding read_value escape_extension joined_lines replace_all replace_line_ends
read_value-last_return = refl

joined_lines-pair : (s : Str) → joined_lines (13 ∷ 10 ∷ s) ≡ 32 ∷ joined_lines s
unfolding joined_lines replace_all replace_line_ends
joined_lines-pair s = refl

-- An escaped value is read back, on one line: it has no bare `=` and no backslash at its end.
pub read_value-escape_extension :
    (value : Str) → read_value (escape_extension value) ≡ some (joined_lines value)
read_value-escape_extension [] = read_value-empty
read_value-escape_extension (c ∷ []) = elim (Bool-cases (nat_beq c 13)) [
  | inl return ↦ rw ((nat_beq_iff c 13).0 return) read_value-last_return
  | inr other ↦ read_value-unit c [] (ground (arith, other)) read_value-empty
]
read_value-escape_extension (c ∷ d ∷ s) = elim (Bool-cases (nat_beq c 13)) [
  | inr other ↦
      read_value-unit c (d ∷ s) (ground (arith, other)) (read_value-escape_extension (d ∷ s))
  | inl return ↦ rw ((nat_beq_iff c 13).0 return) (elim (Bool-cases (nat_beq d 10)) [
    | inl feed ↦ rw ((nat_beq_iff d 10).0 feed) (
        ap read_value (escape_extension-pair s)
        ∙ read_value-plain 32 (escape_extension s) (omega arith) (omega arith)
        ∙ ap (push 32) (read_value-escape_extension s)
        ∙ ap some (sym (joined_lines-pair s)))
    | inr apart ↦
        ap read_value (escape_extension-return d s (ground (arith, apart)))
        ∙ read_value-plain 32 (escape_extension (d ∷ s)) (omega arith) (omega arith)
        ∙ ap (push 32) (read_value-escape_extension (d ∷ s))
        ∙ ap some (sym (joined_lines-return d s (ground (arith, apart))))
  ])
]

abbrev pub IsUnmarked : Str → Type 0
IsUnmarked = All (λ c. (c ≢ backslash) × (c ≢ b'=') × (c ≢ 13))

read_value-cut :
    (value : Str) (c : ℕ) (rest : Str)
    → IsUnmarked value
    → (c ≡ backslash) ⊎ (c ≡ b'=')
    → read_value (take (suc (length value)) (escape_extension (value ++ (c ∷ rest)))) ≡ none
unfolding read_value
read_value-cut [] c rest h (inl slash) = rw (slash, escape_extension-backslash rest) refl
read_value-cut [] c rest h (inr equals) = rw (equals, escape_extension-equals rest) refl
read_value-cut (d ∷ value) c rest h mark =
    rw (escape_extension-plain d (value ++ (c ∷ rest)) h.0.0 h.0.1 h.0.2) (
      read_value-plain (line_unit d)
        (take (suc (length value)) (escape_extension (value ++ (c ∷ rest)))) (ground (arith, h.0))
        (ground (arith, h.0))
      ∙ ap (push (line_unit d)) (read_value-cut value c rest h.1 mark))

-- The limit is applied after the escapes. Where the last unit within it is the backslash of an escape,
-- the value that is sent ends with that backslash alone, which escapes what follows the value: a text of
-- 1022 units that need no escape, followed by a backslash or an equals sign, is such a value.
pub read_value-evidence_value :
    (value : Str) (c : ℕ) (rest : Str)
    → length value ≡ 1022
    → IsUnmarked value
    → (c ≡ backslash) ⊎ (c ≡ b'=')
    → read_value (evidence_value (text (value ++ (c ∷ rest)))) ≡ none
unfolding stringify_evidence
read_value-evidence_value value c rest size h mark =
    let limit : 1_023 ≡ suc (length value) = omega (arith, size) in
    ap (λ n. read_value (take n (escape_extension (value ++ (c ∷ rest))))) limit
    ∙ read_value-cut value c rest h mark
