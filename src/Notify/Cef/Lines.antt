-- ===== src/Notify/Cef/Lines.antt =====
-- The lines of a rendered finding (api/src/notify/cef.ts).
use network_monitoring.Base.{
  ℕ, ◌+◌, ◌≢◌, Bool, Option, none, some, List, [], ◌∷◌, ◌++◌, arith, nat_beq, Str, codes, All,
  All-append, All-take, Bool-cases, inl, inr, length,
}
use network_monitoring.Detect.Finding.{Value}
use network_monitoring.Js.Decimal.{IsDigit, to_string-digits}
use network_monitoring.Js.Replace.{replace_all, All-replace_all, replace_all-gone}
use network_monitoring.Js.Strings.{All-join}
use network_monitoring.Js.Text.{to_string}
use network_monitoring.Notify.Cef.{
  escape_header, escape_extension, slots, evidence_extensions, address_field, extensions,
  header_fields, render_cef, stringify_evidence,
}
use network_monitoring.Notify.Types.{NotifiableFinding}

-- Neither unit of a line's end.
abbrev pub IsInline : ℕ → Type 0
IsInline c = (c ≢ 10) × (c ≢ 13)

abbrev pub IsOneLine : Str → Type 0
IsOneLine = All IsInline

All-both : (s : Str) → All (λ c. c ≢ 10) s → All (λ c. c ≢ 13) s → IsOneLine s
All-both [] h k = tt
All-both (c ∷ s) h k = ((h.0, k.0), All-both s h.1 k.1)

-- The last two replacements put spaces for line ends.
spaced-IsOneLine : (s : Str) → IsOneLine (replace_all 13 (32 ∷ []) (replace_all 10 (32 ∷ []) s))
spaced-IsOneLine s =
    All-both _
      (All-replace_all (λ c. c ≢ 10) 13 (32 ∷ []) _ (omega arith)
        (replace_all-gone 10 (32 ∷ []) s (omega arith)))
      (replace_all-gone 13 (32 ∷ []) _ (omega arith))

escape_header-IsOneLine : (s : Str) → IsOneLine (escape_header s)
unfolding escape_header
escape_header-IsOneLine s = spaced-IsOneLine _

escape_extension-IsOneLine : (s : Str) → IsOneLine (escape_extension s)
unfolding escape_extension
escape_extension-IsOneLine s = spaced-IsOneLine _

digits-IsOneLine : (s : Str) → All IsDigit s → IsOneLine s
digits-IsOneLine [] h = tt
digits-IsOneLine (c ∷ s) h = ((omega (arith, h.0), omega (arith, h.0)), digits-IsOneLine s h.1)

to_string-IsOneLine : (n : ℕ) → IsOneLine (to_string 10 n)
to_string-IsOneLine n = digits-IsOneLine _ (to_string-digits n)

field-IsOneLine : (key value : Str) → IsOneLine key → IsOneLine value → IsOneLine (key ++ value)
field-IsOneLine key value h k = All-append IsInline key value h k

slots-IsOneLine : (slot : ℕ) (entries : List (Str × Value)) → All IsOneLine (slots slot entries)
unfolding slots
slots-IsOneLine slot [] = tt
slots-IsOneLine slot ((key, raw) ∷ entries) = (
  field-IsOneLine (codes "cs") _ (omega arith) (
      field-IsOneLine (to_string 10 slot) _ (to_string-IsOneLine slot)
        (field-IsOneLine (codes "Label=") _ (omega arith) (escape_extension-IsOneLine key))),
  (
    field-IsOneLine (codes "cs") _ (omega arith) (
        field-IsOneLine (to_string 10 slot) _ (to_string-IsOneLine slot) (
          field-IsOneLine (codes "=") _ (omega arith)
            (All-take IsInline 1_023 _ (escape_extension-IsOneLine (stringify_evidence raw))))),
    slots-IsOneLine (slot + 1) entries,
  ),
)

evidence_extensions-IsOneLine :
    (is_before : Str → Str → Bool) (evidence : Option (List (Str × Value)))
    → All IsOneLine (evidence_extensions is_before evidence)
unfolding evidence_extensions
evidence_extensions-IsOneLine is_before none = tt
evidence_extensions-IsOneLine is_before (some evidence) = slots-IsOneLine 1 _

address_field-IsOneLine :
    (key : Str) (address : Option Str) → IsOneLine key → All IsOneLine (address_field key address)
address_field-IsOneLine key none h = tt
address_field-IsOneLine key (some address) h = elim (Bool-cases (nat_beq (length address) 0)) [
  | inl empty ↦ rw empty tt
  | inr there ↦ rw there (field-IsOneLine key _ h (escape_extension-IsOneLine address), tt)
]

header_fields-IsOneLine :
    (product_version : Str) (finding : NotifiableFinding)
    → All IsOneLine (header_fields product_version finding)
header_fields-IsOneLine product_version finding = (
  omega arith,
  (
    escape_header-IsOneLine _,
    (
      escape_header-IsOneLine _,
      (
        escape_header-IsOneLine _,
        (escape_header-IsOneLine _, (escape_header-IsOneLine _, (to_string-IsOneLine _, tt))),
      ),
    ),
  ),
)

extensions-IsOneLine :
    (is_before : Str → Str → Bool) (finding : NotifiableFinding)
    → All IsOneLine (extensions is_before finding)
unfolding extensions
extensions-IsOneLine is_before finding = (
  field-IsOneLine (codes "rt=") _ (omega arith) (to_string-IsOneLine finding.last_seen),
  (
    field-IsOneLine (codes "start=") _ (omega arith) (to_string-IsOneLine finding.first_seen),
    (
      field-IsOneLine (codes "end=") _ (omega arith) (to_string-IsOneLine finding.last_seen),
      (
        field-IsOneLine (codes "cnt=") _ (omega arith) (to_string-IsOneLine finding.occurrences),
        (
          field-IsOneLine (codes "cat=") _ (omega arith) (escape_extension-IsOneLine _),
          (
            field-IsOneLine (codes "dvchost=") _ (omega arith) (escape_extension-IsOneLine _),
            (
              field-IsOneLine (codes "msg=") _ (omega arith) (escape_extension-IsOneLine _),
              All-append IsOneLine _ _
                  (address_field-IsOneLine (codes "src=") finding.source_ip (omega arith))
                  (All-append IsOneLine _ _
                    (address_field-IsOneLine (codes "dst=") finding.target_ip (omega arith))
                    (evidence_extensions-IsOneLine is_before finding.evidence)),
            ),
          ),
        ),
      ),
    ),
  ),
)

-- Whatever a finding holds, it is rendered as a single line: no text can begin another record.
pub render_cef-IsOneLine :
    (is_before : Str → Str → Bool) (finding : NotifiableFinding) (product_version : Str)
    → IsOneLine (render_cef is_before finding product_version)
unfolding render_cef
render_cef-IsOneLine is_before finding product_version =
    field-IsOneLine _ _
      (All-join IsInline (codes "|") _ (omega arith)
        (header_fields-IsOneLine product_version finding))
      (
        omega arith,
        All-join IsInline (codes " ") _ (omega arith) (extensions-IsOneLine is_before finding),
      )
