-- ===== src/Notify/Cef/Headers.antt =====
-- A reader of CEF headers, and what it reads from a rendered finding (api/src/notify/cef.ts).
use network_monitoring.Base.{
  length, zero, suc, ℕ, ◌≡◌, refl, ◌≢◌, ap, ◌∙◌, Bool, Option, none, some, List, [], ◌∷◌, ◌++◌,
  arith, nat_beq, nat_beq_iff, if◌then◌else◌, Str, codes, All, Bool-cases, inl, inr,
}
use mathlib.Core.List.{append_assoc}
use network_monitoring.Detect.Finding.{
  AlertKind, Severity, critical, high, medium, low, info, arp_spoofing, port_scan, host_sweep,
  syn_flood, plaintext_credentials, dns_tunneling, new_device, threat_intel,
}
use network_monitoring.Js.Replace.{replace_all}
use network_monitoring.Js.Text.{join, to_string, to_string_from, digit}
use network_monitoring.Notify.Cef.{
  backslash, escape_header, render_cef, extensions, kind_name, cef_severity,
}
use network_monitoring.Notify.Types.{NotifiableFinding}

abbrev push : ℕ → Option (Str × Str) → Option (Str × Str)
push c none = none
push c (some (field, rest)) = some (c ∷ field, rest)

-- Reads up to a bar that no backslash precedes; a backslash makes the next unit plain.
unfoldable pub read_header_field : Str → Option (Str × Str)
read_header_field [] = none
read_header_field (c ∷ []) = if nat_beq c b'|' then some ([], []) else none
read_header_field (c ∷ d ∷ s) =
    let escaped = push d (read_header_field s) in
    let plain = push c (read_header_field (d ∷ s)) in
    if nat_beq c b'|' then some ([], d ∷ s) else if nat_beq c backslash then escaped else plain

-- So many fields, and what follows them.
unfoldable pub read_cef_header : ℕ → Str → Option (List Str × Str)
read_cef_header zero s = some ([], s)
read_cef_header (suc n) s = elim (read_header_field s) [
  | none ↦ none
  | some (field, rest) ↦ elim (read_cef_header n rest) [
    | none ↦ none
    | some (fields, after) ↦ some (field ∷ fields, after)
  ]
]

-- Line ends as the spaces that they become.
abbrev pub on_one_line : Str → Str
on_one_line value = replace_all 13 (32 ∷ []) (replace_all 10 (32 ∷ []) value)

read_header_field-escaped :
    (d : ℕ) (s : Str) → read_header_field (backslash ∷ d ∷ s) ≡ push d (read_header_field s)
unfolding read_header_field
read_header_field-escaped d s = refl

read_header_field-plain :
    (c : ℕ) (s : Str)
    → c ≢ b'|'
    → c ≢ backslash
    → read_header_field (c ∷ s) ≡ push c (read_header_field s)
unfolding read_header_field
read_header_field-plain c [] h k = ground (arith, h, k)
read_header_field-plain c (d ∷ s) h k = ground (arith, h, k)

abbrev line_unit : ℕ → ℕ
line_unit c = if nat_beq c 10 then 32 else if nat_beq c 13 then 32 else c

escape_header-plain :
    (c : ℕ) (s : Str)
    → c ≢ b'|'
    → c ≢ backslash
    → escape_header (c ∷ s) ≡ line_unit c ∷ escape_header s
unfolding escape_header replace_all
escape_header-plain c s h k = ground (arith, h, k)

on_one_line-cons : (c : ℕ) (s : Str) → on_one_line (c ∷ s) ≡ line_unit c ∷ on_one_line s
unfolding replace_all
on_one_line-cons c s = ground arith

-- An escaped value is read back, on one line.
read_header_field-escape_header :
    (value rest : Str)
    → read_header_field (escape_header value ++ (b'|' ∷ rest)) ≡ some (on_one_line value, rest)
unfolding read_header_field escape_header replace_all
read_header_field-escape_header [] [] = refl
read_header_field-escape_header [] (c ∷ rest) = refl
read_header_field-escape_header (c ∷ value) rest = elim (Bool-cases (nat_beq c b'|')) [
  | inl bar ↦
      let e : c ≡ b'|' = (nat_beq_iff c b'|').0 bar in
      rw e (
        read_header_field-escaped b'|' (escape_header value ++ (b'|' ∷ rest))
        ∙ ap (push b'|') (read_header_field-escape_header value rest))
  | inr other ↦ elim (Bool-cases (nat_beq c backslash)) [
    | inl slash ↦
        let e : c ≡ backslash = (nat_beq_iff c backslash).0 slash in
        rw e (
          read_header_field-escaped backslash (escape_header value ++ (b'|' ∷ rest))
          ∙ ap (push backslash) (read_header_field-escape_header value rest))
    | inr plain ↦
        rw
          (
            escape_header-plain c value (ground (arith, other)) (ground (arith, plain)),
            on_one_line-cons c value,
          )
          (read_header_field-plain (line_unit c) (escape_header value ++ (b'|' ∷ rest))
              (ground (arith, other)) (ground (arith, plain))
            ∙ ap (push (line_unit c)) (read_header_field-escape_header value rest))
  ]
]

abbrev IsPlain : Str → Type 0
IsPlain s = All (λ c. (c ≢ b'|') × (c ≢ backslash)) s

read_header_field-plain_text :
    (s rest : Str) → IsPlain s → read_header_field (s ++ (b'|' ∷ rest)) ≡ some (s, rest)
unfolding read_header_field
read_header_field-plain_text [] [] h = refl
read_header_field-plain_text [] (c ∷ rest) h = refl
read_header_field-plain_text (c ∷ s) rest h =
    read_header_field-plain c (s ++ (b'|' ∷ rest)) h.0.0 h.0.1
    ∙ ap (push c) (read_header_field-plain_text s rest h.1)

cef_severity-IsPlain : (severity : Severity) → IsPlain (to_string 10 (cef_severity severity))
unfolding to_string to_string_from digit
cef_severity-IsPlain critical = omega arith
cef_severity-IsPlain high = omega arith
cef_severity-IsPlain medium = omega arith
cef_severity-IsPlain low = omega arith
cef_severity-IsPlain info = omega arith

-- The texts are read as the fields.
abbrev AreRead : List Str → List Str → Type 0
AreRead [] [] = Unit {0}
AreRead (text ∷ texts) (field ∷ fields) =
    ((rest : Str) → read_header_field (text ++ (b'|' ∷ rest)) ≡ some (field, rest))
    × AreRead texts fields
AreRead [] (field ∷ fields) = ⊥
AreRead (text ∷ texts) [] = ⊥

read_cef_header-step :
    (n : ℕ) (s field rest : Str) (fields : List Str) (after : Str)
    → read_header_field s ≡ some (field, rest)
    → read_cef_header n rest ≡ some (fields, after)
    → read_cef_header (suc n) s ≡ some (field ∷ fields, after)
unfolding read_cef_header
read_cef_header-step n s field rest fields after e f =
    rw (e, read_cef_header) (rw (f, read_cef_header) refl)

read_cef_header-join :
    (text : Str) (texts : List Str) (field : Str) (fields : List Str) (rest : Str)
    → AreRead (text ∷ texts) (field ∷ fields)
    → read_cef_header (length (field ∷ fields)) (join (codes "|") (text ∷ texts) ++ (b'|' ∷ rest))
      ≡ some (field ∷ fields, rest)
unfolding read_cef_header join
read_cef_header-join text [] field [] rest h =
    read_cef_header-step 0 _ field rest [] rest (h.0 rest) refl
read_cef_header-join text [] field (next ∷ fields) rest h = absurd h.1
read_cef_header-join text (following ∷ texts) field [] rest h = absurd h.1
read_cef_header-join text (following ∷ texts) field (next ∷ fields) rest h =
    read_cef_header-step (length (next ∷ fields)) _ field _ (next ∷ fields) rest
      (ap read_header_field (
          append_assoc (text ++ codes "|") (join (codes "|") (following ∷ texts)) (b'|' ∷ rest)
          ∙ append_assoc text (codes "|") (join (codes "|") (following ∷ texts) ++ (b'|' ∷ rest)))
        ∙ h.0 (join (codes "|") (following ∷ texts) ++ (b'|' ∷ rest)))
      (read_cef_header-join following texts next fields rest h.1)

kind_name-on_one_line : (kind : AlertKind) → on_one_line (kind_name kind) ≡ kind_name kind
unfolding replace_all
kind_name-on_one_line arp_spoofing = refl
kind_name-on_one_line port_scan = refl
kind_name-on_one_line host_sweep = refl
kind_name-on_one_line syn_flood = refl
kind_name-on_one_line plaintext_credentials = refl
kind_name-on_one_line dns_tunneling = refl
kind_name-on_one_line new_device = refl
kind_name-on_one_line threat_intel = refl

read_header_field-kind_name :
    (kind : AlertKind) (rest : Str)
    → read_header_field (escape_header (kind_name kind) ++ (b'|' ∷ rest))
      ≡ some (kind_name kind, rest)
read_header_field-kind_name kind rest =
    read_header_field-escape_header (kind_name kind) rest
    ∙ ap (λ field. some (field, rest)) (kind_name-on_one_line kind)

-- A CEF reader finds in a rendered finding the seven fields of the header, each as it was but for line
-- ends, and then the extension: no text of a finding can shift a field.
pub read_cef_header-render_cef :
    (is_before : Str → Str → Bool) (finding : NotifiableFinding) (product_version : Str)
    → read_cef_header 7 (render_cef is_before finding product_version)
      ≡ some (
        codes "CEF:0"
            ∷ codes "NetworkMonitoring"
            ∷ codes "NMT"
            ∷ on_one_line product_version
            ∷ kind_name finding.kind
            ∷ on_one_line finding.english_title
            ∷ to_string 10 (cef_severity finding.severity)
            ∷ [],
        join (codes " ") (extensions is_before finding),
      )
unfolding render_cef replace_all
read_cef_header-render_cef is_before finding product_version =
    read_cef_header-join (codes "CEF:0") _ (codes "CEF:0") _
      (join (codes " ") (extensions is_before finding))
      (
        λ rest. read_header_field-plain_text (codes "CEF:0") rest (omega arith),
        (
          λ rest. read_header_field-escape_header (codes "NetworkMonitoring") rest,
          (
            λ rest. read_header_field-escape_header (codes "NMT") rest,
            (
              λ rest. read_header_field-escape_header product_version rest,
              (
                λ rest. read_header_field-kind_name finding.kind rest,
                (
                  λ rest. read_header_field-escape_header finding.english_title rest,
                  (
                    λ rest.
                        read_header_field-plain_text _ rest (cef_severity-IsPlain finding.severity),
                    tt,
                  ),
                ),
              ),
            ),
          ),
        ),
      )
