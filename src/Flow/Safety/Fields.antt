-- ===== src/Flow/Safety/Fields.antt =====
-- The fields of a record or of a template (api/src/flow/netflow-v9.ts).
use network_monitoring.Base.{
  ℕ, zero, suc, ◌+◌, ◌≤◌, ◌≢◌, Option, none, some, List, [], ◌∷◌, arith, length, ltb, Bool-cases,
  inl, inr,
}
use network_monitoring.Base.Checked.{fault, bind-ne-fault, ok-ne-fault, Achieves, Achieves-bind}
use network_monitoring.Js.Buffer.{Buffer, read_be, read_uint8, read_uint16_be, read_uint32_be}
use network_monitoring.Flow.Fields.{InformationElement, TemplateField, Template, element_of}
use network_monitoring.Flow.Numbers.{read_unsigned, ntp_to_unix_ms}
use network_monitoring.Flow.Record.{
  FieldValues, apply_element, apply_field, measure_field, variable_field, long_length,
  decode_fields, decode_record, DataSetContext, no_fields,
}
use network_monitoring.Flow.TemplateSet.{Dialect, read_enterprise, read_field, read_fields}

module _ (body : Buffer) (offset len : ℕ) (inside : offset + len ≤ length body) where
  read_unsigned-ne-fault : read_unsigned body offset len ≢ fault
  unfolding read_unsigned read_be
  read_unsigned-ne-fault = ground arith

  ntp_to_unix_ms-ne-fault : ntp_to_unix_ms body offset len ≢ fault
  unfolding ntp_to_unix_ms read_uint32_be
  ntp_to_unix_ms-ne-fault = ground arith

  apply_element-ne-fault :
      (element : InformationElement) (f : FieldValues)
      → apply_element element body offset len f ≢ fault
  unfolding apply_element
  apply_element-ne-fault InformationElement.other f = ok-ne-fault _
  apply_element-ne-fault _ f = ground (arith, read_unsigned-ne-fault, ntp_to_unix_ms-ne-fault)

  apply_field-ne-fault :
      (enterprise : Option ℕ) (element : ℕ) (f : FieldValues)
      → apply_field enterprise element body offset len f ≢ fault
  apply_field-ne-fault (some enterprise) element f = ok-ne-fault _
  apply_field-ne-fault none element f = apply_element-ne-fault (element_of element) f

measure_field-ne-fault :
    (field : TemplateField) (body : Buffer) (offset : ℕ) → measure_field field body offset ≢ fault
unfolding measure_field variable_field long_length read_uint8 read_uint16_be
measure_field-ne-fault field body offset = ground arith

decode_fields-ne-fault :
    (fields : List TemplateField) (body : Buffer) (offset : ℕ) (f : FieldValues)
    → decode_fields fields body offset f ≢ fault
unfolding decode_fields
decode_fields-ne-fault [] body offset f = ok-ne-fault _
decode_fields-ne-fault (field ∷ rest) body offset f =
    bind-ne-fault (measure_field field body offset) _ (measure_field-ne-fault field body offset)
      (elim [
        | none ↦ ok-ne-fault _
        | some (len, start) ↦ elim (Bool-cases (ltb (length body) (start + len))) [
          | inl long ↦ rw long (ok-ne-fault _)
          | inr fits ↦ rw fits (
              bind-ne-fault _ _
                (apply_field-ne-fault body start len (ground arith) field.enterprise
                  field.information_element f)
                λ f'. decode_fields-ne-fault rest body (start + len) f')
        ]
      ])

pub decode_record-ne-fault :
    (body : Buffer) (start : ℕ) (template : Template) (context : DataSetContext)
    → decode_record body start template context ≢ fault
unfolding decode_record
decode_record-ne-fault body start template context =
    bind-ne-fault (decode_fields template.fields body start no_fields) _
      (decode_fields-ne-fault template.fields body start no_fields)
      (elim [ none ↦ ok-ne-fault _ | some (f, offset) ↦ ok-ne-fault _ ])

read_field-ne-fault :
    (body : Buffer) (dialect : Dialect) (offset : ℕ) → read_field body dialect offset ≢ fault
unfolding read_field read_enterprise read_uint16_be read_uint32_be
read_field-ne-fault body dialect offset = ground arith

pub read_fields-ne-fault :
    (body : Buffer) (dialect : Dialect) (left offset : ℕ)
    → read_fields body dialect left offset ≢ fault
unfolding read_fields
read_fields-ne-fault body dialect zero offset = ok-ne-fault _
read_fields-ne-fault body dialect (suc left) offset =
    bind-ne-fault (read_field body dialect offset) _ (read_field-ne-fault body dialect offset)
      (elim [
        | none ↦ ok-ne-fault _
        | some (field, next) ↦
            bind-ne-fault (read_fields body dialect left next) _
              (read_fields-ne-fault body dialect left next)
              (elim [ none ↦ ok-ne-fault _ | some (fields, end) ↦ ok-ne-fault _ ])
      ])

-- A read that succeeded ended at `offset` or later.
abbrev pub EndsAfter {ℓ} : {A : Type ℓ} → ℕ → Option (A × ℕ) → Type 0
EndsAfter offset none = Unit
EndsAfter offset (some (a, end)) = offset ≤ end

read_field-EndsAfter :
    (body : Buffer) (dialect : Dialect) (offset : ℕ)
    → Achieves (EndsAfter offset) (read_field body dialect offset)
unfolding read_field read_enterprise read_uint16_be read_uint32_be
read_field-EndsAfter body dialect offset = ground arith

EndsAfter-weaken {ℓ} :
    {A : Type ℓ} (low high : ℕ) (o : Option (A × ℕ))
    → low ≤ high
    → EndsAfter high o
    → EndsAfter low o
EndsAfter-weaken low high none h k = tt
EndsAfter-weaken low high (some (a, end)) h k = omega arith

pub read_fields-EndsAfter :
    (body : Buffer) (dialect : Dialect) (left offset : ℕ)
    → Achieves (EndsAfter offset) (read_fields body dialect left offset)
unfolding read_fields
read_fields-EndsAfter body dialect zero offset = omega arith
read_fields-EndsAfter body dialect (suc left) offset =
    Achieves-bind (EndsAfter offset) (EndsAfter offset) (read_field body dialect offset) _
      (read_field-EndsAfter body dialect offset)
      (elim [
        | none ↦ λ _. tt
        | some (field, next) ↦ λ after.
            Achieves-bind (EndsAfter next) (EndsAfter offset) (read_fields body dialect left next) _
              (read_fields-EndsAfter body dialect left next)
              (elim [ none ↦ λ _. tt | some (fields, end) ↦ λ later. omega arith ])
      ])
