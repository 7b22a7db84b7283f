-- ===== src/Flow/DataSet.antt =====
-- Data sets (api/src/flow/netflow-v9.ts: readDataSet). Every round but a last one consumes a byte.
use network_monitoring.Base.{
  ℕ, zero, suc, ◌+◌, ◌-◌, Bool, true, false, Option, none, some, ltb, leb, if◌then◌else◌, length,
}
use network_monitoring.Base.Checked.{Checked, ok, fault, ◌>>=◌}
use network_monitoring.Js.Buffer.{Buffer}
use network_monitoring.Flow.Fields.{Template}
use network_monitoring.Flow.Record.{DataSetContext, decode_record}
use network_monitoring.Flow.TemplateSet.{State, count_malformed, push_record}

-- The bytes that a record wants at least: its fixed length, or one byte for each field.
abbrev pub wanted : Option ℕ → Template → ℕ
wanted (some fixed) template = fixed
wanted none template = length template.fields

-- What is left is smaller than a record: padding.
unfoldable pub is_padding : Buffer → Template → ℕ → Bool
is_padding body template offset = ltb (length body - offset) (wanted template.fixed_length template)

unfoldable pub read_data_set : ℕ → Buffer → Template → DataSetContext → ℕ → State → Checked State
read_data_set zero body template context offset state =
    if ltb offset (length body) then fault else ok state
read_data_set (suc fuel) body template context offset state = elim (ltb offset (length body)) [
  | false ↦ ok state
  | true ↦ elim (is_padding body template offset) [
    | true ↦ ok state
    | false ↦ do
      decoded ← decode_record body offset template context
      elim decoded [
        | none ↦ ok (count_malformed state)
        | some (flow, consumed) ↦ elim (leb consumed 0) [
          | true ↦ ok (count_malformed (push_record flow state))
          | false ↦
              read_data_set fuel body template context (offset + consumed) (push_record flow state)
        ]
      ]
  ]
]
