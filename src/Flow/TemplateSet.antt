-- ===== src/Flow/TemplateSet.antt =====
-- Dialects, the parser's state and template sets (api/src/flow/netflow-v9.ts). The loop over a set
-- runs on fuel; running out of it would be a fault, which the theorems exclude.
use network_monitoring.Base.{
  ℕ, zero, suc, ◌+◌, ◌/◌, ◌%◌, Bool, true, false, ◌&&◌, Option, none, some, List, [], ◌∷◌, ◌++◌,
  ltb, leb, nat_beq, if◌then◌else◌, length, Str,
}
use network_monitoring.Base.Checked.{Checked, ok, fault, ◌>>=◌}
use network_monitoring.Js.Buffer.{Buffer, read_uint16_be, read_uint32_be}
use network_monitoring.Flow.Fields.{TemplateField, template_fixed_length}
use network_monitoring.Flow.Templates.{TemplateKey, TemplateCache}
use network_monitoring.Flow.Templates
use network_monitoring.Flow.Types.{
  FlowRecord, FlowProtocol, netflow9, ipfix, ParseResult, add_malformed,
}

abbrev pub set_header_length : ℕ
set_header_length = 4

abbrev pub min_data_set_id : ℕ
min_data_set_id = 256

pub record Dialect : Type 0 where
  pub protocol_version : FlowProtocol
  pub header_length : ℕ
  pub template_set_id : ℕ
  pub options_template_set_id : ℕ
  pub enterprise_capable : Bool

abbrev pub v9 : Dialect
v9 = record {
  protocol_version = netflow9;
  header_length = 20;
  template_set_id = 0;
  options_template_set_id = 1;
  enterprise_capable = false;
}

abbrev pub ipfix_dialect : Dialect
ipfix_dialect = record {
  protocol_version = ipfix;
  header_length = 16;
  template_set_id = 2;
  options_template_set_id = 3;
  enterprise_capable = true;
}

-- The template cache and the result, which the parser updates in place.
pub record State : Type 0 where
  pub templates : TemplateCache
  pub result : ParseResult

unfoldable pub count_malformed : State → State
unfolding add_malformed
count_malformed state = record state { result = add_malformed state.result }

unfoldable pub count_pending : State → State
count_pending state =
    let result : ParseResult = state.result in
    record state { result = record result { pending_templates = result.pending_templates + 1 } }

unfoldable pub push_record : FlowRecord → State → State
push_record flow state =
    let result : ParseResult = state.result in
    record state { result = record result { records = result.records ++ flow ∷ [] } }

-- The enterprise number behind a field's element and length.
unfoldable pub read_enterprise : Buffer → ℕ → ℕ → ℕ → Checked (Option (TemplateField × ℕ))
read_enterprise body offset element len = if ltb (length body) (offset + 4) then ok none else do
  enterprise ← read_uint32_be body offset
  ok (
      some (
        record { information_element = element; length_field = len; enterprise = some enterprise },
        offset + 4,
      ))

-- One field definition, and the offset behind it; `none` where it is truncated.
unfoldable pub read_field : Buffer → Dialect → ℕ → Checked (Option (TemplateField × ℕ))
unfolding read_enterprise
read_field body dialect offset = if ltb (length body) (offset + 4) then ok none else do
  raw ← read_uint16_be body offset
  len ← read_uint16_be body (offset + 2)
  if dialect.enterprise_capable && nat_beq (raw / 0x8000 % 2) 1
      then read_enterprise body (offset + 4) (raw % 0x8000) len
      else ok (
          some (
            record { information_element = raw; length_field = len; enterprise = none },
            offset + 4,
          ))

-- The loop over the fields of one template, by the fields left; `none` where one is truncated.
unfoldable pub read_fields : Buffer → Dialect → ℕ → ℕ → Checked (Option (List TemplateField × ℕ))
read_fields body dialect zero offset = ok (some ([], offset))
read_fields body dialect (suc left) offset = do
  first ← read_field body dialect offset
  elim first [
    | none ↦ ok none
    | some (field, next) ↦ do
      others ← read_fields body dialect left next
      elim others [ none ↦ ok none | some (fields, end) ↦ ok (some (field ∷ fields, end)) ]
  ]

unfoldable pub store_template : Str → ℕ → ℕ → List TemplateField → State → State
store_template exporter observation_domain template_id fields state = record state {
  templates =
      Templates.set
        (record {
          exporter = exporter;
          observation_domain = observation_domain;
          template_id = template_id;
        })
        (record { id = template_id; fields = fields; fixed_length = template_fixed_length fields })
        state.templates;
}

-- The loop of `readTemplateSet`: 4 bytes at least in each round.
unfoldable pub read_template_set : ℕ → Buffer → Str → ℕ → Dialect → ℕ → State → Checked State
read_template_set zero body exporter domain dialect offset state =
    if leb (offset + 4) (length body) then fault else ok state
read_template_set (suc fuel) body exporter domain dialect offset state =
    elim (leb (offset + 4) (length body)) [
      | false ↦ ok state
      | true ↦ do
        template_id ← read_uint16_be body offset
        field_count ← read_uint16_be body (offset + 2)
        elim (nat_beq field_count 0) [
          | true ↦ read_template_set fuel body exporter domain dialect (offset + 4) state
          | false ↦ do
            read ← read_fields body dialect field_count (offset + 4)
            elim read [
              | none ↦ ok (count_malformed state)
              | some (fields, next) ↦
                  read_template_set fuel body exporter domain dialect next
                    (store_template exporter domain template_id fields state)
            ]
        ]
    ]
