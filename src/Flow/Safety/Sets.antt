-- ===== src/Flow/Safety/Sets.antt =====
-- The sets of a datagram (api/src/flow/netflow-v9.ts).
use network_monitoring.Base.{
  ℕ, zero, suc, ◌+◌, ◌-◌, ◌≤◌, ◌<◌, true, false, none, some, List, [], ◌∷◌, arith, length, ltb, leb,
  nat_beq, Bool-cases, inl, inr, Str, length-append, le→ltb_false, lt→leb_false, ltb→lt,
}
use network_monitoring.Base.Checked.{
  Checked, ok, Achieves, Achieves-bind, Achieves-after, Achieves-weaken,
}
use network_monitoring.Js.Buffer.{Buffer, read_uint16_be, read_uint16_be-ne-fault}
use network_monitoring.Flow.DataSet.{read_data_set, is_padding}
use network_monitoring.Flow.Fields.{TemplateField, Template}
use network_monitoring.Flow.Record.{DataSetContext, decode_record}
use network_monitoring.Flow.Safety.Fields.{decode_record-ne-fault, read_fields-EndsAfter, EndsAfter}
use network_monitoring.Flow.Templates.Bounds.{IsBounded, set-IsBounded}
use network_monitoring.Flow.TemplateSet.{
  Dialect, State, count_malformed, count_pending, push_record, store_template, read_fields,
  read_template_set,
}
use network_monitoring.Flow.Types.{FlowRecord}

-- The cache is within its bound, and there are at most `limit` records.
pub record IsFine (limit : ℕ) (state : State) : Type 0 where
  pub cache : IsBounded state.templates
  pub few : length state.result.records ≤ limit

pub IsFine-weaken :
    {low high : ℕ} {state : State} → low ≤ high → IsFine low state → IsFine high state
IsFine-weaken h fine = record { cache = fine.cache; few = omega arith }

pub count_malformed-IsFine :
    {limit : ℕ} {state : State} → IsFine limit state → IsFine limit (count_malformed state)
unfolding count_malformed
count_malformed-IsFine fine = record { cache = fine.cache; few = fine.few }

pub count_pending-IsFine :
    {limit : ℕ} {state : State} → IsFine limit state → IsFine limit (count_pending state)
unfolding count_pending
count_pending-IsFine fine = record { cache = fine.cache; few = fine.few }

push_record-IsFine :
    {limit : ℕ} (flow : FlowRecord) {state : State}
    → IsFine limit state
    → IsFine (limit + 1) (push_record flow state)
unfolding push_record
push_record-IsFine flow {state} fine = record {
  cache = fine.cache;
  few = omega (arith, fine.few, length-append state.result.records (flow ∷ []));
}

store_template-IsFine :
    {limit : ℕ} (exporter : Str) (domain template_id : ℕ) (fields : List TemplateField)
    {state : State}
    → IsFine limit state
    → IsFine limit (store_template exporter domain template_id fields state)
unfolding store_template
store_template-IsFine exporter domain template_id fields fine = record {
  cache = set-IsBounded _ _ _ fine.cache;
  few = fine.few;
}

-- One round: what a decoded record adds, and the rest of the set behind it.
step-IsFine :
    {limit total consumed offset : ℕ} (flow : FlowRecord) {state : State} (rest : Checked State)
    → offset < total
    → IsFine limit state
    → (0 < consumed
        → IsFine (limit + 1) (push_record flow state)
        → Achieves (IsFine (limit + 1 + (total - (offset + consumed)))) rest)
    → Achieves (IsFine (limit + (total - offset))) (elim (leb consumed 0) [
      | true ↦ ok (count_malformed (push_record flow state))
      | false ↦ rest
    ])
step-IsFine {consumed} flow rest h fine next = elim (Bool-cases (leb consumed 0)) [
  | inl stuck ↦
      rw stuck (count_malformed-IsFine (IsFine-weaken (omega arith) (push_record-IsFine flow fine)))
  | inr step ↦ rw step (
      Achieves-weaken _ _ rest (λ after. IsFine-weaken (ground arith))
        (next (ground arith) (push_record-IsFine flow fine)))
]

pub read_data_set-IsFine :
    (fuel : ℕ) (body : Buffer) (template : Template) (context : DataSetContext) (offset limit : ℕ)
    (state : State)
    → length body ≤ offset + fuel
    → IsFine limit state
    → Achieves
        (IsFine (limit + (length body - offset)))
        (read_data_set fuel body template context offset state)
unfolding read_data_set
read_data_set-IsFine zero body template context offset limit state h fine =
    rw (le→ltb_false offset (length body) (omega arith)) (IsFine-weaken (omega arith) fine)
read_data_set-IsFine (suc fuel) body template context offset limit state h fine =
    elim (Bool-cases (ltb offset (length body))) [
      | inr done ↦ rw (done, read_data_set) (IsFine-weaken (omega arith) fine)
      | inl more ↦ elim (Bool-cases (is_padding body template offset)) [
        | inl pad ↦
            rw (more, read_data_set) (rw (pad, read_data_set) (IsFine-weaken (omega arith) fine))
        | inr whole ↦
            rw (more, read_data_set)
              (rw (whole, read_data_set)
                (Achieves-after _ (decode_record body offset template context) _
                  (decode_record-ne-fault body offset template context)
                  (elim [
                    | none ↦ λ _. IsFine-weaken (omega arith) (count_malformed-IsFine fine)
                    | some (flow, consumed) ↦ λ _.
                        step-IsFine flow _ (ltb→lt _ _ more) fine λ some_step pushed.
                          read_data_set-IsFine fuel body template context (offset + consumed)
                            (limit + 1) (push_record flow state) (omega arith) pushed
                  ])))
      ]
    ]

pub read_template_set-IsFine :
    (fuel : ℕ) (body : Buffer) (exporter : Str) (domain : ℕ) (dialect : Dialect) (offset limit : ℕ)
    (state : State)
    → length body ≤ offset + fuel
    → IsFine limit state
    → Achieves (IsFine limit) (read_template_set fuel body exporter domain dialect offset state)
unfolding read_template_set
read_template_set-IsFine zero body exporter domain dialect offset limit state h fine =
    rw (lt→leb_false (offset + 4) (length body) (omega arith)) fine
read_template_set-IsFine (suc fuel) body exporter domain dialect offset limit state h fine =
    elim (Bool-cases (leb (offset + 4) (length body))) [
      | inr done ↦ rw (done, read_template_set) fine
      | inl more ↦
          rw (more, read_template_set)
            (Achieves-after _ (read_uint16_be body offset) _
              (read_uint16_be-ne-fault body offset (ground arith))
              λ template_id _.
                Achieves-after _ (read_uint16_be body (offset + 2)) _
                  (read_uint16_be-ne-fault body (offset + 2) (ground arith))
                  λ field_count _. elim (Bool-cases (nat_beq field_count 0)) [
                    | inl withdrawn ↦
                        rw (withdrawn, read_template_set)
                          (read_template_set-IsFine fuel body exporter domain dialect (offset + 4)
                            limit state (omega arith) fine)
                    | inr defined ↦
                        rw (defined, read_template_set)
                          (Achieves-bind (EndsAfter (offset + 4)) (IsFine limit)
                            (read_fields body dialect field_count (offset + 4)) _
                            (read_fields-EndsAfter body dialect field_count (offset + 4))
                            (elim [
                              | none ↦ λ _. count_malformed-IsFine fine
                              | some (fields, next) ↦ λ after.
                                  read_template_set-IsFine fuel body exporter domain dialect next
                                    limit (store_template exporter domain template_id fields state)
                                    (omega arith)
                                    (store_template-IsFine exporter domain template_id fields fine)
                            ]))
                  ])
    ]
