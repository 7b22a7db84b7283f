-- ===== src/Flow/Safety/Message.antt =====
-- A message of NetFlow v9 or IPFIX (api/src/flow/netflow-v9.ts).
use network_monitoring.Base.{
  ℕ, zero, suc, ◌+◌, ◌-◌, ◌≤◌, ◌≡◌, true, false, Option, none, some, arith, length, ltb, leb,
  Bool-cases, inl, inr, Str, lt→leb_false, ◌||◌, if◌then◌else◌, Bool,
}
use network_monitoring.Base.Checked.{Achieves, Achieves-bind, Achieves-after, Achieves-weaken}
use network_monitoring.Js.Buffer.{
  Buffer, read_uint16_be, read_uint32_be, read_uint16_be-ne-fault, subarray, length-subarray,
}
use network_monitoring.Flow.DataSet.{read_data_set}
use network_monitoring.Flow.Fields.{Template}
use network_monitoring.Flow.NetflowV9.{
  Message, read_message_header, read_known_data_set, read_set, read_sets, start_state,
  parse_templated, parse_netflow_v9, parse_ipfix,
}
use network_monitoring.Flow.Record.{DataSetContext}
use network_monitoring.Flow.Safety.Sets.{
  IsFine, IsFine-weaken, count_malformed-IsFine, count_pending-IsFine, read_data_set-IsFine,
  read_template_set-IsFine,
}
use network_monitoring.Flow.Templates
use network_monitoring.Flow.Templates.{TemplateCache}
use network_monitoring.Flow.Templates.Bounds.{IsBounded}
use network_monitoring.Flow.TemplateSet.{Dialect, State, v9, ipfix_dialect, count_malformed}

read_known_data_set-IsFine :
    (template : Option Template) (body : Buffer) (context : DataSetContext) (limit : ℕ)
    (state : State)
    → IsFine limit state
    → Achieves (IsFine (limit + length body)) (read_known_data_set template body context state)
unfolding read_known_data_set
read_known_data_set-IsFine none body context limit state fine =
    IsFine-weaken (omega arith) (count_pending-IsFine fine)
read_known_data_set-IsFine (some template) body context limit state fine =
    Achieves-weaken (IsFine (limit + (length body - 0))) (IsFine (limit + length body))
      (read_data_set (length body) body template context 0 state)
      (λ after. IsFine-weaken (omega arith))
      (read_data_set-IsFine (length body) body template context 0 limit state (omega arith) fine)

-- A whole set leaves room for the records of the sets behind it.
set_step :
    (datagram : Buffer) (offset set_length end limit : ℕ)
    → (ltb set_length 4 || ltb end (offset + set_length)) ≡ false
    → limit
        + length (subarray datagram (offset + 4) (offset + set_length))
        + (end - (offset + set_length))
      ≤ limit + (end - offset)
set_step datagram offset set_length end limit whole =
    ground (arith, length-subarray datagram (offset + 4) (offset + set_length))

module _ (dialect : Dialect) (exporter : Str) (observed_at : ℕ) (message : Message) where
  read_set-IsFine :
      (set_id : ℕ) (body : Buffer) (limit : ℕ) (state : State)
      → IsFine limit state
      → Achieves
          (IsFine (limit + length body))
          (read_set dialect exporter observed_at message set_id body state)
  unfolding read_set
  read_set-IsFine set_id body limit state fine =
      let domain = message.observation_domain in
      let template =
        Templates.get
          (record { exporter = exporter; observation_domain = domain; template_id = set_id })
          state.templates in
      let context : DataSetContext = record {
        exporter = exporter;
        observation_domain = domain;
        protocol_version = dialect.protocol_version;
        boot_ms = message.boot_ms;
        observed_at = observed_at;
      } in
      let kept : IsFine (limit + length body) state = IsFine-weaken (omega arith) fine in
      ground (
        arith,
        kept,
        count_malformed-IsFine kept,
        read_known_data_set-IsFine template body context limit state fine,
        read_template_set-IsFine (length body) body exporter domain dialect 0 (limit + length body)
            state (omega arith) kept,
      )

  read_sets-IsFine :
      (fuel : ℕ) (datagram : Buffer) (offset limit : ℕ) (state : State)
      → message.end ≤ length datagram
      → message.end ≤ offset + fuel
      → IsFine limit state
      → Achieves
          (IsFine (limit + (message.end - offset)))
          (read_sets fuel dialect exporter observed_at message datagram offset state)
  unfolding read_sets
  read_sets-IsFine zero datagram offset limit state inside h fine =
      rw (lt→leb_false (offset + 4) message.end (omega arith)) (IsFine-weaken (omega arith) fine)
  read_sets-IsFine (suc fuel) datagram offset limit state inside h fine =
      elim (Bool-cases (leb (offset + 4) message.end)) [
        | inr done ↦ rw (done, read_sets) (IsFine-weaken (omega arith) fine)
        | inl more ↦
            rw (more, read_sets)
              (Achieves-after _ (read_uint16_be datagram offset) _
                (read_uint16_be-ne-fault datagram offset (ground arith))
                λ set_id _.
                  Achieves-after _ (read_uint16_be datagram (offset + 2)) _
                    (read_uint16_be-ne-fault datagram (offset + 2) (ground arith))
                    λ set_length _.
                      elim (Bool-cases
                        (ltb set_length 4 || ltb message.end (offset + set_length))) [
                          | inl desynchronised ↦
                              rw (desynchronised, read_sets)
                                (IsFine-weaken (omega arith) (count_malformed-IsFine fine))
                          | inr whole ↦
                              let body : Buffer =
                                subarray datagram (offset + 4) (offset + set_length) in
                              rw (whole, read_sets)
                                (Achieves-bind (IsFine (limit + length body)) _
                                  (read_set dialect exporter observed_at message set_id body state)
                                  _ (read_set-IsFine set_id body limit state fine)
                                  λ next fine'.
                                    Achieves-weaken
                                      (IsFine (
                                        limit
                                        + length body
                                        + (message.end - (offset + set_length))))
                                      _
                                      (read_sets fuel dialect exporter observed_at message datagram
                                        (offset + set_length) next)
                                      (λ after. IsFine-weaken (
                                        set_step datagram offset set_length message.end limit
                                          whole))
                                      (read_sets-IsFine fuel datagram (offset + set_length)
                                        (limit + length body) next inside (ground arith) fine'))
                        ])
      ]

-- The end of a message lies within its datagram.
abbrev IsInside : Buffer → Message → Type 0
IsInside datagram message = message.end ≤ length datagram

-- A datagram that holds the dialect's header has a message in it.
HasHeader : Dialect → Type 0
HasHeader dialect =
    (datagram : Buffer)
    → dialect.header_length ≤ length datagram
    → Achieves (IsInside datagram) (read_message_header dialect datagram)

v9-HasHeader : HasHeader v9
unfolding HasHeader read_message_header read_uint32_be
v9-HasHeader datagram h = ground arith

ipfix-HasHeader : HasHeader ipfix_dialect
unfolding HasHeader read_message_header read_uint16_be read_uint32_be
ipfix-HasHeader datagram h = ground arith

start_state-IsFine :
    (limit : ℕ) (templates : TemplateCache)
    → IsBounded templates
    → IsFine limit (start_state templates)
unfolding start_state
start_state-IsFine limit templates h = record { cache = h; few = omega arith }

parse_templated-IsFine :
    (datagram : Buffer) (exporter : Str) (observed_at : ℕ) (templates : TemplateCache)
    (dialect : Dialect)
    → HasHeader dialect
    → IsBounded templates
    → Achieves
        (IsFine (length datagram))
        (parse_templated datagram exporter observed_at templates dialect)
unfolding parse_templated HasHeader
parse_templated-IsFine datagram exporter observed_at templates dialect header h =
    elim (Bool-cases (ltb (length datagram) dialect.header_length)) [
      | inl short ↦ rw short (count_malformed-IsFine (start_state-IsFine _ templates h))
      | inr long ↦ rw long (
          Achieves-bind (IsInside datagram) (IsFine (length datagram))
            (read_message_header dialect datagram) _ (header datagram (ground arith))
            λ message inside.
              Achieves-weaken (IsFine (0 + (message.end - dialect.header_length))) _ _
                (λ after. IsFine-weaken (omega arith))
                (read_sets-IsFine dialect exporter observed_at message (length datagram) datagram
                  dialect.header_length 0 _ inside (omega arith)
                  (start_or_counted message.mislabelled (start_state-IsFine 0 templates h))))
    ]
  where
    start_or_counted :
        (mislabelled : Bool)
        → IsFine 0 (start_state templates)
        → IsFine 0
            (if mislabelled then count_malformed (start_state templates) else start_state templates)
    start_or_counted true fine = count_malformed-IsFine fine
    start_or_counted false fine = fine

pub parse_netflow_v9-IsFine :
    (datagram : Buffer) (exporter : Str) (observed_at : ℕ) (templates : TemplateCache)
    → IsBounded templates
    → Achieves (IsFine (length datagram)) (parse_netflow_v9 datagram exporter observed_at templates)
unfolding parse_netflow_v9
parse_netflow_v9-IsFine datagram exporter observed_at templates =
    parse_templated-IsFine datagram exporter observed_at templates v9 v9-HasHeader

pub parse_ipfix-IsFine :
    (datagram : Buffer) (exporter : Str) (observed_at : ℕ) (templates : TemplateCache)
    → IsBounded templates
    → Achieves (IsFine (length datagram)) (parse_ipfix datagram exporter observed_at templates)
unfolding parse_ipfix
parse_ipfix-IsFine datagram exporter observed_at templates =
    parse_templated-IsFine datagram exporter observed_at templates ipfix_dialect ipfix-HasHeader
