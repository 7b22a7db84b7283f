-- ===== src/Flow/NetflowV9.antt =====
-- NetFlow v9 and IPFIX datagrams (api/src/flow/netflow-v9.ts: parseTemplated and its callers): the
-- walk over the sets of a datagram.
use network_monitoring.Base.{
  ℕ, zero, suc, ◌+◌, ◌*◌, Bool, true, false, ◌&&◌, ◌||◌, Option, none, some, ltb, leb, nat_beq,
  if◌then◌else◌, length, Str,
}
use network_monitoring.Base.Checked.{Checked, ok, fault, ◌>>=◌}
use network_monitoring.Base.Int.{ℤ, pos, sub_ℕ}
use network_monitoring.Js.Buffer.{Buffer, read_uint16_be, read_uint32_be, subarray}
use network_monitoring.Flow.DataSet.{read_data_set}
use network_monitoring.Flow.Fields.{Template}
use network_monitoring.Flow.Record.{DataSetContext}
use network_monitoring.Flow.Templates
use network_monitoring.Flow.Templates.{TemplateCache}
use network_monitoring.Flow.TemplateSet.{
  Dialect, v9, ipfix_dialect, State, count_malformed, count_pending, read_template_set,
  set_header_length, min_data_set_id,
}
use network_monitoring.Flow.Types.{empty_result, netflow9}

-- What the header of a datagram says.
pub record Message : Type 0 where
  pub observation_domain : ℕ
  pub boot_ms : ℤ
  pub end : ℕ
  pub mislabelled : Bool

unfoldable pub read_v9_header : Buffer → Checked Message
read_v9_header datagram = do
  sys_uptime_ms ← read_uint32_be datagram 4
  unix_seconds ← read_uint32_be datagram 8
  observation_domain ← read_uint32_be datagram 16
  ok (record {
    observation_domain = observation_domain;
    boot_ms = sub_ℕ (unix_seconds * 1000) sys_uptime_ms;
    end = length datagram;
    mislabelled = false;
  })

-- The declared length counts where it fits the datagram.
unfoldable pub read_ipfix_header : Buffer → ℕ → Checked Message
read_ipfix_header datagram header_length = do
  declared_length ← read_uint16_be datagram 2
  observation_domain ← read_uint32_be datagram 12
  let fits : Bool = leb header_length declared_length && leb declared_length (length datagram)
  ok (record {
    observation_domain = observation_domain;
    boot_ms = pos 0;
    end = if fits then declared_length else length datagram;
    mislabelled = if fits then false else true;
  })

unfoldable pub read_message_header : Dialect → Buffer → Checked Message
unfolding read_v9_header read_ipfix_header
read_message_header dialect datagram = elim dialect.protocol_version [
  | netflow9 ↦ read_v9_header datagram
  | _ ↦ read_ipfix_header datagram dialect.header_length
]

unfoldable pub read_known_data_set :
    Option Template → Buffer → DataSetContext → State → Checked State
read_known_data_set none body context state = ok (count_pending state)
read_known_data_set (some template) body context state =
    read_data_set (length body) body template context 0 state

-- One set, by its id.
unfoldable pub read_set : Dialect → Str → ℕ → Message → ℕ → Buffer → State → Checked State
read_set dialect exporter observed_at message set_id body state =
    let domain = message.observation_domain in
    if nat_beq set_id dialect.template_set_id
    then read_template_set (length body) body exporter domain dialect 0 state
    else if nat_beq set_id dialect.options_template_set_id
    then ok state
    else if leb min_data_set_id set_id
    then read_known_data_set
        (Templates.get
          (record { exporter = exporter; observation_domain = domain; template_id = set_id })
          state.templates)
        body
        (record {
          exporter = exporter;
          observation_domain = domain;
          protocol_version = dialect.protocol_version;
          boot_ms = message.boot_ms;
          observed_at = observed_at;
        })
        state
    else ok (count_malformed state)

-- The loop over the sets: 4 bytes at least in each round.
unfoldable pub read_sets : ℕ → Dialect → Str → ℕ → Message → Buffer → ℕ → State → Checked State
read_sets zero dialect exporter observed_at message datagram offset state =
    if leb (offset + set_header_length) message.end then fault else ok state
read_sets (suc fuel) dialect exporter observed_at message datagram offset state =
    elim (leb (offset + set_header_length) message.end) [
      | false ↦ ok state
      | true ↦ do
        set_id ← read_uint16_be datagram offset
        set_length ← read_uint16_be datagram (offset + 2)
        elim (ltb set_length set_header_length || ltb message.end (offset + set_length)) [
          | true ↦ ok (count_malformed state)
          | false ↦ do
            next ←
                read_set dialect exporter observed_at message set_id
                  (subarray datagram (offset + set_header_length) (offset + set_length)) state
            read_sets fuel dialect exporter observed_at message datagram (offset + set_length) next
        ]
    ]

unfoldable pub start_state : TemplateCache → State
start_state templates = record { templates = templates; result = empty_result }

unfoldable pub parse_templated : Buffer → Str → ℕ → TemplateCache → Dialect → Checked State
unfolding start_state
parse_templated datagram exporter observed_at templates dialect =
    if ltb (length datagram) dialect.header_length
    then ok (count_malformed (start_state templates))
    else do
      message ← read_message_header dialect datagram
      let state : State = start_state templates
      read_sets (length datagram) dialect exporter observed_at message datagram
          dialect.header_length (if message.mislabelled then count_malformed state else state)

unfoldable pub parse_netflow_v9 : Buffer → Str → ℕ → TemplateCache → Checked State
parse_netflow_v9 datagram exporter observed_at templates =
    parse_templated datagram exporter observed_at templates v9

unfoldable pub parse_ipfix : Buffer → Str → ℕ → TemplateCache → Checked State
parse_ipfix datagram exporter observed_at templates =
    parse_templated datagram exporter observed_at templates ipfix_dialect
