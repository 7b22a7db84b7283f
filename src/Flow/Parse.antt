-- ===== src/Flow/Parse.antt =====
-- Dispatch on the version word, and the test for sFlow (api/src/flow/parse.ts).
use network_monitoring.Base.{
  ℕ, Bool, false, ◌&&◌, ◌||◌, Option, none, some, ltb, nat_beq, if◌then◌else◌, length, Str, codes,
}
use network_monitoring.Base.Checked.{Checked, ok, ◌>>=◌}
use network_monitoring.Js.Buffer.{Buffer, read_uint16_be, read_uint32_be}
use network_monitoring.Flow.NetflowV5.{parse_netflow_v5}
use network_monitoring.Flow.NetflowV9.{parse_netflow_v9, parse_ipfix}
use network_monitoring.Flow.Templates.{TemplateCache}
use network_monitoring.Flow.TemplateSet.{State}
use network_monitoring.Flow.Types.{ParseResult, empty_result, add_malformed}

-- The result with the cache as the parser leaves it.
pub record DispatchResult : Type 0 where
  pub state : State
  pub version : ℕ
  pub unsupported : Option Str

unfoldable pub known_unsupported : ℕ → Option Str
known_unsupported version =
    if nat_beq version 1
    then some (codes "NetFlow v1")
    else if nat_beq version 7
    then some (codes "NetFlow v7")
    else if nat_beq version 8
    then some (codes "NetFlow v8 (aggregated)")
    else none

abbrev pub dispatched : ℕ → Option Str → State → DispatchResult
dispatched version unsupported state = record {
  state = state;
  version = version;
  unsupported = unsupported;
}

abbrev pub unread : TemplateCache → ParseResult → State
unread templates result = record { templates = templates; result = result }

abbrev pub unsupported_version : TemplateCache → ℕ → Option Str → DispatchResult
unsupported_version templates version none =
    dispatched version none (unread templates (add_malformed empty_result))
unsupported_version templates version (some name) =
    dispatched version (some name) (unread templates empty_result)

unfoldable pub parse_version : ℕ → Buffer → Str → ℕ → TemplateCache → Checked DispatchResult
parse_version version datagram exporter observed_at templates =
    if nat_beq version 5
    then (parse_netflow_v5 datagram exporter observed_at >>= λ result.
        ok (dispatched version none (unread templates result)))
    else if nat_beq version 9
    then (parse_netflow_v9 datagram exporter observed_at templates >>= λ state.
        ok (dispatched version none state))
    else if nat_beq version 10
    then (parse_ipfix datagram exporter observed_at templates >>= λ state.
        ok (dispatched version none state))
    else ok (unsupported_version templates version (known_unsupported version))

unfoldable pub parse_flow_datagram : Buffer → Str → ℕ → TemplateCache → Checked DispatchResult
parse_flow_datagram datagram exporter observed_at templates =
    if ltb (length datagram) 4
    then ok (dispatched 0 none (unread templates (add_malformed empty_result)))
    else do
      version ← read_uint16_be datagram 0
      parse_version version datagram exporter observed_at templates

unfoldable pub looks_like_sflow : Buffer → Checked Bool
looks_like_sflow datagram = if ltb (length datagram) 12 then ok false else do
  version ← read_uint32_be datagram 0
  address_type ← read_uint32_be datagram 4
  ok (nat_beq version 5 && (nat_beq address_type 1 || nat_beq address_type 2))
