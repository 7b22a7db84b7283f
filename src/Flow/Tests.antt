-- ===== src/Flow/Tests.antt =====
-- Runs of the flow parsers on small datagrams, and the theorems at such inputs.
use network_monitoring.Base.{
  ℕ, ◌≡◌, refl, Option, none, some, List, [], ◌∷◌, ◌++◌, arith, map, replicate, ◌≢◌, ◌==◌, nat_eq,
  list_eq, if◌then◌else◌, Str, codes, true,
}
use network_monitoring.Base.Checked.{Checked, ok, fault}
use network_monitoring.Base.Int.{pos}
use network_monitoring.Js.Buffer.{
  Buffer, read_uint8, read_uint16_be, read_uint32_be, be_at, subarray,
}
use network_monitoring.Js.Map
use network_monitoring.Js.Evicting
use network_monitoring.Js.Number.{to_double, ulp}
use network_monitoring.Js.Text.{to_string, to_string_from, digit}
use network_monitoring.Packet.Names.{ip_protocol_name}
use network_monitoring.Flow.DataSet.{read_data_set, is_padding}
use network_monitoring.Flow.Fields.{Template, element_of, template_fixed_length}
use network_monitoring.Flow.NetflowV9.{
  read_message_header, read_sets, read_set, read_known_data_set, start_state, parse_templated,
  parse_netflow_v9, parse_ipfix,
}
use network_monitoring.Flow.Numbers.{RawTimes, read_unsigned, resolve_times}
use network_monitoring.Flow.Record.{
  decode_record, decode_fields, flow_record, apply_element, measure_field,
}
use network_monitoring.Flow.TemplateSet.{
  read_template_set, read_fields, read_field, store_template, count_malformed, count_pending,
  push_record,
}
use network_monitoring.Flow.Templates
use network_monitoring.Js.Date.{invalid, new_date}
use network_monitoring.Flow.NetflowV5.{parse_netflow_v5, read_records, read_record, read_header}
use network_monitoring.Flow.NetflowV5.Laws.{IsV5Result, parse_netflow_v5-IsV5Result}
use network_monitoring.Flow.Parse.{DispatchResult, parse_flow_datagram, parse_version}
use network_monitoring.Flow.Safety.Datagram.{IsSafe, parse_flow_datagram-IsSafe}
use network_monitoring.Flow.Templates.{
  TemplateCache, TemplateKey, cache_key, get, set, forget_exporter,
}
use network_monitoring.Flow.Templates.Bounds.{get-set_full}
use network_monitoring.Flow.Templates.Keys.{get-forget_exporter}
use network_monitoring.Flow.Times.{IsSane, resolve_times-IsSane, resolve_times-overflow}
use network_monitoring.Flow.Types.{ParseResult, add_malformed}

abbrev exporter : Str
exporter = codes "10.0.0.1"

abbrev cache : TemplateCache
cache = record { max_templates = 2; templates = []; evictions = 0 }

abbrev ipfix_header : Buffer
ipfix_header = 0 ∷ 10 ∷ 0 ∷ 44 ∷ 0 ∷ 0 ∷ 0 ∷ 0 ∷ 0 ∷ 0 ∷ 0 ∷ 0 ∷ 0 ∷ 0 ∷ 0 ∷ 7 ∷ []

-- A template 256 of a source port and a packet count, and a data set with two records of it.
abbrev template_set : Buffer
template_set = 0 ∷ 2 ∷ 0 ∷ 16 ∷ 1 ∷ 0 ∷ 0 ∷ 2 ∷ 0 ∷ 7 ∷ 0 ∷ 2 ∷ 0 ∷ 2 ∷ 0 ∷ 2 ∷ []

abbrev data_set : Buffer
data_set = 1 ∷ 0 ∷ 0 ∷ 12 ∷ 0 ∷ 80 ∷ 0 ∷ 3 ∷ 1 ∷ 187 ∷ 0 ∷ 9 ∷ []

abbrev ipfix_datagram : Buffer
ipfix_datagram = ipfix_header ++ (template_set ++ data_set)

parse_flow_datagram-IsSafe_example :
    (result : DispatchResult) × (parse_flow_datagram ipfix_datagram exporter 1_000 cache
      ≡ ok result)
    × IsSafe ipfix_datagram result
parse_flow_datagram-IsSafe_example =
    parse_flow_datagram-IsSafe ipfix_datagram exporter 1_000 cache (omega arith)

parser : Unit {0}
unfolding parse_flow_datagram parse_version parse_netflow_v9 parse_ipfix parse_templated
    read_message_header read_sets read_set read_known_data_set read_data_set is_padding
    decode_record decode_fields flow_record resolve_times read_unsigned apply_element element_of
    measure_field read_template_set read_fields read_field store_template count_malformed
    count_pending push_record Templates.set Templates.get Templates.cache_key Map.get Map.set
    Map.has Evicting.delete_oldest Map.delete template_fixed_length read_uint8 read_uint16_be
    read_uint32_be be_at subarray to_string to_string_from digit new_date to_double ulp start_state
    ip_protocol_name parse_netflow_v5 read_records read_record read_header add_malformed
parser = tt

abbrev ports : Checked DispatchResult → Option (List ℕ)
ports (ok result) = some (map (λ flow. flow.src_port) result.state.result.records)
ports fault = none

-- The template is learned, and both records are read by it.
learned_template :
    ports (parse_flow_datagram ipfix_datagram exporter 1_000 cache) ≡ some (80 ∷ 443 ∷ [])
unfolding parser
learned_template = refl

-- A v5 datagram that claims two records and holds one.
abbrev v5_datagram : Buffer
v5_datagram =
    0 ∷ 5 ∷ 0 ∷ 2 ∷ 0 ∷ 0 ∷ 0 ∷ 0 ∷ 0 ∷ 0 ∷ 0 ∷ 9 ∷ replicate 12 0
    ++ (10 ∷ 0 ∷ 0 ∷ 1 ∷ 10 ∷ 0 ∷ 0 ∷ 2 ∷ replicate 24 0
        ++ (0 ∷ 80 ∷ 1 ∷ 187 ∷ 0 ∷ 2 ∷ 6 ∷ replicate 9 0))

truncated_v5 : ports (parse_flow_datagram v5_datagram exporter 1_000 cache) ≡ some (80 ∷ [])
unfolding parser
truncated_v5 = refl

parse_netflow_v5-IsV5Result_example :
    (result : ParseResult) × (parse_netflow_v5 v5_datagram exporter 1_000 ≡ ok result)
    × IsV5Result v5_datagram result
parse_netflow_v5-IsV5Result_example = parse_netflow_v5-IsV5Result v5_datagram exporter 1_000

abbrev times : RawTimes
times = record {
  start_ms = some (pos 1_700_000_000_000);
  end_ms = some (pos 8_640_000_000_000_001);
  start_uptime_ms = none;
  end_uptime_ms = none;
}

resolve_times-IsSane_example :
    IsSane (resolve_times times (pos 0) 1_700_000_000_000).0
    × IsSane (resolve_times times (pos 0) 1_700_000_000_000).1
resolve_times-IsSane_example = resolve_times-IsSane times (pos 0) 1_700_000_000_000 (omega arith)

resolve_times-overflow_example : (resolve_times times (pos 0) 1_000).1 ≡ invalid
resolve_times-overflow_example =
    resolve_times-overflow times (pos 0) 1_000 8_640_000_000_000_001 refl (omega arith)

abbrev key : ℕ → TemplateKey
key id = record { exporter = exporter; observation_domain = 7; template_id = id }

abbrev template : ℕ → Template
template id = record { id = id; fields = []; fixed_length = some 0 }

abbrev full_cache : TemplateCache
full_cache = record {
  max_templates = 2;
  templates = (codes "a|1|256", template 256) ∷ (codes "b|1|257", template 257) ∷ [];
  evictions = 0;
}

abbrev newest : TemplateKey
newest = record { exporter = codes "c"; observation_domain = 1; template_id = 258 }

abbrev kept : TemplateKey
kept = record { exporter = codes "b"; observation_domain = 1; template_id = 257 }

full_evicts :
    Evicting.is_full_for full_cache.max_templates (cache_key newest) full_cache.templates ≡ true
unfolding parser Evicting.is_full_for
full_evicts = refl

abbrev oldest : TemplateKey
oldest = record { exporter = codes "a"; observation_domain = 1; template_id = 256 }

oldest-ne-kept : cache_key oldest ≢ cache_key kept
unfolding parser
oldest-ne-kept = ground arith

newest-ne-kept : cache_key newest ≢ cache_key kept
unfolding parser
newest-ne-kept = ground arith

get-set_full_example :
    (get newest (set newest (template 258) full_cache) ≡ some (template 258))
    × (get oldest (set newest (template 258) full_cache) ≡ none)
    × (get kept (set newest (template 258) full_cache) ≡ get kept full_cache)
unfolding parser
get-set_full_example =
    get-set_full newest oldest kept (template 258) (template 256)
      ((codes "b|1|257", template 257) ∷ []) full_cache refl full_evicts oldest-ne-kept
      newest-ne-kept

get-forget_exporter_example :
    get kept (forget_exporter (codes "b") full_cache).0
    ≡ (if kept.exporter == codes "b" then none else get kept full_cache)
get-forget_exporter_example =
    get-forget_exporter (codes "b") kept full_cache (omega arith) (omega arith)
