-- ===== src/Flow/NetflowV5.antt =====
-- The NetFlow v5 parser (api/src/flow/netflow-v5.ts). A read past the datagram would be a fault.
pub mod Laws
use network_monitoring.Base.{
  ℕ, zero, suc, ◌+◌, ◌-◌, ◌*◌, ◌/◌, min, Option, none, some, List, [], ◌∷◌, ltb, if◌then◌else◌,
  length, Str,
}
use network_monitoring.Base.Checked.{Checked, ok, ◌>>=◌}
use network_monitoring.Base.Int.{ℤ, pos, sub_ℕ, ◌+ℤ◌}
use network_monitoring.Js.Buffer.{Buffer, read_uint8, read_uint16_be, read_uint32_be}
use network_monitoring.Js.Date.{new_date}
use network_monitoring.Packet.Addresses.{read_ipv4}
use network_monitoring.Packet.Names.{ip_protocol_name}
use network_monitoring.Flow.Types.{FlowRecord, netflow5, ParseResult, empty_result, add_malformed}

abbrev pub v5_header_length : ℕ
v5_header_length = 24

abbrev pub v5_record_length : ℕ
v5_record_length = 48

abbrev pub v5_max_records : ℕ
v5_max_records = 30

-- What every record of a datagram shares.
pub record V5Context : Type 0 where
  pub exporter : Str
  pub engine_id : ℕ
  pub boot_ms : ℤ
  pub observed_at : ℕ

unfoldable pub read_record : Buffer → V5Context → ℕ → Checked FlowRecord
read_record datagram context offset = do
  protocol ← read_uint8 datagram (offset + 38)
  src_port ← read_uint16_be datagram (offset + 32)
  dst_port ← read_uint16_be datagram (offset + 34)
  packets ← read_uint32_be datagram (offset + 16)
  bytes ← read_uint32_be datagram (offset + 20)
  tcp_flags ← read_uint8 datagram (offset + 37)
  ingress_interface ← read_uint16_be datagram (offset + 12)
  egress_interface ← read_uint16_be datagram (offset + 14)
  first ← read_uint32_be datagram (offset + 24)
  last ← read_uint32_be datagram (offset + 28)
  ok (record {
    exporter = context.exporter;
    observation_domain = context.engine_id;
    protocol_version = netflow5;
    protocol = protocol;
    protocol_name = ip_protocol_name protocol;
    src_ip = some (read_ipv4 datagram offset);
    dst_ip = some (read_ipv4 datagram (offset + 4));
    src_port = src_port;
    dst_port = dst_port;
    packets = packets;
    bytes = bytes;
    tcp_flags = some tcp_flags;
    src_mac = none;
    dst_mac = none;
    ingress_interface = some ingress_interface;
    egress_interface = some egress_interface;
    start = new_date (context.boot_ms +ℤ pos first);
    end = new_date (context.boot_ms +ℤ pos last);
    observed_at = context.observed_at;
  })

-- The loop over the records, from `index`, by the records left.
unfoldable pub read_records : Buffer → V5Context → ℕ → ℕ → Checked (List FlowRecord)
read_records datagram context index zero = ok []
read_records datagram context index (suc left) = do
  head ← read_record datagram context (v5_header_length + index * v5_record_length)
  rest ← read_records datagram context (index + 1) left
  ok (head ∷ rest)

abbrev pub available : Buffer → ℕ
available datagram = (length datagram - v5_header_length) / v5_record_length

abbrev pub record_count : Buffer → ℕ → ℕ
record_count datagram claimed = min (min claimed (available datagram)) v5_max_records

-- The claimed count, and the time at which the exporter booted.
unfoldable pub read_header : Buffer → Str → ℕ → Checked (ℕ × V5Context)
read_header datagram exporter observed_at = do
  claimed ← read_uint16_be datagram 2
  sys_uptime_ms ← read_uint32_be datagram 4
  unix_seconds ← read_uint32_be datagram 8
  unix_nanos ← read_uint32_be datagram 12
  engine_id ← read_uint8 datagram 21
  ok (
    claimed,
    record {
      exporter = exporter;
      engine_id = engine_id;
      boot_ms = sub_ℕ (unix_seconds * 1000 + unix_nanos / 1_000_000) sys_uptime_ms;
      observed_at = observed_at;
    },
  )

unfoldable pub parse_netflow_v5 : Buffer → Str → ℕ → Checked ParseResult
parse_netflow_v5 datagram exporter observed_at =
    if ltb (length datagram) v5_header_length then ok (add_malformed empty_result) else do
      (claimed, context) ← read_header datagram exporter observed_at
      records ← read_records datagram context 0 (record_count datagram claimed)
      ok (record {
        records = records;
        pending_templates = 0;
        malformed = if ltb (record_count datagram claimed) claimed then 1 else 0;
      })
