-- ===== src/Flow/Record.antt =====
-- Decoding one data record by its template (api/src/flow/netflow-v9.ts: decodeRecord).
use network_monitoring.Base.{
  ℕ, ◌+◌, ◌-◌, ◌*◌, true, false, Option, none, some, List, [], ◌∷◌, ltb, leb, nat_beq,
  if◌then◌else◌, length, Str,
}
use network_monitoring.Base.Checked.{Checked, ok, ◌>>=◌}
use network_monitoring.Base.Int.{ℤ, pos}
use network_monitoring.Js.Buffer.{Buffer, read_uint8, read_uint16_be}
use network_monitoring.Js.Number.{to_double}
use network_monitoring.Packet.Addresses.{read_mac, read_ipv4, read_ipv6}
use network_monitoring.Packet.Names.{ip_protocol_name}
use network_monitoring.Flow.Fields.{
  InformationElement, TemplateField, Template, variable_length, element_of,
}
use network_monitoring.Flow.Numbers.{
  read_unsigned, ntp_to_unix_ms, RawTimes, no_times, resolve_times,
}
use network_monitoring.Flow.Types.{FlowRecord, FlowProtocol}

-- The local variables of the decoder.
pub record FieldValues : Type 0 where
  pub protocol : ℕ
  pub src_ip : Option Str
  pub dst_ip : Option Str
  pub src_port : ℕ
  pub dst_port : ℕ
  pub packets : ℕ
  pub bytes : ℕ
  pub tcp_flags : Option ℕ
  pub src_mac : Option Str
  pub dst_mac : Option Str
  pub ingress_interface : Option ℕ
  pub egress_interface : Option ℕ
  pub times : RawTimes

abbrev pub no_fields : FieldValues
no_fields = record {
  protocol = 0;
  src_ip = none;
  dst_ip = none;
  src_port = 0;
  dst_port = 0;
  packets = 0;
  bytes = 0;
  tcp_flags = none;
  src_mac = none;
  dst_mac = none;
  ingress_interface = none;
  egress_interface = none;
  times = no_times;
}

-- An address where the field is long enough, and what stood before where it is not.
abbrev pub long_enough : ℕ → ℕ → Str → Option Str → Option Str
long_enough least length_field read old = if leb least length_field then some read else old

abbrev pub with_times : FieldValues → RawTimes → FieldValues
with_times fields times = record fields { times = times }

-- The switch on the information element.
unfoldable pub apply_element :
    InformationElement → Buffer → ℕ → ℕ → FieldValues → Checked FieldValues
apply_element InformationElement.protocol_identifier body offset len f = do
  value ← read_unsigned body offset len
  ok (record f { protocol = value })
apply_element InformationElement.source_ipv4_address body offset len f =
    ok (record f { src_ip = long_enough 4 len (read_ipv4 body offset) f.src_ip })
apply_element InformationElement.destination_ipv4_address body offset len f =
    ok (record f { dst_ip = long_enough 4 len (read_ipv4 body offset) f.dst_ip })
apply_element InformationElement.source_ipv6_address body offset len f =
    ok (record f { src_ip = long_enough 16 len (read_ipv6 body offset) f.src_ip })
apply_element InformationElement.destination_ipv6_address body offset len f =
    ok (record f { dst_ip = long_enough 16 len (read_ipv6 body offset) f.dst_ip })
apply_element InformationElement.source_transport_port body offset len f = do
  value ← read_unsigned body offset len
  ok (record f { src_port = value })
apply_element InformationElement.destination_transport_port body offset len f = do
  value ← read_unsigned body offset len
  ok (record f { dst_port = value })
apply_element InformationElement.packet_delta_count body offset len f = do
  value ← read_unsigned body offset len
  ok (record f { packets = value })
apply_element InformationElement.packet_total_count body offset len f = do
  value ← read_unsigned body offset len
  ok (record f { packets = value })
apply_element InformationElement.octet_delta_count body offset len f = do
  value ← read_unsigned body offset len
  ok (record f { bytes = value })
apply_element InformationElement.octet_total_count body offset len f = do
  value ← read_unsigned body offset len
  ok (record f { bytes = value })
apply_element InformationElement.tcp_control_bits body offset len f = do
  value ← read_unsigned body offset len
  ok (record f { tcp_flags = some value })
apply_element InformationElement.source_mac_address body offset len f =
    ok (record f { src_mac = long_enough 6 len (read_mac body offset) f.src_mac })
apply_element InformationElement.destination_mac_address body offset len f =
    ok (record f { dst_mac = long_enough 6 len (read_mac body offset) f.dst_mac })
apply_element InformationElement.ingress_interface body offset len f = do
  value ← read_unsigned body offset len
  ok (record f { ingress_interface = some value })
apply_element InformationElement.egress_interface body offset len f = do
  value ← read_unsigned body offset len
  ok (record f { egress_interface = some value })
apply_element InformationElement.flow_start_sys_up_time body offset len f = do
  value ← read_unsigned body offset len
  let times : RawTimes = f.times
  ok (with_times f (record times { start_uptime_ms = some value }))
apply_element InformationElement.flow_end_sys_up_time body offset len f = do
  value ← read_unsigned body offset len
  let times : RawTimes = f.times
  ok (with_times f (record times { end_uptime_ms = some value }))
apply_element InformationElement.flow_start_seconds body offset len f = do
  value ← read_unsigned body offset len
  let times : RawTimes = f.times
  ok (with_times f (record times { start_ms = some (pos (to_double (value * 1000))) }))
apply_element InformationElement.flow_end_seconds body offset len f = do
  value ← read_unsigned body offset len
  let times : RawTimes = f.times
  ok (with_times f (record times { end_ms = some (pos (to_double (value * 1000))) }))
apply_element InformationElement.flow_start_milliseconds body offset len f = do
  value ← read_unsigned body offset len
  let times : RawTimes = f.times
  ok (with_times f (record times { start_ms = some (pos value) }))
apply_element InformationElement.flow_end_milliseconds body offset len f = do
  value ← read_unsigned body offset len
  let times : RawTimes = f.times
  ok (with_times f (record times { end_ms = some (pos value) }))
apply_element InformationElement.flow_start_microseconds body offset len f = do
  value ← ntp_to_unix_ms body offset len
  let times : RawTimes = f.times
  ok (with_times f (record times { start_ms = value }))
apply_element InformationElement.flow_end_microseconds body offset len f = do
  value ← ntp_to_unix_ms body offset len
  let times : RawTimes = f.times
  ok (with_times f (record times { end_ms = value }))
apply_element InformationElement.other body offset len f = ok f

-- RFC 7011 §7: the length in one byte, or 255 and the length in two; `none` where it is cut off.
unfoldable pub long_length : Buffer → ℕ → Checked (Option (ℕ × ℕ))
long_length body offset =
    if ltb (length body) (offset + 2)
    then ok none
    else do long ← read_uint16_be body offset; ok (some (long, offset + 2))

unfoldable pub variable_field : Buffer → ℕ → Checked (Option (ℕ × ℕ))
unfolding long_length
variable_field body offset = if leb (length body) offset then ok none else do
  short ← read_uint8 body offset
  if nat_beq short 255 then long_length body (offset + 1) else ok (some (short, offset + 1))

-- The length of a field and the offset of its value.
unfoldable pub measure_field : TemplateField → Buffer → ℕ → Checked (Option (ℕ × ℕ))
unfolding variable_field
measure_field field body offset =
    if nat_beq field.length_field variable_length
    then variable_field body offset
    else ok (some (field.length_field, offset))

-- An enterprise field is stepped over.
abbrev pub apply_field : Option ℕ → ℕ → Buffer → ℕ → ℕ → FieldValues → Checked FieldValues
apply_field (some enterprise) element body offset len f = ok f
apply_field none element body offset len f = apply_element (element_of element) body offset len f

-- The loop over the template's fields: the values, and the offset behind the record.
unfoldable pub decode_fields :
    List TemplateField → Buffer → ℕ → FieldValues → Checked (Option (FieldValues × ℕ))
decode_fields [] body offset f = ok (some (f, offset))
decode_fields (field ∷ rest) body offset f = do
  measured ← measure_field field body offset
  elim measured [
    | none ↦ ok none
    | some (len, start) ↦ elim (ltb (length body) (start + len)) [
      | true ↦ ok none
      | false ↦ do
        f' ← apply_field field.enterprise field.information_element body start len f
        decode_fields rest body (start + len) f'
    ]
  ]

pub record DataSetContext : Type 0 where
  pub exporter : Str
  pub observation_domain : ℕ
  pub protocol_version : FlowProtocol
  pub boot_ms : ℤ
  pub observed_at : ℕ

unfoldable pub flow_record : FieldValues → DataSetContext → FlowRecord
flow_record f context =
    let (start, end) = resolve_times f.times context.boot_ms context.observed_at in
    record {
      exporter = context.exporter;
      observation_domain = context.observation_domain;
      protocol_version = context.protocol_version;
      protocol = f.protocol;
      protocol_name = ip_protocol_name f.protocol;
      src_ip = f.src_ip;
      dst_ip = f.dst_ip;
      src_port = f.src_port;
      dst_port = f.dst_port;
      packets = f.packets;
      bytes = f.bytes;
      tcp_flags = f.tcp_flags;
      src_mac = f.src_mac;
      dst_mac = f.dst_mac;
      ingress_interface = f.ingress_interface;
      egress_interface = f.egress_interface;
      start = start;
      end = end;
      observed_at = context.observed_at;
    }

-- The record, and the offset behind it.
unfoldable pub decode_record :
    Buffer → ℕ → Template → DataSetContext → Checked (Option (FlowRecord × ℕ))
decode_record body start template context = do
  decoded ← decode_fields template.fields body start no_fields
  elim decoded [
    | none ↦ ok none
    | some (f, offset) ↦ ok (some (flow_record f context, offset - start))
  ]
