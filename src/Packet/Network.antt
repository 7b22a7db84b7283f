-- ===== src/Packet/Network.antt =====
-- IPv4, IPv6 and ARP headers (api/src/packet/decode.ts). A read past the frame would be a fault; a
-- header that does not fit or is malformed is `none`.
use network_monitoring.Base.{
  ℕ, ◌+◌, ◌-◌, ◌*◌, ◌/◌, ◌%◌, ◌^◌, Bool, ◌||◌, not, Option, none, some, ltb, nat_beq, if◌then◌else◌,
  length,
}
use network_monitoring.Base.Checked.{Checked, ok, ◌>>=◌}
use network_monitoring.Js.Buffer.{Buffer, read_uint8, read_uint16_be, read_uint32_be}
use network_monitoring.Packet.Addresses.{read_mac, read_ipv4, read_ipv6}
use network_monitoring.Packet.Headers.{Ipv4Header, Ipv6Header, ArpHeader}
use network_monitoring.Packet.Names.{ip_protocol_name, format_arp_operation}

-- `(value & 2^k) !== 0`, at the power.
abbrev pub has_bit : ℕ → ℕ → Bool
has_bit value bit = nat_beq (value / bit % 2) 1

unfoldable pub decode_ipv4 : Buffer → ℕ → Checked (Option Ipv4Header)
decode_ipv4 frame offset = if ltb (length frame) (offset + 20) then ok none else do
  version_and_ihl ← read_uint8 frame offset
  if not (nat_beq (version_and_ihl / 16) 4) || ltb (version_and_ihl % 16 * 4) 20
      then ok none
      else do
        flags_and_fragment ← read_uint16_be frame (offset + 6)
        total_length ← read_uint16_be frame (offset + 2)
        protocol ← read_uint8 frame (offset + 9)
        tos ← read_uint8 frame (offset + 1)
        identification ← read_uint16_be frame (offset + 4)
        ttl ← read_uint8 frame (offset + 8)
        header_checksum ← read_uint16_be frame (offset + 10)
        ok (
            some (record {
              version = version_and_ihl / 16;
              header_length = version_and_ihl % 16 * 4;
              tos = tos;
              total_length = if nat_beq total_length 0 then length frame - offset else total_length;
              identification = identification;
              flags = record {
                reserved = has_bit flags_and_fragment 0x8000;
                dont_fragment = has_bit flags_and_fragment 0x4000;
                more_fragment = has_bit flags_and_fragment 0x2000;
              };
              fragment_offset = flags_and_fragment % 0x2000 * 8;
              ttl = ttl;
              protocol = protocol;
              protocol_name = ip_protocol_name protocol;
              header_checksum = header_checksum;
              src_addr = read_ipv4 frame (offset + 12);
              dst_addr = read_ipv4 frame (offset + 16);
            }))

unfoldable pub decode_ipv6 : Buffer → ℕ → Checked (Option Ipv6Header)
decode_ipv6 frame offset = if ltb (length frame) (offset + 40) then ok none else do
  first ← read_uint32_be frame offset
  if not (nat_beq (first / 2 ^ 28) 6) then ok none else do
    next_header ← read_uint8 frame (offset + 6)
    payload_length ← read_uint16_be frame (offset + 4)
    hop_limit ← read_uint8 frame (offset + 7)
    ok (
        some (record {
          version = first / 2 ^ 28;
          traffic_class = first / 2 ^ 20 % 256;
          flow_label = first % 2 ^ 20;
          payload_length =
              if nat_beq payload_length 0 then length frame - offset - 40 else payload_length;
          next_header = next_header;
          next_header_name = ip_protocol_name next_header;
          hop_limit = hop_limit;
          src_addr = read_ipv6 frame (offset + 8);
          dst_addr = read_ipv6 frame (offset + 24);
        }))

unfoldable pub decode_arp : Buffer → ℕ → Checked (Option ArpHeader)
decode_arp frame offset = if ltb (length frame) (offset + 28) then ok none else do
  hardware_addr_length ← read_uint8 frame (offset + 4)
  protocol_addr_length ← read_uint8 frame (offset + 5)
  operation ← read_uint16_be frame (offset + 6)
  if not (nat_beq hardware_addr_length 6) || not (nat_beq protocol_addr_length 4)
      then ok none
      else do
        hardware_type ← read_uint16_be frame offset
        protocol_type ← read_uint16_be frame (offset + 2)
        ok (
            some (record {
              hardware_type = hardware_type;
              protocol_type = protocol_type;
              hardware_addr_length = hardware_addr_length;
              protocol_addr_length = protocol_addr_length;
              operation = operation;
              operation_name = format_arp_operation operation;
              src_hardware_addr = read_mac frame (offset + 8);
              src_protocol_addr = read_ipv4 frame (offset + 14);
              dst_hardware_addr = read_mac frame (offset + 18);
              dst_protocol_addr = read_ipv4 frame (offset + 24);
            }))
