-- ===== src/Packet/Transport.antt =====
-- TCP and UDP (api/src/packet/decode.ts): the header and the payload behind it.
use network_monitoring.Base.{
  ℕ, ◌+◌, ◌*◌, ◌/◌, min, max, some, [], ltb, nat_beq, if◌then◌else◌, length,
}
use network_monitoring.Base.Checked.{Checked, ok, ◌>>=◌}
use network_monitoring.Js.Buffer.{Buffer, read_uint8, read_uint16_be, read_uint32_be, subarray}
use network_monitoring.Packet.Headers.{TcpHeader, UdpHeader, DecodedPacket}
use network_monitoring.Packet.Names.{ip_protocol_tcp, ip_protocol_udp}
use network_monitoring.Packet.Network.{has_bit}

unfoldable pub decode_tcp : Buffer → ℕ → Checked TcpHeader
decode_tcp frame offset = do
  flags ← read_uint8 frame (offset + 13)
  data_offset ← read_uint8 frame (offset + 12)
  src_port ← read_uint16_be frame offset
  dst_port ← read_uint16_be frame (offset + 2)
  sequence_number ← read_uint32_be frame (offset + 4)
  acknowledgment_number ← read_uint32_be frame (offset + 8)
  window ← read_uint16_be frame (offset + 14)
  checksum ← read_uint16_be frame (offset + 16)
  urgent_pointer ← read_uint16_be frame (offset + 18)
  ok (record {
    src_port = src_port;
    dst_port = dst_port;
    sequence_number = sequence_number;
    acknowledgment_number = acknowledgment_number;
    data_offset = data_offset / 16 * 4;
    urg = has_bit flags 0x20;
    ack = has_bit flags 0x10;
    psh = has_bit flags 0x08;
    rst = has_bit flags 0x04;
    syn = has_bit flags 0x02;
    fin = has_bit flags 0x01;
    window = window;
    checksum = checksum;
    urgent_pointer = urgent_pointer;
  })

unfoldable pub decode_udp : Buffer → ℕ → Checked UdpHeader
decode_udp frame offset = do
  src_port ← read_uint16_be frame offset
  dst_port ← read_uint16_be frame (offset + 2)
  length_field ← read_uint16_be frame (offset + 4)
  checksum ← read_uint16_be frame (offset + 6)
  ok (record {
    src_port = src_port;
    dst_port = dst_port;
    length_field = length_field;
    checksum = checksum;
  })

-- The bytes behind a transport header, up to the end of the datagram.
unfoldable pub payload_between : Buffer → ℕ → ℕ → Buffer
payload_between frame start limit = if ltb start limit then subarray frame start limit else []

unfoldable pub transport_limit : Buffer → ℕ → ℕ → ℕ
transport_limit frame offset declared_end =
    min (if ltb offset declared_end then declared_end else length frame) (length frame)

unfoldable pub decode_tcp_segment : DecodedPacket → Buffer → ℕ → ℕ → Checked DecodedPacket
decode_tcp_segment packet frame offset limit =
    if ltb (length frame) (offset + 20) then ok packet else do
      tcp ← decode_tcp frame offset
      ok (record packet {
        tcp = some tcp;
        payload = some (payload_between frame (offset + max 20 tcp.data_offset) limit);
      })

unfoldable pub decode_udp_datagram : DecodedPacket → Buffer → ℕ → ℕ → Checked DecodedPacket
decode_udp_datagram packet frame offset limit =
    if ltb (length frame) (offset + 8) then ok packet else do
      udp ← decode_udp frame offset
      ok (record packet {
        udp = some udp;
        payload = some (payload_between frame (offset + 8) limit);
      })

unfoldable pub decode_transport : DecodedPacket → Buffer → ℕ → ℕ → ℕ → Checked DecodedPacket
decode_transport packet frame offset protocol declared_end =
    let limit = transport_limit frame offset declared_end in
    if nat_beq protocol ip_protocol_tcp
    then decode_tcp_segment packet frame offset limit
    else if nat_beq protocol ip_protocol_udp
    then decode_udp_datagram packet frame offset limit
    else ok packet
