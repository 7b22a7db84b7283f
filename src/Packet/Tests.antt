-- ===== src/Packet/Tests.antt =====
-- Runs of the frame decoder, and its theorems at such frames.
use network_monitoring.Base.{ℕ, ◌≡◌, refl, Option, none, some, [], ◌∷◌, ◌++◌, replicate, Str, codes}
use mathlib.Core.Option
use network_monitoring.Base.Checked.{Checked, ok, fault, Returns}
use network_monitoring.Js.Buffer.{
  Buffer, read_uint8, read_uint16_be, read_uint32_be, be_at, subarray,
}
use network_monitoring.Js.Text.{to_string, to_string_from, digit, pad_start, join}
use network_monitoring.Js.Map
use network_monitoring.Packet.Addresses.{read_mac, read_ipv4, read_ipv6}
use network_monitoring.Packet.Decode.{
  is_tag, add_vlan, ethernet_header, trailing_bytes, decode_ipv4_layer, decode_ipv6_layer,
  decode_arp_layer, decode_network_layer, unwrap_tags, decode_llc_frame, decode_ethernet,
  decode_bare_ip, decode_packet,
}
use network_monitoring.Packet.Headers.{DecodedPacket, ethernet_link, raw_link, unparsed}
use network_monitoring.Packet.Layering.{decode_packet-IsWellFormed}
use network_monitoring.Packet.Link.{decode_llc, decode_snap_ether_type}
use network_monitoring.Packet.Names.{
  format_ether_type, ip_protocol_name, ether_type_names, ip_protocol_names, named, hex,
}
use network_monitoring.Packet.Network.{decode_ipv4, decode_ipv6, decode_arp}
use network_monitoring.Packet.Safety.{IsCovered, decode_packet-Returns}
use network_monitoring.Packet.Transport.{
  decode_tcp, decode_udp, payload_between, transport_limit, decode_tcp_segment, decode_udp_datagram,
  decode_transport,
}
use network_monitoring.Packet.WellFormed.{IsWellFormed}

decoder : Unit {0}
unfolding decode_packet decode_bare_ip decode_ethernet decode_llc_frame unwrap_tags
    decode_network_layer decode_arp_layer decode_ipv6_layer decode_ipv4_layer trailing_bytes
    add_vlan is_tag ethernet_header unparsed decode_llc decode_snap_ether_type decode_ipv4
    decode_ipv6 decode_arp decode_tcp decode_udp payload_between transport_limit decode_tcp_segment
    decode_udp_datagram decode_transport read_mac read_ipv4 read_ipv6 format_ether_type
    ip_protocol_name ether_type_names ip_protocol_names named hex Map.get read_uint8 read_uint16_be
    read_uint32_be be_at subarray to_string to_string_from digit pad_start join
decoder = tt

-- UDP from port 53 with two bytes of payload, in a 31-byte IPv4 packet of which one byte is padding.
abbrev ip_packet : Buffer
ip_packet =
    69 ∷ 0 ∷ 0 ∷ 30 ∷ 0 ∷ 1 ∷ 0x40 ∷ 0 ∷ 64 ∷ 17 ∷ 0 ∷ 0 ∷ 10 ∷ 0 ∷ 0 ∷ 1 ∷ 10 ∷ 0 ∷ 0 ∷ 2 ∷ 0 ∷ 53
    ∷ 4 ∷ 0 ∷ 0 ∷ 10 ∷ 0 ∷ 0 ∷ 7 ∷ 8 ∷ 0 ∷ []

-- The same in a frame with a VLAN tag.
abbrev tagged_frame : Buffer
tagged_frame = replicate 12 2 ++ (0x81 ∷ 0 ∷ 0x20 ∷ 5 ∷ 8 ∷ 0 ∷ ip_packet)

abbrev seen : DecodedPacket → Option Str × Option ℕ × Option ℕ × Option Buffer × Buffer
seen packet = (
  Option.map (λ ip. ip.dst_addr) packet.ipv4,
  Option.map (λ udp. udp.src_port) packet.udp,
  Option.map (λ vlan. vlan.vid) packet.vlan,
  packet.payload,
  packet.ethernet_pad,
)

abbrev outcome :
    Checked DecodedPacket → Option (Option Str × Option ℕ × Option ℕ × Option Buffer × Buffer)
outcome (ok packet) = some (seen packet)
outcome fault = none

decoded_frame :
    outcome (decode_packet tagged_frame 0 ethernet_link)
    ≡ some (some (codes "10.0.0.2"), some 53, some 5, some (7 ∷ 8 ∷ []), 0 ∷ [])
unfolding decoder Option.map
decoded_frame = refl

decode_packet-Returns_example :
    Returns (decode_packet tagged_frame 0 ethernet_link)
    × IsCovered 20 tagged_frame 18 (decode_ipv4 tagged_frame 18)
    × IsCovered 40 tagged_frame 18 (decode_ipv6 tagged_frame 18)
    × IsCovered 28 tagged_frame 18 (decode_arp tagged_frame 18)
decode_packet-Returns_example = decode_packet-Returns tagged_frame 0 ethernet_link 18

abbrev the_packet : Checked DecodedPacket → DecodedPacket
the_packet (ok packet) = packet
the_packet fault = unparsed [] 0 ethernet_link

decodes : decode_packet ip_packet 0 raw_link ≡ ok (the_packet (decode_packet ip_packet 0 raw_link))
unfolding decoder
decodes = refl

decode_packet-IsWellFormed_example :
    IsWellFormed ip_packet (the_packet (decode_packet ip_packet 0 raw_link))
decode_packet-IsWellFormed_example =
    decode_packet-IsWellFormed ip_packet 0 raw_link
      (the_packet (decode_packet ip_packet 0 raw_link)) decodes
