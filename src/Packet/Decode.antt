-- ===== src/Packet/Decode.antt =====
-- The frame decoder (api/src/packet/decode.ts): the link layer, the tags and the switch on the
-- EtherType, over the layers of Link, Network and Transport.
use network_monitoring.Base.{
  ℕ, zero, suc, ◌+◌, ◌/◌, ◌%◌, Bool, true, false, ◌||◌, Option, none, some, [], ltb, leb, nat_beq,
  if◌then◌else◌, length, Str, codes,
}
use network_monitoring.Base.Checked.{Checked, ok, ◌>>=◌}
use network_monitoring.Js.Buffer.{Buffer, read_uint8, read_uint16_be, subarray}
use network_monitoring.Packet.Addresses.{read_mac}
use network_monitoring.Packet.Headers.{
  EthernetHeader, VlanHeader, LinkType, ethernet_link, null_link, loop_link, raw_link,
  DecodedPacket, unparsed,
}
use network_monitoring.Packet.Names.{
  format_ether_type, ether_type_ipv4, ether_type_arp, ether_type_rarp, ether_type_dot1q,
  ether_type_ipv6, ether_type_qinq,
}
use network_monitoring.Packet.Link.{decode_llc, decode_snap_ether_type}
use network_monitoring.Packet.Network.{decode_ipv4, decode_ipv6, decode_arp}
use network_monitoring.Packet.Transport.{decode_transport}

abbrev pub ethernet_header_length : ℕ
ethernet_header_length = 14

unfoldable pub trailing_bytes : Buffer → ℕ → Buffer
trailing_bytes frame declared_end =
    if leb declared_end 0 || leb (length frame) declared_end
    then []
    else subarray frame declared_end (length frame)

-- One case of the switch on the EtherType each.
unfoldable pub decode_ipv4_layer : DecodedPacket → Buffer → ℕ → Checked DecodedPacket
decode_ipv4_layer packet frame offset = do
  header ← decode_ipv4 frame offset
  elim header [
    | none ↦ ok (record packet { ipv4 = none })
    | some ip ↦ do
      decoded ←
          decode_transport (record packet { ipv4 = some ip }) frame (offset + ip.header_length)
            ip.protocol (offset + ip.total_length)
      ok (record decoded { ethernet_pad = trailing_bytes frame (offset + ip.total_length) })
  ]

unfoldable pub decode_ipv6_layer : DecodedPacket → Buffer → ℕ → Checked DecodedPacket
decode_ipv6_layer packet frame offset = do
  header ← decode_ipv6 frame offset
  elim header [
    | none ↦ ok (record packet { ipv6 = none })
    | some ip ↦ do
      decoded ←
          decode_transport (record packet { ipv6 = some ip }) frame (offset + 40) ip.next_header
            (offset + 40 + ip.payload_length)
      ok (record decoded { ethernet_pad = trailing_bytes frame (offset + 40 + ip.payload_length) })
  ]

unfoldable pub decode_arp_layer : DecodedPacket → Buffer → ℕ → Checked DecodedPacket
decode_arp_layer packet frame offset = do
  header ← decode_arp frame offset
  elim header [
    | none ↦ ok (record packet { arp = none })
    | some arp ↦
        ok (record packet { arp = some arp; ethernet_pad = trailing_bytes frame (offset + 28) })
  ]

unfoldable pub decode_network_layer : DecodedPacket → Buffer → ℕ → ℕ → Checked DecodedPacket
decode_network_layer packet frame offset ether_type =
    if nat_beq ether_type ether_type_ipv4
    then decode_ipv4_layer packet frame offset
    else if nat_beq ether_type ether_type_ipv6
    then decode_ipv6_layer packet frame offset
    else if nat_beq ether_type ether_type_arp || nat_beq ether_type ether_type_rarp
    then decode_arp_layer packet frame offset
    else ok packet

unfoldable pub is_tag : ℕ → Bool
is_tag ether_type = nat_beq ether_type ether_type_dot1q || nat_beq ether_type ether_type_qinq

-- The first tag seen is the one that is kept.
abbrev or_vlan : Option VlanHeader → VlanHeader → VlanHeader
or_vlan none header = header
or_vlan (some old) header = old

unfoldable pub add_vlan : DecodedPacket → ℕ → ℕ → DecodedPacket
add_vlan packet tag inner = record packet {
  vlan = some (
      or_vlan packet.vlan (record {
        priority = tag / 0x2000 % 8;
        cfi = tag / 0x1000 % 2;
        vid = tag % 0x1000;
        type = format_ether_type inner;
      }));
}

-- The loop over 802.1Q and 802.1ad tags, by the rounds that `tagGuard` leaves, and the network layer
-- behind them.
unfoldable pub unwrap_tags : ℕ → DecodedPacket → Buffer → ℕ → ℕ → Checked DecodedPacket
unwrap_tags zero packet frame offset ether_type =
    decode_network_layer packet frame offset ether_type
unwrap_tags (suc rounds) packet frame offset ether_type = elim (is_tag ether_type) [
  | false ↦ decode_network_layer packet frame offset ether_type
  | true ↦ elim (ltb (length frame) (offset + 4)) [
    | true ↦ ok packet
    | false ↦ do
      tag ← read_uint16_be frame offset
      inner ← read_uint16_be frame (offset + 2)
      unwrap_tags rounds (add_vlan packet tag inner) frame (offset + 4) inner
  ]
]

-- An 802.3 frame: a SNAP header carries the EtherType, and without one the packet ends here.
unfoldable pub decode_llc_frame : DecodedPacket → Buffer → Checked DecodedPacket
decode_llc_frame packet frame = do
  llc ← decode_llc frame ethernet_header_length
  snap ← decode_snap_ether_type frame ethernet_header_length
  elim snap [
    | none ↦ ok (record packet { llc = llc })
    | some (ether_type, next_offset) ↦
        unwrap_tags 4 (record packet { llc = llc }) frame next_offset ether_type
  ]

unfoldable pub ethernet_header : Buffer → ℕ → EthernetHeader
ethernet_header frame type_or_length = record {
  destination_address = read_mac frame 0;
  source_address = read_mac frame 6;
  type = format_ether_type type_or_length;
  type_value = type_or_length;
}

unfoldable pub decode_ethernet : DecodedPacket → Buffer → Checked DecodedPacket
decode_ethernet packet frame = do
  type_or_length ← read_uint16_be frame 12
  let framed : DecodedPacket = record packet {
    ethernet = some (ethernet_header frame type_or_length);
  }
  if leb type_or_length 0x05dc
      then decode_llc_frame framed frame
      else unwrap_tags 4 framed frame ethernet_header_length type_or_length

-- The IP packet of a loopback or raw frame, by the version nibble.
unfoldable pub decode_bare_ip : DecodedPacket → Buffer → ℕ → Checked DecodedPacket
decode_bare_ip packet frame ip_offset = if leb (length frame) ip_offset then ok packet else do
  first ← read_uint8 frame ip_offset
  if nat_beq (first / 16 % 16) 4
      then decode_network_layer packet frame ip_offset ether_type_ipv4
      else if nat_beq (first / 16 % 16) 6
      then decode_network_layer packet frame ip_offset ether_type_ipv6
      else ok packet

unfoldable pub decode_packet : Buffer → ℕ → LinkType → Checked DecodedPacket
decode_packet frame timestamp ethernet_link =
    if ltb (length frame) ethernet_header_length
    then ok (unparsed frame timestamp ethernet_link)
    else decode_ethernet (unparsed frame timestamp ethernet_link) frame
decode_packet frame timestamp raw_link = decode_bare_ip (unparsed frame timestamp raw_link) frame 0
decode_packet frame timestamp null_link =
    decode_bare_ip (unparsed frame timestamp null_link) frame 4
decode_packet frame timestamp loop_link =
    decode_bare_ip (unparsed frame timestamp loop_link) frame 4

-- `ipAddresses` and `protocolOf`
unfoldable pub ip_addresses : DecodedPacket → Option Str × Option Str
ip_addresses packet = elim packet.ipv4 [
  | some ip ↦ (some ip.src_addr, some ip.dst_addr)
  | none ↦ elim packet.ipv6 [ some ip ↦ (some ip.src_addr, some ip.dst_addr) | none ↦ (none, none) ]
]

unfoldable pub protocol_of : DecodedPacket → Str
protocol_of packet = elim packet.ipv4 [
  | some ip ↦ ip.protocol_name
  | none ↦ elim packet.ipv6 [ some ip ↦ ip.next_header_name | none ↦ codes "Unknown Protocol" ]
]
