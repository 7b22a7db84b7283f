-- ===== src/Packet/Layering.antt =====
-- How the layers of a decoded packet fit together (api/src/packet/decode.ts).
use network_monitoring.Packet.Bare.{
  IsBare, with_pad-IsWellFormed, IsWellFormed-of_IsBare, relink-IsBare, add_vlan-IsBare,
}
use network_monitoring.Base.{
  ℕ, zero, suc, ◌+◌, ◌≡◌, refl, none, some, arith, length, ltb, Bool-cases, inl, inr,
}
use network_monitoring.Base.Checked.{ok, Ensures, Ensures-bind, Ensures-after, Ensures-value}
use network_monitoring.Js.Buffer.{Buffer, read_uint16_be}
use network_monitoring.Packet.Decode.{
  is_tag, add_vlan, ethernet_header, decode_ipv4_layer, decode_ipv6_layer, decode_arp_layer,
  decode_network_layer, unwrap_tags, decode_llc_frame, decode_ethernet, decode_bare_ip,
  decode_packet,
}
use network_monitoring.Packet.Headers.{
  Ipv4Header, Ipv6Header, unparsed, DecodedPacket, LinkType, ethernet_link, raw_link, null_link,
  loop_link,
}
use network_monitoring.Packet.Link.{decode_llc, decode_snap_ether_type}
use network_monitoring.Packet.Network.{decode_ipv4, decode_ipv6, decode_arp}
use network_monitoring.Packet.WellFormed.{
  IsWellFormed, IsIp, nothing-IsSlice, trailing_bytes-IsSlice, decode_transport-IsWellFormed,
}

module _ (frame : Buffer) (packet : DecodedPacket) (bare : IsBare frame packet) where
  with_ipv4-IsIp : (ip : Ipv4Header) → IsIp frame (record packet { ipv4 = some ip })
  with_ipv4-IsIp ip = record {
    one_ip = rw bare.ipv6 refl;
    any_ip = refl;
    arp = bare.arp;
    tcp = bare.tcp;
    udp = bare.udp;
    payload = bare.payload;
    pad_cut = bare.pad_cut;
  }

  with_ipv6-IsIp : (ip : Ipv6Header) → IsIp frame (record packet { ipv6 = some ip })
  with_ipv6-IsIp ip = record {
    one_ip = rw bare.ipv4 refl;
    any_ip = rw bare.ipv4 refl;
    arp = bare.arp;
    tcp = bare.tcp;
    udp = bare.udp;
    payload = bare.payload;
    pad_cut = bare.pad_cut;
  }

  module _ (offset : ℕ) where
    decode_ipv4_layer-IsWellFormed :
        Ensures (IsWellFormed frame) (decode_ipv4_layer packet frame offset)
    unfolding decode_ipv4_layer
    decode_ipv4_layer-IsWellFormed =
        Ensures-bind (IsWellFormed frame) (decode_ipv4 frame offset) _ (elim [
          | none ↦ λ _. IsWellFormed-of_IsBare (rw (← bare.ipv4) bare)
          | some ip ↦ λ _.
              Ensures-after (IsWellFormed frame) (IsWellFormed frame) _ _
                (decode_transport-IsWellFormed _ frame (with_ipv4-IsIp ip) _ _ _)
                (λ decoded h. with_pad-IsWellFormed frame decoded (offset + ip.total_length) h)
        ])

    decode_ipv6_layer-IsWellFormed :
        Ensures (IsWellFormed frame) (decode_ipv6_layer packet frame offset)
    unfolding decode_ipv6_layer
    decode_ipv6_layer-IsWellFormed =
        Ensures-bind (IsWellFormed frame) (decode_ipv6 frame offset) _ (elim [
          | none ↦ λ _. IsWellFormed-of_IsBare (rw (← bare.ipv6) bare)
          | some ip ↦ λ _.
              Ensures-after (IsWellFormed frame) (IsWellFormed frame) _ _
                (decode_transport-IsWellFormed _ frame (with_ipv6-IsIp ip) _ _ _)
                (λ decoded h.
                  with_pad-IsWellFormed frame decoded (offset + 40 + ip.payload_length) h)
        ])

    decode_arp_layer-IsWellFormed :
        Ensures (IsWellFormed frame) (decode_arp_layer packet frame offset)
    unfolding decode_arp_layer
    decode_arp_layer-IsWellFormed =
        Ensures-bind (IsWellFormed frame) (decode_arp frame offset) _ (elim [
          | none ↦ λ _. IsWellFormed-of_IsBare (rw (← bare.arp) bare)
          | some arp ↦ λ _. record {
            one_ip = rw bare.ipv4 refl;
            arp_alone = rw (bare.ipv4, bare.ipv6) refl;
            one_transport = rw bare.tcp refl;
            over_ip = rw (bare.tcp, bare.udp) refl;
            carried = rw (bare.payload, bare.tcp, bare.udp) refl;
            payload_cut = rw bare.payload tt;
            pad_cut = trailing_bytes-IsSlice frame (offset + 28);
          }
        ])

    decode_network_layer-IsWellFormed :
        (ether_type : ℕ)
        → Ensures (IsWellFormed frame) (decode_network_layer packet frame offset ether_type)
    unfolding decode_network_layer
    decode_network_layer-IsWellFormed ether_type = ground (
      arith,
      decode_ipv4_layer-IsWellFormed,
      decode_ipv6_layer-IsWellFormed,
      decode_arp_layer-IsWellFormed,
      IsWellFormed-of_IsBare bare,
    )

unwrap_tags-IsWellFormed :
    (rounds : ℕ) (packet : DecodedPacket) (frame : Buffer) (offset ether_type : ℕ)
    → IsBare frame packet
    → Ensures (IsWellFormed frame) (unwrap_tags rounds packet frame offset ether_type)
unfolding unwrap_tags
unwrap_tags-IsWellFormed zero packet frame offset ether_type bare =
    decode_network_layer-IsWellFormed frame packet bare offset ether_type
unwrap_tags-IsWellFormed (suc rounds) packet frame offset ether_type bare =
    elim (Bool-cases (is_tag ether_type)) [
      | inr other ↦
          rw (other, unwrap_tags)
            (decode_network_layer-IsWellFormed frame packet bare offset ether_type)
      | inl tagged ↦ elim (Bool-cases (ltb (length frame) (offset + 4))) [
        | inl short ↦
            rw (tagged, unwrap_tags) (rw (short, unwrap_tags) (IsWellFormed-of_IsBare bare))
        | inr fits ↦
            rw (tagged, fits, unwrap_tags)
              (Ensures-bind (IsWellFormed frame) (read_uint16_be frame offset) _ λ tag _.
                Ensures-bind (IsWellFormed frame) (read_uint16_be frame (offset + 2)) _ λ inner _.
                  unwrap_tags-IsWellFormed rounds (add_vlan packet tag inner) frame (offset + 4)
                    inner (add_vlan-IsBare tag inner bare))
      ]
    ]

module _ (frame : Buffer) (packet : DecodedPacket) (bare : IsBare frame packet) where
  decode_llc_frame-IsWellFormed : Ensures (IsWellFormed frame) (decode_llc_frame packet frame)
  unfolding decode_llc_frame
  decode_llc_frame-IsWellFormed = Ensures-bind (IsWellFormed frame) (decode_llc frame 14) _ λ llc _.
      Ensures-bind (IsWellFormed frame) (decode_snap_ether_type frame 14) _ (elim [
        | none ↦ λ _. IsWellFormed-of_IsBare (relink-IsBare _ _ _ bare)
        | some (ether_type, next_offset) ↦ λ _.
            unwrap_tags-IsWellFormed 4 (record packet { llc = llc }) frame next_offset ether_type
              (relink-IsBare _ _ _ bare)
      ])

  decode_bare_ip-IsWellFormed :
      (ip_offset : ℕ) → Ensures (IsWellFormed frame) (decode_bare_ip packet frame ip_offset)
  unfolding decode_bare_ip
  decode_bare_ip-IsWellFormed ip_offset = ground (
    arith,
    decode_network_layer-IsWellFormed frame packet bare ip_offset 0x0800,
    decode_network_layer-IsWellFormed frame packet bare ip_offset 0x86dd,
    IsWellFormed-of_IsBare bare,
  )

decode_ethernet-IsWellFormed :
    (frame : Buffer) (packet : DecodedPacket)
    → IsBare frame packet
    → Ensures (IsWellFormed frame) (decode_ethernet packet frame)
unfolding decode_ethernet
decode_ethernet-IsWellFormed frame packet bare =
    Ensures-bind (IsWellFormed frame) (read_uint16_be frame 12) _ λ type_or_length _.
      let framed : DecodedPacket = record packet {
        ethernet = some (ethernet_header frame type_or_length);
      } in
      let framed_bare : IsBare frame framed = relink-IsBare _ _ _ bare in
      ground (
        arith,
        decode_llc_frame-IsWellFormed frame framed framed_bare,
        unwrap_tags-IsWellFormed 4 framed frame 14 type_or_length framed_bare,
      )

unparsed-IsBare :
    (frame : Buffer) (timestamp : ℕ) (link_type : LinkType)
    → IsBare frame (unparsed frame timestamp link_type)
unfolding unparsed
unparsed-IsBare frame timestamp link_type = record {
  ipv4 = refl;
  ipv6 = refl;
  arp = refl;
  tcp = refl;
  udp = refl;
  payload = refl;
  pad_cut = nothing-IsSlice frame;
}

decode_packet-Ensures :
    (frame : Buffer) (timestamp : ℕ) (link_type : LinkType)
    → Ensures (IsWellFormed frame) (decode_packet frame timestamp link_type)
unfolding decode_packet
decode_packet-Ensures frame timestamp ethernet_link =
    let start = unparsed frame timestamp ethernet_link in
    let bare = unparsed-IsBare frame timestamp ethernet_link in
    ground (arith, IsWellFormed-of_IsBare bare, decode_ethernet-IsWellFormed frame start bare)
decode_packet-Ensures frame timestamp raw_link =
    decode_bare_ip-IsWellFormed frame _ (unparsed-IsBare frame timestamp raw_link) 0
decode_packet-Ensures frame timestamp null_link =
    decode_bare_ip-IsWellFormed frame _ (unparsed-IsBare frame timestamp null_link) 4
decode_packet-Ensures frame timestamp loop_link =
    decode_bare_ip-IsWellFormed frame _ (unparsed-IsBare frame timestamp loop_link) 4

-- A decoded packet has at most one of IPv4, IPv6 and ARP, at most one of TCP and UDP, a transport
-- layer only over IPv4 or IPv6, and a payload exactly where it has a transport layer; the payload
-- and the padding are runs of the frame's own bytes.
pub decode_packet-IsWellFormed :
    (frame : Buffer) (timestamp : ℕ) (link_type : LinkType) (packet : DecodedPacket)
    → decode_packet frame timestamp link_type ≡ ok packet
    → IsWellFormed frame packet
decode_packet-IsWellFormed frame timestamp link_type packet e =
    Ensures-value (IsWellFormed frame) _ (decode_packet-Ensures frame timestamp link_type) e
