-- ===== src/Packet/Safety.antt =====
-- The decoder on any bytes (api/src/packet/decode.ts).
use network_monitoring.Base.{
  ℕ, zero, suc, ◌+◌, ◌≤◌, ◌≢◌, refl, ◌≡◌, Option, false, none, some, arith, length, leb, ltb,
  Bool-cases, inl, inr,
}
use network_monitoring.Base.Checked.{
  Checked, ok, fault, Returns, Returns-of_ne, bind-ne-fault, ok-ne-fault,
}
use network_monitoring.Js.Buffer.{
  Buffer, read_uint8, read_uint16_be, read_uint32_be, read_uint8-ne-fault, read_uint16_be-ne-fault,
}
use network_monitoring.Packet.Decode.{
  is_tag, add_vlan, ethernet_header, decode_ipv4_layer, decode_ipv6_layer, decode_arp_layer,
  decode_network_layer, unwrap_tags, decode_llc_frame, decode_ethernet, decode_bare_ip,
  decode_packet,
}
use network_monitoring.Packet.Headers.{
  unparsed, DecodedPacket, LinkType, ethernet_link, raw_link, null_link, loop_link,
}
use network_monitoring.Packet.Link.{decode_llc, decode_snap_ether_type}
use network_monitoring.Packet.Network.{decode_ipv4, decode_ipv6, decode_arp}
use network_monitoring.Packet.Transport.{
  decode_tcp, decode_udp, decode_tcp_segment, decode_udp_datagram, decode_transport,
  transport_limit,
}

decode_llc-ne-fault : (frame : Buffer) (offset : ℕ) → decode_llc frame offset ≢ fault
unfolding decode_llc read_uint8 read_uint16_be
decode_llc-ne-fault frame offset = ground arith

decode_snap-ne-fault : (frame : Buffer) (offset : ℕ) → decode_snap_ether_type frame offset ≢ fault
unfolding decode_snap_ether_type read_uint8 read_uint16_be
decode_snap-ne-fault frame offset = ground arith

decode_ipv4-ne-fault : (frame : Buffer) (offset : ℕ) → decode_ipv4 frame offset ≢ fault
unfolding decode_ipv4 read_uint8 read_uint16_be
decode_ipv4-ne-fault frame offset = ground arith

decode_ipv6-ne-fault : (frame : Buffer) (offset : ℕ) → decode_ipv6 frame offset ≢ fault
unfolding decode_ipv6 read_uint8 read_uint16_be read_uint32_be
decode_ipv6-ne-fault frame offset = ground arith

decode_arp-ne-fault : (frame : Buffer) (offset : ℕ) → decode_arp frame offset ≢ fault
unfolding decode_arp read_uint8 read_uint16_be
decode_arp-ne-fault frame offset = ground arith

decode_tcp-ne-fault :
    (frame : Buffer) (offset : ℕ) → offset + 20 ≤ length frame → decode_tcp frame offset ≢ fault
unfolding decode_tcp read_uint8 read_uint16_be read_uint32_be
decode_tcp-ne-fault frame offset h = ground arith

decode_udp-ne-fault :
    (frame : Buffer) (offset : ℕ) → offset + 8 ≤ length frame → decode_udp frame offset ≢ fault
unfolding decode_udp read_uint16_be
decode_udp-ne-fault frame offset h = ground arith

module _ (packet : DecodedPacket) (frame : Buffer) (offset : ℕ) where
  decode_tcp_segment-ne-fault : (limit : ℕ) → decode_tcp_segment packet frame offset limit ≢ fault
  unfolding decode_tcp_segment
  decode_tcp_segment-ne-fault limit = ground (arith, decode_tcp-ne-fault frame offset)

  decode_udp_datagram-ne-fault : (limit : ℕ) → decode_udp_datagram packet frame offset limit ≢ fault
  unfolding decode_udp_datagram
  decode_udp_datagram-ne-fault limit = ground (arith, decode_udp-ne-fault frame offset)

  decode_transport-ne-fault :
      (protocol declared_end : ℕ)
      → decode_transport packet frame offset protocol declared_end ≢ fault
  unfolding decode_transport
  decode_transport-ne-fault protocol declared_end = ground (
    arith,
    decode_tcp_segment-ne-fault (transport_limit frame offset declared_end),
    decode_udp_datagram-ne-fault (transport_limit frame offset declared_end),
  )

module _ (packet : DecodedPacket) (frame : Buffer) (offset : ℕ) where
  decode_ipv4_layer-ne-fault : decode_ipv4_layer packet frame offset ≢ fault
  unfolding decode_ipv4_layer
  decode_ipv4_layer-ne-fault = bind-ne-fault _ _ (decode_ipv4-ne-fault frame offset) (elim [
    | none ↦ cc
    | some ip ↦
        bind-ne-fault _ _ (decode_transport-ne-fault _ frame _ _ _) (λ decoded. ok-ne-fault _)
  ])

  decode_ipv6_layer-ne-fault : decode_ipv6_layer packet frame offset ≢ fault
  unfolding decode_ipv6_layer
  decode_ipv6_layer-ne-fault = bind-ne-fault _ _ (decode_ipv6-ne-fault frame offset) (elim [
    | none ↦ cc
    | some ip ↦
        bind-ne-fault _ _ (decode_transport-ne-fault _ frame _ _ _) (λ decoded. ok-ne-fault _)
  ])

  decode_arp_layer-ne-fault : decode_arp_layer packet frame offset ≢ fault
  unfolding decode_arp_layer
  decode_arp_layer-ne-fault =
      bind-ne-fault _ _ (decode_arp-ne-fault frame offset) (elim [ none ↦ cc | some arp ↦ cc ])

  decode_network_layer-ne-fault :
      (ether_type : ℕ) → decode_network_layer packet frame offset ether_type ≢ fault
  unfolding decode_network_layer
  decode_network_layer-ne-fault ether_type =
      ground
        (arith, decode_ipv4_layer-ne-fault, decode_ipv6_layer-ne-fault, decode_arp_layer-ne-fault)

unwrap_tags-ne-fault :
    (rounds : ℕ) (packet : DecodedPacket) (frame : Buffer) (offset ether_type : ℕ)
    → unwrap_tags rounds packet frame offset ether_type ≢ fault
unfolding unwrap_tags
unwrap_tags-ne-fault zero packet frame offset ether_type =
    decode_network_layer-ne-fault packet frame offset ether_type
unwrap_tags-ne-fault (suc rounds) packet frame offset ether_type =
    elim (Bool-cases (is_tag ether_type)) [
      | inr other ↦
          rw (other, unwrap_tags) (decode_network_layer-ne-fault packet frame offset ether_type)
      | inl tagged ↦ elim (Bool-cases (ltb (length frame) (offset + 4))) [
        | inl short ↦ rw (tagged, unwrap_tags) (rw (short, unwrap_tags) (ok-ne-fault _))
        | inr fits ↦
            rw (tagged, fits, unwrap_tags)
              (bind-ne-fault _ _ (read_uint16_be-ne-fault frame offset (ground arith)) λ tag.
                bind-ne-fault _ _ (read_uint16_be-ne-fault frame (offset + 2) (ground arith))
                  λ inner.
                    unwrap_tags-ne-fault rounds (add_vlan packet tag inner) frame (offset + 4)
                      inner)
      ]
    ]

decode_llc_frame-ne-fault :
    (packet : DecodedPacket) (frame : Buffer) → decode_llc_frame packet frame ≢ fault
unfolding decode_llc_frame
decode_llc_frame-ne-fault packet frame = bind-ne-fault _ _ (decode_llc-ne-fault frame 14) λ llc.
    bind-ne-fault _ _ (decode_snap-ne-fault frame 14) (elim [
      | none ↦ cc
      | some (ether_type, next_offset) ↦ unwrap_tags-ne-fault 4 _ frame next_offset ether_type
    ])

decode_ethernet-ne-fault :
    (packet : DecodedPacket) (frame : Buffer)
    → 14 ≤ length frame
    → decode_ethernet packet frame ≢ fault
unfolding decode_ethernet
decode_ethernet-ne-fault packet frame h =
    bind-ne-fault _ _ (read_uint16_be-ne-fault frame 12 (omega arith)) λ type_or_length. ground (
      arith,
      decode_llc_frame-ne-fault
          (record packet { ethernet = some (ethernet_header frame type_or_length) }) frame,
      unwrap_tags-ne-fault 4
          (record packet { ethernet = some (ethernet_header frame type_or_length) }) frame 14
          type_or_length,
    )

decode_bare_ip-ne-fault :
    (packet : DecodedPacket) (frame : Buffer) (ip_offset : ℕ)
    → decode_bare_ip packet frame ip_offset ≢ fault
unfolding decode_bare_ip
decode_bare_ip-ne-fault packet frame ip_offset = elim (Bool-cases (leb (length frame) ip_offset)) [
  | inl short ↦ rw short cc
  | inr fits ↦ rw fits (
      bind-ne-fault _ _ (read_uint8-ne-fault frame ip_offset (ground arith)) λ first. ground (
        arith,
        decode_network_layer-ne-fault packet frame ip_offset 0x0800,
        decode_network_layer-ne-fault packet frame ip_offset 0x86dd,
      ))
]

decode_packet-ne-fault :
    (frame : Buffer) (timestamp : ℕ) (link_type : LinkType)
    → Returns (decode_packet frame timestamp link_type)
unfolding decode_packet
decode_packet-ne-fault frame timestamp ethernet_link =
    Returns-of_ne _
      (ground (arith, decode_ethernet-ne-fault (unparsed frame timestamp ethernet_link) frame))
decode_packet-ne-fault frame timestamp raw_link =
    Returns-of_ne _ (decode_bare_ip-ne-fault _ frame 0)
decode_packet-ne-fault frame timestamp null_link =
    Returns-of_ne _ (decode_bare_ip-ne-fault _ frame 4)
decode_packet-ne-fault frame timestamp loop_link =
    Returns-of_ne _ (decode_bare_ip-ne-fault _ frame 4)

-- A header, which takes `size` bytes, is there only if these stand in the frame.
abbrev pub IsCovered {ℓ} : {A : Type ℓ} → ℕ → Buffer → ℕ → Checked (Option A) → Type 0
IsCovered size frame offset (ok none) = Unit
IsCovered size frame offset (ok (some header)) = offset + size ≤ length frame
IsCovered size frame offset fault = ⊥

IsCovered-of_fits {ℓ} :
    {A : Type ℓ} (size : ℕ) (frame : Buffer) (offset : ℕ) (run : Checked (Option A))
    → run ≢ fault
    → ltb (length frame) (offset + size) ≡ false
    → IsCovered size frame offset run
IsCovered-of_fits size frame offset (ok none) returns fits = tt
IsCovered-of_fits size frame offset (ok (some header)) returns fits = ground (arith, fits)
IsCovered-of_fits size frame offset fault returns fits = absurd (returns refl)

decode_ipv4-IsCovered :
    (frame : Buffer) (offset : ℕ) → IsCovered 20 frame offset (decode_ipv4 frame offset)
unfolding decode_ipv4
decode_ipv4-IsCovered frame offset = elim (Bool-cases (ltb (length frame) (offset + 20))) [
  | inl short ↦ rw short tt
  | inr fits ↦ IsCovered-of_fits 20 frame offset _ (decode_ipv4-ne-fault frame offset) fits
]

decode_ipv6-IsCovered :
    (frame : Buffer) (offset : ℕ) → IsCovered 40 frame offset (decode_ipv6 frame offset)
unfolding decode_ipv6
decode_ipv6-IsCovered frame offset = elim (Bool-cases (ltb (length frame) (offset + 40))) [
  | inl short ↦ rw short tt
  | inr fits ↦ IsCovered-of_fits 40 frame offset _ (decode_ipv6-ne-fault frame offset) fits
]

decode_arp-IsCovered :
    (frame : Buffer) (offset : ℕ) → IsCovered 28 frame offset (decode_arp frame offset)
unfolding decode_arp
decode_arp-IsCovered frame offset = elim (Bool-cases (ltb (length frame) (offset + 28))) [
  | inl short ↦ rw short tt
  | inr fits ↦ IsCovered-of_fits 28 frame offset _ (decode_arp-ne-fault frame offset) fits
]

-- The decoder ends with a packet on every frame and link type, no read of it throwing. At any offset, it
-- makes an IPv4 header only where 20 bytes of the frame stand, an IPv6 header only where 40 do, and
-- an ARP header only where 28 do.
pub decode_packet-Returns :
    (frame : Buffer) (timestamp : ℕ) (link_type : LinkType) (offset : ℕ)
    → Returns (decode_packet frame timestamp link_type)
      × IsCovered 20 frame offset (decode_ipv4 frame offset)
      × IsCovered 40 frame offset (decode_ipv6 frame offset)
      × IsCovered 28 frame offset (decode_arp frame offset)
decode_packet-Returns frame timestamp link_type offset = (
  decode_packet-ne-fault frame timestamp link_type,
  decode_ipv4-IsCovered frame offset,
  decode_ipv6-IsCovered frame offset,
  decode_arp-IsCovered frame offset,
)
