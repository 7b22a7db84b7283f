-- ===== src/Packet/Bare.antt =====
-- A packet whose link layer is read, and nothing above it (api/src/packet/decode.ts).
use network_monitoring.Base.{ℕ, ◌≡◌, refl, Option, none}
use network_monitoring.Js.Buffer.{Buffer}
use network_monitoring.Packet.Decode.{add_vlan, trailing_bytes}
use network_monitoring.Packet.Headers.{EthernetHeader, LlcHeader, VlanHeader, DecodedPacket}
use network_monitoring.Packet.WellFormed.{IsSlice, IsWellFormed, trailing_bytes-IsSlice}

-- The network and transport layers are still to come.
pub record IsBare (frame : Buffer) (packet : DecodedPacket) : Type 0 where
  pub ipv4 : packet.ipv4 ≡ none
  pub ipv6 : packet.ipv6 ≡ none
  pub arp : packet.arp ≡ none
  pub tcp : packet.tcp ≡ none
  pub udp : packet.udp ≡ none
  pub payload : packet.payload ≡ none
  pub pad_cut : IsSlice frame packet.ethernet_pad

pub with_pad-IsWellFormed :
    (frame : Buffer) (packet : DecodedPacket) (declared_end : ℕ)
    → IsWellFormed frame packet
    → IsWellFormed frame (record packet { ethernet_pad = trailing_bytes frame declared_end })
with_pad-IsWellFormed frame packet declared_end h = record {
  one_ip = h.one_ip;
  arp_alone = h.arp_alone;
  one_transport = h.one_transport;
  over_ip = h.over_ip;
  carried = h.carried;
  payload_cut = h.payload_cut;
  pad_cut = trailing_bytes-IsSlice frame declared_end;
}

pub IsWellFormed-of_IsBare :
    {frame : Buffer} {packet : DecodedPacket} → IsBare frame packet → IsWellFormed frame packet
IsWellFormed-of_IsBare bare = record {
  one_ip = rw bare.ipv4 refl;
  arp_alone = rw bare.arp refl;
  one_transport = rw bare.tcp refl;
  over_ip = rw (bare.tcp, bare.udp) refl;
  carried = rw (bare.payload, bare.tcp, bare.udp) refl;
  payload_cut = rw bare.payload tt;
  pad_cut = bare.pad_cut;
}

-- The headers of the link layer are free.
pub relink-IsBare :
    {frame : Buffer} {packet : DecodedPacket} (ethernet : Option EthernetHeader)
    (llc : Option LlcHeader) (vlan : Option VlanHeader)
    → IsBare frame packet
    → IsBare frame (record packet { ethernet = ethernet; llc = llc; vlan = vlan })
relink-IsBare ethernet llc vlan bare = record {
  ipv4 = bare.ipv4;
  ipv6 = bare.ipv6;
  arp = bare.arp;
  tcp = bare.tcp;
  udp = bare.udp;
  payload = bare.payload;
  pad_cut = bare.pad_cut;
}

pub add_vlan-IsBare :
    {frame : Buffer} {packet : DecodedPacket} (tag inner : ℕ)
    → IsBare frame packet
    → IsBare frame (add_vlan packet tag inner)
unfolding add_vlan
add_vlan-IsBare tag inner bare = relink-IsBare _ _ _ bare
