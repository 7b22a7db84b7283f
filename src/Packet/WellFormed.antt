-- ===== src/Packet/WellFormed.antt =====
-- The form of a decoded packet (api/src/packet/decode.ts).
use network_monitoring.Base.{
  ℕ, ◌+◌, ◌≤◌, ◌≡◌, refl, true, false, not, ◌&&◌, ◌||◌, Option, none, some, [], arith, length,
  is_some, ltb, Bool-cases, inl, inr, max,
}
use network_monitoring.Base.Checked.{Ensures, Ensures-bind}
use network_monitoring.Js.Buffer.{Buffer, subarray}
use network_monitoring.Packet.Headers.{DecodedPacket}
use network_monitoring.Packet.Decode.{trailing_bytes}
use network_monitoring.Packet.Transport.{
  decode_tcp, decode_udp, decode_tcp_segment, decode_udp_datagram, decode_transport,
  transport_limit, payload_between,
}

-- A run of the frame's own bytes.
pub record IsSlice (frame : Buffer) (bytes : Buffer) : Type 0 where
  pub start : ℕ
  pub end : ℕ
  pub ordered : start ≤ end
  pub inside : end ≤ length frame
  pub cut : bytes ≡ subarray frame start end

abbrev pub PayloadWithin : Buffer → Option Buffer → Type 0
PayloadWithin frame none = Unit
PayloadWithin frame (some bytes) = IsSlice frame bytes

-- At most one network layer and one transport layer; a transport layer only over IP; a payload
-- exactly where there is a transport layer; payload and padding cut from the frame.
pub record IsWellFormed (frame : Buffer) (packet : DecodedPacket) : Type 0 where
  pub one_ip : (is_some packet.ipv4 && is_some packet.ipv6) ≡ false
  pub arp_alone : (is_some packet.arp && (is_some packet.ipv4 || is_some packet.ipv6)) ≡ false
  pub one_transport : (is_some packet.tcp && is_some packet.udp) ≡ false
  pub over_ip :
      (not (is_some packet.tcp || is_some packet.udp)
        || (is_some packet.ipv4 || is_some packet.ipv6))
      ≡ true
  pub carried : is_some packet.payload ≡ (is_some packet.tcp || is_some packet.udp)
  pub payload_cut : PayloadWithin frame packet.payload
  pub pad_cut : IsSlice frame packet.ethernet_pad

-- The network layer is decoded, and the transport layer is still to come.
pub record IsIp (frame : Buffer) (packet : DecodedPacket) : Type 0 where
  pub one_ip : (is_some packet.ipv4 && is_some packet.ipv6) ≡ false
  pub any_ip : (is_some packet.ipv4 || is_some packet.ipv6) ≡ true
  pub arp : packet.arp ≡ none
  pub tcp : packet.tcp ≡ none
  pub udp : packet.udp ≡ none
  pub payload : packet.payload ≡ none
  pub pad_cut : IsSlice frame packet.ethernet_pad

pub nothing-IsSlice : (frame : Buffer) → IsSlice frame []
unfolding subarray
nothing-IsSlice frame = record {
  start = 0;
  end = 0;
  ordered = omega arith;
  inside = omega arith;
  cut = refl;
}

subarray-IsSlice :
    (frame : Buffer) (start end : ℕ)
    → start ≤ end
    → end ≤ length frame
    → IsSlice frame (subarray frame start end)
subarray-IsSlice frame start end h k = record {
  start = start;
  end = end;
  ordered = h;
  inside = k;
  cut = refl;
}

pub trailing_bytes-IsSlice :
    (frame : Buffer) (declared_end : ℕ) → IsSlice frame (trailing_bytes frame declared_end)
unfolding trailing_bytes
trailing_bytes-IsSlice frame declared_end =
    ground (arith, nothing-IsSlice frame, subarray-IsSlice frame declared_end (length frame))

payload_between-IsSlice :
    (frame : Buffer) (start limit : ℕ)
    → limit ≤ length frame
    → IsSlice frame (payload_between frame start limit)
unfolding payload_between
payload_between-IsSlice frame start limit h =
    ground (arith, nothing-IsSlice frame, subarray-IsSlice frame start limit)

transport_limit-le :
    (frame : Buffer) (offset declared_end : ℕ)
    → transport_limit frame offset declared_end ≤ length frame
unfolding transport_limit
transport_limit-le frame offset declared_end = omega arith

module _ (packet : DecodedPacket) (frame : Buffer) (ip : IsIp frame packet) where
  pub IsWellFormed-of_IsIp : IsWellFormed frame packet
  IsWellFormed-of_IsIp = record {
    one_ip = ip.one_ip;
    arp_alone = rw ip.arp refl;
    one_transport = rw ip.tcp refl;
    over_ip = rw (ip.tcp, ip.udp) refl;
    carried = rw (ip.payload, ip.tcp, ip.udp) refl;
    payload_cut = rw ip.payload tt;
    pad_cut = ip.pad_cut;
  }

  decode_tcp_segment-IsWellFormed :
      (offset limit : ℕ)
      → limit ≤ length frame
      → Ensures (IsWellFormed frame) (decode_tcp_segment packet frame offset limit)
  unfolding decode_tcp_segment
  decode_tcp_segment-IsWellFormed offset limit h =
      elim (Bool-cases (ltb (length frame) (offset + 20))) [
        | inl short ↦ rw short IsWellFormed-of_IsIp
        | inr fits ↦ rw fits (
            Ensures-bind (IsWellFormed frame) (decode_tcp frame offset) _ λ tcp _. record {
              one_ip = ip.one_ip;
              arp_alone = rw ip.arp refl;
              one_transport = rw ip.udp refl;
              over_ip = ip.any_ip;
              carried = refl;
              payload_cut = payload_between-IsSlice frame (offset + max 20 tcp.data_offset) limit h;
              pad_cut = ip.pad_cut;
            })
      ]

  decode_udp_datagram-IsWellFormed :
      (offset limit : ℕ)
      → limit ≤ length frame
      → Ensures (IsWellFormed frame) (decode_udp_datagram packet frame offset limit)
  unfolding decode_udp_datagram
  decode_udp_datagram-IsWellFormed offset limit h =
      elim (Bool-cases (ltb (length frame) (offset + 8))) [
        | inl short ↦ rw short IsWellFormed-of_IsIp
        | inr fits ↦ rw fits (
            Ensures-bind (IsWellFormed frame) (decode_udp frame offset) _ λ udp _. record {
              one_ip = ip.one_ip;
              arp_alone = rw ip.arp refl;
              one_transport = rw ip.tcp refl;
              over_ip = rw ip.tcp ip.any_ip;
              carried = rw ip.tcp refl;
              payload_cut = payload_between-IsSlice frame (offset + 8) limit h;
              pad_cut = ip.pad_cut;
            })
      ]

  pub decode_transport-IsWellFormed :
      (offset protocol declared_end : ℕ)
      → Ensures (IsWellFormed frame) (decode_transport packet frame offset protocol declared_end)
  unfolding decode_transport
  decode_transport-IsWellFormed offset protocol declared_end =
      let limit = transport_limit frame offset declared_end in
      let bound : limit ≤ length frame = transport_limit-le frame offset declared_end in
      ground (
        arith,
        IsWellFormed-of_IsIp,
        decode_tcp_segment-IsWellFormed offset limit bound,
        decode_udp_datagram-IsWellFormed offset limit bound,
      )
