-- ===== src/Packet/Link.antt =====
-- LLC and SNAP headers (api/src/packet/decode.ts). A read past the frame would be a fault; a header
-- that does not fit is `none`.
use network_monitoring.Base.{
  ℕ, ◌+◌, ◌%◌, true, false, ◌||◌, not, Option, none, some, ltb, nat_beq, if◌then◌else◌, length,
}
use network_monitoring.Base.Checked.{Checked, ok, ◌>>=◌}
use network_monitoring.Js.Buffer.{Buffer, read_uint8, read_uint16_be}
use network_monitoring.Packet.Headers.{LlcHeader}
use network_monitoring.Packet.Names.{format_llc_sap, format_llc_control}

unfoldable pub decode_llc : Buffer → ℕ → Checked (Option LlcHeader)
decode_llc frame offset = if ltb (length frame) (offset + 3) then ok none else do
  dsap ← read_uint8 frame offset
  ssap ← read_uint8 frame (offset + 1)
  control ← read_uint8 frame (offset + 2)
  if nat_beq (control % 4) 3
      then ok (
          some (record {
            dsap = format_llc_sap dsap;
            ssap = format_llc_sap ssap;
            control = format_llc_control control false;
          }))
      else if ltb (length frame) (offset + 4)
      then ok none
      else do
        wide ← read_uint16_be frame (offset + 2)
        ok (
            some (record {
              dsap = format_llc_sap dsap;
              ssap = format_llc_sap ssap;
              control = format_llc_control wide true;
            }))

-- The EtherType and the offset behind it.
unfoldable pub decode_snap_ether_type : Buffer → ℕ → Checked (Option (ℕ × ℕ))
decode_snap_ether_type frame llc_offset =
    if ltb (length frame) (llc_offset + 8) then ok none else do
      dsap ← read_uint8 frame llc_offset
      ssap ← read_uint8 frame (llc_offset + 1)
      if not (nat_beq dsap 0xaa) || not (nat_beq ssap 0xaa) then ok none else do
        ether_type ← read_uint16_be frame (llc_offset + 6)
        ok (some (ether_type, llc_offset + 8))
