-- ===== src/Js/Buffer.antt =====
-- `Buffer`: the bytes, reads that fault out of range, and `subarray`.
use network_monitoring.Base.{
  ℕ, ◌+◌, ◌-◌, ◌*◌, ◌≤◌, ◌<◌, ◌≡◌, ◌≢◌, List, [], ◌∷◌, arith, leb, min, if◌then◌else◌, length, take,
  drop, get_or, length-take, length-drop,
}
use network_monitoring.Base.Checked.{Checked, ok, fault}

abbrev pub Buffer : Type 0
Buffer = List ℕ

-- `buffer[offset] ?? 0`
unfoldable pub byte_or_zero : Buffer → ℕ → ℕ
byte_or_zero buffer offset = get_or buffer offset 0

unfoldable pub be_from : ℕ → List ℕ → ℕ
be_from acc [] = acc
be_from acc (x ∷ xs) = be_from (acc * 256 + x) xs

-- The big-endian value of the `width` bytes at `offset`.
unfoldable pub be_at : ℕ → Buffer → ℕ → ℕ
unfolding be_from
be_at width buffer offset = be_from 0 (take width (drop offset buffer))

-- `readUInt8`, `readUInt16BE`, `readUInt32BE`, `readUIntBE` and `readBigUInt64BE` at a width, and
-- `buffer[offset]!` at the width 1: out of range the read is a fault.
unfoldable pub read_be : ℕ → Buffer → ℕ → Checked ℕ
read_be width buffer offset =
    if leb (offset + width) (length buffer) then ok (be_at width buffer offset) else fault

unfoldable pub read_uint8 : Buffer → ℕ → Checked ℕ
unfolding read_be
read_uint8 = read_be 1

unfoldable pub read_uint16_be : Buffer → ℕ → Checked ℕ
unfolding read_be
read_uint16_be = read_be 2

unfoldable pub read_uint32_be : Buffer → ℕ → Checked ℕ
unfolding read_be
read_uint32_be = read_be 4

unfoldable pub subarray : Buffer → ℕ → ℕ → Buffer
subarray buffer start end = take (end - start) (drop start buffer)

pub length-subarray :
    (buffer : Buffer) (start end : ℕ)
    → length (subarray buffer start end) ≡ min (end - start) (length buffer - start)
unfolding subarray
length-subarray buffer start end =
    omega (arith, length-take (end - start) (drop start buffer), length-drop start buffer)

pub read_uint8-ne-fault :
    (buffer : Buffer) (offset : ℕ) → offset < length buffer → read_uint8 buffer offset ≢ fault
unfolding read_uint8
read_uint8-ne-fault buffer offset h = ground arith

pub read_uint16_be-ne-fault :
    (buffer : Buffer) (offset : ℕ)
    → offset + 2 ≤ length buffer
    → read_uint16_be buffer offset ≢ fault
unfolding read_uint16_be
read_uint16_be-ne-fault buffer offset h = ground arith
