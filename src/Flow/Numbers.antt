-- ===== src/Flow/Numbers.antt =====
-- Numbers and times of NetFlow v9 and IPFIX records (api/src/flow/netflow-v9.ts: readUnsigned,
-- ntpToUnixMs, resolveTimes, isPlausible).
use network_monitoring.Base.{
  ℕ, suc, ◌+◌, ◌-◌, ◌*◌, ◌/◌, ◌^◌, Bool, false, Option, none, some, ltb, leb, nat_beq,
  if◌then◌else◌,
}
use network_monitoring.Base.Checked.{Checked, ok, ◌>>=◌}
use network_monitoring.Base.Int.{ℤ, pos, sub_ℕ, ltb_ℤ}
use network_monitoring.Js.Buffer.{Buffer, read_be, read_uint32_be}
use network_monitoring.Js.Date.{Date, new_date}
use network_monitoring.Js.Number.{to_double}

-- An odd width takes the low six bytes.
unfoldable pub read_unsigned : Buffer → ℕ → ℕ → Checked ℕ
read_unsigned buffer offset length_field =
    if leb length_field 0
    then ok 0
    else if leb length_field 6
    then read_be length_field buffer offset
    else if nat_beq length_field 8
    then (read_be 8 buffer offset >>= λ value. ok (to_double value))
    else read_be 6 buffer (offset + length_field - 6)

abbrev pub ntp_epoch_offset_seconds : ℕ
ntp_epoch_offset_seconds = 2_208_988_800

-- The fraction of a second is below 2^32, so its division and multiplication are exact in doubles.
unfoldable pub ntp_to_unix_ms : Buffer → ℕ → ℕ → Checked (Option ℤ)
ntp_to_unix_ms buffer offset length_field = if ltb length_field 8 then ok none else do
  seconds ← read_uint32_be buffer offset
  fraction ← read_uint32_be buffer (offset + 4)
  ok (
      if nat_beq seconds 0
      then none
      else some
          (sub_ℕ (seconds * 1000 + fraction * 1000 / 2 ^ 32) (ntp_epoch_offset_seconds * 1000)))

-- The times of a record as its fields give them.
pub record RawTimes : Type 0 where
  pub start_ms : Option ℤ
  pub end_ms : Option ℤ
  pub start_uptime_ms : Option ℕ
  pub end_uptime_ms : Option ℕ

abbrev pub no_times : RawTimes
no_times = record { start_ms = none; end_ms = none; start_uptime_ms = none; end_uptime_ms = none }

-- An uptime counts from a positive boot time alone.
unfoldable pub from_uptime : ℤ → Option ℕ → Option ℤ
from_uptime (pos (suc n)) (some uptime) = some (pos (to_double (suc n + uptime)))
from_uptime _ _ = none

abbrev pub or_else {ℓ} : {A : Type ℓ} → Option A → Option A → Option A
or_else none other = other
or_else (some a) other = some a

-- 2000-01-01
abbrev pub plausible_floor : ℤ
plausible_floor = pos 946_684_800_000

unfoldable pub is_plausible : Option ℤ → Bool
is_plausible none = false
is_plausible (some ms) = ltb_ℤ plausible_floor ms

abbrev pub plausible : Option ℤ → Option ℤ
plausible ms = if is_plausible ms then ms else none

abbrev pub max_ℤ : ℤ → ℤ → ℤ
max_ℤ a b = if ltb_ℤ a b then b else a

unfoldable pub choose_times : ℕ → Option ℤ → Option ℤ → Date × Date
choose_times observed (some start) (some end) = (new_date start, new_date (max_ℤ start end))
choose_times observed none (some end) = (new_date end, new_date end)
choose_times observed (some start) none = (new_date start, new_date start)
choose_times observed none none = (new_date (pos observed), new_date (pos observed))

unfoldable pub resolve_times : RawTimes → ℤ → ℕ → Date × Date
unfolding choose_times is_plausible from_uptime
resolve_times times boot_ms observed =
    choose_times observed
      (plausible (or_else times.start_ms (from_uptime boot_ms times.start_uptime_ms)))
      (plausible (or_else times.end_ms (from_uptime boot_ms times.end_uptime_ms)))
