-- ===== src/Flow/Times.antt =====
-- When a templated flow happened (api/src/flow/netflow-v9.ts: resolveTimes, isPlausible).
use network_monitoring.Base.{ℕ, ◌≤◌, ◌<◌, ◌≡◌, Option, none, some, arith}
use network_monitoring.Base.Int.{ℤ, pos, ◌≤ℤ◌}
use network_monitoring.Js.Date.{Date, at, invalid, new_date, max_time}
use network_monitoring.Flow.Numbers.{
  RawTimes, resolve_times, choose_times, is_plausible, plausible, plausible_floor, or_else,
  from_uptime,
}

-- A date after 2000-01-01, or none at all.
abbrev pub IsSane : Date → Type 0
IsSane (at ms) = plausible_floor ≤ℤ ms
IsSane invalid = Unit

-- The first date is not after the second.
abbrev pub IsOrdered : Date → Date → Type 0
IsOrdered (at start) (at end) = start ≤ℤ end
IsOrdered _ _ = Unit

choose_times-IsOrdered :
    (observed : ℕ) (start end : Option ℤ)
    → IsOrdered (choose_times observed start end).0 (choose_times observed start end).1
unfolding choose_times new_date
choose_times-IsOrdered observed none none = ground arith
choose_times-IsOrdered observed none (some end) = ground arith
choose_times-IsOrdered observed (some start) none = ground arith
choose_times-IsOrdered observed (some start) (some end) = ground arith

choose_times-IsSane :
    (observed : ℕ) (start end : Option ℤ)
    → 946_684_800_000 ≤ observed
    → IsSane (choose_times observed (plausible start) (plausible end)).0
      × IsSane (choose_times observed (plausible start) (plausible end)).1
unfolding choose_times new_date is_plausible
choose_times-IsSane observed none none h = ground arith
choose_times-IsSane observed none (some end) h = ground arith
choose_times-IsSane observed (some start) none h = ground arith
choose_times-IsSane observed (some start) (some end) h = ground arith

-- Where the datagram arrives after 2000-01-01, no flow is dated before it, whatever the exporter's
-- clock says: a date is later, or is the invalid date.
pub resolve_times-IsSane :
    (times : RawTimes) (boot_ms : ℤ) (observed : ℕ)
    → 946_684_800_000 ≤ observed
    → IsSane (resolve_times times boot_ms observed).0
      × IsSane (resolve_times times boot_ms observed).1
unfolding resolve_times
resolve_times-IsSane times boot_ms observed h =
    choose_times-IsSane observed
      (or_else times.start_ms (from_uptime boot_ms times.start_uptime_ms))
      (or_else times.end_ms (from_uptime boot_ms times.end_uptime_ms)) h

choose_times-overflow :
    (observed ms : ℕ) (start : Option ℤ)
    → max_time < ms
    → (choose_times observed start (plausible (some (pos ms)))).1 ≡ invalid
unfolding choose_times new_date is_plausible
choose_times-overflow observed ms none h = ground arith
choose_times-overflow observed ms (some start) h = ground arith

-- An end time beyond the range of dates passes the plausibility test, and the flow's end is then the
-- invalid date.
pub resolve_times-overflow :
    (times : RawTimes) (boot_ms : ℤ) (observed ms : ℕ)
    → times.end_ms ≡ some (pos ms)
    → max_time < ms
    → (resolve_times times boot_ms observed).1 ≡ invalid
unfolding resolve_times
resolve_times-overflow times boot_ms observed ms e h = rw e (choose_times-overflow observed ms _ h)
