-- ===== src/Js/Date.antt =====
-- `Date`: a time value in milliseconds from the Unix epoch, or an invalid date.
use network_monitoring.Base.{ℕ, ◌+◌, if◌then◌else◌, ltb}
use network_monitoring.Base.Int.{ℤ, pos_part, neg_part}

pub data Date : Type 0 where
  at : ℤ → Date
  invalid : Date

abbrev pub max_time : ℕ
max_time = 8_640_000_000_000_000

-- `new Date(ms)`: a time further than `max_time` from the epoch is an invalid date.
unfoldable pub new_date : ℤ → Date
new_date ms = if ltb max_time (pos_part ms + neg_part ms) then invalid else at ms
