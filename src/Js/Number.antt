-- ===== src/Js/Number.antt =====
-- Doubles that hold integers: an integer result above 2^53 is rounded to 53 bits, ties to even.
use network_monitoring.Base.{
  ℕ, zero, suc, ◌+◌, ◌*◌, ◌/◌, ◌%◌, ◌^◌, true, false, ltb, nat_beq, ◌&&◌, ◌||◌, if◌then◌else◌,
}

-- The power of two by which a number above 53 bits is scaled; `n` falls by half in each round.
unfoldable pub ulp_from : ℕ → ℕ → ℕ → ℕ
ulp_from zero n unit = unit
ulp_from (suc fuel) n unit = elim (ltb n (2 ^ 53)) [
  | true ↦ unit
  | false ↦ ulp_from fuel (n / 2) (unit * 2)
]

-- 64 halvings take any integer below 2^117 under 2^53; the program's stay below 2^75.
unfoldable pub ulp : ℕ → ℕ
unfolding ulp_from
ulp n = ulp_from 64 n 1

-- To the nearest multiple of `unit`, to an even one from half way.
unfoldable pub round_to : ℕ → ℕ → ℕ
round_to unit n =
    let low = n / unit in
    let rest = n % unit in
    if ltb unit (2 * rest) || (nat_beq (2 * rest) unit && nat_beq (low % 2) 1)
    then (low + 1) * unit
    else low * unit

unfoldable pub to_double : ℕ → ℕ
unfolding round_to
to_double n = round_to (ulp n) n
