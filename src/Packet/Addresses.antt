-- ===== src/Packet/Addresses.antt =====
-- Addresses and bytes as text (api/src/packet/addresses.ts).
use network_monitoring.Base.{
  or_zero, ℕ, zero, suc, ◌+◌, ◌-◌, ◌*◌, Option, none, some, List, [], ◌∷◌, ◌++◌, map, ltb, leb,
  nat_beq, ◌&&◌, if◌then◌else◌, take, drop, Str, codes,
}
use network_monitoring.Js.Buffer.{Buffer, byte_or_zero}
use network_monitoring.Js.Text.{to_string, pad_start, join}

abbrev hex_byte : ℕ → Str
hex_byte byte = pad_start 2 (to_string 16 byte)

-- `f 0, …, f (count - 1)` after `start`, the body of a counted loop that pushes.
unfoldable pub tabulate {ℓ} : {A : Type ℓ} → (ℕ → A) → ℕ → ℕ → List A
tabulate f start zero = []
tabulate f start (suc count) = f start ∷ tabulate f (start + 1) count

unfoldable pub read_mac : Buffer → ℕ → Str
unfolding tabulate byte_or_zero
read_mac buffer offset =
    join (codes ":") (tabulate (λ i. hex_byte (byte_or_zero buffer (offset + i))) 0 6)

unfoldable pub read_ipv4 : Buffer → ℕ → Str
unfolding byte_or_zero
read_ipv4 buffer offset = join (codes ".") (
    to_string 10 (byte_or_zero buffer offset)
    ∷ to_string 10 (byte_or_zero buffer (offset + 1))
    ∷ to_string 10 (byte_or_zero buffer (offset + 2))
    ∷ to_string 10 (byte_or_zero buffer (offset + 3))
    ∷ [])

-- The loop variables of the search for the longest run of zero groups; -1 is `none`.
pub record Runs : Type 0 where
  pub best_start : Option ℕ
  pub best_length : ℕ
  pub run_start : Option ℕ

unfoldable pub open_run : ℕ → Runs → Runs
open_run i runs = elim runs.run_start [ none ↦ record runs { run_start = some i } | some _ ↦ runs ]

unfoldable pub close_run : ℕ → Runs → Runs
close_run i runs = elim runs.run_start [
  | none ↦ runs
  | some start ↦
      if ltb runs.best_length (i - start)
      then record { best_start = some start; best_length = i - start; run_start = none }
      else record runs { run_start = none }
]

unfoldable pub find_runs : ℕ → List ℕ → Runs → Runs
unfolding open_run close_run
find_runs i [] runs = close_run i runs
find_runs i (group ∷ groups) runs =
    find_runs (i + 1) groups (if nat_beq group 0 then open_run i runs else close_run i runs)

abbrev no_runs : Runs
no_runs = record { best_start = none; best_length = 0; run_start = none }

unfoldable pub ipv6_groups : Buffer → ℕ → List ℕ
unfolding tabulate byte_or_zero
ipv6_groups buffer offset =
    tabulate
      (λ i. byte_or_zero buffer (offset + i * 2) * 256 + byte_or_zero buffer (offset + i * 2 + 1)) 0
      8

unfoldable pub format_ipv6 : List ℕ → Str
unfolding find_runs
format_ipv6 groups =
    let best = find_runs 0 groups no_runs in
    let hex_groups = map (to_string 16) groups in
    let start = or_zero best.best_start in
    if ltb best.best_length 2
    then join (codes ":") hex_groups
    else join (codes ":") (take start hex_groups)
      ++ (codes "::" ++ join (codes ":") (drop (start + best.best_length) hex_groups))

unfoldable pub read_ipv6 : Buffer → ℕ → Str
unfolding ipv6_groups format_ipv6
read_ipv6 buffer offset = format_ipv6 (ipv6_groups buffer offset)

unfoldable pub to_hex_stream : Buffer → Str
to_hex_stream data_bytes = join (codes " ") (map hex_byte data_bytes)

abbrev upper : ℕ → ℕ
upper c = if leb b'a' c && leb c b'z' then c - 32 else c

unfoldable pub format_as_readable : Buffer → Str
format_as_readable [] = []
format_as_readable (byte ∷ rest) =
    (if leb 32 byte && leb byte 126 then byte ∷ [] else codes "\\x" ++ map upper (hex_byte byte))
    ++ format_as_readable rest
