-- ===== src/Detect/Cooldown.antt =====
-- A bounded table of the last reports, and the gap between repeats
-- (api/src/packet/detect/types.ts, `BoundedMap`; `shouldReport` of the detectors).
pub mod Laws
use network_monitoring.Base.{
  ℕ, ◌+◌, Bool, true, false, Option, none, some, List, [], ltb, if◌then◌else◌, length, Str, Eq,
  list_eq, nat_eq,
}
use network_monitoring.Js.Evicting
use network_monitoring.Js.Map

pub record BoundedMap (K V : Type 0) : Type 0 where
  pub entries : List (K × V)
  pub max_entries : ℕ

module _ {K V : Type 0} ⦃e : Eq K⦄ where
  unfoldable pub get : K → BoundedMap K V → Option V
  get key table = Map.get key table.entries

  unfoldable pub has : K → BoundedMap K V → Bool
  has key table = Map.has key table.entries

  unfoldable pub set : K → V → BoundedMap K V → BoundedMap K V
  set key value table = record table {
    entries = Evicting.insert table.max_entries key value table.entries;
  }

  unfoldable pub delete : K → BoundedMap K V → BoundedMap K V
  delete key table = record table { entries = Map.delete key table.entries }

  unfoldable pub reset : BoundedMap K V → BoundedMap K V
  reset table = record table { entries = [] }

  unfoldable pub size : BoundedMap K V → ℕ
  size table = length table.entries

-- `last !== undefined && now - last < cooldown`
abbrev pub is_cooling : ℕ → ℕ → Option ℕ → Bool
is_cooling cooldown now none = false
is_cooling cooldown now (some last) = ltb now (last + cooldown)

-- Whether to report, and the table of last reports after.
unfoldable pub should_report : ℕ → Str → ℕ → BoundedMap Str ℕ → Bool × BoundedMap Str ℕ
should_report cooldown key now table =
    if is_cooling cooldown now (get key table) then (false, table) else (true, set key now table)
