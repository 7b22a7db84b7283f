-- ===== src/Detect/Window.antt =====
-- Counts per key inside a time window (api/src/packet/detect/types.ts, `SlidingWindow`).
pub mod Laws
pub mod Sweeping
use network_monitoring.Base.{
  or_zero, ℕ, ◌+◌, Bool, Option, none, some, List, [], ◌∷◌, leb, if◌then◌else◌, length, Str, Eq,
  list_eq, nat_eq, map,
}
use network_monitoring.Js.Map

pub record Entry (T : Type 0) : Type 0 where
  pub items : List (T × ℕ)
  pub expires_at : ℕ

pub record SlidingWindow (T : Type 0) : Type 0 where
  pub entries : List (Str × Entry T)
  pub window_ms : ℕ

module _ {T : Type 0} ⦃e : Eq T⦄ where
  -- The entry of a key, unless it is missing or has expired.
  abbrev pub current : ℕ → Option (Entry T) → Option (Entry T)
  current now none = none
  current now (some entry) = if leb entry.expires_at now then none else some entry

  abbrev pub or_new : ℕ → Option (Entry T) → Entry T
  or_new expires_at none = record { items = []; expires_at = expires_at }
  or_new expires_at (some entry) = entry

  unfoldable pub count_item : T → Entry T → Entry T
  count_item item entry = record entry {
    items = Map.set item (or_zero (Map.get item entry.items) + 1) entry.items;
  }

  -- The number of distinct items of the key, and the window after.
  unfoldable pub add : Str → T → ℕ → SlidingWindow T → ℕ × SlidingWindow T
  add key item now window =
      let entry =
        count_item item
          (or_new (now + window.window_ms) (current now (Map.get key window.entries))) in
      (length entry.items, record window { entries = Map.set key entry window.entries })

  abbrev pub sum_counts : List (T × ℕ) → ℕ
  sum_counts [] = 0
  sum_counts ((item, count) ∷ items) = count + sum_counts items

  abbrev pub total_of : Option (Entry T) → ℕ
  total_of none = 0
  total_of (some entry) = sum_counts entry.items

  unfoldable pub total : Str → ℕ → SlidingWindow T → ℕ
  total key now window = total_of (current now (Map.get key window.entries))

  abbrev pub keys : List (T × ℕ) → List T
  keys [] = []
  keys ((item, count) ∷ items) = item ∷ keys items

  abbrev pub items_of : Option (Entry T) → List T
  items_of none = []
  items_of (some entry) = keys entry.items

  unfoldable pub distinct : Str → ℕ → SlidingWindow T → List T
  distinct key now window = items_of (current now (Map.get key window.entries))

  unfoldable pub clear : Str → SlidingWindow T → SlidingWindow T
  clear key window = record window { entries = Map.delete key window.entries }

  -- The keys that have not expired, in order.
  unfoldable pub unexpired : ℕ → List (Str × Entry T) → List (Str × Entry T)
  unexpired now [] = []
  unexpired now ((key, entry) ∷ entries) =
      let rest = unexpired now entries in
      if leb entry.expires_at now then rest else (key, entry) ∷ rest

  unfoldable pub sweep : ℕ → SlidingWindow T → SlidingWindow T
  sweep now window = record window { entries = unexpired now window.entries }

  unfoldable pub reset : SlidingWindow T → SlidingWindow T
  reset window = record window { entries = [] }

  unfoldable pub size : SlidingWindow T → ℕ
  size window = length window.entries
