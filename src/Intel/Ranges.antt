-- ===== src/Intel/Ranges.antt =====
-- Ranges of addresses: sorting, merging and the binary search (api/src/intel/match.ts, `seal` and
-- `findRange` of `IndicatorSet`).
pub mod Merging
pub mod Searching
use network_monitoring.Base.{
  ℕ, zero, suc, ◌+◌, ◌-◌, ◌/◌, Bool, true, false, Option, none, some, List, [], ◌∷◌, ltb, leb,
  if◌then◌else◌, length, Str, max,
}

pub record Range : Type 0 where
  pub start : ℕ
  pub end : ℕ
  pub source : Str
  pub note : Option Str
  pub prefix : Str

-- `sort` by the start of the ranges; the sort is stable.
unfoldable pub insert_sorted : Range → List Range → List Range
insert_sorted range [] = range ∷ []
insert_sorted range (r ∷ rs) =
    let rest = insert_sorted range rs in
    if leb range.start r.start then range ∷ r ∷ rs else r ∷ rest

unfoldable pub sort_ranges : List Range → List Range
sort_ranges [] = []
sort_ranges (r ∷ rs) = insert_sorted r (sort_ranges rs)

-- The loop over the sorted ranges, with the last range merged so far.
unfoldable pub merge_after : Range → List Range → List Range
merge_after last [] = last ∷ []
merge_after last (range ∷ rest) = elim (leb range.start (last.end + 1)) [
  | true ↦ merge_after (record last { end = max last.end range.end }) rest
  | false ↦ last ∷ merge_after range rest
]

unfoldable pub merge : List Range → List Range
merge [] = []
merge (range ∷ rest) = merge_after range rest

-- `ranges[i]`
abbrev pub range_at : List Range → ℕ → Option Range
range_at [] i = none
range_at (r ∷ rs) zero = some r
range_at (r ∷ rs) (suc i) = range_at rs i

-- The binary search. `high` is one more than the source's, which may be -1.
unfoldable pub search_range : ℕ → List Range → ℕ → ℕ → ℕ → Option Range → Option Range
search_range zero ranges value low high found = found
search_range (suc fuel) ranges value low high found = elim (ltb low high) [
  | false ↦ found
  | true ↦
      let mid = (low + (high - 1)) / 2 in
      elim (range_at ranges mid) [
        | none ↦ found
        | some range ↦ elim (leb range.start value) [
          | true ↦ search_range fuel ranges value (mid + 1) high (some range)
          | false ↦ search_range fuel ranges value low mid found
        ]
      ]
]

abbrev pub within : ℕ → Option Range → Option Range
within value none = none
within value (some range) = if leb value range.end then some range else none

unfoldable pub find_range : ℕ → List Range → Option Range
find_range value ranges =
    within value (search_range (length ranges) ranges value 0 (length ranges) none)
