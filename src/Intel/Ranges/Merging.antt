-- ===== src/Intel/Ranges/Merging.antt =====
-- What sorted and merged ranges cover (api/src/intel/match.ts, `seal`).
use network_monitoring.Base.{
  ℕ, ◌+◌, ◌≤◌, ◌≡◌, refl, ◌∙◌, ap, Bool, true, false, ◌&&◌, ◌||◌, List, [], ◌∷◌, ◌++◌, arith, leb,
  Bool-cases, inl, inr, All, max, length,
}
use network_monitoring.Intel.Ranges.{Range, insert_sorted, sort_ranges, merge_after, merge}

abbrev pub is_in : ℕ → Range → Bool
is_in value range = leb range.start value && leb value range.end

-- Some range holds the value.
abbrev pub is_covered : ℕ → List Range → Bool
is_covered value [] = false
is_covered value (r ∷ rs) = is_in value r || is_covered value rs

abbrev pub IsOrdered : Range → Type 0
IsOrdered range = range.start ≤ range.end

is_covered-insert_sorted :
    (value : ℕ) (r : Range) (rs : List Range)
    → is_covered value (insert_sorted r rs) ≡ (is_in value r || is_covered value rs)
unfolding insert_sorted
is_covered-insert_sorted value r [] = refl
is_covered-insert_sorted value r (x ∷ rs) = ground (arith, is_covered-insert_sorted value r rs)

is_covered-sort_ranges :
    (value : ℕ) (rs : List Range) → is_covered value (sort_ranges rs) ≡ is_covered value rs
unfolding sort_ranges
is_covered-sort_ranges value [] = refl
is_covered-sort_ranges value (r ∷ rs) =
    is_covered-insert_sorted value r (sort_ranges rs) ∙ rw (is_covered-sort_ranges value rs) refl

-- The starts rise from `low`.
abbrev IsSortedFrom : ℕ → List Range → Type 0
IsSortedFrom low [] = Unit
IsSortedFrom low (r ∷ rs) = (low ≤ r.start) × IsSortedFrom r.start rs

IsSortedFrom-weaken :
    {low high : ℕ} (rs : List Range) → low ≤ high → IsSortedFrom high rs → IsSortedFrom low rs
IsSortedFrom-weaken [] h k = tt
IsSortedFrom-weaken (r ∷ rs) h k = (omega arith, k.1)

insert_sorted-IsSortedFrom :
    (low : ℕ) (r : Range) (rs : List Range)
    → low ≤ r.start
    → IsSortedFrom low rs
    → IsSortedFrom low (insert_sorted r rs)
unfolding insert_sorted
insert_sorted-IsSortedFrom low r [] h k = (h, tt)
insert_sorted-IsSortedFrom low r (x ∷ rs) h k = elim (Bool-cases (leb r.start x.start)) [
  | inl before ↦ rw before (h, (ground (arith, before), k.1))
  | inr behind ↦
      rw behind (k.0, insert_sorted-IsSortedFrom x.start r rs (ground (arith, behind)) k.1)
]

sort_ranges-IsSortedFrom : (rs : List Range) → IsSortedFrom 0 (sort_ranges rs)
unfolding sort_ranges
sort_ranges-IsSortedFrom [] = tt
sort_ranges-IsSortedFrom (r ∷ rs) =
    insert_sorted-IsSortedFrom 0 r (sort_ranges rs) (omega arith) (sort_ranges-IsSortedFrom rs)

insert_sorted-All :
    (r : Range) (rs : List Range)
    → IsOrdered r
    → All IsOrdered rs
    → All IsOrdered (insert_sorted r rs)
unfolding insert_sorted
insert_sorted-All r [] h k = (h, tt)
insert_sorted-All r (x ∷ rs) h k = elim (Bool-cases (leb r.start x.start)) [
  | inl before ↦ rw before (h, k)
  | inr behind ↦ rw behind (k.0, insert_sorted-All r rs h k.1)
]

sort_ranges-All : (rs : List Range) → All IsOrdered rs → All IsOrdered (sort_ranges rs)
unfolding sort_ranges
sort_ranges-All [] h = tt
sort_ranges-All (r ∷ rs) h = insert_sorted-All r (sort_ranges rs) h.0 (sort_ranges-All rs h.1)

-- Ordered ranges from `low` on, with an address at least between two of them.
abbrev pub IsSealedFrom : ℕ → List Range → Type 0
IsSealedFrom low [] = Unit
IsSealedFrom low (r ∷ rs) = (low ≤ r.start) × (IsOrdered r × IsSealedFrom (r.end + 2) rs)

merge_after-IsSealedFrom :
    (low : ℕ) (last : Range) (rest : List Range)
    → low ≤ last.start
    → IsOrdered last
    → IsSortedFrom last.start rest
    → All IsOrdered rest
    → IsSealedFrom low (merge_after last rest)
unfolding merge_after
merge_after-IsSealedFrom low last [] h o s a = (h, (o, tt))
merge_after-IsSealedFrom low last (r ∷ rest) h o s a =
    elim (Bool-cases (leb r.start (last.end + 1))) [
      | inl touching ↦
          rw (touching, merge_after)
            (merge_after-IsSealedFrom low (record last { end = max last.end r.end }) rest h
              (omega arith) (IsSortedFrom-weaken rest s.0 s.1) a.1)
      | inr apart ↦
          rw (apart, merge_after)
            (
              h,
              (
                o,
                merge_after-IsSealedFrom (last.end + 2) r rest (ground (arith, apart)) a.0 s.1 a.1,
              ),
            )
    ]

is_covered-merge_after :
    (value : ℕ) (last : Range) (rest : List Range)
    → IsOrdered last
    → IsSortedFrom last.start rest
    → All IsOrdered rest
    → is_covered value (merge_after last rest) ≡ (is_in value last || is_covered value rest)
unfolding merge_after
is_covered-merge_after value last [] o s a = refl
is_covered-merge_after value last (r ∷ rest) o s a =
    elim (Bool-cases (leb r.start (last.end + 1))) [
      | inl touching ↦
          rw (touching, merge_after)
            (is_covered-merge_after value (record last { end = max last.end r.end }) rest
                (omega arith) (IsSortedFrom-weaken rest s.0 s.1) a.1
              ∙ joined (is_covered value rest) s.0 touching)
      | inr apart ↦
          rw (apart, merge_after)
            (ap (λ b. is_in value last || b) (is_covered-merge_after value r rest a.0 s.1 a.1))
    ]
  where
    joined :
        (others : Bool)
        → last.start ≤ r.start
        → leb r.start (last.end + 1) ≡ true
        → (is_in value (record last { end = max last.end r.end }) || others)
          ≡ (is_in value last || (is_in value r || others))
    joined others h touching = ground (arith, a.0, o)

-- Merging the sorted ranges leaves gaps between them,
pub merge-IsSealedFrom :
    (rs : List Range) → All IsOrdered rs → IsSealedFrom 0 (merge (sort_ranges rs))
unfolding merge
merge-IsSealedFrom rs h =
    sealed (sort_ranges rs) (sort_ranges-IsSortedFrom rs) (sort_ranges-All rs h)
  where
    sealed :
        (sorted : List Range)
        → IsSortedFrom 0 sorted
        → All IsOrdered sorted
        → IsSealedFrom 0 (merge sorted)
    sealed [] s a = tt
    sealed (r ∷ rs) s a = merge_after-IsSealedFrom 0 r rs s.0 a.0 s.1 a.1

-- and covers the same addresses.
pub is_covered-merge :
    (value : ℕ) (rs : List Range)
    → All IsOrdered rs
    → is_covered value (merge (sort_ranges rs)) ≡ is_covered value rs
unfolding merge
is_covered-merge value rs h =
    covered (sort_ranges rs) (sort_ranges-IsSortedFrom rs) (sort_ranges-All rs h)
    ∙ is_covered-sort_ranges value rs
  where
    covered :
        (sorted : List Range)
        → IsSortedFrom 0 sorted
        → All IsOrdered sorted
        → is_covered value (merge sorted) ≡ is_covered value sorted
    covered [] s a = refl
    covered (r ∷ rs) s a = is_covered-merge_after value r rs a.0 s.1 a.1

length-insert_sorted : (r : Range) (rs : List Range) → length (insert_sorted r rs) ≡ length rs + 1
unfolding insert_sorted
length-insert_sorted r [] = omega arith
length-insert_sorted r (x ∷ rs) = ground (arith, length-insert_sorted r rs)

length-sort_ranges : (rs : List Range) → length (sort_ranges rs) ≡ length rs
unfolding sort_ranges
length-sort_ranges [] = refl
length-sort_ranges (r ∷ rs) =
    omega (arith, length-insert_sorted r (sort_ranges rs), length-sort_ranges rs)

length-merge_after :
    (last : Range) (rest : List Range) → length (merge_after last rest) ≤ length rest + 1
unfolding merge_after
length-merge_after last [] = omega arith
length-merge_after last (r ∷ rest) = elim (Bool-cases (leb r.start (last.end + 1))) [
  | inl touching ↦
      rw (touching, merge_after)
        (omega (arith, length-merge_after (record last { end = max last.end r.end }) rest))
  | inr apart ↦ rw (apart, merge_after) (omega (arith, length-merge_after r rest))
]

-- Merging adds no range.
pub length-merge : (rs : List Range) → length (merge (sort_ranges rs)) ≤ length rs
unfolding merge
length-merge rs = shorter (sort_ranges rs) (length-sort_ranges rs)
  where
    shorter : (sorted : List Range) → length sorted ≡ length rs → length (merge sorted) ≤ length rs
    shorter [] e = omega arith
    shorter (r ∷ rest) e = omega (arith, e, length-merge_after r rest)

pub is_covered-append :
    (value : ℕ) (rs others : List Range)
    → is_covered value (rs ++ others) ≡ (is_covered value rs || is_covered value others)
is_covered-append value [] others = refl
is_covered-append value (r ∷ rs) others = ground (arith, is_covered-append value rs others)
