-- ===== src/Intel/Ranges/Searching.antt =====
-- The binary search over sealed ranges (api/src/intel/match.ts, `findRange`).
use network_monitoring.Base.{
  ℕ, zero, suc, ◌+◌, ◌-◌, ◌/◌, ◌≤◌, ◌<◌, ◌≡◌, refl, sym, true, false, Option, none, some, List, [],
  ◌∷◌, arith, ltb, leb, nat_beq, Bool-cases, Option-cases, inl, inr, length, is_some,
}
use network_monitoring.Intel.Ranges.{Range, range_at, search_range, within, find_range}
use network_monitoring.Intel.Ranges.Merging.{is_in, is_covered, IsSealedFrom}

range_at-inside : (rs : List Range) (i : ℕ) → range_at rs i ≡ none → length rs ≤ i
range_at-inside [] i e = omega arith
range_at-inside (r ∷ rs) zero e = cc
range_at-inside (r ∷ rs) (suc i) e = omega (arith, range_at-inside rs i e)

range_at-low :
    (low : ℕ) (rs : List Range) (i : ℕ) {r : Range}
    → IsSealedFrom low rs
    → range_at rs i ≡ some r
    → (low ≤ r.start) × (r.start ≤ r.end)
range_at-low low [] i s e = cc
range_at-low low (x ∷ rs) zero {r} s e = ground (arith, s.0, s.1.0)
range_at-low low (x ∷ rs) (suc i) s e =
    omega (arith, range_at-low (x.end + 2) rs i s.1.1 e, s.0, s.1.0)

-- A later range starts behind the end of an earlier one.
range_at-apart :
    (low : ℕ) (rs : List Range) (i j : ℕ) {a b : Range}
    → IsSealedFrom low rs
    → i < j
    → range_at rs i ≡ some a
    → range_at rs j ≡ some b
    → a.end < b.start
range_at-apart low [] i j s h e f = cc
range_at-apart low (x ∷ rs) zero zero s h e f = elim h [ ]
range_at-apart low (x ∷ rs) zero (suc j) {a} {b} s h e f =
    ground (arith, e, range_at-low (x.end + 2) rs j s.1.1 f)
range_at-apart low (x ∷ rs) (suc i) zero s h e f = elim h [ ]
range_at-apart low (x ∷ rs) (suc i) (suc j) s h e f =
    range_at-apart (x.end + 2) rs i j s.1.1 (omega arith) e f

-- All ranges from index `high` on start behind the value.
abbrev IsBeyond : ℕ → List Range → ℕ → Type 0
IsBeyond value rs high = (i : ℕ) (r : Range) → high ≤ i → range_at rs i ≡ some r → value < r.start

-- The range found so far is the one before `low`.
abbrev IsReached : ℕ → List Range → ℕ → Option Range → Type 0
IsReached value rs low none = low ≡ 0
IsReached value rs low (some r) =
    (k : ℕ) × (low ≡ k + 1) × (range_at rs k ≡ some r) × (r.start ≤ value)

-- The last range that starts at the value or before it.
abbrev IsLast : ℕ → List Range → Option Range → Type 0
IsLast value rs found = (k : ℕ) × IsReached value rs k found × IsBeyond value rs k

beyond_end : (rs : List Range) (i : ℕ) (r : Range) → length rs ≤ i → range_at rs i ≡ some r → ⊥
beyond_end [] i r h e = cc
beyond_end (x ∷ rs) zero r h e = omega arith
beyond_end (x ∷ rs) (suc i) r h e = beyond_end rs i r (omega arith) e

IsBeyond-middle :
    (value : ℕ) (rs : List Range) (mid : ℕ) (range : Range)
    → IsSealedFrom 0 rs
    → range_at rs mid ≡ some range
    → leb range.start value ≡ false
    → IsBeyond value rs mid
IsBeyond-middle value rs mid range s e behind i r k e' = elim (Bool-cases (nat_beq i mid)) [
  | inl same ↦ ground (arith, same, e, e', behind)
  | inr other ↦ ground (
    arith,
    behind,
    range_at-apart 0 rs mid i s (ground (arith, other)) e e',
    range_at-low 0 rs mid s e,
  )
]

search_range-IsLast :
    (fuel : ℕ) (rs : List Range) (value low high : ℕ) (found : Option Range)
    → IsSealedFrom 0 rs
    → low ≤ high
    → high ≤ length rs
    → high ≤ low + fuel
    → IsReached value rs low found
    → IsBeyond value rs high
    → IsLast value rs (search_range fuel rs value low high found)
unfolding search_range
search_range-IsLast zero rs value low high found s h l f reached beyond =
    (low, reached, λ i r k. beyond i r (omega arith))
search_range-IsLast (suc fuel) rs value low high found s h l f reached beyond =
    elim (Bool-cases (ltb low high)) [
      | inr done ↦
          rw (done, search_range) (low, reached, λ i r k. beyond i r (ground (arith, done)))
      | inl more ↦
          let mid : ℕ = (low + (high - 1)) / 2 in
          rw (more, search_range)
            (elim (Option-cases (range_at rs mid)) [
              | inl missing ↦ absurd (ground (arith, range_at-inside rs mid missing, more))
              | inr (range, e) ↦ rw e (elim (Bool-cases (leb range.start value)) [
                | inl before ↦ rw before (
                    search_range-IsLast fuel rs value (mid + 1) high (some range) s
                      (ground (arith, more)) l (ground (arith, more))
                      (mid, refl, e, ground (arith, before)) beyond)
                | inr behind ↦ rw behind (
                    search_range-IsLast fuel rs value low mid found s (ground (arith, more))
                      (ground (arith, more)) (ground (arith, more)) reached
                      (IsBeyond-middle value rs mid range s e behind))
              ])
            ])
    ]

covered_at :
    (value : ℕ) (rs : List Range) (i : ℕ) (r : Range)
    → range_at rs i ≡ some r
    → is_in value r ≡ true
    → is_covered value rs ≡ true
covered_at value [] i r e h = cc
covered_at value (x ∷ rs) zero r e h = ground (arith, e, h)
covered_at value (x ∷ rs) (suc i) r e h = ground (arith, covered_at value rs i r e h)

nowhere :
    (value : ℕ) (rs : List Range)
    → ((i : ℕ) (r : Range) → range_at rs i ≡ some r → is_in value r ≡ false)
    → is_covered value rs ≡ false
nowhere value [] h = refl
nowhere value (x ∷ rs) h = rw (h 0 x refl) (nowhere value rs (λ i r e. h (suc i) r e))

-- The last range that starts at the value or before it is the only one that may hold it.
missed :
    (value : ℕ) (rs : List Range) (k : ℕ) (f : Range)
    → IsSealedFrom 0 rs
    → range_at rs k ≡ some f
    → leb value f.end ≡ false
    → f.start ≤ value
    → IsBeyond value rs (k + 1)
    → (i : ℕ) (r : Range) → range_at rs i ≡ some r
    → is_in value r ≡ false
missed value rs k f s e past h beyond i r e' = elim (Bool-cases (nat_beq i k)) [
  | inl same ↦ ground (arith, same, e, e', past)
  | inr other ↦ elim (Bool-cases (ltb i k)) [
    | inl before ↦
        ground (arith, before, h, range_at-apart 0 rs i k s (ground (arith, before)) e' e)
    | inr behind ↦ ground (arith, beyond i r (ground (arith, other, behind)) e')
  ]
]

within-is_covered :
    (value : ℕ) (rs : List Range) (found : Option Range)
    → IsSealedFrom 0 rs
    → IsLast value rs found
    → is_some (within value found) ≡ is_covered value rs
within-is_covered value rs none s (k, e, beyond) =
    sym (nowhere value rs (λ i r e'. ground (arith, beyond i r (omega (arith, e)) e')))
within-is_covered value rs (some f) s (low, (k, e, at, h), beyond) =
    elim (Bool-cases (leb value f.end)) [
      | inl inside ↦ rw inside (sym (covered_at value rs k f at (ground (arith, inside, h))))
      | inr past ↦ rw past (
          sym (
            nowhere value rs
              (missed value rs k f s at past h (λ i r l e'. beyond i r (omega (arith, e, l)) e'))))
    ]

-- Over sealed ranges, the search finds a range exactly if some range holds the value.
pub find_range-is_covered :
    (value : ℕ) (rs : List Range)
    → IsSealedFrom 0 rs
    → is_some (find_range value rs) ≡ is_covered value rs
unfolding find_range
find_range-is_covered value rs s = within-is_covered value rs _ s (
    search_range-IsLast (length rs) rs value 0 (length rs) none s (omega arith) (omega arith)
      (omega arith) refl (λ i r h e. absurd (beyond_end rs i r h e)))
