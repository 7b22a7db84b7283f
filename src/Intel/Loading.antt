-- ===== src/Intel/Loading.antt =====
-- What holds of a set of indicators however it is loaded (api/src/intel/match.ts, `add` and `seal`).
use network_monitoring.Base.{
  ℕ, ◌+◌, ◌≤◌, ◌≡◌, refl, false, ◌||◌, Option, none, some, List, [], ◌∷◌, ◌++◌, arith, leb, nat_beq,
  Bool-cases, inl, inr, length, All, All-append, length-append, nat_eq, list_eq, Str,
}
use network_monitoring.Intel.Address.{is_non_routable_v4}
use network_monitoring.Intel.Address.Blocks.{parse_cidr-ordered}
use network_monitoring.Intel.Indicators.{
  IndicatorSet, Indicator, IndicatorType, ipv4, ipv6, cidr, domain, new_set, size, count, reject,
  add_ipv4, add_ipv6, add_cidr, add_domain, add_kind, add, seal, meta_of, range_of,
}
use network_monitoring.Intel.Names.{is_non_routable_v6}
use network_monitoring.Intel.Ranges.{Range}
use network_monitoring.Intel.Ranges.Merging.{
  IsOrdered, IsSealedFrom, merge-IsSealedFrom, length-merge,
}
use network_monitoring.Js.Map

-- No address of its own names a private or local host, the sealed ranges leave gaps, and the set is
-- within its bound.
pub record IsSound (set : IndicatorSet) : Type 0 where
  pub routable : All (λ b. is_non_routable_v4 b.0 ≡ false) set.ipv4
  pub routable_v6 : All (λ b. is_non_routable_v6 b.0 ≡ false) set.ipv6
  pub sealed : IsSealedFrom 0 set.ranges
  pub ordered : All IsOrdered set.pending_ranges
  pub bounded : size set + length set.pending_ranges ≤ set.max_indicators

pub sealed-All : (low : ℕ) (rs : List Range) → IsSealedFrom low rs → All IsOrdered rs
sealed-All low [] h = tt
sealed-All low (r ∷ rs) h = (h.1.0, sealed-All (r.end + 2) rs h.1.1)

pub new_set-IsSound : (max_indicators : ℕ) → IsSound (new_set max_indicators)
unfolding size
new_set-IsSound max_indicators = record {
  routable = tt;
  routable_v6 = tt;
  sealed = tt;
  ordered = tt;
  bounded = omega arith;
}

reject-IsSound : (set : IndicatorSet) → IsSound set → IsSound (reject set).1
unfolding reject size
reject-IsSound set h = record {
  routable = h.routable;
  routable_v6 = h.routable_v6;
  sealed = h.sealed;
  ordered = h.ordered;
  bounded = h.bounded;
}

module _ (indicator : Indicator) (set : IndicatorSet)
    (room : leb set.max_indicators (size set + length set.pending_ranges) ≡ false)
    (h : IsSound set) where
  add_ipv4-IsSound : (value : Option ℕ) → IsSound (add_ipv4 indicator value set).1
  unfolding add_ipv4 count size
  add_ipv4-IsSound none = reject-IsSound set h
  add_ipv4-IsSound (some value) = elim (Bool-cases (is_non_routable_v4 value)) [
    | inl private ↦ rw private (reject-IsSound set h)
    | inr public ↦ rw public (record {
      routable = Map.All-set_keys _ value (meta_of indicator) set.ipv4 public h.routable;
      routable_v6 = h.routable_v6;
      sealed = h.sealed;
      ordered = h.ordered;
      bounded = ground (arith, room, Map.length-set value (meta_of indicator) set.ipv4);
    })
  ]

  add_ipv6-IsSound : (value : Option Str) → IsSound (add_ipv6 indicator value set).1
  unfolding add_ipv6 count size
  add_ipv6-IsSound none = reject-IsSound set h
  add_ipv6-IsSound (some value) = elim (Bool-cases (is_non_routable_v6 value)) [
    | inl private ↦ rw private (reject-IsSound set h)
    | inr public ↦ rw public (record {
      routable = h.routable;
      routable_v6 = Map.All-set_keys _ value (meta_of indicator) set.ipv6 public h.routable_v6;
      sealed = h.sealed;
      ordered = h.ordered;
      bounded = ground (arith, room, Map.length-set value (meta_of indicator) set.ipv6);
    })
  ]

  add_domain-IsSound : (value : Option Str) → IsSound (add_domain indicator value set).1
  unfolding add_domain count size
  add_domain-IsSound none = reject-IsSound set h
  add_domain-IsSound (some value) = record {
    routable = h.routable;
    routable_v6 = h.routable_v6;
    sealed = h.sealed;
    ordered = h.ordered;
    bounded = ground (arith, room, Map.length-set value (meta_of indicator) set.domains);
  }

  add_cidr-IsSound :
      (range : Option (ℕ × ℕ))
      → ((start end : ℕ) → range ≡ some (start, end) → start ≤ end)
      → IsSound (add_cidr indicator range set).1
  unfolding add_cidr count size
  add_cidr-IsSound none o = reject-IsSound set h
  add_cidr-IsSound (some (start, end)) o =
      elim (Bool-cases (is_non_routable_v4 start || is_non_routable_v4 end)) [
        | inl private ↦ rw private (reject-IsSound set h)
        | inr public ↦ rw public (record {
          routable = h.routable;
          routable_v6 = h.routable_v6;
          sealed = h.sealed;
          ordered = All-append IsOrdered set.pending_ranges _ h.ordered (o start end refl, tt);
          bounded = ground (
            arith,
            room,
            length-append set.pending_ranges (range_of indicator (start, end) ∷ []),
          );
        })
      ]

  add_kind-IsSound : (kind : IndicatorType) → IsSound (add_kind kind indicator set).1
  unfolding add_kind
  add_kind-IsSound ipv4 = add_ipv4-IsSound _
  add_kind-IsSound cidr = add_cidr-IsSound _ (parse_cidr-ordered indicator.value)
  add_kind-IsSound ipv6 = add_ipv6-IsSound _
  add_kind-IsSound domain = add_domain-IsSound _

-- Adding any indicator keeps the set sound: within its bound, with no private or local address among
-- the exact indicators, and with gaps between the sealed ranges.
pub add-IsSound :
    (indicator : Indicator) (set : IndicatorSet) → IsSound set → IsSound (add indicator set).1
unfolding add
add-IsSound indicator set h =
    elim (Bool-cases (leb set.max_indicators (size set + length set.pending_ranges))) [
      | inl full ↦ rw full (reject-IsSound set h)
      | inr room ↦ rw room (add_kind-IsSound indicator set room h indicator.kind)
    ]

-- Sealing keeps the set sound.
pub seal-IsSound : (set : IndicatorSet) → IsSound set → IsSound (seal set)
unfolding seal size
seal-IsSound set h = elim (Bool-cases (nat_beq (length set.pending_ranges) 0)) [
  | inl nothing ↦ rw nothing h
  | inr some_ranges ↦ rw some_ranges (record {
    routable = h.routable;
    routable_v6 = h.routable_v6;
    sealed =
        merge-IsSealedFrom _
          (All-append IsOrdered set.ranges _ (sealed-All 0 set.ranges h.sealed) h.ordered);
    ordered = tt;
    bounded = omega (
      arith,
      h.bounded,
      length-merge (set.ranges ++ set.pending_ranges),
      length-append set.ranges set.pending_ranges,
    );
  })
]
