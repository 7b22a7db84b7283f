-- ===== src/Intel/Matching.antt =====
-- What matches: an address in an exact indicator or in a prefix, a name under a listed domain
-- (api/src/intel/match.ts, `matchIp` and `matchDomain`).
use network_monitoring.Base.{
  ℕ, ◌^◌, ◌≤◌, ◌<◌, ◌≡◌, refl, ◌∙◌, true, false, ◌||◌, some, List, [], ◌∷◌, ◌++◌, arith, nat_beq,
  Bool-cases, inl, inr, length, nat_eq, list_eq, Str, is_some,
}
use network_monitoring.Intel.Address.{int_to_ipv4, parse_cidr}
use network_monitoring.Intel.Address.Dotted.{ipv4_to_int-int_to_ipv4}
use network_monitoring.Intel.Address.Units.{int_to_ipv4-colon, int_to_ipv4-some}
use network_monitoring.Intel.Indicators.{
  IndicatorSet, Indicator, Meta, cidr, ipv4, exact_match, size, add, add_kind, add_cidr, count,
  reject, seal, match_ip, match_v4, range_of,
}
use network_monitoring.Intel.Loading.{IsSound, add-IsSound, seal-IsSound, sealed-All}
use network_monitoring.Intel.Ranges.{Range}
use network_monitoring.Intel.Ranges.Merging.{
  is_covered, IsOrdered, is_covered-merge, is_covered-append,
}
use network_monitoring.Intel.Ranges.Searching.{find_range-is_covered}
use network_monitoring.Base.{All-append}
use network_monitoring.Js.Map

is_some-match_v4 :
    (address : Str) (value : ℕ) (set : IndicatorSet)
    → IsSound set
    → is_some (match_v4 address value set)
      ≡ (is_some (Map.get value set.ipv4) || is_covered value set.ranges)
unfolding match_v4
is_some-match_v4 address value set h =
    ground (arith, find_range-is_covered value set.ranges h.sealed)

is_some-match_ip :
    (n : ℕ) (set : IndicatorSet)
    → n < 2 ^ 32
    → is_some (match_ip (int_to_ipv4 n) set) ≡ is_some (match_v4 (int_to_ipv4 n) n set)
unfolding match_ip
is_some-match_ip n set h =
    rw (int_to_ipv4-some n, int_to_ipv4-colon n, ipv4_to_int-int_to_ipv4 n h) refl

none_pending :
    (value : ℕ) (rs pending : List Range)
    → nat_beq (length pending) 0 ≡ true
    → is_covered value rs ≡ (is_covered value rs || is_covered value pending)
none_pending value rs [] e = ground arith
none_pending value rs (r ∷ pending) e = ground (arith, e)

is_covered-seal :
    (value : ℕ) (set : IndicatorSet)
    → IsSound set
    → is_covered value (seal set).ranges
      ≡ (is_covered value set.ranges || is_covered value set.pending_ranges)
unfolding seal
is_covered-seal value set h = elim (Bool-cases (nat_beq (length set.pending_ranges) 0)) [
  | inl nothing ↦ rw nothing (none_pending value set.ranges set.pending_ranges nothing)
  | inr some_ranges ↦ rw some_ranges (
      is_covered-merge value (set.ranges ++ set.pending_ranges)
        (All-append IsOrdered set.ranges _ (sealed-All 0 set.ranges h.sealed) h.ordered)
      ∙ is_covered-append value set.ranges set.pending_ranges)
]

ipv4-seal : (set : IndicatorSet) → (seal set).ipv4 ≡ set.ipv4
unfolding seal
ipv4-seal set = ground arith

-- After sealing, a dotted IPv4 address matches exactly if it is an exact indicator, or lies in a prefix
-- that was loaded, sealed before or pending.
pub match_ip-seal :
    (n : ℕ) (set : IndicatorSet)
    → n < 2 ^ 32
    → IsSound set
    → is_some (match_ip (int_to_ipv4 n) (seal set)) ≡ (
        is_some (Map.get n set.ipv4)
        || (is_covered n set.ranges || is_covered n set.pending_ranges))
match_ip-seal n set small h =
    is_some-match_ip n (seal set) small
    ∙ (is_some-match_v4 (int_to_ipv4 n) n (seal set) (seal-IsSound set h)
        ∙ rw (ipv4-seal set, is_covered-seal n set h) refl)

-- An accepted prefix waits for sealing.
accepted-pending :
    (indicator : Indicator) (set : IndicatorSet) (start end n : ℕ)
    → indicator.kind ≡ cidr
    → parse_cidr indicator.value ≡ some (start, end)
    → (add indicator set).0 ≡ true
    → start ≤ n
    → n ≤ end
    → is_covered n (add indicator set).1.pending_ranges ≡ true
unfolding add add_kind add_cidr reject count
accepted-pending indicator set start end n kind parsed accepted low high = ground (
  arith,
  kind,
  parsed,
  accepted,
  low,
  high,
  is_covered-append n set.pending_ranges (range_of indicator (start, end) ∷ []),
)

-- Every address of an accepted IPv4 prefix, dotted, matches once the set is sealed, whether the address is
-- routable or not: only the two ends of a prefix are tested for that.
pub match_ip-add_cidr :
    (indicator : Indicator) (set : IndicatorSet) (start end n : ℕ)
    → IsSound set
    → indicator.kind ≡ cidr
    → parse_cidr indicator.value ≡ some (start, end)
    → (add indicator set).0 ≡ true
    → start ≤ n
    → n ≤ end
    → n < 2 ^ 32
    → is_some (match_ip (int_to_ipv4 n) (seal (add indicator set).1)) ≡ true
match_ip-add_cidr indicator set start end n h kind parsed accepted low high small =
    match_ip-seal n (add indicator set).1 small (add-IsSound indicator set h)
    ∙ ground (arith, accepted-pending indicator set start end n kind parsed accepted low high)

match_v4-listed :
    (address : Str) (n : ℕ) (set : IndicatorSet) (meta : Meta)
    → Map.get n set.ipv4 ≡ some meta
    → match_v4 address n set ≡ some (exact_match ipv4 address address meta)
unfolding match_v4
match_v4-listed address n set meta listed = ground (arith, listed)

-- An address that is an indicator of its own matches as that, whatever prefixes hold it.
pub match_ip-listed :
    (n : ℕ) (set : IndicatorSet) (meta : Meta)
    → n < 2 ^ 32
    → Map.get n set.ipv4 ≡ some meta
    → match_ip (int_to_ipv4 n) set ≡ some (exact_match ipv4 (int_to_ipv4 n) (int_to_ipv4 n) meta)
unfolding match_ip
match_ip-listed n set meta h listed =
    rw (int_to_ipv4-some n, int_to_ipv4-colon n, ipv4_to_int-int_to_ipv4 n h)
      (match_v4-listed (int_to_ipv4 n) n set meta listed)

length-get : (n : ℕ) (m : List (ℕ × Meta)) (meta : Meta) → Map.get n m ≡ some meta → 1 ≤ length m
unfolding Map.get
length-get n [] meta listed = cc
length-get n (b ∷ m) meta listed = omega arith

-- A set in which something is listed is not empty.
pub size-listed :
    (n : ℕ) (set : IndicatorSet) (meta : Meta)
    → Map.get n set.ipv4 ≡ some meta
    → nat_beq (size set) 0 ≡ false
unfolding size
size-listed n set meta listed = ground (arith, length-get n set.ipv4 meta listed)
