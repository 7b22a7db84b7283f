-- ===== src/Intel/Indicators.antt =====
-- The set of indicators: loading, sealing and matching (api/src/intel/match.ts, `IndicatorSet`).
use network_monitoring.Base.{
  or_zero, ℕ, ◌+◌, Bool, true, false, ◌||◌, Option, none, some, List, [], ◌∷◌, ◌++◌, leb, nat_beq,
  if◌then◌else◌, length, Str, codes, list_eq, nat_eq,
}
use network_monitoring.Intel.Address.{ipv4_to_int, is_non_routable_v4, parse_cidr}
use network_monitoring.Intel.Names.{canonical_ipv6, is_non_routable_v6, normalize_domain}
use network_monitoring.Intel.Ranges.{Range, sort_ranges, merge, find_range}
use network_monitoring.Js.Map
use network_monitoring.Js.Strings.{trim, includes}
use network_monitoring.Js.Text.{split, join}

pub data IndicatorType : Type 0 where
  ipv4 ipv6 cidr domain : IndicatorType

pub record Indicator : Type 0 where
  pub value : Str
  pub kind : IndicatorType
  pub source : Str
  pub note : Option Str

pub record Meta : Type 0 where
  pub source : Str
  pub note : Option Str

pub record IndicatorMatch : Type 0 where
  pub observed : Str
  pub indicator : Str
  pub kind : IndicatorType
  pub source : Str
  pub note : Option Str

pub record IndicatorSet : Type 0 where
  pub ipv4 : List (ℕ × Meta)
  pub ipv6 : List (Str × Meta)
  pub domains : List (Str × Meta)
  pub ranges : List Range
  pub pending_ranges : List Range
  pub rejected : ℕ
  pub by_source : List (Str × ℕ)
  pub max_indicators : ℕ

abbrev pub new_set : ℕ → IndicatorSet
new_set max_indicators = record {
  ipv4 = [];
  ipv6 = [];
  domains = [];
  ranges = [];
  pending_ranges = [];
  rejected = 0;
  by_source = [];
  max_indicators = max_indicators;
}

unfoldable pub size : IndicatorSet → ℕ
size set = length set.ipv4 + length set.ipv6 + length set.domains + length set.ranges

unfoldable pub count : Str → IndicatorSet → IndicatorSet
count source set = record set {
  by_source = Map.set source (or_zero (Map.get source set.by_source) + 1) set.by_source;
}

unfoldable pub reject : IndicatorSet → Bool × IndicatorSet
reject set = (false, record set { rejected = set.rejected + 1 })

-- `note?.trim() || null`
abbrev trimmed_note : Option Str → Option Str
trimmed_note none = none
trimmed_note (some note) = if nat_beq (length (trim note)) 0 then none else some (trim note)

abbrev pub meta_of : Indicator → Meta
meta_of indicator = record { source = indicator.source; note = trimmed_note indicator.note }

unfoldable pub add_ipv4 : Indicator → Option ℕ → IndicatorSet → Bool × IndicatorSet
unfolding reject
add_ipv4 indicator none set = reject set
add_ipv4 indicator (some value) set = if is_non_routable_v4 value then reject set else (
  true,
  count indicator.source (record set { ipv4 = Map.set value (meta_of indicator) set.ipv4 }),
)

abbrev pub range_of : Indicator → ℕ × ℕ → Range
range_of indicator (start, end) = record {
  start = start;
  end = end;
  source = indicator.source;
  note = trimmed_note indicator.note;
  prefix = indicator.value;
}

unfoldable pub add_cidr : Indicator → Option (ℕ × ℕ) → IndicatorSet → Bool × IndicatorSet
unfolding reject
add_cidr indicator none set = reject set
add_cidr indicator (some (start, end)) set =
    if is_non_routable_v4 start || is_non_routable_v4 end then reject set else (
      true,
      count indicator.source (record set {
        pending_ranges = set.pending_ranges ++ (range_of indicator (start, end) ∷ []);
      }),
    )

unfoldable pub add_ipv6 : Indicator → Option Str → IndicatorSet → Bool × IndicatorSet
unfolding reject
add_ipv6 indicator none set = reject set
add_ipv6 indicator (some value) set = if is_non_routable_v6 value then reject set else (
  true,
  count indicator.source (record set { ipv6 = Map.set value (meta_of indicator) set.ipv6 }),
)

unfoldable pub add_domain : Indicator → Option Str → IndicatorSet → Bool × IndicatorSet
unfolding reject
add_domain indicator none set = reject set
add_domain indicator (some value) set = (
  true,
  count indicator.source (record set { domains = Map.set value (meta_of indicator) set.domains }),
)

unfoldable pub add_kind : IndicatorType → Indicator → IndicatorSet → Bool × IndicatorSet
add_kind ipv4 indicator set = add_ipv4 indicator (ipv4_to_int indicator.value) set
add_kind cidr indicator set = add_cidr indicator (parse_cidr indicator.value) set
add_kind ipv6 indicator set = add_ipv6 indicator (canonical_ipv6 indicator.value) set
add_kind domain indicator set = add_domain indicator (normalize_domain indicator.value) set

-- Whether the indicator was taken, and the set after.
unfoldable pub add : Indicator → IndicatorSet → Bool × IndicatorSet
unfolding reject
add indicator set =
    if leb set.max_indicators (size set + length set.pending_ranges)
    then reject set
    else add_kind indicator.kind indicator set

unfoldable pub seal : IndicatorSet → IndicatorSet
seal set = if nat_beq (length set.pending_ranges) 0 then set else record set {
  ranges = merge (sort_ranges (set.ranges ++ set.pending_ranges));
  pending_ranges = [];
}

abbrev range_match : Str → Option Range → Option IndicatorMatch
range_match address none = none
range_match address (some range) = some (record {
  observed = address;
  indicator = range.prefix;
  kind = cidr;
  source = range.source;
  note = range.note;
})

abbrev pub exact_match : IndicatorType → Str → Str → Meta → IndicatorMatch
exact_match kind observed indicator meta = record {
  observed = observed;
  indicator = indicator;
  kind = kind;
  source = meta.source;
  note = meta.note;
}

unfoldable pub match_v4 : Str → ℕ → IndicatorSet → Option IndicatorMatch
match_v4 address value set = elim (Map.get value set.ipv4) [
  | some meta ↦ some (exact_match ipv4 address address meta)
  | none ↦ range_match address (find_range value set.ranges)
]

unfoldable pub match_v6 : Str → Str → IndicatorSet → Option IndicatorMatch
match_v6 address canonical set = elim (Map.get canonical set.ipv6) [
  | some meta ↦ some (exact_match ipv6 address canonical meta)
  | none ↦ none
]

-- A missing address is the empty text.
unfoldable pub match_ip : Str → IndicatorSet → Option IndicatorMatch
match_ip address set =
    if nat_beq (length address) 0
    then none
    else if includes b':' address
    then elim (canonical_ipv6 address) [
      | none ↦ none
      | some canonical ↦ match_v6 address canonical set
    ]
    else elim (ipv4_to_int address) [ none ↦ none | some value ↦ match_v4 address value set ]

-- The loop over the labels: the name itself, then its parents of two labels or more.
unfoldable pub match_labels : Str → List Str → IndicatorSet → Option IndicatorMatch
match_labels observed [] set = none
match_labels observed (label ∷ []) set = none
match_labels observed (label ∷ next ∷ rest) set =
    let candidate = join (codes ".") (label ∷ next ∷ rest) in
    elim (Map.get candidate set.domains) [
      | some meta ↦ some (exact_match domain observed candidate meta)
      | none ↦ match_labels observed (next ∷ rest) set
    ]

unfoldable pub match_domain : Str → IndicatorSet → Option IndicatorMatch
match_domain name set = if nat_beq (length name) 0 then none else elim (normalize_domain name) [
  | none ↦ none
  | some normalized ↦ match_labels normalized (split b'.' normalized) set
]

pub record IndicatorStats : Type 0 where
  pub total : ℕ
  pub ipv4 : ℕ
  pub ipv6 : ℕ
  pub cidr : ℕ
  pub domain : ℕ
  pub rejected : ℕ
  pub by_source : List (Str × ℕ)

unfoldable pub stats : IndicatorSet → IndicatorStats
stats set = record {
  total = size set;
  ipv4 = length set.ipv4;
  ipv6 = length set.ipv6;
  cidr = length set.ranges;
  domain = length set.domains;
  rejected = set.rejected;
  by_source = set.by_source;
}
