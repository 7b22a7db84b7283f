-- ===== src/Intel/Tests.antt =====
-- Runs of the matcher, and its theorems at small sets of indicators.
use network_monitoring.Base.{
  ◌+◌, ◌*◌, ◌*◌, ◌≡◌, refl, none, some, [], ◌∷◌, ◌++◌, arith, true, Str, codes, nat_eq, list_eq,
  ◌||◌, is_some,
}
use network_monitoring.Intel.Address.{
  octet, octets, ipv4_to_int, int_to_ipv4, is_non_routable_v4, parse_cidr, masked, block,
}
use network_monitoring.Intel.Address.Dotted.{ipv4_to_int-read_ipv4}
use network_monitoring.Intel.Address.Units.{parse_cidr-print}
use network_monitoring.Intel.Domains.{
  match_domain-IsParentMatch, match_domain-listed, IsParentMatch,
}
use network_monitoring.Intel.Indicators.{
  IndicatorSet, Indicator, IndicatorMatch, cidr, domain, new_set, add, seal, size, add_kind,
  add_ipv4, add_cidr, add_ipv6, add_domain, count, reject, match_ip, match_v4, match_domain,
  match_labels,
}
use network_monitoring.Intel.Loading.{IsSound, add-IsSound, new_set-IsSound}
use network_monitoring.Intel.Matching.{match_ip-seal, match_ip-add_cidr}
use network_monitoring.Intel.Names.{
  canonical_ipv6, normalize_domain, drop_last_dot, split_elision, expand, split_half, has_empty,
  normalize_groups, drop_zeros, is_non_routable_v6, parse_hex, hex_from,
}
use network_monitoring.Intel.Ranges.{
  sort_ranges, insert_sorted, merge, merge_after, find_range, search_range,
}
use network_monitoring.Intel.Ranges.Merging.{is_covered}
use network_monitoring.Js.Buffer.{Buffer, byte_or_zero}
use network_monitoring.Js.Decimal.{of_digits}
use network_monitoring.Js.Map
use network_monitoring.Js.Strings.{
  trim, trim_start, trim_end, lower, includes, every, all_decimal, is_space,
}
use network_monitoring.Js.Text.{split, split_from, join, to_string, to_string_from, digit}
use network_monitoring.Packet.Addresses.{read_ipv4}

matcher : Unit {0}
unfolding octet octets ipv4_to_int int_to_ipv4 is_non_routable_v4 parse_cidr masked block add seal
    size add_kind add_ipv4 add_cidr add_ipv6 add_domain count reject match_ip match_v4 match_domain
    match_labels canonical_ipv6 normalize_domain drop_last_dot split_elision expand split_half
    has_empty normalize_groups drop_zeros is_non_routable_v6 parse_hex hex_from sort_ranges
    insert_sorted merge merge_after find_range search_range of_digits Map.get Map.set trim
    trim_start trim_end lower includes every all_decimal is_space split split_from join to_string
    to_string_from digit
matcher = tt

-- The spellings of one address meet.
one_address : canonical_ipv6 (codes " 2001:0DB8::1 ") ≡ some (codes "2001:db8:0:0:0:0:0:1")
unfolding matcher
one_address = refl

stray_colon : canonical_ipv6 (codes ":1:2:3:4:5:6:7:8") ≡ none
unfolding matcher
stray_colon = refl

not_a_domain : normalize_domain (codes "999.999.999.999") ≡ none
unfolding matcher
not_a_domain = refl

abbrev prefix : Str → Indicator
prefix value = record { value = value; kind = cidr; source = codes "feed"; note = none }

abbrev empty_set : IndicatorSet
empty_set = new_set 4

-- The prefix 8.0.0.0/5 holds 10.0.0.1, and both its ends are routable.
wide_prefix_parsed : parse_cidr (prefix (codes "8.0.0.0/5")).value ≡ some (134_217_728, 268_435_455)
unfolding matcher
wide_prefix_parsed = refl

wide_prefix_accepted : (add (prefix (codes "8.0.0.0/5")) empty_set).0 ≡ true
unfolding matcher
wide_prefix_accepted = refl

match_ip-add_cidr_example :
    is_some
      (match_ip (int_to_ipv4 167_772_161) (seal (add (prefix (codes "8.0.0.0/5")) empty_set).1))
    ≡ true
match_ip-add_cidr_example =
    match_ip-add_cidr (prefix (codes "8.0.0.0/5")) empty_set 134_217_728 268_435_455 167_772_161
      (new_set-IsSound 4) refl wide_prefix_parsed wide_prefix_accepted (omega arith) (omega arith)
      (omega arith)

private_address : is_non_routable_v4 167_772_161 ≡ true
unfolding matcher
private_address = refl

match_ip-seal_example :
    is_some
      (match_ip (int_to_ipv4 167_772_161) (seal (add (prefix (codes "8.0.0.0/5")) empty_set).1))
    ≡ (is_some (Map.get 167_772_161 (add (prefix (codes "8.0.0.0/5")) empty_set).1.ipv4)
        || (is_covered 167_772_161 (add (prefix (codes "8.0.0.0/5")) empty_set).1.ranges
            || is_covered 167_772_161
                (add (prefix (codes "8.0.0.0/5")) empty_set).1.pending_ranges))
match_ip-seal_example =
    match_ip-seal 167_772_161 (add (prefix (codes "8.0.0.0/5")) empty_set).1 (omega arith)
      (add-IsSound (prefix (codes "8.0.0.0/5")) empty_set (new_set-IsSound 4))

add-IsSound_example : IsSound (add (prefix (codes "8.0.0.0/5")) empty_set).1
add-IsSound_example = add-IsSound (prefix (codes "8.0.0.0/5")) empty_set (new_set-IsSound 4)

abbrev the_bytes : Buffer
the_bytes = 192 ∷ 168 ∷ 1 ∷ 1 ∷ []

ipv4_to_int-read_ipv4_example :
    ipv4_to_int (read_ipv4 the_bytes 0)
    ≡ some (
        ((byte_or_zero the_bytes 0 * 256 + byte_or_zero the_bytes 1) * 256
            + byte_or_zero the_bytes 2)
          * 256
        + byte_or_zero the_bytes 3)
ipv4_to_int-read_ipv4_example = ipv4_to_int-read_ipv4 the_bytes 0 (omega arith)

parse_cidr-print_example :
    parse_cidr (int_to_ipv4 167_772_161 ++ (b'/' ∷ to_string 10 8)) ≡ some (block 167_772_161 8)
parse_cidr-print_example = parse_cidr-print 167_772_161 8 (omega arith) (omega arith)

abbrev domain_set : IndicatorSet
domain_set = record empty_set {
  domains = (codes "example.com", record { source = codes "feed"; note = none }) ∷ [];
}

abbrev below : Str
below = codes "evil.example.com"

abbrev listed : IndicatorMatch
listed = record {
  observed = below;
  indicator = codes "example.com";
  kind = domain;
  source = codes "feed";
  note = none;
}

below_normal : normalize_domain below ≡ some below
unfolding matcher
below_normal = refl

below_matches : match_domain below domain_set ≡ some listed
unfolding matcher
below_matches = refl

match_domain-IsParentMatch_example : IsParentMatch (split b'.' below) below domain_set listed
match_domain-IsParentMatch_example =
    match_domain-IsParentMatch below below domain_set listed below_normal below_matches

match_domain-listed_example : is_some (match_domain below domain_set) ≡ true
unfolding matcher
match_domain-listed_example =
    match_domain-listed below below domain_set 1 (record { source = codes "feed"; note = none })
      below_normal (omega arith) refl
