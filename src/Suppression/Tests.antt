-- ===== src/Suppression/Tests.antt =====
-- Runs of the suppression rules, and their theorems at small sets of rules.
use network_monitoring.Base.{◌≡◌, refl, true, none, some, [], ◌∷◌, codes}
use network_monitoring.Intel.Address.{
  octet, octets, ipv4_to_int, int_to_ipv4, parse_cidr, masked, block,
}
use network_monitoring.Js.Decimal.{of_digits}
use network_monitoring.Js.Strings.{
  trim, trim_start, trim_end, includes, all_decimal, every, is_space,
}
use network_monitoring.Js.Text.{split, split_from, join, to_string, to_string_from, digit}
use network_monitoring.Net.Prefix.{
  parse_prefix, parse_bits, cut, prefix_of, v4_prefix, prefix_contains, contains_text,
}
use network_monitoring.Suppression.{
  SuppressionCriteria, SuppressibleEvent, new_suppression_set, compile_from, compile_rule,
  compile_ranges, push_rule, read_criterion, match_event, match_rules, has_kind, alert_kinds,
}
use network_monitoring.Suppression.Refinement.{match_event-first_applying, first_applying}

-- Silences port scans from 10.0.0.0/8 until the time 500.
abbrev scanner_rule : SuppressionCriteria
scanner_rule = record {
  id = 7;
  kind = some (codes "port_scan");
  source_cidr = some (codes "10.0.0.7/8");
  target_cidr = none;
  port = none;
  enabled = true;
  expires_at = some 500;
}

abbrev broken_rule : SuppressionCriteria
broken_rule = record scanner_rule { id = 6; source_cidr = some (codes "10.0.0") }

abbrev scan : SuppressibleEvent
scan = record {
  kind = codes "port_scan";
  source_ip = some (codes "10.9.9.9");
  target_ip = none;
  port = none;
}

rules_engine : Unit {0}
unfolding new_suppression_set compile_from compile_rule compile_ranges push_rule read_criterion
    match_event match_rules has_kind alert_kinds parse_prefix parse_bits cut prefix_of v4_prefix
    prefix_contains contains_text octet octets ipv4_to_int int_to_ipv4 parse_cidr masked block
    of_digits trim trim_start trim_end includes all_decimal every is_space split split_from join
    to_string to_string_from digit
rules_engine = tt

silenced : match_event (new_suppression_set (broken_rule ∷ scanner_rule ∷ [])) scan 499 ≡ some 7
unfolding rules_engine
silenced = refl

lapsed : match_event (new_suppression_set (broken_rule ∷ scanner_rule ∷ [])) scan 500 ≡ none
unfolding rules_engine
lapsed = refl

match_event-first_applying_example :
    match_event (new_suppression_set (broken_rule ∷ scanner_rule ∷ [])) scan 499
    ≡ first_applying scan 499 (broken_rule ∷ scanner_rule ∷ [])
match_event-first_applying_example =
    match_event-first_applying (broken_rule ∷ scanner_rule ∷ []) scan 499
