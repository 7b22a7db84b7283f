-- ===== src/Suppression/Refinement.antt =====
-- The compiled set against a reading of the rules as they are written
-- (api/src/services/suppression-rules.ts, the constructor and `match` of `SuppressionSet`).
use network_monitoring.Base.{
  ℕ, ◌≡◌, refl, ap, ◌∙◌, Bool, true, false, not, ◌&&◌, Option, none, some, List, [], ◌∷◌, ◌++◌,
  arith, if◌then◌else◌, Str, ◌==◌, list_eq, nat_eq,
}
use network_monitoring.Net.Prefix.{Prefix, parse_prefix, prefix_contains}
use network_monitoring.Suppression.{
  SuppressionCriteria, SuppressibleEvent, SuppressionSet, CompiledRule, Criterion, unset, usable,
  broken, read_criterion, compile_ranges, push_rule, compile_rule, compile_from,
  new_suppression_set, match_rules, match_event, alert_kinds, has_kind, is_expired, admits_kind,
  admits_address, admits_port,
}

-- A criterion that is not set admits everything; a kind that no detector raises and a range that
-- does not parse admit nothing.
abbrev pub kind_applies : Option Str → Str → Bool
kind_applies none kind = true
kind_applies (some wanted) kind = has_kind alert_kinds wanted && (wanted == kind)

abbrev holds : Option Prefix → Option Str → Bool
holds none address = false
holds (some prefix) address = prefix_contains prefix address

abbrev pub address_applies : Option Str → Option Str → Bool
address_applies none address = true
address_applies (some text) address = holds (parse_prefix text) address

abbrev pub applies : SuppressibleEvent → ℕ → SuppressionCriteria → Bool
applies event now rule =
    rule.enabled
    && (not (is_expired rule.expires_at now)
        && (kind_applies rule.kind event.kind
            && (address_applies rule.source_cidr event.source_ip
                && (address_applies rule.target_cidr event.target_ip
                    && admits_port rule.port event.port))))

-- The id of the first rule that applies.
abbrev pub first_applying : SuppressibleEvent → ℕ → List SuppressionCriteria → Option ℕ
first_applying event now [] = none
first_applying event now (rule ∷ rules) =
    if applies event now rule then some rule.id else first_applying event now rules

abbrev or_else : Option ℕ → Option ℕ → Option ℕ
or_else none other = other
or_else (some id) other = some id

match_rules-append :
    (event : SuppressibleEvent) (now : ℕ) (xs ys : List CompiledRule)
    → match_rules event now (xs ++ ys)
      ≡ or_else (match_rules event now xs) (match_rules event now ys)
unfolding match_rules
match_rules-append event now [] ys = refl
match_rules-append event now (rule ∷ xs) ys = ground (arith, match_rules-append event now xs ys)

abbrev criterion_applies : Criterion → Option Str → Bool
criterion_applies unset address = true
criterion_applies (usable prefix) address = prefix_contains prefix address
criterion_applies (broken text) address = false

read_criterion-applies :
    (text address : Option Str)
    → criterion_applies (read_criterion text) address ≡ address_applies text address
unfolding read_criterion
read_criterion-applies none address = refl
read_criterion-applies (some text) address = ground arith

module _ (event : SuppressibleEvent) (now : ℕ) (rule : SuppressionCriteria)
    (set : SuppressionSet) where
  -- What the rule contributes once it is enabled and its kind is known.
  abbrev contribution : Criterion → Criterion → Option ℕ
  contribution source target =
      if not (is_expired rule.expires_at now)
        && (admits_kind rule.kind event.kind
            && (criterion_applies source event.source_ip
                && (criterion_applies target event.target_ip && admits_port rule.port event.port)))
      then some rule.id
      else none

  push_rule-match :
      (source target : Option Prefix)
      → match_rules event now (push_rule rule source target set).compiled
        ≡ or_else (match_rules event now set.compiled) (
            if not (is_expired rule.expires_at now)
              && (admits_kind rule.kind event.kind
                  && (admits_address source event.source_ip
                      && (admits_address target event.target_ip
                          && admits_port rule.port event.port)))
            then some rule.id
            else none)
  unfolding push_rule match_rules
  push_rule-match source target =
      match_rules-append event now set.compiled _
      ∙ ap (or_else (match_rules event now set.compiled)) (ground arith)

  compile_ranges-match :
      (source target : Criterion)
      → match_rules event now (compile_ranges rule source target set).compiled
        ≡ or_else (match_rules event now set.compiled) (contribution source target)
  unfolding compile_ranges
  compile_ranges-match (broken text) target = ground arith
  compile_ranges-match unset (broken text) = ground arith
  compile_ranges-match (usable prefix) (broken text) = ground arith
  compile_ranges-match unset unset = push_rule-match none none
  compile_ranges-match unset (usable target) = push_rule-match none (some target)
  compile_ranges-match (usable source) unset = push_rule-match (some source) none
  compile_ranges-match (usable source) (usable target) = push_rule-match (some source) (some target)

  compile_rule-match :
      match_rules event now (compile_rule rule set).compiled
      ≡ or_else
          (match_rules event now set.compiled)
          (if applies event now rule then some rule.id else none)
  unfolding compile_rule
  compile_rule-match = ground (
    arith,
    compile_ranges-match (read_criterion rule.source_cidr) (read_criterion rule.target_cidr),
    read_criterion-applies rule.source_cidr event.source_ip,
    read_criterion-applies rule.target_cidr event.target_ip,
  )

compile_from-match :
    (event : SuppressibleEvent) (now : ℕ) (rules : List SuppressionCriteria) (set : SuppressionSet)
    → match_rules event now (compile_from set rules).compiled
      ≡ or_else (match_rules event now set.compiled) (first_applying event now rules)
unfolding compile_from
compile_from-match event now [] set = ground arith
compile_from-match event now (rule ∷ rules) set = ground (
  arith,
  compile_from-match event now rules (compile_rule rule set),
  compile_rule-match event now rule set,
)

-- A finding is silenced by the first rule that applies to it as the rules are written, and by none
-- if none applies: a disabled or expired rule, a rule for a kind that no detector raises and a rule
-- whose range does not parse silence nothing.
pub match_event-first_applying :
    (rules : List SuppressionCriteria) (event : SuppressibleEvent) (now : ℕ)
    → match_event (new_suppression_set rules) event now ≡ first_applying event now rules
unfolding match_event new_suppression_set match_rules
match_event-first_applying rules event now =
    compile_from-match event now rules (record { compiled = []; unusable = [] })
