-- ===== src/Suppression.antt =====
-- Suppression rules (api/src/services/suppression-rules.ts): a compiled set of rules, and the first
-- rule that silences a finding.
pub mod Refinement
mod Tests
use network_monitoring.Base.{
  ℕ, ◌+◌, Bool, true, false, not, ◌&&◌, ◌||◌, Option, none, some, List, [], ◌∷◌, ◌++◌, leb, nat_beq,
  if◌then◌else◌, Str, codes, ◌==◌, list_eq, nat_eq,
}
use network_monitoring.Net.Prefix.{Prefix, parse_prefix, prefix_contains}

pub record SuppressionCriteria : Type 0 where
  pub id : ℕ
  pub kind : Option Str
  pub source_cidr : Option Str
  pub target_cidr : Option Str
  pub port : Option ℕ
  pub enabled : Bool
  pub expires_at : Option ℕ

pub record SuppressibleEvent : Type 0 where
  pub kind : Str
  pub source_ip : Option Str
  pub target_ip : Option Str
  pub port : Option ℕ

-- The kinds that a detector raises.
unfoldable pub alert_kinds : List Str
alert_kinds =
    codes "arp_spoofing"
    ∷ codes "port_scan"
    ∷ codes "host_sweep"
    ∷ codes "syn_flood"
    ∷ codes "plaintext_credentials"
    ∷ codes "dns_tunneling"
    ∷ codes "new_device"
    ∷ codes "threat_intel"
    ∷ []

unfoldable pub has_kind : List Str → Str → Bool
has_kind [] kind = false
has_kind (known ∷ kinds) kind = (known == kind) || has_kind kinds kind

-- Why a rule can match nothing.
pub data Reason : Type 0 where
  unknown_kind bad_source bad_target : Str → Reason

pub record UnusableRule : Type 0 where
  pub id : ℕ
  pub reason : Reason

pub record CompiledRule : Type 0 where
  pub id : ℕ
  pub kind : Option Str
  pub source : Option Prefix
  pub target : Option Prefix
  pub port : Option ℕ
  pub expires_at : Option ℕ

pub record SuppressionSet : Type 0 where
  pub compiled : List CompiledRule
  pub unusable : List UnusableRule

-- The prefix of a criterion: none if it is not set, or the text that does not parse.
pub data Criterion : Type 0 where
  unset : Criterion
  usable : Prefix → Criterion
  broken : Str → Criterion

unfoldable pub read_criterion : Option Str → Criterion
read_criterion none = unset
read_criterion (some text) = elim (parse_prefix text) [
  | none ↦ broken text
  | some prefix ↦ usable prefix
]

abbrev prefix_of : Criterion → Option Prefix
prefix_of unset = none
prefix_of (usable prefix) = some prefix
prefix_of (broken text) = none

abbrev drop_rule : ℕ → Reason → SuppressionSet → SuppressionSet
drop_rule id reason set = record set {
  unusable = set.unusable ++ (record { id = id; reason = reason } ∷ []);
}

unfoldable pub push_rule :
    SuppressionCriteria → Option Prefix → Option Prefix → SuppressionSet → SuppressionSet
push_rule rule source target set = record set {
  compiled =
      set.compiled
      ++ (record {
        id = rule.id;
        kind = rule.kind;
        source = source;
        target = target;
        port = rule.port;
        expires_at = rule.expires_at;
      }
          ∷ []);
}

unfoldable pub compile_ranges :
    SuppressionCriteria → Criterion → Criterion → SuppressionSet → SuppressionSet
compile_ranges rule (broken text) target set = drop_rule rule.id (bad_source text) set
compile_ranges rule unset (broken text) set = drop_rule rule.id (bad_target text) set
compile_ranges rule (usable prefix) (broken text) set = drop_rule rule.id (bad_target text) set
compile_ranges rule unset unset set = push_rule rule none none set
compile_ranges rule unset (usable target) set = push_rule rule none (some target) set
compile_ranges rule (usable source) unset set = push_rule rule (some source) none set
compile_ranges rule (usable source) (usable target) set =
    push_rule rule (some source) (some target) set

abbrev pub unknown : Option Str → Option Str
unknown none = none
unknown (some kind) = if has_kind alert_kinds kind then none else some kind

-- One round of the constructor's loop.
unfoldable pub compile_rule : SuppressionCriteria → SuppressionSet → SuppressionSet
compile_rule rule set = if not rule.enabled then set else elim (unknown rule.kind) [
  | some kind ↦ drop_rule rule.id (unknown_kind kind) set
  | none ↦
      compile_ranges rule (read_criterion rule.source_cidr) (read_criterion rule.target_cidr) set
]

unfoldable pub compile_from : SuppressionSet → List SuppressionCriteria → SuppressionSet
compile_from set [] = set
compile_from set (rule ∷ rules) = compile_from (compile_rule rule set) rules

unfoldable pub new_suppression_set : List SuppressionCriteria → SuppressionSet
new_suppression_set rules = compile_from (record { compiled = []; unusable = [] }) rules

abbrev pub is_expired : Option ℕ → ℕ → Bool
is_expired none now = false
is_expired (some expiry) now = leb expiry now

abbrev pub admits_kind : Option Str → Str → Bool
admits_kind none kind = true
admits_kind (some wanted) kind = wanted == kind

abbrev pub admits_address : Option Prefix → Option Str → Bool
admits_address none address = true
admits_address (some prefix) address = prefix_contains prefix address

abbrev pub admits_port : Option ℕ → Option ℕ → Bool
admits_port none port = true
admits_port (some wanted) none = false
admits_port (some wanted) (some port) = nat_beq wanted port

-- The loop over the compiled rules; the tests are the source's `continue`s.
unfoldable pub match_rules : SuppressibleEvent → ℕ → List CompiledRule → Option ℕ
match_rules event now [] = none
match_rules event now (rule ∷ rules) =
    let next = match_rules event now rules in
    if is_expired rule.expires_at now
    then next
    else if not (admits_kind rule.kind event.kind)
    then next
    else if not (admits_address rule.source event.source_ip)
    then next
    else if not (admits_address rule.target event.target_ip)
    then next
    else if not (admits_port rule.port event.port)
    then next
    else some rule.id

unfoldable pub match_event : SuppressionSet → SuppressibleEvent → ℕ → Option ℕ
match_event set event now = match_rules event now set.compiled

abbrev is_set {ℓ} : {A : Type ℓ} → Option A → Bool
is_set none = false
is_set (some a) = true

unfoldable pub has_suppression_criterion : SuppressionCriteria → Bool
has_suppression_criterion values =
    is_set values.kind
    || (is_set values.source_cidr || (is_set values.target_cidr || is_set values.port))
