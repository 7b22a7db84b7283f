-- ===== src/Notify/Types.antt =====
-- What a notification holds (api/src/notify/types.ts) and the settings that the notifier reads
-- (api/src/notify/settings.ts).
use network_monitoring.Base.{
  ℕ, suc, ◌≡◌, ◌↔◌, Bool, true, false, Option, none, some, List, [], ◌∷◌, arith, leb, nat_beq,
  if◌then◌else◌, Str, Eq, ◌==◌,
}
use network_monitoring.Detect.Finding.{
  Finding, Severity, AlertKind, Value, critical, high, medium, low, info,
}

-- Position in `SEVERITY_ORDER`: the lower, the more urgent.
abbrev pub severity_index : Severity → ℕ
severity_index critical = 0
severity_index high = 1
severity_index medium = 2
severity_index low = 3
severity_index info = 4

abbrev pub severity_beq : Severity → Severity → Bool
severity_beq a b = nat_beq (severity_index a) (severity_index b)

pub severity_beq_iff : (a b : Severity) → (severity_beq a b ≡ true) ↔ (a ≡ b)
severity_beq_iff a b = (λ h. ground arith, λ h. ground arith)

instance abbrev pub severity_eq : Eq Severity
severity_eq = record { test = severity_beq; test_iff = severity_beq_iff }

unfoldable pub severity_order : List Severity
severity_order = critical ∷ high ∷ medium ∷ low ∷ info ∷ []

-- `list.indexOf(item)` of an item that is there.
unfoldable pub index_of {ℓ} : {A : Type ℓ} ⦃e : Eq A⦄ → A → List A → ℕ
index_of item [] = 0
index_of item (x ∷ xs) = let later = index_of item xs in if x == item then 0 else suc later

unfoldable pub meets_threshold : Severity → Severity → Bool
meets_threshold severity threshold =
    leb (index_of severity severity_order) (index_of threshold severity_order)

pub data Locale : Type 0 where
  en de fa_af : Locale

abbrev pub default_locale : Locale
default_locale = en

abbrev pub outbound_locale : Locale
outbound_locale = default_locale

abbrev is_default : Locale → Bool
is_default en = true
is_default de = false
is_default fa_af = false

pub record RenderedFinding : Type 0 where
  pub title : Str
  pub description : Str

-- The sensor's name and the rendering of messages, which an ICU library does.
pub record Installation : Type 0 where
  pub sensor_id : Str
  pub render_finding : Str → List (Str × Value) → Locale → RenderedFinding

pub record NotifiableFinding : Type 0 where
  pub sensor_id : Str
  pub kind : AlertKind
  pub severity : Severity
  pub title : Str
  pub description : Str
  pub english_title : Str
  pub english_description : Str
  pub source_ip : Option Str
  pub target_ip : Option Str
  pub occurrences : ℕ
  pub first_seen : ℕ
  pub last_seen : ℕ
  pub evidence : Option (List (Str × Value))

unfoldable pub to_notifiable :
    {T : Type 0} → Installation → Finding T → ℕ → ℕ → ℕ → Bool → Locale → NotifiableFinding
to_notifiable installation finding occurrences first_seen last_seen include_evidence locale =
    let text = installation.render_finding finding.message_key finding.message_params locale in
    let english =
      if is_default locale
      then text
      else installation.render_finding finding.message_key finding.message_params default_locale in
    record {
      sensor_id = installation.sensor_id;
      kind = finding.kind;
      severity = finding.severity;
      title = text.title;
      description = text.description;
      english_title = english.title;
      english_description = english.description;
      source_ip = finding.source_ip;
      target_ip = finding.target_ip;
      occurrences = occurrences;
      first_seen = first_seen;
      last_seen = last_seen;
      evidence = if include_evidence then some finding.evidence else none;
    }

pub record Notification : Type 0 where
  pub severity : Severity
  pub findings : List NotifiableFinding
  pub omitted_count : ℕ
  pub counts_by_severity : List (Severity × ℕ)
  pub generated_at : ℕ
  pub dashboard_url : Option Str
  pub is_test : Bool
  pub names_sensors : Bool

-- A way to deliver: its name, whether it takes every finding, and whether it is configured.
pub record NotificationChannel : Type 0 where
  pub name : Str
  pub delivers_every_finding : Bool
  pub is_configured : Bool

-- The settings that the notifier itself reads; those of the channels stay with the channels.
pub record DeliverySettings : Type 0 where
  pub enabled : Bool
  pub min_severity : Severity
  pub digest_seconds : ℕ
  pub throttle_seconds : ℕ
  pub max_per_hour : ℕ
  pub include_evidence : Bool
  pub dashboard_url : Str
  pub syslog_include_evidence : Bool
