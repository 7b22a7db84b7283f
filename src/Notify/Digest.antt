-- ===== src/Notify/Digest.antt =====
-- The digest of a batch of findings (api/src/notify/notifier.ts, `buildNotification`).
pub mod Laws
use network_monitoring.Base.{
  ℕ, ◌+◌, ◌-◌, Bool, false, ◌&&◌, ◌||◌, Option, none, some, List, [], ◌∷◌, map, ltb, leb, nat_beq,
  if◌then◌else◌, length, take, Str, or_zero,
}
use network_monitoring.Detect.Finding.{Severity, info}
use network_monitoring.Js.Map
use network_monitoring.Notify.Types.{
  NotifiableFinding, Notification, severity_order, index_of, severity_eq,
}

-- `MAX_LISTED_FINDINGS` of api/src/notify/format.ts.
abbrev pub max_listed_findings : ℕ
max_listed_findings = 8

pub record QueuedFinding : Type 0 where
  pub finding : NotifiableFinding
  pub dedup_key : Str

unfoldable pub count_severities : List NotifiableFinding → List (Severity × ℕ) → List (Severity × ℕ)
count_severities [] counts = counts
count_severities (finding ∷ findings) counts =
    count_severities findings
      (Map.set finding.severity (or_zero (Map.get finding.severity counts) + 1) counts)

abbrev pub severity_rank : QueuedFinding → ℕ
severity_rank item = index_of item.finding.severity severity_order

-- The comparator's answer is not positive: the more urgent first, then the more frequent.
unfoldable pub is_before : QueuedFinding → QueuedFinding → Bool
is_before a b =
    ltb (severity_rank a) (severity_rank b)
    || (nat_beq (severity_rank a) (severity_rank b)
        && leb b.finding.occurrences a.finding.occurrences)

-- `sort`, which is stable.
unfoldable pub insert_queued : QueuedFinding → List QueuedFinding → List QueuedFinding
insert_queued item [] = item ∷ []
insert_queued item (next ∷ rest) =
    let later = insert_queued item rest in
    if is_before item next then item ∷ next ∷ rest else next ∷ later

unfoldable pub sort_queued : List QueuedFinding → List QueuedFinding
sort_queued [] = []
sort_queued (item ∷ items) = insert_queued item (sort_queued items)

abbrev finding_of : QueuedFinding → NotifiableFinding
finding_of item = item.finding

abbrev pub severity_of_first : List QueuedFinding → Severity
severity_of_first [] = info
severity_of_first (item ∷ items) = item.finding.severity

-- `dashboardUrl || null`
abbrev pub url_or_null : Str → Option Str
url_or_null url = if nat_beq (length url) 0 then none else some url

unfoldable pub build_notification : List QueuedFinding → ℕ → Option Str → Bool → ℕ → Notification
build_notification batch omitted_count dashboard_url names_sensors now =
    let sorted = sort_queued batch in
    let listed = take max_listed_findings sorted in
    let truncated = length sorted - length listed in
    record {
      severity = severity_of_first listed;
      findings = map finding_of listed;
      omitted_count = omitted_count + truncated;
      counts_by_severity = count_severities (map finding_of batch) [];
      generated_at = now;
      dashboard_url = dashboard_url;
      is_test = false;
      names_sensors = names_sensors;
    }
