-- ===== src/Notify/Notifier.antt =====
-- The notifier (api/src/notify/notifier.ts, class `Notifier`). A timer is whether it is set. What an
-- `await` waits for is in the state: the digest and the export that are being delivered, and the
-- calls of `sendExportBatch` that wait in the chain of promises.
use network_monitoring.Base.{
  ℕ, ◌+◌, ◌*◌, Bool, true, false, not, ◌&&◌, ◌||◌, Option, none, some, List, [], ◌∷◌, ◌++◌, ltb,
  leb, nat_beq, if◌then◌else◌, length, Str, list_eq, nat_eq, is_some,
}
use network_monitoring.Detect.Cooldown.{BoundedMap, get, set, is_cooling}
use network_monitoring.Detect.Finding.{Finding, Severity, info}
use network_monitoring.Js.Map
use network_monitoring.Notify.Digest.{
  QueuedFinding, build_notification, count_severities, url_or_null,
}
use network_monitoring.Notify.Types.{
  NotifiableFinding, Notification, NotificationChannel, DeliverySettings, Installation,
  to_notifiable, meets_threshold, severity_order, severity_eq, outbound_locale,
}

abbrev pub max_export_batch : ℕ
max_export_batch = 200

abbrev pub max_export_queue : ℕ
max_export_queue = 10_000

abbrev pub max_throttle_keys : ℕ
max_throttle_keys = 4_096

abbrev pub max_queued : ℕ
max_queued = 200

abbrev pub hour_ms : ℕ
hour_ms = 3_600_000

pub record Notifier : Type 0 where
  pub channels : List NotificationChannel
  pub settings : DeliverySettings
  pub last_notified_at : BoundedMap Str ℕ
  pub sent_timestamps : List ℕ
  pub queue : List QueuedFinding
  pub omitted : ℕ
  pub digest_timer : Bool
  pub sending : Option Notification
  pub export_queue : List NotifiableFinding
  pub export_timer : Bool
  pub export_dropped : ℕ
  pub exports_waiting : ℕ
  pub exporting : Option Notification

pub data Outcome : Type 0 where
  queued below_threshold throttled rate_limited disabled : Outcome

unfoldable pub any_channel : (NotificationChannel → Bool) → List NotificationChannel → Bool
any_channel test [] = false
any_channel test (channel ∷ channels) = test channel || any_channel test channels

abbrev is_configured : NotificationChannel → Bool
is_configured channel = channel.is_configured

abbrev is_exporter : NotificationChannel → Bool
is_exporter channel = channel.delivers_every_finding && channel.is_configured

unfoldable pub active : Notifier → Bool
active notifier = notifier.settings.enabled && any_channel is_configured notifier.channels

unfoldable pub is_exporting : Notifier → Bool
is_exporting notifier = any_channel is_exporter notifier.channels

-- The sends of the last hour: the first that are older are shifted off.
unfoldable pub prune : ℕ → List ℕ → List ℕ
prune now [] = []
prune now (sent ∷ later) =
    let rest = prune now later in if ltb (sent + hour_ms) now then rest else sent ∷ later

-- `flushExports`: one more call of `sendExportBatch` in the chain.
abbrev pub flush_exports : Notifier → Notifier
flush_exports notifier = record notifier { exports_waiting = notifier.exports_waiting + 1 }

abbrev push_export : NotifiableFinding → Notifier → Notifier
push_export item notifier =
    let pushed = record notifier { export_queue = notifier.export_queue ++ (item ∷ []) } in
    if leb max_export_batch (length pushed.export_queue)
    then flush_exports pushed
    else record pushed { export_timer = true }

unfoldable pub enqueue_export : NotifiableFinding → Notifier → Notifier
enqueue_export item notifier =
    if not (is_exporting notifier)
    then notifier
    else if leb max_export_queue (length notifier.export_queue)
    then record notifier { export_dropped = notifier.export_dropped + 1 }
    else push_export item notifier

abbrev schedule_digest : Notifier → Notifier
schedule_digest notifier = record notifier { digest_timer = true }

unfoldable pub push_queued : QueuedFinding → Notifier → Notifier
push_queued item notifier =
    if leb max_queued (length notifier.queue)
    then record notifier { omitted = notifier.omitted + 1 }
    else record notifier { queue = notifier.queue ++ (item ∷ []) }

abbrev throttle_ms : Notifier → ℕ
throttle_ms notifier = notifier.settings.throttle_seconds * 1_000

-- The gates after the severity: the throttle of the key, then the hourly ceiling.
unfoldable pub admit : QueuedFinding → ℕ → Notifier → Outcome × Notifier
admit item now notifier =
    let pruned = record notifier { sent_timestamps = prune now notifier.sent_timestamps } in
    let noted = record pruned {
      last_notified_at = set item.dedup_key now pruned.last_notified_at;
    } in
    if is_cooling (throttle_ms notifier) now (get item.dedup_key notifier.last_notified_at)
    then (throttled, notifier)
    else if leb notifier.settings.max_per_hour (length pruned.sent_timestamps)
    then (rate_limited, pruned)
    else (queued, schedule_digest (push_queued item noted))

unfoldable pub gate : QueuedFinding → ℕ → Notifier → Outcome × Notifier
gate item now notifier =
    if not (active notifier)
    then (disabled, notifier)
    else if not (meets_threshold item.finding.severity notifier.settings.min_severity)
    then (below_threshold, notifier)
    else admit item now notifier

module _ (installation : Installation) {T : Type 0} where
  abbrev pub to_queued : Finding T → ℕ → ℕ → ℕ → Notifier → QueuedFinding
  to_queued finding occurrences first_seen last_seen notifier = record {
    finding =
        to_notifiable installation finding occurrences first_seen last_seen
          notifier.settings.include_evidence outbound_locale;
    dedup_key = finding.dedup_key;
  }

  abbrev pub to_export : Finding T → ℕ → ℕ → ℕ → Notifier → NotifiableFinding
  to_export finding occurrences first_seen last_seen notifier =
      to_notifiable installation finding occurrences first_seen last_seen
        notifier.settings.syslog_include_evidence outbound_locale

  unfoldable pub consider : Finding T → ℕ → ℕ → ℕ → ℕ → Notifier → Outcome × Notifier
  consider finding occurrences first_seen last_seen now notifier =
      gate (to_queued finding occurrences first_seen last_seen notifier) now
        (enqueue_export (to_export finding occurrences first_seen last_seen notifier) notifier)

-- `dispatch` up to the wait for the delivery.
unfoldable pub dispatch : Bool → ℕ → Notifier → Notifier
dispatch names_sensors now notifier =
    if is_some notifier.sending || nat_beq (length notifier.queue) 0
    then notifier
    else record notifier {
      queue = [];
      omitted = 0;
      sent_timestamps = notifier.sent_timestamps ++ (now ∷ []);
      sending = some (
          build_notification notifier.queue notifier.omitted
            (url_or_null notifier.settings.dashboard_url) names_sensors now);
    }

-- The `finally` of `dispatch`, whatever the deliveries came to.
unfoldable pub finish_dispatch : Notifier → Notifier
finish_dispatch notifier =
    let idle = record notifier { sending = none } in
    if nat_beq (length notifier.queue) 0 then idle else schedule_digest idle

-- The digest's timer fires.
unfoldable pub fire_digest : Bool → ℕ → Notifier → Notifier
fire_digest names_sensors now notifier =
    dispatch names_sensors now (record notifier { digest_timer = false })

-- The coalescing timer fires.
unfoldable pub fire_export : Notifier → Notifier
fire_export notifier = flush_exports (record notifier { export_timer = false })

unfoldable pub most_urgent : List Severity → List (Severity × ℕ) → Severity
most_urgent [] counts = info
most_urgent (level ∷ levels) counts =
    if Map.has level counts then level else most_urgent levels counts

unfoldable pub export_notification : List NotifiableFinding → Option Str → Bool → ℕ → Notification
export_notification batch dashboard_url names_sensors now =
    let counts = count_severities batch [] in
    record {
      severity = most_urgent severity_order counts;
      findings = batch;
      omitted_count = 0;
      counts_by_severity = counts;
      generated_at = now;
      dashboard_url = dashboard_url;
      is_test = false;
      names_sensors = names_sensors;
    }

-- `sendExportBatch` up to the wait for the delivery.
unfoldable pub send_export_batch : Bool → ℕ → Notifier → Notifier
send_export_batch names_sensors now notifier =
    let taken = record notifier { export_timer = false; export_queue = [] } in
    if nat_beq (length notifier.export_queue) 0 || not (is_exporting notifier)
    then taken
    else record taken {
      export_dropped = 0;
      exporting = some (
          export_notification notifier.export_queue (url_or_null notifier.settings.dashboard_url)
            names_sensors now);
    }

-- `flush` up to its first wait.
unfoldable pub begin_flush : Notifier → Notifier
begin_flush notifier = flush_exports (record notifier { digest_timer = false })

abbrev pub RateLimitState : Type 0
RateLimitState = List (Str × ℕ) × List ℕ

unfoldable pub rate_limit_state : Notifier → RateLimitState
rate_limit_state notifier = (notifier.last_notified_at.entries, notifier.sent_timestamps)

unfoldable pub carry_entries : List (Str × ℕ) → BoundedMap Str ℕ → BoundedMap Str ℕ
carry_entries [] table = table
carry_entries ((key, value) ∷ entries) table = carry_entries entries (set key value table)

-- The constructor, with the history of the notifier that this one replaces.
unfoldable pub new_notifier :
    List NotificationChannel → DeliverySettings → RateLimitState → Notifier
new_notifier channels settings carried = record {
  channels = channels;
  settings = settings;
  last_notified_at =
      carry_entries carried.0 (record { entries = []; max_entries = max_throttle_keys });
  sent_timestamps = carried.1;
  queue = [];
  omitted = 0;
  digest_timer = false;
  sending = none;
  export_queue = [];
  export_timer = false;
  export_dropped = 0;
  exports_waiting = 0;
  exporting = none;
}

pub record NotifierStats : Type 0 where
  pub queued : ℕ
  pub sent_last_hour : ℕ
  pub throttle_keys : ℕ

unfoldable pub stats : ℕ → Notifier → NotifierStats × Notifier
stats now notifier =
    let sent = prune now notifier.sent_timestamps in
    (
      record {
        queued = length notifier.queue;
        sent_last_hour = length sent;
        throttle_keys = length notifier.last_notified_at.entries;
      },
      record notifier { sent_timestamps = sent },
    )
