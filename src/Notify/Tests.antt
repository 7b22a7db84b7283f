-- ===== src/Notify/Tests.antt =====
-- A run of the notifier with one channel for people and one that takes every finding.
use network_monitoring.Base.{
  ℕ, ◌+◌, ◌≡◌, refl, true, false, none, some, List, [], ◌∷◌, arith, codes, map, take, length,
}
use mathlib.Core.List.{Perm}
use network_monitoring.Detect.Finding.{Finding, high, critical, port_scan}
use network_monitoring.Detect.Cooldown.{get}
use network_monitoring.Js.Map
use network_monitoring.Notify.Digest.{QueuedFinding, build_notification}
use network_monitoring.Notify.Digest.Laws.{IsRanked, build_notification-IsRanked}
use network_monitoring.Notify.Notifier.{
  RateLimitState, new_notifier, consider, gate, admit, active, any_channel, enqueue_export,
  is_exporting, push_queued, fire_digest, dispatch, carry_entries, prune,
}
use network_monitoring.Notify.Types.{
  Installation, NotificationChannel, DeliverySettings, meets_threshold, index_of, severity_order,
  to_notifiable, en,
}
use network_monitoring.Notify.World.{
  World, Reach, here, next, consider_step, digest_step, considered, digest_fired, new_world,
}
use network_monitoring.Notify.World.Accounting.{IsAccounted, new_notifier-IsAccounted}
use network_monitoring.Notify.World.Ceiling.{IsWithinCeiling, sends-IsWithinCeiling}
use network_monitoring.Notify.World.Progress.{IsDue, new_notifier-IsDue}

abbrev channels : List NotificationChannel
channels =
    record { name = codes "email"; delivers_every_finding = false; is_configured = true }
    ∷ record { name = codes "syslog"; delivers_every_finding = true; is_configured = true }
    ∷ []

abbrev settings : DeliverySettings
settings = record {
  enabled = true;
  min_severity = high;
  digest_seconds = 60;
  throttle_seconds = 900;
  max_per_hour = 1;
  include_evidence = true;
  dashboard_url = [];
  syslog_include_evidence = false;
}

abbrev carried : RateLimitState
carried = ([], [])

abbrev installation : Installation
installation = record {
  sensor_id = codes "edge";
  render_finding = λ key params locale. record { title = key; description = key };
}

abbrev scan : Finding ℕ
scan = record {
  kind = port_scan;
  severity = critical;
  message_key = codes "port_scan.packet";
  message_params = [];
  dedup_key = codes "port_scan|10.0.0.1";
  source_ip = some (codes "10.0.0.1");
  source_mac = none;
  target_ip = none;
  target_mac = none;
  protocol = none;
  port = none;
  evidence = [];
  timestamp = 1_000;
}

abbrev start : World
start = new_world (new_notifier channels settings carried)

abbrev offered : World
offered = considered installation scan 1 1_000 1_000 1_000 start

abbrev sent : World
sent = digest_fired false 61_000 offered

timer_set : offered.notifier.digest_timer ≡ true
unfolding considered consider gate admit active any_channel enqueue_export is_exporting push_queued
    new_notifier meets_threshold index_of severity_order to_notifiable get Map.get carry_entries
    prune
timer_set = refl

sent_once : sent.log.sends ≡ 61_000 ∷ []
unfolding digest_fired fire_digest dispatch considered consider gate admit active any_channel
    enqueue_export is_exporting push_queued new_notifier meets_threshold index_of severity_order
    to_notifiable get Map.get carry_entries prune
sent_once = refl

reached : Reach ℕ installation start 61_000 sent
reached =
    next (next (here {clock = 0}) (omega arith) (consider_step scan 1 1_000 1_000 refl))
      (omega arith) (digest_step false timer_set refl)

sends-IsWithinCeiling_example : IsWithinCeiling 1 sent.log.sends
sends-IsWithinCeiling_example = sends-IsWithinCeiling channels settings carried reached

new_notifier-IsDue_example : IsDue sent
new_notifier-IsDue_example = new_notifier-IsDue channels settings carried reached

new_notifier-IsAccounted_example : IsAccounted sent
new_notifier-IsAccounted_example = new_notifier-IsAccounted channels settings carried reached

abbrev item : QueuedFinding
item = record {
  finding = to_notifiable installation scan 1 1_000 1_000 true en;
  dedup_key = scan.dedup_key;
}

build_notification-IsRanked_example :
    (ranked : List QueuedFinding) × Perm ranked (item ∷ item ∷ [])
    × IsRanked ranked
    × ((build_notification (item ∷ item ∷ []) 3 none false 5).findings
        ≡ map (λ (x : QueuedFinding). x.finding) (take 8 ranked))
    × (length (build_notification (item ∷ item ∷ []) 3 none false 5).findings
          + (build_notification (item ∷ item ∷ []) 3 none false 5).omitted_count
        ≡ length (item ∷ item ∷ []) + 3)
build_notification-IsRanked_example = build_notification-IsRanked (item ∷ item ∷ []) 3 none false 5
