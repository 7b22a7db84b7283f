-- ===== src/Notify/World.antt =====
-- The notifier among its timers, its deliveries and the calls of `flush`
-- (api/src/notify/notifier.ts): the steps that may follow one another, in any order, under a clock
-- that does not run backwards. The log is what an observer has seen.
pub mod Effects
pub mod Dispatch
pub mod Exports
pub mod Ceiling
pub mod Progress
pub mod Accounting
use network_monitoring.Base.{
  ℕ, ◌+◌, ◌-◌, ◌≤◌, ◌<◌, ◌≡◌, refl, Bool, true, Option, none, some, List, [], ◌∷◌, ◌++◌,
  if◌then◌else◌, length, is_some, arith, ltb, leb,
}
use network_monitoring.Detect.Finding.{Finding}
use network_monitoring.Notify.Digest.{QueuedFinding}
use network_monitoring.Notify.Notifier.{
  Notifier, Outcome, queued, below_threshold, throttled, rate_limited, disabled, consider,
  to_export, to_queued, max_queued, fire_digest, fire_export, dispatch, finish_dispatch,
  send_export_batch, begin_flush, flush_exports, is_exporting, max_export_queue,
}
use network_monitoring.Notify.Types.{NotifiableFinding, Notification, Installation}

pub record Log : Type 0 where
  -- The times at which digests were sent, the last one first.
  pub sends : List ℕ
  -- The digests that were sent, the last one first.
  pub digests : List Notification
  -- The findings that `consider` answered with `queued` while there was room for them, in order, and how
  -- many it answered so while there was none.
  pub kept : List QueuedFinding
  pub crowded_out : ℕ
  -- The findings that an export channel was to receive, and those that it was handed, in order.
  pub offered : List NotifiableFinding
  pub exported : List NotifiableFinding
  pub lost : ℕ

-- `flushes` are the calls of `flush` that have not come to their first `dispatch`.
pub record World : Type 0 where
  pub notifier : Notifier
  pub flushes : ℕ
  pub log : Log

abbrev pub note_queued : Outcome → Bool → QueuedFinding → Log → Log
note_queued queued full item log =
    if full
    then record log { crowded_out = log.crowded_out + 1 }
    else record log { kept = log.kept ++ (item ∷ []) }
note_queued below_threshold full item log = log
note_queued throttled full item log = log
note_queued rate_limited full item log = log
note_queued disabled full item log = log

-- A digest that is under way now and was not before has just been sent.
abbrev pub note_digest : ℕ → Option Notification → Option Notification → Log → Log
note_digest now none none log = log
note_digest now none (some digest) log = record log {
  sends = now ∷ log.sends;
  digests = digest ∷ log.digests;
}
note_digest now (some earlier) digest log = log

pub note_digest-same :
    (now : ℕ) (digest : Option Notification) (log : Log) → note_digest now digest digest log ≡ log
note_digest-same now none log = refl
note_digest-same now (some digest) log = refl

abbrev pub note_export : Option Notification → Log → Log
note_export none log = log
note_export (some batch) log = record log { exported = log.exported ++ batch.findings }

abbrev pub note_offer : Bool → Bool → NotifiableFinding → Log → Log
note_offer exporting full item log =
    if exporting
    then (if full
        then record log { lost = log.lost + 1 }
        else record log { offered = log.offered ++ (item ∷ []) })
    else log

unfoldable pub considered : {T : Type 0} → Installation → Finding T → ℕ → ℕ → ℕ → ℕ → World → World
considered installation finding occurrences first_seen last_seen now world =
    let (outcome, notifier) =
      consider installation finding occurrences first_seen last_seen now world.notifier in
    let log =
      note_offer (is_exporting world.notifier)
        (leb max_export_queue (length world.notifier.export_queue))
        (to_export installation finding occurrences first_seen last_seen world.notifier)
        world.log in
    record world {
      notifier = notifier;
      log =
          note_queued outcome (leb max_queued (length world.notifier.queue))
            (to_queued installation finding occurrences first_seen last_seen world.notifier) log;
    }

-- The world after the notifier may have begun a digest.
abbrev pub after_dispatch : ℕ → Notifier → World → World
after_dispatch now notifier world = record world {
  notifier = notifier;
  log = note_digest now world.notifier.sending notifier.sending world.log;
}

unfoldable pub digest_fired : Bool → ℕ → World → World
digest_fired names_sensors now world =
    after_dispatch now (fire_digest names_sensors now world.notifier) world

unfoldable pub flush_dispatched : Bool → ℕ → World → World
flush_dispatched names_sensors now world =
    after_dispatch now (dispatch names_sensors now world.notifier)
      (record world { flushes = world.flushes - 1 })

unfoldable pub flush_repeated : Bool → ℕ → World → World
flush_repeated names_sensors now world =
    after_dispatch now (dispatch names_sensors now world.notifier) world

unfoldable pub export_started : Bool → ℕ → World → World
export_started names_sensors now world =
    let begun = record world.notifier { exports_waiting = world.notifier.exports_waiting - 1 } in
    let notifier = send_export_batch names_sensors now begun in
    record world { notifier = notifier; log = note_export notifier.exporting world.log }

-- One step at a time, `now`. A step that resumes an `await` of `flush` may come at any time: that
-- includes the time at which its promise settles.
pub data Step (T : Type 0) (installation : Installation) (now : ℕ) (w v : World) : Type 0 where
  consider_step :
      (finding : Finding T) (occurrences first_seen last_seen : ℕ)
      → v ≡ considered installation finding occurrences first_seen last_seen now w
      → Step T installation now w v
  digest_step :
      (names_sensors : Bool)
      → w.notifier.digest_timer ≡ true
      → v ≡ digest_fired names_sensors now w
      → Step T installation now w v
  delivered_step :
      is_some w.notifier.sending ≡ true
      → v ≡ record w { notifier = finish_dispatch w.notifier }
      → Step T installation now w v
  export_timer_step :
      w.notifier.export_timer ≡ true
      → v ≡ record w { notifier = fire_export w.notifier }
      → Step T installation now w v
  export_step :
      (names_sensors : Bool)
      → 1 ≤ w.notifier.exports_waiting
      → w.notifier.exporting ≡ none
      → v ≡ export_started names_sensors now w
      → Step T installation now w v
  exported_step :
      v ≡ record w { notifier = record w.notifier { exporting = none } }
      → Step T installation now w v
  flush_step :
      v ≡ record w { notifier = begin_flush w.notifier; flushes = w.flushes + 1 }
      → Step T installation now w v
  flush_exports_step :
      v ≡ record w { notifier = flush_exports w.notifier } → Step T installation now w v
  flush_dispatch_step :
      (names_sensors : Bool)
      → 1 ≤ w.flushes
      → v ≡ flush_dispatched names_sensors now w
      → Step T installation now w v
  flush_repeat_step :
      (names_sensors : Bool) → v ≡ flush_repeated names_sensors now w → Step T installation now w v

-- What may come of a world by steps at times that do not decrease; the index is
-- the last time.
pub data Reach (T : Type 0) (installation : Installation) (start : World) : ℕ → World → Type 0 where
  here : {clock : ℕ} → Reach T installation start clock start
  next :
      {clock now : ℕ} {w v : World}
      → Reach T installation start clock w
      → clock ≤ now
      → Step T installation now w v
      → Reach T installation start now v

abbrev pub new_world : Notifier → World
new_world notifier = record {
  notifier = notifier;
  flushes = 0;
  log = record {
    sends = [];
    digests = [];
    kept = [];
    crowded_out = 0;
    offered = [];
    exported = [];
    lost = 0;
  };
}
