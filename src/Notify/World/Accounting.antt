-- ===== src/Notify/World/Accounting.antt =====
-- What is queued and what the channels get (api/src/notify/notifier.ts).
use network_monitoring.Base.{
  ℕ, ◌+◌, ◌-◌, ◌≡◌, refl, sym, ap, ◌∙◌, subst, Bool, true, false, map, take, not, none, some,
  Option, List, [], ◌∷◌, ◌++◌, arith, inl, inr, length, leb, nat_beq, Bool-cases, ◌||◌, ◌≢◌,
}
use mathlib.Core.List.{Perm, append_assoc, append-nil}
use network_monitoring.Detect.Finding.{Finding}
use network_monitoring.Notify.Digest.{QueuedFinding, url_or_null, build_notification}
use network_monitoring.Notify.Digest.Laws.{IsRanked, build_notification-IsRanked}
use network_monitoring.Notify.Notifier.{
  Notifier, Outcome, queued, below_threshold, throttled, rate_limited, disabled, consider, dispatch,
  fire_digest, fire_export, finish_dispatch, send_export_batch, begin_flush, is_exporting,
  new_notifier, enqueue_export, to_queued, max_queued, max_export_queue, RateLimitState,
  export_notification, to_export,
}
use network_monitoring.Notify.Types.{
  Installation, NotificationChannel, DeliverySettings, NotifiableFinding, Notification,
}
use network_monitoring.Notify.World.{
  World, Log, Step, Reach, considered, digest_fired, flush_dispatched, flush_repeated,
  export_started, consider_step, digest_step, delivered_step, export_timer_step, export_step,
  exported_step, flush_step, flush_exports_step, flush_dispatch_step, flush_repeat_step, here, next,
  new_world, note_offer, note_export, note_digest, note_digest-same, after_dispatch, note_queued,
}
use network_monitoring.Notify.World.Dispatch.{dispatch-cases}
use network_monitoring.Notify.World.Effects.{
  consider-HasEffect, HasEffect-cases, HasPushed, consider-HasPushed,
}
use network_monitoring.Notify.World.Exports.{
  IsExportDue, dispatch-HasExportOf, consider-HasExportOf,
}
use network_monitoring.Notify.World.Progress.{new_notifier-IsDue}

-- A digest of the findings `batch` and of `omitted` that had found no room: it lists the eight first of
-- the batch by urgency, and counts all others.
abbrev pub IsDigestOf : List QueuedFinding → ℕ → Notification → Type 0
IsDigestOf batch omitted digest =
    (ranked : List QueuedFinding) × Perm ranked batch
    × IsRanked ranked
    × (digest.findings ≡ map (λ (item : QueuedFinding). item.finding) (take 8 ranked))
    × (length digest.findings + digest.omitted_count ≡ length batch + omitted)

-- The batches, the last one first, one for each digest.
abbrev pub AreDigestsOf : List (List QueuedFinding × ℕ) → List Notification → Type 0
AreDigestsOf [] [] = Unit {0}
AreDigestsOf [] (digest ∷ digests) = ⊥
AreDigestsOf ((batch, omitted) ∷ batches) [] = ⊥
AreDigestsOf ((batch, omitted) ∷ batches) (digest ∷ digests) =
    IsDigestOf batch omitted digest × AreDigestsOf batches digests

-- The findings of the batches in the order of time, and those they count.
abbrev pub batched : List (List QueuedFinding × ℕ) → List QueuedFinding
batched [] = []
batched ((batch, omitted) ∷ earlier) = batched earlier ++ batch

abbrev pub counted : List (List QueuedFinding × ℕ) → ℕ
counted [] = 0
counted ((batch, omitted) ∷ earlier) = counted earlier + omitted

-- The findings that were kept are those of the batches that the digests stand for, and then those that
-- wait; and so with the number of those that found no room.
pub record IsDigested (log : Log) (queue : List QueuedFinding) (omitted : ℕ) : Type 0 where
  pub batches : List (List QueuedFinding × ℕ)
  pub digests : AreDigestsOf batches log.digests
  pub kept : log.kept ≡ batched batches ++ queue
  pub crowded_out : log.crowded_out ≡ counted batches + omitted

pub record IsAccounted (w : World) : Type 0 where
  pub digests : IsDigested w.log w.notifier.queue w.notifier.omitted
  -- What was taken for export has been handed on in order, and the rest waits.
  pub exports : w.log.offered ≡ w.log.exported ++ w.notifier.export_queue

IsDigested-same :
    (log log' : Log) (queue queue' : List QueuedFinding) (omitted omitted' : ℕ)
    → log'.digests ≡ log.digests
    → log'.kept ≡ log.kept
    → log'.crowded_out ≡ log.crowded_out
    → queue' ≡ queue
    → omitted' ≡ omitted
    → IsDigested log queue omitted
    → IsDigested log' queue' omitted'
IsDigested-same log log' queue queue' omitted omitted' d k c q o h = record {
  batches = h.batches;
  digests = subst (AreDigestsOf h.batches) (sym d) h.digests;
  kept = k ∙ h.kept ∙ ap (λ l. batched h.batches ++ l) (sym q);
  crowded_out = omega (arith, c, h.crowded_out, o);
}

enqueue_export-offered :
    (item : NotifiableFinding) (n : Notifier) (log : Log)
    → log.offered ≡ log.exported ++ n.export_queue
    → (note_offer (is_exporting n) (leb max_export_queue (length n.export_queue)) item log).offered
      ≡ (note_offer
          (is_exporting n)
          (leb max_export_queue (length n.export_queue))
          item
          log).exported
        ++ (enqueue_export item n).export_queue
unfolding enqueue_export
enqueue_export-offered item n log h = elim (Bool-cases (is_exporting n)) [
  | inr idle ↦ rw idle h
  | inl exporting ↦ elim (Bool-cases (leb max_export_queue (length n.export_queue))) [
    | inl full ↦ rw (exporting, full) h
    | inr room ↦
        ground (arith, exporting, room, h, append_assoc log.exported n.export_queue (item ∷ []))
  ]
]

note_queued-other :
    (outcome : Outcome) (full : Bool) (item : QueuedFinding) (log : Log)
    → outcome ≢ queued
    → note_queued outcome full item log ≡ log
note_queued-other queued full item log h = absurd (h refl)
note_queued-other below_threshold full item log h = refl
note_queued-other throttled full item log h = refl
note_queued-other rate_limited full item log h = refl
note_queued-other disabled full item log h = refl

note_queued-keeps :
    (outcome : Outcome) (full : Bool) (item : QueuedFinding) (log : Log)
    → ((note_queued outcome full item log).offered ≡ log.offered)
      × ((note_queued outcome full item log).exported ≡ log.exported)
note_queued-keeps queued true item log = (refl, refl)
note_queued-keeps queued false item log = (refl, refl)
note_queued-keeps below_threshold full item log = (refl, refl)
note_queued-keeps throttled full item log = (refl, refl)
note_queued-keeps rate_limited full item log = (refl, refl)
note_queued-keeps disabled full item log = (refl, refl)

note_offer-keeps :
    (exporting full : Bool) (item : NotifiableFinding) (log : Log)
    → ((note_offer exporting full item log).digests ≡ log.digests)
      × ((note_offer exporting full item log).kept ≡ log.kept)
      × ((note_offer exporting full item log).crowded_out ≡ log.crowded_out)
note_offer-keeps false full item log = (refl, refl, refl)
note_offer-keeps true true item log = (refl, refl, refl)
note_offer-keeps true false item log = (refl, refl, refl)

-- The queue and the log both take the finding, or both count it.
note_queued-IsDigested :
    (item : QueuedFinding) (log : Log) (queue : List QueuedFinding) (omitted : ℕ) (m : Notifier)
    → HasPushed item queue omitted m
    → IsDigested log queue omitted
    → IsDigested (note_queued queued (leb max_queued (length queue)) item log) m.queue m.omitted
note_queued-IsDigested item log queue omitted m (q, o) h =
    elim (Bool-cases (leb max_queued (length queue))) [
      | inl full ↦ rw full (record {
        batches = h.batches;
        digests = h.digests;
        kept = h.kept ∙ ap (λ l. batched h.batches ++ l) (sym (rw full at q));
        crowded_out = omega (arith, h.crowded_out, (rw full at o));
      })
      | inr room ↦ rw room (record {
        batches = h.batches;
        digests = h.digests;
        kept =
            ap (λ l. l ++ (item ∷ [])) h.kept
            ∙ append_assoc (batched h.batches) queue (item ∷ [])
            ∙ ap (λ l. batched h.batches ++ l) (sym (rw room at q));
        crowded_out = omega (arith, h.crowded_out, (rw room at o));
      })
    ]

module _ (installation : Installation) {T : Type 0} (finding : Finding T)
    (occurrences first_seen last_seen now : ℕ) (w : World) where
  abbrev answer : Outcome × Notifier
  answer = consider installation finding occurrences first_seen last_seen now w.notifier

  abbrev offer : Log
  offer =
      note_offer (is_exporting w.notifier) (leb max_export_queue (length w.notifier.export_queue))
        (to_export installation finding occurrences first_seen last_seen w.notifier) w.log

  abbrev item : QueuedFinding
  item = to_queued installation finding occurrences first_seen last_seen w.notifier

  abbrev full : Bool
  full = leb max_queued (length w.notifier.queue)

  consider-IsDigested :
      IsDigested w.log w.notifier.queue w.notifier.omitted
      → IsDigested (note_queued answer.0 full item offer) answer.1.queue answer.1.omitted
  consider-IsDigested h =
      let kept =
        note_offer-keeps (is_exporting w.notifier)
          (leb max_export_queue (length w.notifier.export_queue))
          (to_export installation finding occurrences first_seen last_seen w.notifier) w.log in
      let offered =
        IsDigested-same w.log offer w.notifier.queue w.notifier.queue w.notifier.omitted
          w.notifier.omitted kept.0 kept.1 kept.2 refl refl h in
      elim (HasEffect-cases now w.notifier _ _
        (consider-HasEffect installation finding occurrences first_seen last_seen now w.notifier)) [
          | inl (answered, q) ↦ rw answered (
              note_queued-IsDigested item offer w.notifier.queue w.notifier.omitted answer.1
                (consider-HasPushed installation finding occurrences first_seen last_seen now
                  w.notifier answered)
                offered)
          | inr (other, t) ↦ rw (note_queued-other answer.0 full item offer other) (
              IsDigested-same offer offer w.notifier.queue answer.1.queue w.notifier.omitted
                answer.1.omitted refl refl refl t.queue t.omitted offered)
        ]

  considered-IsAccounted :
      IsAccounted w
      → IsAccounted (considered installation finding occurrences first_seen last_seen now w)
  unfolding considered
  considered-IsAccounted h =
      let logged = note_queued-keeps answer.0 full item offer in
      record {
        digests = consider-IsDigested h.digests;
        exports =
            logged.0
            ∙ enqueue_export-offered
                (to_export installation finding occurrences first_seen last_seen w.notifier)
                w.notifier w.log h.exports
            ∙ ap
                (λ l.
                  l
                  ++ (enqueue_export
                      (to_export installation finding occurrences first_seen last_seen w.notifier)
                      w.notifier).export_queue)
                (sym logged.1)
            ∙ ap (λ q. (note_queued answer.0 full item offer).exported ++ q)
                (sym
                  (consider-HasExportOf installation finding occurrences first_seen last_seen now
                    w.notifier).export_queue);
      }

note_digest-keeps :
    (now : ℕ) (before after : Option Notification) (log : Log)
    → ((note_digest now before after log).kept ≡ log.kept)
      × ((note_digest now before after log).crowded_out ≡ log.crowded_out)
      × ((note_digest now before after log).offered ≡ log.offered)
      × ((note_digest now before after log).exported ≡ log.exported)
note_digest-keeps now none none log = (refl, refl, refl, refl)
note_digest-keeps now none (some digest) log = (refl, refl, refl, refl)
note_digest-keeps now (some earlier) after log = (refl, refl, refl, refl)

-- A digest that begins is of all that waits.
note_digest-IsDigested :
    (now : ℕ) (log : Log) (queue : List QueuedFinding) (omitted : ℕ) (url : Option (List ℕ))
    (names_sensors : Bool)
    → IsDigested log queue omitted
    → IsDigested
        (note_digest now none (some (build_notification queue omitted url names_sensors now)) log)
        []
        0
note_digest-IsDigested now log queue omitted url names_sensors h = record {
  batches = (queue, omitted) ∷ h.batches;
  digests = (build_notification-IsRanked queue omitted url names_sensors now, h.digests);
  kept = h.kept ∙ sym (append-nil _);
  crowded_out = omega (arith, h.crowded_out);
}

-- `v` is the world after a dispatch by the notifier `before`, which has the queues of `w`.
after_dispatch-IsAccounted :
    (now : ℕ) (w : World) (names_sensors : Bool) (before : Notifier)
    → IsAccounted w
    → before.queue ≡ w.notifier.queue
    → before.omitted ≡ w.notifier.omitted
    → before.sending ≡ w.notifier.sending
    → before.export_queue ≡ w.notifier.export_queue
    → IsAccounted (after_dispatch now (dispatch names_sensors now before) w)
after_dispatch-IsAccounted now w names_sensors before h queue omitted sending exports =
    let m = dispatch names_sensors now before in
    let kept = note_digest-keeps now w.notifier.sending m.sending w.log in
    let waiting : IsDigested w.log before.queue before.omitted =
      IsDigested-same w.log w.log w.notifier.queue before.queue w.notifier.omitted before.omitted
        refl refl refl queue omitted h.digests in
    record {
      digests = elim (dispatch-cases names_sensors now before) [
        | inl begun ↦
            rw (begun.sending, sym sending ∙ begun.idle, begun.queue, begun.omitted)
              (note_digest-IsDigested now w.log before.queue before.omitted
                (url_or_null before.settings.dashboard_url) names_sensors waiting)
        | inr (same, why) ↦
            rw (same, sending, note_digest-same now w.notifier.sending w.log) waiting
      ];
      exports =
          kept.2
          ∙ h.exports
          ∙ ap (λ l. l ++ w.notifier.export_queue) (sym kept.3)
          ∙ ap (λ l. (note_digest now w.notifier.sending m.sending w.log).exported ++ l)
              (sym ((dispatch-HasExportOf names_sensors now before).export_queue ∙ exports));
    }

note_export-idle :
    (batch : Option Notification) (log : Log) (waiting : List NotifiableFinding)
    → batch ≡ none
    → length waiting ≡ 0
    → log.offered ≡ log.exported ++ waiting
    → ((note_export batch log).offered ≡ (note_export batch log).exported ++ [])
      × (note_export batch log ≡ log)
note_export-idle none log [] e empty h = (h, refl)
note_export-idle none log (item ∷ waiting) e empty h = absurd (omega arith)
note_export-idle (some batch) log waiting e empty h = cc

-- A batch that is sent is all that waits, as what waits is useful: some channel is to receive it.
export_started-IsAccounted :
    (names_sensors : Bool) (now : ℕ) (w : World)
    → w.notifier.exporting ≡ none
    → IsExportDue w.notifier
    → IsAccounted w
    → IsAccounted (export_started names_sensors now w)
unfolding export_started send_export_batch export_notification is_exporting
export_started-IsAccounted names_sensors now w idle due h =
    elim (Bool-cases
      (nat_beq (length w.notifier.export_queue) 0 || not (is_exporting w.notifier))) [
        | inl nothing ↦
            let kept =
              note_export-idle w.notifier.exporting w.log w.notifier.export_queue idle
                (ground (arith, nothing, due.useful)) h.exports in
            rw nothing (record {
              digests =
                  subst (λ l. IsDigested l w.notifier.queue w.notifier.omitted) (sym kept.1)
                    h.digests;
              exports = kept.0;
            })
        | inr batch ↦ rw batch (record {
          digests =
              IsDigested-same w.log _ w.notifier.queue w.notifier.queue w.notifier.omitted
                w.notifier.omitted refl refl refl refl refl h.digests;
          exports = h.exports ∙ sym (append-nil _);
        })
      ]

finish_dispatch-counts :
    (n : Notifier)
    → ((finish_dispatch n).queue ≡ n.queue)
      × ((finish_dispatch n).omitted ≡ n.omitted)
      × ((finish_dispatch n).export_queue ≡ n.export_queue)
unfolding finish_dispatch
finish_dispatch-counts n = (ground arith, ground arith, ground arith)

Step-IsAccounted :
    {T : Type 0} {installation : Installation} {now : ℕ} {w v : World}
    → IsExportDue w.notifier
    → IsAccounted w
    → Step T installation now w v
    → IsAccounted v
unfolding digest_fired flush_dispatched flush_repeated fire_digest fire_export begin_flush
Step-IsAccounted {T} {installation} {now} {w} due h
      (consider_step finding occurrences first_seen last_seen e) =
    subst IsAccounted (sym e)
      (considered-IsAccounted installation finding occurrences first_seen last_seen now w h)
Step-IsAccounted {now} {w} due h (digest_step names_sensors set e) =
    subst IsAccounted (sym e)
      (after_dispatch-IsAccounted now w names_sensors _ h refl refl refl refl)
Step-IsAccounted {now} {w} due h (delivered_step busy e) =
    let counts = finish_dispatch-counts w.notifier in
    subst IsAccounted (sym e) (record {
      digests =
          IsDigested-same w.log w.log w.notifier.queue (finish_dispatch w.notifier).queue
            w.notifier.omitted (finish_dispatch w.notifier).omitted refl refl refl counts.0 counts.1
            h.digests;
      exports = h.exports ∙ ap (λ q. w.log.exported ++ q) (sym counts.2);
    })
Step-IsAccounted {now} {w} due h (export_timer_step set e) =
    subst IsAccounted (sym e) (record { digests = h.digests; exports = h.exports })
Step-IsAccounted {now} {w} due h (export_step names_sensors waiting idle e) =
    subst IsAccounted (sym e) (export_started-IsAccounted names_sensors now w idle due h)
Step-IsAccounted {now} {w} due h (exported_step e) =
    subst IsAccounted (sym e) (record { digests = h.digests; exports = h.exports })
Step-IsAccounted {now} {w} due h (flush_step e) =
    subst IsAccounted (sym e) (record { digests = h.digests; exports = h.exports })
Step-IsAccounted {now} {w} due h (flush_exports_step e) =
    subst IsAccounted (sym e) (record { digests = h.digests; exports = h.exports })
Step-IsAccounted {now} {w} due h (flush_dispatch_step names_sensors some_flush e) =
    subst IsAccounted (sym e) (
      after_dispatch-IsAccounted now (record w { flushes = w.flushes - 1 }) names_sensors _
        (record { digests = h.digests; exports = h.exports }) refl refl refl refl)
Step-IsAccounted {now} {w} due h (flush_repeat_step names_sensors e) =
    subst IsAccounted (sym e)
      (after_dispatch-IsAccounted now w names_sensors _ h refl refl refl refl)

-- In every run of a new notifier: the findings that `consider` answered with `queued`, but for those it
-- answered so while 200 waited, are those of consecutive batches, one for each digest that was sent, and
-- then those that still wait, each once and in order; a digest lists the eight most urgent of its batch
-- and counts the others and those that had found no room. The findings taken for export have been handed
-- to the export channels once each and in order, but for those that still wait.
pub new_notifier-IsAccounted :
    {T : Type 0} {installation : Installation} (channels : List NotificationChannel)
    (settings : DeliverySettings) (carried : RateLimitState) {now : ℕ} {w : World}
    → Reach T installation (new_world (new_notifier channels settings carried)) now w
    → IsAccounted w
unfolding new_notifier
new_notifier-IsAccounted channels settings carried here = record {
  digests = record { batches = []; digests = tt; kept = refl; crowded_out = refl };
  exports = refl;
}
new_notifier-IsAccounted channels settings carried (next before later step) =
    Step-IsAccounted (new_notifier-IsDue channels settings carried before).exports
      (new_notifier-IsAccounted channels settings carried before) step
