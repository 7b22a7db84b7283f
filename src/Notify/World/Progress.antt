-- ===== src/Notify/World/Progress.antt =====
-- What waits, and what will see to it (api/src/notify/notifier.ts).
use network_monitoring.Base.{ℕ, ◌≤◌, sym, ap, subst, Bool, false, List, arith, inl, inr, length}
use network_monitoring.Notify.Digest.{QueuedFinding}
use network_monitoring.Notify.Notifier.{
  Notifier, dispatch, fire_digest, fire_export, finish_dispatch, send_export_batch, begin_flush,
  is_exporting, new_notifier, max_queued, RateLimitState,
}
use network_monitoring.Notify.Types.{Installation, NotificationChannel, DeliverySettings}
use network_monitoring.Notify.World.{
  World, Step, Reach, considered, digest_fired, flush_dispatched, flush_repeated, export_started,
  consider_step, digest_step, delivered_step, export_timer_step, export_step, exported_step,
  flush_step, flush_exports_step, flush_dispatch_step, flush_repeat_step, here, next, new_world,
}
use network_monitoring.Notify.World.Dispatch.{dispatch-cases}
use network_monitoring.Notify.World.Effects.{IsDigestDue, consider-IsDigestDue}
use network_monitoring.Notify.World.Exports.{
  IsExportDue, IsExportDue-of_HasExportOf, dispatch-HasExportOf, consider-IsExportDue,
}

-- A dispatch leaves nothing behind, or a delivery is under way that will see to it.
dispatch-IsDigestDue :
    (names_sensors : Bool) (now flushes : ℕ) (n : Notifier)
    → length n.queue ≤ max_queued
    → (1 ≤ n.omitted → 1 ≤ length n.queue)
    → IsDigestDue (dispatch names_sensors now n) flushes
dispatch-IsDigestDue names_sensors now flushes n bounded full =
    elim (dispatch-cases names_sensors now n) [
      | inl begun ↦ record {
        bounded = rw begun.queue (omega arith);
        full = λ k. absurd (omega (arith, begun.omitted));
        due = λ k. absurd (omega (arith, ap (λ (l : List QueuedFinding). length l) begun.queue));
      }
      | inr (same, inl busy) ↦ record {
        bounded = rw same bounded;
        full = λ k. rw same (full (rw same at k));
        due = λ k. rw same (inr (inl busy));
      }
      | inr (same, inr empty) ↦ record {
        bounded = rw same bounded;
        full = λ k. rw same (full (rw same at k));
        due = λ k. absurd (omega (arith, ap (λ (m : Notifier). length m.queue) same));
      }
    ]

dispatch-IsExportDue :
    (names_sensors : Bool) (now : ℕ) (n : Notifier)
    → IsExportDue n
    → IsExportDue (dispatch names_sensors now n)
dispatch-IsExportDue names_sensors now n =
    IsExportDue-of_HasExportOf n _ (dispatch-HasExportOf names_sensors now n)

finish_dispatch-IsDigestDue :
    (flushes : ℕ) (n : Notifier) → IsDigestDue n flushes → IsDigestDue (finish_dispatch n) flushes
unfolding finish_dispatch
finish_dispatch-IsDigestDue flushes n h = record {
  bounded = ground (arith, h.bounded);
  full = ground (arith, h.full);
  due = ground arith;
}

finish_dispatch-IsExportDue : (n : Notifier) → IsExportDue n → IsExportDue (finish_dispatch n)
unfolding finish_dispatch is_exporting
finish_dispatch-IsExportDue n h = ground arith

send_export_batch-IsExportDue :
    (names_sensors : Bool) (now : ℕ) (n : Notifier)
    → IsExportDue (send_export_batch names_sensors now n)
unfolding send_export_batch is_exporting
send_export_batch-IsExportDue names_sensors now n = ground arith

send_export_batch-IsDigestDue :
    (names_sensors : Bool) (now flushes : ℕ) (n : Notifier)
    → IsDigestDue n flushes
    → IsDigestDue (send_export_batch names_sensors now n) flushes
unfolding send_export_batch
send_export_batch-IsDigestDue names_sensors now flushes n h = record {
  bounded = ground (arith, h.bounded);
  full = ground (arith, h.full);
  due = ground (arith, h.due);
}

-- The queues are within their bounds, and what is in them is due.
pub record IsDue (w : World) : Type 0 where
  pub digest : IsDigestDue w.notifier w.flushes
  pub exports : IsExportDue w.notifier

Step-IsDue :
    {T : Type 0} {installation : Installation} {now : ℕ} {w v : World}
    → IsDue w
    → Step T installation now w v
    → IsDue v
unfolding considered digest_fired flush_dispatched flush_repeated export_started fire_digest
    fire_export begin_flush is_exporting
Step-IsDue {T} {installation} {now} {w} h
      (consider_step finding occurrences first_seen last_seen e) =
    subst IsDue (sym e) (record {
      digest =
          consider-IsDigestDue installation finding occurrences first_seen last_seen now w.notifier
            w.flushes h.digest;
      exports =
          consider-IsExportDue installation finding occurrences first_seen last_seen now w.notifier
            h.exports;
    })
Step-IsDue {now} {w} h (digest_step names_sensors set e) = subst IsDue (sym e) (record {
  digest = dispatch-IsDigestDue names_sensors now _ _ h.digest.bounded h.digest.full;
  exports =
      dispatch-IsExportDue names_sensors now (record w.notifier { digest_timer = false })
        (record {
          bounded = h.exports.bounded;
          due = h.exports.due;
          batch = h.exports.batch;
          useful = h.exports.useful;
        });
})
Step-IsDue {now} {w} h (delivered_step busy e) = subst IsDue (sym e) (record {
  digest = finish_dispatch-IsDigestDue w.flushes w.notifier h.digest;
  exports = finish_dispatch-IsExportDue w.notifier h.exports;
})
Step-IsDue {now} {w} h (export_timer_step set e) = subst IsDue (sym e) (record {
  digest = record { bounded = h.digest.bounded; full = h.digest.full; due = h.digest.due };
  exports = record {
    bounded = h.exports.bounded;
    due = λ k. inr (omega arith);
    batch = λ k. omega arith;
    useful = h.exports.useful;
  };
})
Step-IsDue {now} {w} h (export_step names_sensors waiting idle e) = subst IsDue (sym e) (record {
  digest =
      send_export_batch-IsDigestDue names_sensors now w.flushes _
        (record { bounded = h.digest.bounded; full = h.digest.full; due = h.digest.due });
  exports = send_export_batch-IsExportDue names_sensors now _;
})
Step-IsDue {now} {w} h (exported_step e) = subst IsDue (sym e) (record {
  digest = record { bounded = h.digest.bounded; full = h.digest.full; due = h.digest.due };
  exports = record {
    bounded = h.exports.bounded;
    due = h.exports.due;
    batch = h.exports.batch;
    useful = h.exports.useful;
  };
})
Step-IsDue {now} {w} h (flush_step e) = subst IsDue (sym e) (record {
  digest = record {
    bounded = h.digest.bounded;
    full = h.digest.full;
    due = λ k. inr (inr (omega arith));
  };
  exports = record {
    bounded = h.exports.bounded;
    due = λ k. inr (omega arith);
    batch = λ k. omega arith;
    useful = h.exports.useful;
  };
})
Step-IsDue {now} {w} h (flush_exports_step e) = subst IsDue (sym e) (record {
  digest = record { bounded = h.digest.bounded; full = h.digest.full; due = h.digest.due };
  exports = record {
    bounded = h.exports.bounded;
    due = λ k. inr (omega arith);
    batch = λ k. omega arith;
    useful = h.exports.useful;
  };
})
Step-IsDue {now} {w} h (flush_dispatch_step names_sensors some_flush e) =
    subst IsDue (sym e) (record {
      digest = dispatch-IsDigestDue names_sensors now _ _ h.digest.bounded h.digest.full;
      exports = dispatch-IsExportDue names_sensors now w.notifier h.exports;
    })
Step-IsDue {now} {w} h (flush_repeat_step names_sensors e) = subst IsDue (sym e) (record {
  digest = dispatch-IsDigestDue names_sensors now _ _ h.digest.bounded h.digest.full;
  exports = dispatch-IsExportDue names_sensors now w.notifier h.exports;
})

-- In every run of a new notifier, whatever the order of findings, timers, deliveries and flushes: the
-- queues keep their bounds; while findings wait for a digest its timer is set, or a digest is being
-- delivered, or a flush is on its way; and while findings wait for export the timer of the export is
-- set or a send is waiting.
pub new_notifier-IsDue :
    {T : Type 0} {installation : Installation} (channels : List NotificationChannel)
    (settings : DeliverySettings) (carried : RateLimitState) {now : ℕ} {w : World}
    → Reach T installation (new_world (new_notifier channels settings carried)) now w
    → IsDue w
unfolding new_notifier
new_notifier-IsDue channels settings carried here = record {
  digest = record {
    bounded = omega arith;
    full = λ k. absurd (omega arith);
    due = λ k. absurd (omega arith);
  };
  exports = record {
    bounded = omega arith;
    due = λ k. absurd (omega arith);
    batch = λ k. absurd (omega arith);
    useful = λ k. absurd (omega arith);
  };
}
new_notifier-IsDue channels settings carried (next before later step) =
    Step-IsDue (new_notifier-IsDue channels settings carried before) step
