-- ===== src/Notify/World/Exports.antt =====
-- What the operations of the notifier do to exports (api/src/notify/notifier.ts).
use network_monitoring.Base.{
  ℕ, ◌≤◌, ◌≡◌, true, [], ◌∷◌, arith, ◌⊎◌, length, length-append, list_eq, nat_eq, Bool,
}
use network_monitoring.Detect.Finding.{Finding}
use network_monitoring.Notify.Digest.{QueuedFinding}
use network_monitoring.Notify.Notifier.{
  Notifier, consider, gate, admit, enqueue_export, push_queued, dispatch, to_queued, to_export,
  is_exporting, max_export_queue, max_export_batch,
}
use network_monitoring.Notify.Types.{Installation, NotifiableFinding}

-- The two notifiers agree on all that is about exports.
pub record HasExportOf (n m : Notifier) : Type 0 where
  pub channels : m.channels ≡ n.channels
  pub export_queue : m.export_queue ≡ n.export_queue
  pub export_timer : m.export_timer ≡ n.export_timer
  pub exports_waiting : m.exports_waiting ≡ n.exports_waiting
  pub exporting : m.exporting ≡ n.exporting

gate-HasExportOf :
    (item : QueuedFinding) (now : ℕ) (n : Notifier) → HasExportOf n (gate item now n).1
unfolding gate admit push_queued
gate-HasExportOf item now n = record {
  channels = ground arith;
  export_queue = ground arith;
  export_timer = ground arith;
  exports_waiting = ground arith;
  exporting = ground arith;
}

pub dispatch-HasExportOf :
    (names_sensors : Bool) (now : ℕ) (n : Notifier) → HasExportOf n (dispatch names_sensors now n)
unfolding dispatch
dispatch-HasExportOf names_sensors now n = record {
  channels = ground arith;
  export_queue = ground arith;
  export_timer = ground arith;
  exports_waiting = ground arith;
  exporting = ground arith;
}

-- What waits for export is due: a timer is set or a send waits, and a full batch has a send waiting.
pub record IsExportDue (n : Notifier) : Type 0 where
  pub bounded : length n.export_queue ≤ max_export_queue
  pub due : 1 ≤ length n.export_queue → (n.export_timer ≡ true) ⊎ (1 ≤ n.exports_waiting)
  pub batch : max_export_batch ≤ length n.export_queue → 1 ≤ n.exports_waiting
  pub useful : 1 ≤ length n.export_queue → is_exporting n ≡ true

pub IsExportDue-of_HasExportOf : (n m : Notifier) → HasExportOf n m → IsExportDue n → IsExportDue m
unfolding is_exporting
IsExportDue-of_HasExportOf n m same h = record {
  bounded = ground (arith, same, h.bounded);
  due = λ k. rw (same.export_timer, same.exports_waiting) (h.due (rw same.export_queue at k));
  batch = λ k. rw same.exports_waiting (h.batch (rw same.export_queue at k));
  useful = λ k. rw same.channels (h.useful (rw same.export_queue at k));
}

enqueue_export-IsExportDue :
    (item : NotifiableFinding) (n : Notifier) → IsExportDue n → IsExportDue (enqueue_export item n)
unfolding enqueue_export is_exporting
enqueue_export-IsExportDue item n h = ground (arith, length-append n.export_queue (item ∷ []))

module _ (installation : Installation) {T : Type 0} (finding : Finding T)
    (occurrences first_seen last_seen now : ℕ) (n : Notifier) where
  -- `consider` sees to the export first, whatever it answers.
  pub consider-HasExportOf :
      HasExportOf
        (enqueue_export (to_export installation finding occurrences first_seen last_seen n) n)
        (consider installation finding occurrences first_seen last_seen now n).1
  unfolding consider
  consider-HasExportOf =
      gate-HasExportOf (to_queued installation finding occurrences first_seen last_seen n) now _

  pub consider-IsExportDue :
      IsExportDue n
      → IsExportDue (consider installation finding occurrences first_seen last_seen now n).1
  consider-IsExportDue h =
      IsExportDue-of_HasExportOf _ _ consider-HasExportOf (enqueue_export-IsExportDue _ n h)
