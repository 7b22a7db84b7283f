-- ===== src/Notify/World/Effects.antt =====
-- What each operation of the notifier leaves alone and what it may change
-- (api/src/notify/notifier.ts).
use network_monitoring.Base.{
  ℕ, ◌+◌, ◌≤◌, ◌<◌, ◌≡◌, refl, true, List, [], ◌∷◌, ◌++◌, if◌then◌else◌, arith, leb, ◌⊎◌, length,
  Bool-cases, inl, inr, is_some, length-append, ◌*◌, list_eq, nat_eq, ap, ◌∙◌, ◌≢◌, subst,
}
use network_monitoring.Detect.Cooldown.{get, set, is_cooling}
use network_monitoring.Detect.Finding.{Finding}
use network_monitoring.Notify.Digest.{QueuedFinding}
use network_monitoring.Notify.Notifier.{
  Notifier, Outcome, prune, queued, throttled, rate_limited, disabled, below_threshold, consider,
  gate, admit, enqueue_export, push_queued, to_queued, to_export, max_queued, active,
}
use network_monitoring.Notify.Types.{
  Installation, NotifiableFinding, DeliverySettings, meets_threshold,
}

-- The two notifiers agree on all that is about digests.
pub record HasDigestOf (n m : Notifier) : Type 0 where
  pub channels : m.channels ≡ n.channels
  pub settings : m.settings ≡ n.settings
  pub sent_timestamps : m.sent_timestamps ≡ n.sent_timestamps
  pub queue : m.queue ≡ n.queue
  pub omitted : m.omitted ≡ n.omitted
  pub digest_timer : m.digest_timer ≡ n.digest_timer
  pub sending : m.sending ≡ n.sending

pub enqueue_export-HasDigestOf :
    (item : NotifiableFinding) (n : Notifier) → HasDigestOf n (enqueue_export item n)
unfolding enqueue_export
enqueue_export-HasDigestOf item n = record {
  channels = ground arith;
  settings = ground arith;
  sent_timestamps = ground arith;
  queue = ground arith;
  omitted = ground arith;
  digest_timer = ground arith;
  sending = ground arith;
}

-- A finding that is queued: its effect on the queue and on the timer.
pub record IsQueuedIn (now : ℕ) (n m : Notifier) : Type 0 where
  pub allowed : length (prune now n.sent_timestamps) < n.settings.max_per_hour
  pub sent_timestamps : m.sent_timestamps ≡ prune now n.sent_timestamps
  pub digest_timer : m.digest_timer ≡ true
  pub size : length m.queue + m.omitted ≡ length n.queue + n.omitted + 1
  pub bounded : length n.queue ≤ max_queued → length m.queue ≤ max_queued
  pub waits : 1 ≤ length m.queue

-- A finding that is not queued changes the queue in nothing.
pub record IsTurnedDown (now : ℕ) (n m : Notifier) : Type 0 where
  pub sent_timestamps :
      (m.sent_timestamps ≡ n.sent_timestamps) ⊎ (m.sent_timestamps ≡ prune now n.sent_timestamps)
  pub queue : m.queue ≡ n.queue
  pub omitted : m.omitted ≡ n.omitted
  pub digest_timer : m.digest_timer ≡ n.digest_timer

abbrev pub HasEffect : ℕ → Notifier → Outcome → Notifier → Type 0
HasEffect now n queued m = IsQueuedIn now n m
HasEffect now n below_threshold m = IsTurnedDown now n m
HasEffect now n throttled m = IsTurnedDown now n m
HasEffect now n rate_limited m = IsTurnedDown now n m
HasEffect now n disabled m = IsTurnedDown now n m

-- The item has been put behind a queue, or counted as omitted where the queue was full.
abbrev pub HasPushed : QueuedFinding → List QueuedFinding → ℕ → Notifier → Type 0
HasPushed item queue omitted m =
    (m.queue ≡ (if leb max_queued (length queue) then queue else queue ++ (item ∷ [])))
    × (m.omitted ≡ (if leb max_queued (length queue) then omitted + 1 else omitted))

module _ (item : QueuedFinding) (now : ℕ) (n : Notifier) where
  push_queued-size :
      (m : Notifier)
      → length (push_queued item m).queue + (push_queued item m).omitted
        ≡ length m.queue + m.omitted + 1
  unfolding push_queued
  push_queued-size m = ground (arith, length-append m.queue (item ∷ []))

  push_queued-bounded :
      (m : Notifier) → length m.queue ≤ max_queued → length (push_queued item m).queue ≤ max_queued
  unfolding push_queued
  push_queued-bounded m h = ground (arith, length-append m.queue (item ∷ []))

  push_queued-waits : (m : Notifier) → 1 ≤ length (push_queued item m).queue
  unfolding push_queued
  push_queued-waits m = ground (arith, length-append m.queue (item ∷ []))

  push_queued-sent : (m : Notifier) → (push_queued item m).sent_timestamps ≡ m.sent_timestamps
  unfolding push_queued
  push_queued-sent m = ground arith

  admit-HasEffect : HasEffect now n (admit item now n).0 (admit item now n).1
  unfolding admit
  admit-HasEffect =
      let noted : Notifier = record n {
        sent_timestamps = prune now n.sent_timestamps;
        last_notified_at = set item.dedup_key now n.last_notified_at;
      } in
      elim (Bool-cases (
        is_cooling (n.settings.throttle_seconds * 1_000) now
          (get item.dedup_key n.last_notified_at))) [
            | inl cooling ↦ rw cooling (record {
              sent_timestamps = inl refl;
              queue = refl;
              omitted = refl;
              digest_timer = refl;
            })
            | inr due ↦
                elim (Bool-cases
                  (leb n.settings.max_per_hour (length (prune now n.sent_timestamps)))) [
                    | inl full ↦
                        rw (due, full)
                          (record {
                            sent_timestamps = inr refl;
                            queue = refl;
                            omitted = refl;
                            digest_timer = refl;
                          })
                    | inr free ↦
                        rw (due, free)
                          (record {
                            allowed = ground (arith, free);
                            sent_timestamps = push_queued-sent noted;
                            digest_timer = refl;
                            size = push_queued-size noted;
                            bounded = λ h. push_queued-bounded noted h;
                            waits = push_queued-waits noted;
                          })
                  ]
          ]

  gate-HasEffect : HasEffect now n (gate item now n).0 (gate item now n).1
  unfolding gate
  gate-HasEffect =
      let unchanged : IsTurnedDown now n n = record {
        sent_timestamps = inl refl;
        queue = refl;
        omitted = refl;
        digest_timer = refl;
      } in
      elim (Bool-cases (active n)) [
        | inr idle ↦ rw idle unchanged
        | inl running ↦
            elim (Bool-cases (meets_threshold item.finding.severity n.settings.min_severity)) [
              | inr mild ↦ rw (running, mild) unchanged
              | inl grave ↦ rw (running, grave) admit-HasEffect
            ]
      ]

  admit-HasPushed :
      (admit item now n).0 ≡ queued → HasPushed item n.queue n.omitted (admit item now n).1
  unfolding admit push_queued
  admit-HasPushed h = (ground (arith, h), ground (arith, h))

  gate-HasPushed :
      (gate item now n).0 ≡ queued → HasPushed item n.queue n.omitted (gate item now n).1
  unfolding gate
  gate-HasPushed h = ground (arith, h, admit-HasPushed)

  admit-sending : (admit item now n).1.sending ≡ n.sending
  unfolding admit push_queued
  admit-sending = ground arith

  gate-sending : (gate item now n).1.sending ≡ n.sending
  unfolding gate
  gate-sending = ground (arith, admit-sending)

  admit-settings : (admit item now n).1.settings ≡ n.settings
  unfolding admit push_queued
  admit-settings = ground arith

  gate-settings : (gate item now n).1.settings ≡ n.settings
  unfolding gate
  gate-settings = ground (arith, admit-settings)

IsTurnedDown-of_HasDigestOf :
    (now : ℕ) (n n' m : Notifier) → HasDigestOf n n' → IsTurnedDown now n' m → IsTurnedDown now n m
IsTurnedDown-of_HasDigestOf now n n' m same h = record {
  sent_timestamps = elim h.sent_timestamps [
    | inl kept ↦ inl (kept ∙ same.sent_timestamps)
    | inr pruned ↦ inr (pruned ∙ ap (prune now) same.sent_timestamps)
  ];
  queue = h.queue ∙ same.queue;
  omitted = h.omitted ∙ same.omitted;
  digest_timer = h.digest_timer ∙ same.digest_timer;
}

HasEffect-of_HasDigestOf :
    (now : ℕ) (n n' m : Notifier) (outcome : Outcome)
    → HasDigestOf n n'
    → HasEffect now n' outcome m
    → HasEffect now n outcome m
HasEffect-of_HasDigestOf now n n' m queued same h = record {
  allowed = ground (
    arith,
    ap (λ (s : DeliverySettings). s.max_per_hour) same.settings,
    ap (λ l. length (prune now l)) same.sent_timestamps,
    h.allowed,
  );
  sent_timestamps = h.sent_timestamps ∙ ap (prune now) same.sent_timestamps;
  digest_timer = h.digest_timer;
  size = omega (arith, h.size, same.omitted, ap (λ (l : List QueuedFinding). length l) same.queue);
  waits = h.waits;
  bounded = λ b. h.bounded (omega (arith, ap (λ (l : List QueuedFinding). length l) same.queue));
}
HasEffect-of_HasDigestOf now n n' m below_threshold same h =
    IsTurnedDown-of_HasDigestOf now n n' m same h
HasEffect-of_HasDigestOf now n n' m throttled same h = IsTurnedDown-of_HasDigestOf now n n' m same h
HasEffect-of_HasDigestOf now n n' m rate_limited same h =
    IsTurnedDown-of_HasDigestOf now n n' m same h
HasEffect-of_HasDigestOf now n n' m disabled same h = IsTurnedDown-of_HasDigestOf now n n' m same h

pub HasEffect-cases :
    (now : ℕ) (n m : Notifier) (outcome : Outcome)
    → HasEffect now n outcome m
    → (outcome ≡ queued) × IsQueuedIn now n m ⊎ (outcome ≢ queued) × IsTurnedDown now n m
HasEffect-cases now n m queued h = inl (refl, h)
HasEffect-cases now n m below_threshold h = inr (λ e. cc, h)
HasEffect-cases now n m throttled h = inr (λ e. cc, h)
HasEffect-cases now n m rate_limited h = inr (λ e. cc, h)
HasEffect-cases now n m disabled h = inr (λ e. cc, h)

module _ (installation : Installation) {T : Type 0} (finding : Finding T)
    (occurrences first_seen last_seen now : ℕ) (n : Notifier) where
  abbrev pub answer : Outcome × Notifier
  answer = consider installation finding occurrences first_seen last_seen now n

  -- `consider` queues a finding only below the ceiling, and else leaves the digest as it was.
  pub consider-HasEffect : HasEffect now n answer.0 answer.1
  unfolding consider
  consider-HasEffect =
      HasEffect-of_HasDigestOf now n
        (enqueue_export (to_export installation finding occurrences first_seen last_seen n) n) _ _
        (enqueue_export-HasDigestOf _ n)
        (gate-HasEffect (to_queued installation finding occurrences first_seen last_seen n) now _)

  pub consider-sending : answer.1.sending ≡ n.sending
  unfolding consider
  consider-sending =
      gate-sending (to_queued installation finding occurrences first_seen last_seen n) now _
      ∙ (enqueue_export-HasDigestOf _ n).sending

  -- A finding that is queued stands behind those that wait, or is counted where there is no room.
  pub consider-HasPushed :
      answer.0 ≡ queued
      → HasPushed
          (to_queued installation finding occurrences first_seen last_seen n)
          n.queue
          n.omitted
          answer.1
  unfolding consider
  consider-HasPushed h =
      let item = to_queued installation finding occurrences first_seen last_seen n in
      let taken =
        enqueue_export (to_export installation finding occurrences first_seen last_seen n) n in
      let same = enqueue_export-HasDigestOf _ n in
      subst (λ q. HasPushed item q n.omitted (gate item now taken).1) same.queue
        (subst (λ o. HasPushed item taken.queue o (gate item now taken).1) same.omitted
          (gate-HasPushed item now taken h))

  pub consider-settings : answer.1.settings ≡ n.settings
  unfolding consider
  consider-settings =
      gate-settings (to_queued installation finding occurrences first_seen last_seen n) now _
      ∙ (enqueue_export-HasDigestOf _ n).settings

-- What waits for a digest is due: its timer is set, or the end of a delivery or of a flush sets it off.
pub record IsDigestDue (n : Notifier) (flushes : ℕ) : Type 0 where
  pub bounded : length n.queue ≤ max_queued
  pub full : 1 ≤ n.omitted → 1 ≤ length n.queue
  pub due :
      1 ≤ length n.queue → (n.digest_timer ≡ true) ⊎ (is_some n.sending ≡ true) ⊎ (1 ≤ flushes)

module _ (installation : Installation) {T : Type 0} (finding : Finding T)
    (occurrences first_seen last_seen now : ℕ) (n : Notifier) where
  pub consider-IsDigestDue :
      (flushes : ℕ)
      → IsDigestDue n flushes
      → IsDigestDue (consider installation finding occurrences first_seen last_seen now n).1 flushes
  consider-IsDigestDue flushes h =
      let sending = consider-sending installation finding occurrences first_seen last_seen now n in
      elim (HasEffect-cases now n _ _
        (consider-HasEffect installation finding occurrences first_seen last_seen now n)) [
          | inl (answered, q) ↦ record {
            bounded = q.bounded h.bounded;
            full = λ k. q.waits;
            due = λ k. inl q.digest_timer;
          }
          | inr (answered, t) ↦ record {
            bounded = rw t.queue h.bounded;
            full = λ k. rw t.queue (h.full (rw t.omitted at k));
            due = λ k. rw (t.digest_timer, sending) (h.due (rw t.queue at k));
          }
        ]
