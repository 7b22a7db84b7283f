-- ===== src/Notify/World/Ceiling.antt =====
-- The digests of an hour (api/src/notify/notifier.ts, `hourlyCountAt`).
use network_monitoring.Base.{
  ℕ, ◌+◌, ◌≤◌, ◌≡◌, refl, List, [], ◌∷◌, ◌++◌, arith, ltb, if◌then◌else◌, length, inl, inr, ap, ◌∙◌,
  ◌⊎◌, sym, Bool, subst, ◌-◌,
}
use network_monitoring.Detect.Finding.{Finding}
use network_monitoring.Notify.Notifier.{
  Notifier, hour_ms, prune, dispatch, fire_digest, fire_export, finish_dispatch, send_export_batch,
  begin_flush, new_notifier, RateLimitState,
}
use network_monitoring.Notify.Digest.{QueuedFinding}
use network_monitoring.Notify.Types.{Installation, NotificationChannel, DeliverySettings}
use network_monitoring.Notify.World.Dispatch.{dispatch-cases}
use network_monitoring.Notify.World.Effects.{HasEffect-cases, consider-HasEffect, consider-settings}
use network_monitoring.Notify.World.{
  World, Log, Step, Reach, considered, digest_fired, flush_dispatched, flush_repeated,
  export_started, consider_step, digest_step, delivered_step, export_timer_step, export_step,
  exported_step, note_digest, note_digest-same, after_dispatch, flush_step, flush_exports_step,
  flush_dispatch_step, flush_repeat_step, here, next, new_world,
}

-- How many of the sends are not older than an hour.
abbrev pub recent : ℕ → List ℕ → ℕ
recent now [] = 0
recent now (sent ∷ others) = (if ltb (sent + hour_ms) now then 0 else 1) + recent now others

-- No hour that ends with a send holds more sends than allowed.
abbrev pub IsWithinCeiling : ℕ → List ℕ → Type 0
IsWithinCeiling most [] = Unit {0}
IsWithinCeiling most (sent ∷ earlier) =
    (recent sent earlier + 1 ≤ most) × IsWithinCeiling most earlier

recent-append :
    (now : ℕ) (xs : List ℕ) (sent : ℕ) → recent now (xs ++ (sent ∷ [])) ≡ recent now (sent ∷ xs)
recent-append now [] sent = refl
recent-append now (x ∷ xs) sent = omega (arith, recent-append now xs sent)

recent-later : (now later : ℕ) (xs : List ℕ) → now ≤ later → recent later xs ≤ recent now xs
recent-later now later [] h = omega arith
recent-later now later (x ∷ xs) h = ground (arith, recent-later now later xs h)

recent-le-length : (now : ℕ) (xs : List ℕ) → recent now xs ≤ length xs
recent-le-length now [] = omega arith
recent-le-length now (x ∷ xs) = ground (arith, recent-le-length now xs)

-- What is shifted off is never recent again.
recent-prune :
    (now later : ℕ) (xs : List ℕ) → now ≤ later → recent later (prune now xs) ≡ recent later xs
unfolding prune
recent-prune now later [] h = refl
recent-prune now later (x ∷ xs) h = ground (arith, recent-prune now later xs h)

-- The notifier's own list misses no send that is still recent, and findings wait only while a send
-- is allowed.
pub record IsCeiled (most clock : ℕ) (w : World) : Type 0 where
  pub setting : w.notifier.settings.max_per_hour ≡ most
  pub remembered :
      (now : ℕ) → clock ≤ now → recent now w.log.sends ≤ recent now w.notifier.sent_timestamps
  pub allowed : 1 ≤ length w.notifier.queue → recent clock w.log.sends + 1 ≤ most
  pub within : IsWithinCeiling most w.log.sends

module _ (most clock now : ℕ) (w : World) (h : IsCeiled most clock w) (later : clock ≤ now) where
  -- The same log and list of sends, and a queue that is still allowed.
  kept-IsCeiled :
      (v : World)
      → v.notifier.settings ≡ w.notifier.settings
      → v.log.sends ≡ w.log.sends
      → ((t : ℕ)
          → now ≤ t
          → recent t v.notifier.sent_timestamps ≡ recent t w.notifier.sent_timestamps)
      → (1 ≤ length v.notifier.queue
          → (1 ≤ length w.notifier.queue) ⊎ (recent now w.log.sends + 1 ≤ most))
      → IsCeiled most now v
  kept-IsCeiled v settings sends timestamps queue = record {
    setting = ap (λ (s : DeliverySettings). s.max_per_hour) settings ∙ h.setting;
    remembered = λ t le. rw (sends, timestamps t le) (h.remembered t (omega arith));
    allowed = λ waiting. rw sends (elim (queue waiting) [
      | inl before ↦ omega (arith, h.allowed before, recent-later clock now w.log.sends later)
      | inr free ↦ free
    ]);
    within = rw sends h.within;
  }

  -- A digest is sent at `now`.
  sent-IsCeiled :
      (v : World)
      → v.notifier.settings ≡ w.notifier.settings
      → v.log.sends ≡ now ∷ w.log.sends
      → v.notifier.sent_timestamps ≡ w.notifier.sent_timestamps ++ (now ∷ [])
      → 1 ≤ length w.notifier.queue
      → length v.notifier.queue ≡ 0
      → IsCeiled most now v
  sent-IsCeiled v settings sends timestamps waiting emptied = record {
    setting = ap (λ (s : DeliverySettings). s.max_per_hour) settings ∙ h.setting;
    remembered = λ t le.
        rw (sends, timestamps, recent-append t w.notifier.sent_timestamps now)
          (omega (arith, h.remembered t (omega arith)));
    allowed = λ more. absurd (omega arith);
    within =
        rw sends
          (omega (arith, h.allowed waiting, recent-later clock now w.log.sends later), h.within);
  }

  module _ (installation : Installation) {T : Type 0} (finding : Finding T)
      (occurrences first_seen last_seen : ℕ) where
    abbrev after : World
    after = considered installation finding occurrences first_seen last_seen now w

    considered-sends : after.log.sends ≡ w.log.sends
    unfolding considered
    considered-sends = ground arith

    considered-IsCeiled : IsCeiled most now after
    unfolding considered
    considered-IsCeiled =
        elim (HasEffect-cases now w.notifier _ _ (
          consider-HasEffect installation finding occurrences first_seen last_seen now
            w.notifier)) [
              | inl (answered, q) ↦
                  kept-IsCeiled after
                    (consider-settings installation finding occurrences first_seen last_seen now
                      w.notifier)
                    considered-sends
                    (λ t le.
                      rw q.sent_timestamps (recent-prune now t w.notifier.sent_timestamps le))
                    (λ waiting. inr (
                      omega (
                        arith,
                        q.allowed,
                        h.setting,
                        h.remembered now later,
                        recent-prune now now w.notifier.sent_timestamps (omega arith),
                        recent-le-length now (prune now w.notifier.sent_timestamps),
                      )))
              | inr (answered, t) ↦
                  kept-IsCeiled after
                    (consider-settings installation finding occurrences first_seen last_seen now
                      w.notifier)
                    considered-sends
                    (λ s le. elim t.sent_timestamps [
                      | inl same ↦ ap (recent s) same
                      | inr pruned ↦
                          ap (recent s) pruned ∙ recent-prune now s w.notifier.sent_timestamps le
                    ])
                    (λ waiting.
                      inl (omega (arith, ap (λ (l : List QueuedFinding). length l) t.queue)))
            ]

-- `v` is the world after a dispatch by the notifier `before`, which has the digest of `w`.
after_dispatch-IsCeiled :
    (most clock now : ℕ) (w : World)
    → IsCeiled most clock w
    → clock ≤ now
    → (names_sensors : Bool) (before : Notifier) → before.settings ≡ w.notifier.settings
    → before.sent_timestamps ≡ w.notifier.sent_timestamps
    → before.queue ≡ w.notifier.queue
    → before.sending ≡ w.notifier.sending
    → IsCeiled most now (after_dispatch now (dispatch names_sensors now before) w)
after_dispatch-IsCeiled most clock now w h later names_sensors before settings timestamps queue
      sending =
    elim (dispatch-cases names_sensors now before) [
      | inl begun ↦
          sent-IsCeiled most clock now w h later _ (begun.settings ∙ settings)
            (rw (begun.sending, sym sending ∙ begun.idle) refl)
            (begun.sent_timestamps ∙ ap (λ l. l ++ (now ∷ [])) timestamps)
            (omega (arith, begun.waiting, ap (λ (l : List QueuedFinding). length l) queue))
            (ap (λ (l : List QueuedFinding). length l) begun.queue)
      | inr (same, why) ↦
          kept-IsCeiled most clock now w h later _
            (ap (λ (n : Notifier). n.settings) same ∙ settings)
            (ap (λ o. (note_digest now w.notifier.sending o w.log).sends)
                (ap (λ (n : Notifier). n.sending) same ∙ sending)
              ∙ ap (λ (l : Log). l.sends) (note_digest-same now w.notifier.sending w.log))
            (λ t le.
              ap (λ (n : Notifier). recent t n.sent_timestamps) same ∙ ap (recent t) timestamps)
            (λ waiting. inl (
              omega (
                arith,
                ap (λ (n : Notifier). length n.queue) same,
                ap (λ (l : List QueuedFinding). length l) queue,
              )))
    ]

-- Every step keeps the ceiling.
Step-IsCeiled :
    {T : Type 0} {installation : Installation} (most clock now : ℕ) {w v : World}
    → IsCeiled most clock w
    → clock ≤ now
    → Step T installation now w v
    → IsCeiled most now v
unfolding digest_fired flush_dispatched flush_repeated export_started fire_digest finish_dispatch
    fire_export send_export_batch begin_flush
Step-IsCeiled {T} {installation} most clock now {w} h later
      (consider_step finding occurrences first_seen last_seen e) =
    subst (IsCeiled most now) (sym e) (
      considered-IsCeiled most clock now w h later installation finding occurrences first_seen
        last_seen)
Step-IsCeiled most clock now {w} h later (digest_step names_sensors set e) =
    subst (IsCeiled most now) (sym e)
      (after_dispatch-IsCeiled most clock now w h later names_sensors _ refl refl refl refl)
Step-IsCeiled most clock now {w} h later (delivered_step busy e) =
    subst (IsCeiled most now) (sym e) (
      kept-IsCeiled most clock now w h later _ (ground arith) (ground arith) (λ t le. ground arith)
        (λ waiting. inl (ground arith)))
Step-IsCeiled most clock now {w} h later (export_timer_step set e) =
    subst (IsCeiled most now) (sym e)
      (kept-IsCeiled most clock now w h later _ refl refl (λ t le. refl) (λ waiting. inl waiting))
Step-IsCeiled most clock now {w} h later (export_step names_sensors waiting idle e) =
    subst (IsCeiled most now) (sym e) (
      kept-IsCeiled most clock now w h later _ (ground arith) (ground arith) (λ t le. ground arith)
        (λ waiting. inl (ground arith)))
Step-IsCeiled most clock now {w} h later (exported_step e) =
    subst (IsCeiled most now) (sym e)
      (kept-IsCeiled most clock now w h later _ refl refl (λ t le. refl) (λ waiting. inl waiting))
Step-IsCeiled most clock now {w} h later (flush_step e) =
    subst (IsCeiled most now) (sym e)
      (kept-IsCeiled most clock now w h later _ refl refl (λ t le. refl) (λ waiting. inl waiting))
Step-IsCeiled most clock now {w} h later (flush_exports_step e) =
    subst (IsCeiled most now) (sym e)
      (kept-IsCeiled most clock now w h later _ refl refl (λ t le. refl) (λ waiting. inl waiting))
Step-IsCeiled most clock now {w} h later (flush_dispatch_step names_sensors some_flush e) =
    let begun : World = record w { flushes = w.flushes - 1 } in
    let ceiled : IsCeiled most clock begun = record {
      setting = h.setting;
      remembered = h.remembered;
      allowed = h.allowed;
      within = h.within;
    } in
    subst (IsCeiled most now) (sym e) (
      after_dispatch-IsCeiled most clock now begun ceiled later names_sensors _ refl refl refl refl)
Step-IsCeiled most clock now {w} h later (flush_repeat_step names_sensors e) =
    subst (IsCeiled most now) (sym e)
      (after_dispatch-IsCeiled most clock now w h later names_sensors _ refl refl refl refl)

Reach-IsCeiled :
    {T : Type 0} {installation : Installation} (notifier : Notifier) {now : ℕ} {w : World}
    → notifier.queue ≡ []
    → Reach T installation (new_world notifier) now w
    → IsCeiled notifier.settings.max_per_hour now w
Reach-IsCeiled notifier e here = record {
  setting = refl;
  remembered = λ t le. omega arith;
  allowed = λ waiting. absurd (omega (arith, ap (λ (l : List QueuedFinding). length l) e));
  within = tt;
}
Reach-IsCeiled notifier e (next before later step) =
    Step-IsCeiled _ _ _ (Reach-IsCeiled notifier e before) later step

-- Whatever the order of findings, timers, deliveries and flushes, a new notifier, also one that carries
-- on the history of another, sends no more digests in any hour than its settings allow.
pub sends-IsWithinCeiling :
    {T : Type 0} {installation : Installation} (channels : List NotificationChannel)
    (settings : DeliverySettings) (carried : RateLimitState) {now : ℕ} {w : World}
    → Reach T installation (new_world (new_notifier channels settings carried)) now w
    → IsWithinCeiling settings.max_per_hour w.log.sends
unfolding new_notifier
sends-IsWithinCeiling channels settings carried reached =
    (Reach-IsCeiled (new_notifier channels settings carried) refl reached).within
