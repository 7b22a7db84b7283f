-- ===== src/Notify/World/Dispatch.antt =====
-- What `dispatch` does (api/src/notify/notifier.ts).
use network_monitoring.Base.{
  ℕ, ◌≤◌, ◌≡◌, refl, true, none, some, [], ◌∷◌, ◌++◌, arith, ◌⊎◌, length, Bool-cases, inl, inr,
  is_some, list_eq, nat_eq, Bool, nat_beq, nat_beq_iff, ◌||◌,
}
use network_monitoring.Notify.Digest.{build_notification, url_or_null}
use network_monitoring.Notify.Notifier.{Notifier, dispatch}

-- A dispatch that begins a digest of all that waits.
pub record HasBegun (names_sensors : Bool) (now : ℕ) (n m : Notifier) : Type 0 where
  pub idle : n.sending ≡ none
  pub waiting : 1 ≤ length n.queue
  pub queue : m.queue ≡ []
  pub omitted : m.omitted ≡ 0
  pub settings : m.settings ≡ n.settings
  pub sent_timestamps : m.sent_timestamps ≡ n.sent_timestamps ++ (now ∷ [])
  pub digest_timer : m.digest_timer ≡ n.digest_timer
  pub sending :
      m.sending
      ≡ some (
          build_notification n.queue n.omitted
            (url_or_null n.settings.dashboard_url)
            names_sensors
            now)

-- `dispatch` begins a digest, unless one is under way or nothing waits: then it does nothing.
pub dispatch-cases :
    (names_sensors : Bool) (now : ℕ) (n : Notifier)
    → HasBegun names_sensors now n (dispatch names_sensors now n)
      ⊎ (dispatch names_sensors now n ≡ n) × ((is_some n.sending ≡ true) ⊎ (length n.queue ≡ 0))
unfolding dispatch
dispatch-cases names_sensors now n =
    elim (Bool-cases (is_some n.sending || nat_beq (length n.queue) 0)) [
      | inl stays ↦ inr (rw stays refl, ground (arith, stays, nat_beq_iff (length n.queue) 0))
      | inr goes ↦ inl (
          rw goes (record {
            idle = ground (arith, goes);
            waiting = ground (arith, goes);
            queue = refl;
            omitted = refl;
            settings = refl;
            sent_timestamps = refl;
            digest_timer = refl;
            sending = refl;
          }))
    ]
