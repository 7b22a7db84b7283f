-- ===== src/Detect/NewDevice/Laws.antt =====
-- When a new device is reported (api/src/packet/detect/new-device.ts).
use network_monitoring.Base.{
  ℕ, ◌+◌, ◌≤◌, ◌<◌, ◌≡◌, refl, Option, none, some, List, [], ◌∷◌, ◌++◌, arith, leb, Str, list_eq,
  nat_eq, All, Bool-cases, Option-cases, inl, inr, lt→ltb,
}
use network_monitoring.Detect.Cooldown.{get}
use network_monitoring.Detect.Finding.{Finding}
use network_monitoring.Detect.NewDevice.{
  NewDeviceDetector, new_device_detector, DeviceState, Outcome, mac_of, inspect_known,
  inspect_unknown, inspect_mac, inspect, or_start, touch_interval_ms,
}
use network_monitoring.Packet.Headers.{DecodedPacket}

-- The findings of a run of packets.
unfoldable pub findings_of : List DecodedPacket → NewDeviceDetector → List (Finding ℕ)
findings_of [] detector = []
findings_of (packet ∷ packets) detector =
    let outcome = inspect packet detector in outcome.findings ++ findings_of packets outcome.after

-- Learning has not begun, or lasts until `limit` at least.
abbrev LastsUntil : ℕ → Option ℕ → Type 0
LastsUntil limit none = Unit
LastsUntil limit (some until) = limit ≤ until

abbrev IsLearning : ℕ → NewDeviceDetector → Type 0
IsLearning limit detector = LastsUntil limit detector.learning_until

-- An outcome while the detector learns: no finding, and the learning goes on.
record IsQuiet (limit period : ℕ) (outcome : Outcome) : Type 0 where
  silent : outcome.findings ≡ []
  learning : IsLearning limit outcome.after
  same_period : outcome.after.learning_period_ms ≡ period

or_start-late :
    (limit start : ℕ) (until : Option ℕ)
    → limit ≤ start
    → LastsUntil limit until
    → limit ≤ or_start until start
or_start-late limit start none h k = h
or_start-late limit start (some until) h k = k

inspect_known-IsQuiet :
    (packet : DecodedPacket) (mac : Str) (state : DeviceState) (detector : NewDeviceDetector)
    (limit : ℕ)
    → IsLearning limit detector
    → IsQuiet limit detector.learning_period_ms (inspect_known packet mac state detector)
unfolding inspect_known
inspect_known-IsQuiet packet mac state detector limit learning =
    elim (Bool-cases (leb (state.touched_at + touch_interval_ms) packet.timestamp)) [
      | inl due ↦ rw due (record { silent = refl; learning = learning; same_period = refl })
      | inr fresh ↦ rw fresh (record { silent = refl; learning = learning; same_period = refl })
    ]

inspect_unknown-IsQuiet :
    (packet : DecodedPacket) (mac : Str) (detector : NewDeviceDetector) (limit until : ℕ)
    → limit ≤ until
    → packet.timestamp < limit
    → IsLearning limit detector
    → IsQuiet limit detector.learning_period_ms (inspect_unknown packet mac until detector)
unfolding inspect_unknown
inspect_unknown-IsQuiet packet mac detector limit until h before learning = record {
  silent = rw (lt→ltb packet.timestamp until (omega arith)) refl;
  learning = learning;
  same_period = refl;
}

inspect-IsQuiet :
    (packet : DecodedPacket) (detector : NewDeviceDetector) (start limit : ℕ)
    → limit ≤ start + detector.learning_period_ms
    → start ≤ packet.timestamp
    → packet.timestamp < limit
    → IsLearning limit detector
    → IsQuiet limit detector.learning_period_ms (inspect packet detector)
unfolding inspect inspect_mac
inspect-IsQuiet packet detector start limit h from before learning =
    elim (Option-cases (mac_of packet)) [
      | inl nobody ↦
          rw (nobody, inspect) (record { silent = refl; learning = learning; same_period = refl })
      | inr (mac, e) ↦
          let begun = packet.timestamp + detector.learning_period_ms in
          let late = or_start-late limit begun detector.learning_until (omega arith) learning in
          let started : NewDeviceDetector = record detector {
            learning_until = some (or_start detector.learning_until begun);
          } in
          rw (e, inspect)
            (elim (Option-cases (get mac detector.seen)) [
              | inl new ↦
                  rw (new, inspect_mac)
                    (inspect_unknown-IsQuiet packet mac started limit _ late before late)
              | inr (state, known) ↦
                  rw (known, inspect_mac)
                    (inspect_known-IsQuiet packet mac state started limit late)
            ])
    ]

findings_of-IsQuiet :
    (packets : List DecodedPacket) (detector : NewDeviceDetector) (start limit : ℕ)
    → limit ≤ start + detector.learning_period_ms
    → IsLearning limit detector
    → All (λ packet. (start ≤ packet.timestamp) × (packet.timestamp < limit)) packets
    → findings_of packets detector ≡ []
unfolding findings_of
findings_of-IsQuiet [] detector start limit h learning times = refl
findings_of-IsQuiet (packet ∷ packets) detector start limit h learning times =
    let quiet = inspect-IsQuiet packet detector start limit h times.0.0 times.0.1 learning in
    rw quiet.silent (
      findings_of-IsQuiet packets (inspect packet detector).after start limit
        (omega (arith, h, quiet.same_period)) quiet.learning times.1)

-- From the first frame on, no device is reported for the length of the learning period.
pub findings_of-learning :
    (packets : List DecodedPacket) (learning_period_ms start : ℕ)
    → All
        (λ packet. (start ≤ packet.timestamp) × (packet.timestamp < start + learning_period_ms))
        packets
    → findings_of packets (new_device_detector learning_period_ms) ≡ []
findings_of-learning packets learning_period_ms start times =
    findings_of-IsQuiet packets (new_device_detector learning_period_ms) start
      (start + learning_period_ms) (omega arith) tt times
