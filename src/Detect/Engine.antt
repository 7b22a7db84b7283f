-- ===== src/Detect/Engine.antt =====
-- Every detector over each packet (api/src/packet/detect/index.ts, `DetectionEngine`). A detector is
-- what the interface of api/src/packet/detect/types.ts asks for, with its state made explicit; one
-- that throws leaves whatever state it had come to.
pub mod Isolation
pub mod Question
use network_monitoring.Base.{
  ℕ, ◌+◌, Bool, true, false, Option, none, some, List, [], ◌∷◌, ◌++◌, leb, if◌then◌else◌, Str,
}
use network_monitoring.Base.Checked.{Checked, ok, fault}
use network_monitoring.Detect.ArpSpoof as ArpSpoof
use network_monitoring.Detect.Attempt.{DetectionSettings}
use network_monitoring.Detect.Finding.{Finding}
use network_monitoring.Detect.NewDevice as NewDevice
use network_monitoring.Detect.Scan as Scan
use network_monitoring.Detect.ThreatIntel as ThreatIntel
use network_monitoring.Intel.Indicators.{IndicatorSet}
use network_monitoring.Packet.Headers.{DecodedPacket}

-- `inspect` gives `none` when it throws; `sweep` and `reset` say whether they return. `sweep` does
-- nothing where a detector has none.
pub record Detector : Type 1 where
  pub DetectorState : Type 0
  pub inspect : DecodedPacket → DetectorState → Option (List (Finding ℕ)) × DetectorState
  pub sweep : ℕ → DetectorState → Bool × DetectorState
  pub reset : DetectorState → Bool × DetectorState

pub record Running : Type 1 where
  pub detector : Detector
  pub state : detector.DetectorState

pub record DetectionEngine : Type 1 where
  pub detectors : List Running
  pub last_sweep : ℕ

abbrev pub sweep_interval_ms : ℕ
sweep_interval_ms = 10_000

abbrev pub produced : Option (List (Finding ℕ)) → List (Finding ℕ)
produced none = []
produced (some findings) = findings

-- One detector at a packet: its findings, or none if it throws.
unfoldable pub inspect_one : DecodedPacket → Running → List (Finding ℕ) × Running
inspect_one packet running =
    let (result, after) = running.detector.inspect packet running.state in
    (produced result, record { detector = running.detector; state = after })

-- The loop over the detectors.
unfoldable pub inspect_all : DecodedPacket → List Running → List (Finding ℕ) × List Running
inspect_all packet [] = ([], [])
inspect_all packet (running ∷ detectors) =
    let (findings, after) = inspect_one packet running in
    let (others, rest) = inspect_all packet detectors in (findings ++ others, after ∷ rest)

-- What a loop over the detectors comes to after `running`: the first that throws ends it.
abbrev pub go_on : Bool → Running → List Running → Bool × List Running → Bool × List Running
go_on returned running detectors (finished, rest) =
    if returned then (finished, running ∷ rest) else (false, running ∷ detectors)

abbrev pub sweep_one : ℕ → Running → Bool × Running
sweep_one now running =
    let (returned, after) = running.detector.sweep now running.state in
    (returned, record { detector = running.detector; state = after })

-- The loop of sweeps stands outside the `try`: whether it ends, and the detectors after.
unfoldable pub sweep_all : ℕ → List Running → Bool × List Running
sweep_all now [] = (true, [])
sweep_all now (running ∷ detectors) =
    let (returned, after) = sweep_one now running in
    go_on returned after detectors (sweep_all now detectors)

abbrev reset_one : Running → Bool × Running
reset_one running =
    let (returned, after) = running.detector.reset running.state in
    (returned, record { detector = running.detector; state = after })

unfoldable pub reset_all : List Running → Bool × List Running
reset_all [] = (true, [])
reset_all (running ∷ detectors) =
    let (returned, after) = reset_one running in
    go_on returned after detectors (reset_all detectors)

-- The findings, or `none` where a sweep throws out of it, and the engine after.
unfoldable pub inspect :
    DecodedPacket → DetectionEngine → Option (List (Finding ℕ)) × DetectionEngine
inspect packet engine =
    let (findings, detectors) = inspect_all packet engine.detectors in
    let (finished, swept) = sweep_all packet.timestamp detectors in
    if leb (engine.last_sweep + sweep_interval_ms) packet.timestamp
    then (
      if finished then some findings else none,
      record { detectors = swept; last_sweep = packet.timestamp },
    )
    else (some findings, record { detectors = detectors; last_sweep = engine.last_sweep })

-- Whether it returns: a reset that throws leaves the time of the last sweep.
unfoldable pub reset : DetectionEngine → Bool × DetectionEngine
reset engine =
    let (finished, detectors) = reset_all engine.detectors in
    (
      finished,
      record { detectors = detectors; last_sweep = if finished then 0 else engine.last_sweep },
    )

-- A detector that does not throw.
abbrev returned : {S : Type 0} → List (Finding ℕ) × S → Option (List (Finding ℕ)) × S
returned (findings, after) = (some findings, after)

-- A detector that may throw before it changes its state.
abbrev returned_or :
    {S : Type 0} → S → Checked (List (Finding ℕ) × S) → Option (List (Finding ℕ)) × S
returned_or before (ok (findings, after)) = (some findings, after)
returned_or before fault = (none, before)

abbrev pub run_arp_spoof : List (Str × Str) → Running
run_arp_spoof trusted = record {
  detector = record {
    DetectorState = ArpSpoof.ArpSpoofDetector;
    inspect = λ packet state. returned (ArpSpoof.inspect trusted packet state);
    sweep = λ now state. (true, ArpSpoof.sweep now state);
    reset = λ state. (true, ArpSpoof.reset state);
  };
  state = ArpSpoof.new_arp_spoof_detector;
}

abbrev pub run_scan : DetectionSettings → Running
run_scan settings = record {
  detector = record {
    DetectorState = Scan.ScanDetector;
    inspect = λ packet state. returned (Scan.inspect settings packet state);
    sweep = λ now state. (true, Scan.sweep now state);
    reset = λ state. (true, Scan.reset state);
  };
  state = Scan.new_scan_detector settings;
}

-- `loaded` is the set of indicators that the registry holds when the packet comes.
abbrev pub run_threat_intel : (DecodedPacket → IndicatorSet) → Running
run_threat_intel loaded = record {
  detector = record {
    DetectorState = ThreatIntel.ThreatIntelDetector;
    inspect = λ packet state. returned_or state (ThreatIntel.inspect (loaded packet) packet state);
    sweep = λ now state. (true, state);
    reset = λ state. (true, ThreatIntel.reset state);
  };
  state = ThreatIntel.new_threat_intel_detector;
}

-- Its calls to `onDiscovered` and `onSeen` are part of the outcome, and are left out here.
abbrev pub run_new_device : ℕ → List Str → Running
run_new_device learning_period_ms known_devices = record {
  detector = record {
    DetectorState = NewDevice.NewDeviceDetector;
    inspect = λ packet state.
        let outcome = NewDevice.inspect packet state in (some outcome.findings, outcome.after);
    sweep = λ now state. (true, state);
    reset = λ state. (true, NewDevice.reset state);
  };
  state = NewDevice.seed known_devices (NewDevice.new_device_detector learning_period_ms);
}

-- The engine of a session, in the order of the source. The two detectors that read payloads by
-- regular expressions are arguments.
abbrev pub new_detection_engine :
    (trusted : List (Str × Str)) (settings : DetectionSettings) (plaintext dns_tunneling : Running)
    (loaded : DecodedPacket → IndicatorSet) (learning_period_ms : ℕ) (known_devices : List Str)
    → DetectionEngine
new_detection_engine trusted settings plaintext dns_tunneling loaded learning_period_ms
      known_devices =
    record {
      detectors =
          run_arp_spoof trusted
          ∷ run_scan settings
          ∷ plaintext
          ∷ dns_tunneling
          ∷ run_threat_intel loaded
          ∷ run_new_device learning_period_ms known_devices
          ∷ [];
      last_sweep = 0;
    }
