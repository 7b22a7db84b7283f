-- ===== src/Detect/Engine/Isolation.antt =====
-- The detectors of an engine beside each other
-- (api/src/packet/detect/index.ts, `DetectionEngine`).
use network_monitoring.Base.{
  ℕ, ◌+◌, ◌≡◌, refl, ap, sym, true, Option, none, some, All, List, [], ◌∷◌, ◌++◌, leb, Bool-cases,
  inl, inr,
}
use mathlib.Core.List.{append_assoc}
use network_monitoring.Detect.Engine.{
  Running, DetectionEngine, inspect_one, inspect_all, sweep_all, inspect, sweep_interval_ms,
}
use network_monitoring.Detect.Finding.{Finding}
use network_monitoring.Packet.Headers.{DecodedPacket}

-- What each of a run of packets gives, and the engine after.
unfoldable pub run :
    List DecodedPacket → DetectionEngine → List (Option (List (Finding ℕ))) × DetectionEngine
run [] engine = ([], engine)
run (packet ∷ packets) engine =
    let (findings, after) = inspect packet engine in
    let (later, final) = run packets after in (findings ∷ later, final)

-- The findings of the one and then those of the other, if both return.
abbrev pub both : Option (List (Finding ℕ)) → Option (List (Finding ℕ)) → Option (List (Finding ℕ))
both none others = none
both (some findings) none = none
both (some findings) (some others) = some (findings ++ others)

-- Packet by packet.
abbrev pub beside :
    List (Option (List (Finding ℕ)))
    → List (Option (List (Finding ℕ)))
    → List (Option (List (Finding ℕ)))
beside [] others = []
beside (findings ∷ later) [] = []
beside (findings ∷ later) (more ∷ others) = both findings more ∷ beside later others

-- The detector's sweep never throws.
abbrev pub IsSteady : Running → Type 0
IsSteady running =
    (now : ℕ) (state : running.detector.DetectorState) → (running.detector.sweep now state).0 ≡ true

abbrev pub engine_of : List Running → ℕ → DetectionEngine
engine_of detectors last_sweep = record { detectors = detectors; last_sweep = last_sweep }

pub inspect_all-append :
    (packet : DecodedPacket) (left right : List Running)
    → inspect_all packet (left ++ right) ≡ (
      (inspect_all packet left).0 ++ (inspect_all packet right).0,
      (inspect_all packet left).1 ++ (inspect_all packet right).1,
    )
unfolding inspect_all
inspect_all-append packet [] right = refl
inspect_all-append packet (running ∷ left) right = rw (inspect_all-append packet left right) (
    ap
      (λ findings. (
        findings,
        (inspect_one packet running).1
            ∷ ((inspect_all packet left).1 ++ (inspect_all packet right).1),
      ))
      (sym (
        append_assoc (inspect_one packet running).0 (inspect_all packet left).0
          (inspect_all packet right).0)))

pub inspect_all-IsSteady :
    (packet : DecodedPacket) (detectors : List Running)
    → All IsSteady detectors
    → All IsSteady (inspect_all packet detectors).1
unfolding inspect_all inspect_one
inspect_all-IsSteady packet [] h = tt
inspect_all-IsSteady packet (running ∷ detectors) h =
    (h.0, inspect_all-IsSteady packet detectors h.1)

pub sweep_all-IsSteady :
    (now : ℕ) (detectors : List Running)
    → All IsSteady detectors
    → ((sweep_all now detectors).0 ≡ true) × All IsSteady (sweep_all now detectors).1
unfolding sweep_all
sweep_all-IsSteady now [] h = (refl, tt)
sweep_all-IsSteady now (running ∷ detectors) h =
    let rest = sweep_all-IsSteady now detectors h.1 in
    rw (h.0 now running.state) (rest.0, (h.0, rest.1))

sweep_all-append :
    (now : ℕ) (left right : List Running)
    → All IsSteady left
    → sweep_all now (left ++ right)
      ≡ ((sweep_all now right).0, (sweep_all now left).1 ++ (sweep_all now right).1)
unfolding sweep_all
sweep_all-append now [] right h = refl
sweep_all-append now (running ∷ left) right h =
    rw (h.0 now running.state, sweep_all-append now left right h.1) refl

-- The outcome of the two engines together.
abbrev pub joined :
    List (Option (List (Finding ℕ))) × DetectionEngine
    → List (Option (List (Finding ℕ))) × DetectionEngine
    → List (Option (List (Finding ℕ))) × DetectionEngine
joined (findings, left) (others, right) =
    (beside findings others, engine_of (left.detectors ++ right.detectors) left.last_sweep)

-- An engine of some detectors whose sweeps do not throw, and of any others, gives at each of any
-- packets what an engine of the ones gives and then what an engine of the others gives, and ends in
-- the states they end in, whichever detectors throw when they inspect. But where a sweep of the others
-- throws, the packet gives nothing: what the ones found on it is lost too.
pub run-append :
    (packets : List DecodedPacket) (left right : List Running) (last_sweep : ℕ)
    → All IsSteady left
    → run packets (engine_of (left ++ right) last_sweep)
      ≡ joined (run packets (engine_of left last_sweep)) (run packets (engine_of right last_sweep))
unfolding run inspect
run-append [] left right last_sweep h = refl
run-append (packet ∷ packets) left right last_sweep h =
    let ls = (inspect_all packet left).1 in
    let rs = (inspect_all packet right).1 in
    let all = inspect_all-append packet left right in
    let steady = inspect_all-IsSteady packet left h in
    let swept = sweep_all-IsSteady packet.timestamp ls steady in
    elim (Bool-cases (leb (last_sweep + sweep_interval_ms) packet.timestamp)) [
      | inl due ↦
          let rest =
            run-append packets (sweep_all packet.timestamp ls).1 (sweep_all packet.timestamp rs).1
              packet.timestamp swept.1 in
          let added = sweep_all-append packet.timestamp ls rs steady in
          elim (Bool-cases (sweep_all packet.timestamp rs).0) [
            | inl finished ↦ rw (all, due, added, swept.0, finished, rest) refl
            | inr stopped ↦ rw (all, due, added, swept.0, stopped, rest) refl
          ]
      | inr early ↦
          let rest = run-append packets ls rs last_sweep steady in rw (all, early, rest) refl
    ]
