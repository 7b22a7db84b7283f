-- ===== src/Detect/EngineTests.antt =====
-- An engine in which a detector throws on every packet.
use network_monitoring.Base.{
  ℕ, zero, suc, ◌≡◌, refl, true, false, none, some, List, [], ◌∷◌, ◌++◌, codes, All, arith, list_eq,
  nat_eq,
}
use network_monitoring.Detect.Cooldown.{get}
use network_monitoring.Detect.DnsTests.{labels-All-IsLabel}
use network_monitoring.Detect.Engine.{
  Running, run_arp_spoof, run_scan, run_threat_intel, run_new_device, new_detection_engine,
  inspect_one, inspect_all, sweep_all, inspect,
}
use network_monitoring.Detect.Engine.Isolation.{run, joined, engine_of, IsSteady, run-append}
use network_monitoring.Detect.Engine.Question.{
  asking, IsQueryFor, IsListedName, IsQuiet, inspect-asked_amid,
}
use network_monitoring.Detect.Finding.{critical}
use network_monitoring.Detect.IntelTests.{packet, indicators, meta, settings}
use network_monitoring.Detect.ThreatIntel.{new_threat_intel_detector}
use network_monitoring.Detect.ThreatIntel.Question.{question_finding}
use network_monitoring.Intel.Domains.{IsParentMatch}
use network_monitoring.Intel.Indicators.{IndicatorMatch}
use network_monitoring.Intel.Names.{normalize_domain, drop_last_dot}
use network_monitoring.Js.Map
use network_monitoring.Js.Strings.{
  trim, trim_start, trim_end, lower, includes, is_space, all_decimal, every,
}
use network_monitoring.Js.Text.{split, split_from, join}
use network_monitoring.Packet.Headers.{DecodedPacket, unparsed}

-- It counts the packets that it throws on.
abbrev thrower : Running
thrower = record {
  detector = record {
    DetectorState = ℕ;
    inspect = λ packet count. (none, suc count);
    sweep = λ now count. (true, count);
    reset = λ count. (true, zero);
  };
  state = zero;
}

-- Its sweep throws.
abbrev stubborn : Running
stubborn = record {
  detector = record {
    DetectorState = ℕ;
    inspect = λ packet count. (some [], suc count);
    sweep = λ now count. (false, count);
    reset = λ count. (true, zero);
  };
  state = zero;
}

abbrev before : List Running
before = run_arp_spoof [] ∷ run_scan settings ∷ thrower ∷ thrower ∷ []

abbrev after : List Running
after = run_threat_intel (λ packet. indicators) ∷ run_new_device 1_000 [] ∷ []

session :
    new_detection_engine [] settings thrower thrower (λ packet. indicators) 1_000 []
    ≡ engine_of (before ++ after) 0
session = refl

before-All-IsSteady : All IsSteady before
before-All-IsSteady =
    (λ now state. refl, (λ now state. refl, (λ now state. refl, (λ now state. refl, tt))))

-- The packets come at a time at which the detectors are swept.
abbrev late : DecodedPacket
late = record packet { timestamp = 20_000 }

run-append_example :
    run (late ∷ packet ∷ []) (engine_of (before ++ (stubborn ∷ after)) 0)
    ≡ joined
        (run (late ∷ packet ∷ []) (engine_of before 0))
        (run (late ∷ packet ∷ []) (engine_of (stubborn ∷ after) 0))
run-append_example = run-append (late ∷ packet ∷ []) before (stubborn ∷ after) 0 before-All-IsSteady

-- Nothing is left of what the packet gave.
thrown_away : (inspect late (engine_of (thrower ∷ stubborn ∷ []) 0)).0 ≡ none
unfolding inspect inspect_all inspect_one sweep_all
thrown_away = refl

question_of_packet : IsQueryFor packet (codes "www.example")
unfolding unparsed join
question_of_packet = record {
  id_and_flags = 1 ∷ 2 ∷ 1 ∷ 0 ∷ [];
  hi = 0;
  lo = 1;
  counts = 0 ∷ 0 ∷ 0 ∷ 0 ∷ 0 ∷ 0 ∷ [];
  label = codes "www";
  labels = codes "EXAMPLE" ∷ [];
  rest = 0 ∷ 1 ∷ 0 ∷ 1 ∷ [];
  query = refl;
  carried = refl;
  four = refl;
  six = refl;
  asked = omega arith;
  short = labels-All-IsLabel;
  few = omega arith;
  spelt = refl;
}

listed_name : IsListedName indicators (codes "www.example") (codes "www.example")
unfolding normalize_domain drop_last_dot trim trim_start trim_end lower is_space includes every
    all_decimal split split_from join Map.get
listed_name = record {
  depth = 0;
  meta = meta;
  normal = refl;
  two_left = omega arith;
  listed = refl;
}

quiet : IsQuiet packet.timestamp new_threat_intel_detector
unfolding get Map.get
quiet key = refl

inspect-asked_amid_example :
    (found : IndicatorMatch) × IsParentMatch
      (split b'.' (codes "www.example"))
      (codes "www.example")
      indicators
      found
    × ((inspect packet (
          engine_of
            (before ++ (asking (λ packet. indicators) new_threat_intel_detector ∷ thrower ∷ []))
            0)).0
        ≡ some (
            (inspect_all packet before).0
            ++ (question_finding packet found ∷ (inspect_all packet (thrower ∷ [])).0)))
    × ((question_finding packet found).severity ≡ critical)
    × ((question_finding packet found).message_key ≡ codes "threat_intel.domain")
inspect-asked_amid_example =
    inspect-asked_amid (λ packet. indicators) new_threat_intel_detector before (thrower ∷ []) 0
      packet (codes "www.example") (codes "www.example") before-All-IsSteady (λ now state. refl, tt)
      question_of_packet listed_name quiet
