-- ===== src/Lib.antt =====
-- Verification of the core of a network monitor: the decoder of captured frames, the parsers of
-- exported flows, and the parts that judge what both deliver.
--
-- The program. A sensor captures frames (api/src/packet) and collects flow exports (api/src/flow).
-- `decodePacket` turns a frame into the headers that detectors and the capture view read;
-- `parseFlowDatagram` turns a UDP datagram of NetFlow v5, NetFlow v9 or IPFIX into flow records,
-- with the templates that exporters announced held in a bounded `TemplateCache`. Detectors
-- (api/src/packet/detect, api/src/flow/detect.ts) keep windows and tables per host and yield
-- findings, which may be matched against threat feeds (api/src/intel) and silenced by suppression
-- rules (api/src/services/suppression-rules.ts). A notifier (api/src/notify) gathers what is left
-- into digests for people and batches for other systems, the latter in the CEF form.
--
-- The files.
--   Base     numbers, lists, Boolean tests, equality classes, integers, and `Checked`: the result of
--            code that may throw. `fault` stands for a `RangeError` of a buffer read, for an
--            `undefined` byte that reaches arithmetic, and for a loop whose fuel is spent.
--   Js       what the source uses of JavaScript: `Buffer` reads, insertion-ordered `Map`s and the
--            evicting insertion built on them, doubles (`to_double` rounds to 53 bits), `Date`,
--            `toString(radix)`, `padStart`, `join`, `split`, `replaceAll` of a character, and the
--            text of plain values in JSON. A string is its list of code units.
--   Packet   api/src/packet/{addresses,names,decode}.ts. Names and Addresses format; Headers holds
--            the records; Link, Network, Transport are one function per header; Decode composes
--            them as `decodePacket` does. Safety, WellFormed, Bare and Layering prove.
--   Flow     api/src/flow/{types,fields,templates,netflow-v5,netflow-v9,parse}.ts. TemplateSet,
--            DataSet, Record and NetflowV9 are `readTemplateSet`, `readDataSet`, `decodeRecord` and
--            `parseTemplated`; `State` is the result under construction with the shared cache.
--   Intel    api/src/intel/match.ts. Address holds IPv4 addresses and prefixes, Names the canonical
--            IPv6 form and domain names, Ranges the sort, merge and binary search of `seal` and
--            `findRange`, Indicators the `IndicatorSet`. Dotted, Units and Blocks prove the round
--            trips and the meaning of a prefix; Merging and Searching, the ranges; Loading, the
--            invariant of a set; Matching and Domains, what matches. Assess is
--            api/src/intel/assess.ts, the grading of a match.
--   Net      api/src/net/prefix.ts: `parsePrefix` and `prefixContains`, over Intel.Address.
--   Suppression  api/src/services/suppression-rules.ts: `SuppressionSet`, with Refinement (the
--            compiled set against the rules as written).
--   Detect   api/src/packet/detect. Window is `SlidingWindow`; Cooldown is `BoundedMap` with the
--            `shouldReport` of the detectors; Attempt and Scan are scan.ts; ArpSpoof is
--            arp-spoof.ts; NewDevice is new-device.ts. FlowScan is the `FlowScanDetector` of
--            api/src/flow/detect.ts, with its findings in FlowFinding. Dns is `readFirstQuestion`
--            of dns-tunneling.ts; ThreatIntel is threat-intel.ts and FlowEngine the
--            `FlowDetectionEngine` of flow/detect.ts, with what their findings share in
--            IntelFinding; Engine is the `DetectionEngine` of index.ts over any detectors of the
--            interface `Detector`. A detector's operation takes its state and returns the findings
--            with the state after.
--   Notify   api/src/notify. Types is types.ts; Digest is `buildNotification`; Notifier is the class
--            of notifier.ts, its timers and promises as fields of the state; World is the step
--            relation of its calls, timers and deliveries in any order, with a log of what is sent,
--            and Ceiling, Progress and Accounting are invariants of it. Cef is cef.ts: Headers and
--            Values read its output back, Lines counts its lines.
--
-- The detectors read the packets that Packet.Decode yields, or the records of Flow.Parse;
-- Suppression and Intel read the texts of addresses that Packet.Addresses writes; ThreatIntel and
-- FlowEngine ask Intel; Notify takes the findings of Detect. The settings of the environment
-- (thresholds, windows, trusted ARP bindings), the set of indicators that the registry holds and the
-- clock are arguments. A detector whose `inspect` throws, for the engine, is one that gives no
-- findings and leaves some state; one whose `sweep` or `reset` throws says so beside its state, and
-- stops the loop that called it.
--
-- Fuel. The loops over the templates of a set, over the records of a set and over the sets of a
-- datagram run on fuel: the set's length, the set's length, the datagram's length. Each round of
-- each consumes a byte at least. The chain of VLAN tags runs four rounds, as in the source. Rounding
-- a double halves 64 times, which covers the 64-bit counters a template may carry. The binary search
-- runs on the number of ranges, and each round of it shortens the interval. The labels of a DNS
-- question are read in 65 rounds, since a name of more than 63 labels is given up.
--
-- Numbers. Byte values, lengths, ports and times are naturals; a read of n bytes is the sum of its
-- bytes, and `<<`, `>>>`, `&` and `*` on them are written with multiplication, division and
-- remainder, which agree with the source's operators below 2^32. Times that may be negative (the
-- boot time of an exporter) are integers. The clock is an argument.
--
-- Not modelled. The capture itself (libpcap through a foreign interface), sockets, the database and
-- the web server, which are input and output; the user interface; the detectors of plain-text
-- credentials and of DNS tunnels, which are regular expressions, entropy and rounding, and stand as
-- arguments of the engine; the channels that deliver a notification, with `sendTest` and the outcome
-- of a delivery, the JSON line and the syslog frame; retention and the SQL console. The texts of a
-- finding in English, which a message library renders, and the order of evidence, which the locale's
-- collation gives, are arguments. A flush that waits for a delivery may, in the step relation, go on
-- at any time after it, which allows more runs than the source has. `hexStreamToBuffer` and
-- `describePacket` of decode.ts are text for the capture view. Lower case and `parseInt` are modelled
-- where the source applies them: to text that a pattern confines to ASCII, and in Dns to code units
-- below 256.
pub mod Base
pub mod Js
pub mod Packet
pub mod Flow
pub mod Intel
pub mod Net
pub mod Suppression
pub mod Detect
pub mod Notify
