-- ===== src/Flow/NetflowV5/Laws.antt =====
-- What the v5 parser yields (api/src/flow/netflow-v5.ts).
use network_monitoring.Base.{
  some, true, false, le→ltb_false, Bool, ◌||◌, Bool-cases, inl, inr, ℕ, zero, suc, ◌+◌, ◌-◌, ◌*◌,
  ◌/◌, ◌≤◌, ◌≡◌, min, refl, arith, length, Str, ltb, if◌then◌else◌, List, [], ◌∷◌,
}
use network_monitoring.Base.Int.{sub_ℕ}
use network_monitoring.Base.Checked.{ok, Returns, Returns-of_ne, Ensures, Ensures-value}
use network_monitoring.Packet.Addresses.{read_ipv4}
use network_monitoring.Js.Buffer.{Buffer, read_uint8, read_uint16_be, read_uint32_be, be_at}
use network_monitoring.Flow.Types.{FlowRecord, ParseResult, empty_result, add_malformed}
use network_monitoring.Flow.NetflowV5.{
  read_header, V5Context, read_record, read_records, parse_netflow_v5, record_count,
}

read_record-Returns :
    (datagram : Buffer) (context : V5Context) (offset : ℕ)
    → offset + 48 ≤ length datagram
    → Returns (read_record datagram context offset)
unfolding read_record read_uint8 read_uint16_be read_uint32_be
read_record-Returns datagram context offset h = Returns-of_ne _ (ground arith)

-- What a record's bytes say of its conversation, by their places in the format.
pub record Describes (datagram : Buffer) (offset : ℕ) (flow : FlowRecord) : Type 0 where
  pub src_ip : flow.src_ip ≡ some (read_ipv4 datagram offset)
  pub dst_ip : flow.dst_ip ≡ some (read_ipv4 datagram (offset + 4))
  pub packets : flow.packets ≡ be_at 4 datagram (offset + 16)
  pub bytes : flow.bytes ≡ be_at 4 datagram (offset + 20)
  pub src_port : flow.src_port ≡ be_at 2 datagram (offset + 32)
  pub dst_port : flow.dst_port ≡ be_at 2 datagram (offset + 34)
  pub tcp_flags : flow.tcp_flags ≡ some (be_at 1 datagram (offset + 37))
  pub protocol : flow.protocol ≡ be_at 1 datagram (offset + 38)

read_record-Describes :
    (datagram : Buffer) (context : V5Context) (offset : ℕ)
    → Ensures (Describes datagram offset) (read_record datagram context offset)
unfolding read_record read_uint8 read_uint16_be read_uint32_be
read_record-Describes datagram context offset = ground arith

-- The records from `index` on stand one after the other.
abbrev pub DescribeFrom : Buffer → ℕ → List FlowRecord → Type 0
DescribeFrom datagram index [] = Unit
DescribeFrom datagram index (flow ∷ flows) =
    Describes datagram (24 + index * 48) flow × DescribeFrom datagram (index + 1) flows

read_records-Returns :
    (datagram : Buffer) (context : V5Context) (index left : ℕ)
    → 24 + (index + left) * 48 ≤ length datagram
    → (records : List FlowRecord) × (read_records datagram context index left ≡ ok records)
      × (length records ≡ left)
      × DescribeFrom datagram index records
unfolding read_records
read_records-Returns datagram context index zero h = ([], refl, refl, tt)
read_records-Returns datagram context index (suc left) h =
    let (head, e) = read_record-Returns datagram context (24 + index * 48) (omega arith) in
    let (rest, e', n, d) = read_records-Returns datagram context (index + 1) left (omega arith) in
    (
      head ∷ rest,
      rw (e, e') refl,
      omega arith,
      (
        Ensures-value (Describes datagram (24 + index * 48)) _
            (read_record-Describes datagram context (24 + index * 48)) e,
        d,
      ),
    )

-- The records that a datagram holds: as many as it claims, at most 30, and no more than fit.
abbrev pub present : Buffer → ℕ
present datagram =
    if ltb (length datagram) 24
    then 0
    else min (min (be_at 2 datagram 2) ((length datagram - 24) / 48)) 30

abbrev pub is_short : Buffer → Bool
is_short datagram = ltb (length datagram) 24 || ltb (present datagram) (be_at 2 datagram 2)

pub record IsV5Result (datagram : Buffer) (result : ParseResult) : Type 0 where
  pub count : length result.records ≡ present datagram
  pub described : DescribeFrom datagram 0 result.records
  pub nothing_pending : result.pending_templates ≡ 0
  pub malformed : result.malformed ≡ (if is_short datagram then 1 else 0)

read_header-eq-ok :
    (datagram : Buffer) (exporter : Str) (observed_at : ℕ)
    → 24 ≤ length datagram
    → (context : V5Context) × (read_header datagram exporter observed_at
        ≡ ok (be_at 2 datagram 2, context))
unfolding read_header read_uint8 read_uint16_be read_uint32_be
read_header-eq-ok datagram exporter observed_at h = (
  record {
    exporter = exporter;
    engine_id = be_at 1 datagram 21;
    boot_ms =
        sub_ℕ (be_at 4 datagram 8 * 1000 + be_at 4 datagram 12 / 1_000_000) (be_at 4 datagram 4);
    observed_at = observed_at;
  },
  ground arith,
)

short-IsV5Result :
    (datagram : Buffer)
    → ltb (length datagram) 24 ≡ true
    → IsV5Result datagram (add_malformed empty_result)
unfolding add_malformed
short-IsV5Result datagram short = record {
  count = rw short refl;
  described = tt;
  nothing_pending = refl;
  malformed = rw short refl;
}

module _ (datagram : Buffer) (exporter : Str) (observed_at : ℕ) (fits : 24 ≤ length datagram) where
  fitting-IsV5Result :
      (result : ParseResult) × (parse_netflow_v5 datagram exporter observed_at ≡ ok result)
      × IsV5Result datagram result
  unfolding parse_netflow_v5
  fitting-IsV5Result =
      let count : ℕ = record_count datagram (be_at 2 datagram 2) in
      let (context, e) = read_header-eq-ok datagram exporter observed_at fits in
      let (records, e', n, d) = read_records-Returns datagram context 0 count (omega arith) in
      let long : ltb (length datagram) 24 ≡ false = le→ltb_false _ _ fits in
      (
        record {
          records = records;
          pending_templates = 0;
          malformed = if ltb count (be_at 2 datagram 2) then 1 else 0;
        },
        rw long (rw e (rw e' refl)),
        record {
          count = rw long n;
          described = d;
          nothing_pending = refl;
          malformed = rw long refl;
        },
      )

-- The parser returns on every datagram: it yields the records that are present, each read from its
-- own 48 bytes, and counts the datagram as malformed exactly if it is shorter than its header or
-- holds fewer records than it claims.
pub parse_netflow_v5-IsV5Result :
    (datagram : Buffer) (exporter : Str) (observed_at : ℕ)
    → (result : ParseResult) × (parse_netflow_v5 datagram exporter observed_at ≡ ok result)
      × IsV5Result datagram result
unfolding parse_netflow_v5
parse_netflow_v5-IsV5Result datagram exporter observed_at =
    elim (Bool-cases (ltb (length datagram) 24)) [
      | inl short ↦ (add_malformed empty_result, rw short refl, short-IsV5Result datagram short)
      | inr fits ↦ fitting-IsV5Result datagram exporter observed_at (ground arith)
    ]
