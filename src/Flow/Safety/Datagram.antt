-- ===== src/Flow/Safety/Datagram.antt =====
-- A whole datagram (api/src/flow/netflow-v9.ts, api/src/flow/parse.ts).
use network_monitoring.Base.{
  ℕ, ◌≤◌, ◌≡◌, Option, none, some, arith, length, ltb, nat_beq, Bool-cases, inl, inr, Str,
}
use network_monitoring.Base.Checked.{
  Checked, ok, Achieves, Achieves-bind, Achieves-after, Achieves-value, ◌>>=◌,
}
use network_monitoring.Js.Buffer.{Buffer, read_uint16_be, read_uint16_be-ne-fault}
use network_monitoring.Flow.NetflowV5.{parse_netflow_v5}
use network_monitoring.Flow.NetflowV5.Laws.{parse_netflow_v5-IsV5Result}
use network_monitoring.Flow.Parse.{
  known_unsupported, unread, dispatched, unsupported_version, DispatchResult, parse_version,
  parse_flow_datagram,
}
use network_monitoring.Flow.Safety.Message.{parse_netflow_v9-IsFine, parse_ipfix-IsFine}
use network_monitoring.Flow.Safety.Sets.{IsFine}
use network_monitoring.Flow.Templates.{TemplateCache}
use network_monitoring.Flow.Templates.Bounds.{IsBounded}
use network_monitoring.Flow.TemplateSet.{State}
use network_monitoring.Flow.Types.{add_malformed, ParseResult}

-- A dispatched datagram leaves a bounded cache and a record at most for each of its bytes.
abbrev pub IsSafe : Buffer → DispatchResult → Type 0
IsSafe datagram result = IsFine (length datagram) result.state

module _ (datagram : Buffer) (exporter : Str) (observed_at : ℕ) (templates : TemplateCache)
    (bounded : IsBounded templates) where
  unread-IsFine :
      (result : ParseResult)
      → length result.records ≤ length datagram
      → IsFine (length datagram) (unread templates result)
  unread-IsFine result few = record { cache = bounded; few = few }

  v5-IsSafe :
      (version : ℕ)
      → Achieves (IsSafe datagram) (
          parse_netflow_v5 datagram exporter observed_at >>= λ result.
          ok (dispatched version none (unread templates result)))
  v5-IsSafe version =
      let (result, e, correct) = parse_netflow_v5-IsV5Result datagram exporter observed_at in
      rw e (unread-IsFine result (ground (arith, correct.count)))

  templated-IsSafe :
      (version : ℕ) (parsed : Checked State)
      → Achieves (IsFine (length datagram)) parsed
      → Achieves (IsSafe datagram) (parsed >>= λ state. ok (dispatched version none state))
  templated-IsSafe version parsed fine =
      Achieves-bind (IsFine (length datagram)) (IsSafe datagram) parsed _ fine (λ state safe. safe)

  unsupported-IsSafe :
      (version : ℕ) (name : Option Str)
      → IsSafe datagram (unsupported_version templates version name)
  unfolding add_malformed
  unsupported-IsSafe version none = unread-IsFine _ (omega arith)
  unsupported-IsSafe version (some name) = unread-IsFine _ (omega arith)

  parse_version-IsSafe :
      (version : ℕ)
      → Achieves (IsSafe datagram) (parse_version version datagram exporter observed_at templates)
  unfolding parse_version
  parse_version-IsSafe version = elim (Bool-cases (nat_beq version 5)) [
    | inl five ↦ rw five (v5-IsSafe version)
    | inr not_five ↦ elim (Bool-cases (nat_beq version 9)) [
      | inl nine ↦
          rw (not_five, nine)
            (templated-IsSafe version _
              (parse_netflow_v9-IsFine datagram exporter observed_at templates bounded))
      | inr not_nine ↦ elim (Bool-cases (nat_beq version 10)) [
        | inl ten ↦
            rw (not_five, not_nine, ten)
              (templated-IsSafe version _
                (parse_ipfix-IsFine datagram exporter observed_at templates bounded))
        | inr other ↦
            rw (not_five, not_nine, other) (unsupported-IsSafe version (known_unsupported version))
      ]
    ]
  ]

-- With a bounded template cache the dispatcher returns on every datagram, the cache keeps its bound, and
-- there are at most as many records as the datagram has bytes.
pub parse_flow_datagram-IsSafe :
    (datagram : Buffer) (exporter : Str) (observed_at : ℕ) (templates : TemplateCache)
    → IsBounded templates
    → (result : DispatchResult) × (parse_flow_datagram datagram exporter observed_at templates
        ≡ ok result)
      × IsSafe datagram result
unfolding parse_flow_datagram add_malformed
parse_flow_datagram-IsSafe datagram exporter observed_at templates h =
    Achieves-value (IsSafe datagram) _ (elim (Bool-cases (ltb (length datagram) 4)) [
      | inl short ↦
          rw short (unread-IsFine datagram exporter observed_at templates h _ (omega arith))
      | inr long ↦ rw long (
          Achieves-after _ (read_uint16_be datagram 0) _
            (read_uint16_be-ne-fault datagram 0 (ground arith))
            λ version _. parse_version-IsSafe datagram exporter observed_at templates h version)
    ])
