-- ===== src/Detect/Cooldown/Laws.antt =====
-- Repeats of a report, and the table of reports (api/src/packet/detect/scan.ts,
-- api/src/flow/detect.ts, `shouldReport`).
use network_monitoring.Base.{
  ℕ, ◌+◌, ◌≤◌, ◌<◌, ◌≡◌, refl, ◌∙◌, true, false, ◌&&◌, some, List, [], ◌∷◌, arith, if◌then◌else◌,
  length, Str, ◌==◌, list_eq, nat_eq, All, Bool-cases, inl, inr, lt→ltb, beq_refl, subst, sym,
}
use network_monitoring.Detect.Cooldown.{BoundedMap, get, set, is_cooling, should_report}
use network_monitoring.Js.Evicting
use network_monitoring.Js.Map

-- The table allows an entry, and is within its bound.
pub record IsWithin (table : BoundedMap Str ℕ) : Type 0 where
  pub some_room : 1 ≤ table.max_entries
  pub bounded : length table.entries ≤ table.max_entries

pub set-IsWithin :
    (key : Str) (value : ℕ) (table : BoundedMap Str ℕ)
    → IsWithin table
    → IsWithin (set key value table)
unfolding set
set-IsWithin key value table h = record {
  some_room = h.some_room;
  bounded = Evicting.length-insert table.max_entries key value table.entries h.some_room h.bounded;
}

-- The table of last reports keeps its bound.
pub should_report-IsWithin :
    (cooldown : ℕ) (key : Str) (now : ℕ) (table : BoundedMap Str ℕ)
    → IsWithin table
    → IsWithin (should_report cooldown key now table).1
unfolding should_report
should_report-IsWithin cooldown key now table h =
    elim (Bool-cases (is_cooling cooldown now (get key table))) [
      | inl cooling ↦ rw cooling h
      | inr due ↦ rw due (set-IsWithin key now table h)
    ]

-- How often a run of requests, each a key and a time, reports the key.
unfoldable pub reports : ℕ → Str → List (Str × ℕ) → BoundedMap Str ℕ → ℕ
reports cooldown key [] table = 0
reports cooldown key ((k, now) ∷ requests) table =
    let (due, after) = should_report cooldown k now table in
    (if (k == key) && due then 1 else 0) + reports cooldown key requests after

-- The table has room for an entry for each request.
abbrev HasRoom : List (Str × ℕ) → BoundedMap Str ℕ → Type 0
HasRoom requests table = length table.entries + length requests ≤ table.max_entries

not_full :
    (k : Str) (table : BoundedMap Str ℕ)
    → length table.entries + 1 ≤ table.max_entries
    → Evicting.is_full_for table.max_entries k table.entries ≡ false
unfolding Evicting.is_full_for
not_full k table room = ground arith

get-set_room :
    (k key : Str) (now : ℕ) (table : BoundedMap Str ℕ)
    → length table.entries + 1 ≤ table.max_entries
    → get key (set k now table) ≡ (if k == key then some now else get key table)
unfolding get set
get-set_room k key now table room =
    Evicting.get-insert_room table.max_entries k key now table.entries (not_full k table room)

length-set_room :
    (k : Str) (now : ℕ) (table : BoundedMap Str ℕ)
    → length table.entries + 1 ≤ table.max_entries
    → length (set k now table).entries ≤ length table.entries + 1
unfolding set Evicting.insert
length-set_room k now table room =
    rw (not_full k table room) (ground (arith, Map.length-set k now table.entries))

should_report-HasRoom :
    (cooldown : ℕ) (k : Str) (now : ℕ) (requests : List (Str × ℕ)) (table : BoundedMap Str ℕ)
    → HasRoom ((k, now) ∷ requests) table
    → HasRoom requests (should_report cooldown k now table).1
unfolding should_report set
should_report-HasRoom cooldown k now requests table room =
    elim (Bool-cases (is_cooling cooldown now (get k table))) [
      | inl cooling ↦ rw cooling (omega arith)
      | inr due ↦ rw due (omega (arith, length-set_room k now table (omega arith)))
    ]

-- A request before the cooldown ends keeps the last report, and reports nothing for the key.
request-keeps :
    (cooldown last now : ℕ) (k key : Str) (table : BoundedMap Str ℕ)
    → get key table ≡ some last
    → now < last + cooldown
    → length table.entries + 1 ≤ table.max_entries
    → (get key (should_report cooldown k now table).1 ≡ some last)
      × (((k == key) && (should_report cooldown k now table).0) ≡ false)
unfolding should_report
request-keeps cooldown last now k key table e early room = elim (Bool-cases (k == key)) [
  | inl same ↦
      let found : get k table ≡ some last =
        subst (λ x. get x table ≡ some last) (sym ((list_eq.test_iff k key).0 same)) e in
      rw (found, lt→ltb now (last + cooldown) early, same) (e, refl)
  | inr other ↦ elim (Bool-cases (is_cooling cooldown now (get k table))) [
    | inl cooling ↦ rw (cooling, other) (e, refl)
    | inr due ↦ rw (due, other) (get-set_room k key now table room ∙ rw other e, refl)
  ]
]

-- After a report at `last`, requests before its cooldown ends report nothing for the key.
reports-quiet :
    (cooldown last : ℕ) (key : Str) (requests : List (Str × ℕ)) (table : BoundedMap Str ℕ)
    → get key table ≡ some last
    → All (λ request. request.1 < last + cooldown) requests
    → HasRoom requests table
    → reports cooldown key requests table ≡ 0
unfolding reports
reports-quiet cooldown last key [] table e h room = refl
reports-quiet cooldown last key ((k, now) ∷ requests) table e h room =
    let kept = request-keeps cooldown last now k key table e h.0 (omega arith) in
    rw kept.1 (
      omega (
        arith,
        reports-quiet cooldown last key requests (should_report cooldown k now table).1 kept.0 h.1
            (should_report-HasRoom cooldown k now requests table room),
      ))

-- A report of the key at `now`: it is the last report, or there was none.
request-reports :
    (cooldown now : ℕ) (key : Str) (table : BoundedMap Str ℕ)
    → length table.entries + 1 ≤ table.max_entries
    → (should_report cooldown key now table).0 ≡ true
    → get key (should_report cooldown key now table).1 ≡ some now
unfolding should_report
request-reports cooldown now key table room due =
    elim (Bool-cases (is_cooling cooldown now (get key table))) [
      | inl cooling ↦ cc (rw cooling at due)
      | inr ready ↦ rw ready (get-set_room key key now table room ∙ rw (beq_refl key) refl)
    ]

All-later :
    (cooldown start now : ℕ) (requests : List (Str × ℕ))
    → start ≤ now
    → All (λ request. (start ≤ request.1) × (request.1 < start + cooldown)) requests
    → All (λ request. request.1 < now + cooldown) requests
All-later cooldown start now [] h k = tt
All-later cooldown start now (request ∷ requests) h k =
    (omega (arith, h, k.0.1), All-later cooldown start now requests h k.1)

-- Among requests whose times differ by less than the cooldown, a key is reported once at most, while
-- the table has room for the keys of the requests.
pub reports-le-one :
    (cooldown start : ℕ) (key : Str) (requests : List (Str × ℕ)) (table : BoundedMap Str ℕ)
    → All (λ request. (start ≤ request.1) × (request.1 < start + cooldown)) requests
    → length table.entries + length requests ≤ table.max_entries
    → reports cooldown key requests table ≤ 1
unfolding reports
reports-le-one cooldown start key [] table h room = omega arith
reports-le-one cooldown start key ((k, now) ∷ requests) table h room =
    elim (Bool-cases ((k == key) && (should_report cooldown k now table).0)) [
      | inl reported ↦
          let after = (should_report cooldown k now table).1 in
          let found : get key after ≡ some now =
            subst (λ x. get x after ≡ some now)
              ((list_eq.test_iff k key).0 (ground (arith, reported)))
              (request-reports cooldown now k table (omega arith) (ground (arith, reported))) in
          rw reported (
            omega (
              arith,
              reports-quiet cooldown now key requests after found
                  (All-later cooldown start now requests h.0.0 h.1)
                  (should_report-HasRoom cooldown k now requests table room),
            ))
      | inr quiet ↦ rw quiet (
          omega (
            arith,
            reports-le-one cooldown start key requests (should_report cooldown k now table).1 h.1
                (should_report-HasRoom cooldown k now requests table room),
          ))
    ]

-- A request within the cooldown of its last report is not reported.
pub should_report-cooling :
    (cooldown : ℕ) (key : Str) (last now : ℕ) (table : BoundedMap Str ℕ)
    → get key table ≡ some last
    → now < last + cooldown
    → should_report cooldown key now table ≡ (false, table)
unfolding should_report
should_report-cooling cooldown key last now table logged early =
    rw (logged, lt→ltb now (last + cooldown) early) refl
