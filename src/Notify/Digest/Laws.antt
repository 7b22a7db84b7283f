-- ===== src/Notify/Digest/Laws.antt =====
-- What a digest lists and counts (api/src/notify/notifier.ts, `buildNotification`).
use network_monitoring.Base.{
  ℕ, ◌+◌, ◌<◌, ◌≤◌, ◌⊎◌, ◌≡◌, refl, Bool, true, false, Option, List, [], ◌∷◌, map, arith, length,
  take, All, Bool-cases, inl, inr, length-take,
}
use mathlib.Core.List.{Perm}
use mathlib.Core.List.Perm
use network_monitoring.Notify.Digest.{
  QueuedFinding, sort_queued, insert_queued, is_before, build_notification, max_listed_findings,
}
use network_monitoring.Detect.Finding.{Severity, critical, high, medium, low, info}
use network_monitoring.Notify.Types.{NotifiableFinding, severity_eq, index_of, severity_order}

length-insert_queued :
    (item : QueuedFinding) (items : List QueuedFinding)
    → length (insert_queued item items) ≡ length items + 1
unfolding insert_queued
length-insert_queued item [] = refl
length-insert_queued item (next ∷ rest) = ground (arith, length-insert_queued item rest)

pub length-sort_queued : (items : List QueuedFinding) → length (sort_queued items) ≡ length items
unfolding sort_queued
length-sort_queued [] = refl
length-sort_queued (item ∷ items) =
    omega (arith, length-insert_queued item (sort_queued items), length-sort_queued items)

length-map {ℓ κ} :
    {A : Type ℓ} {B : Type κ} (f : A → B) (xs : List A) → length (map f xs) ≡ length xs
length-map f [] = refl
length-map f (x ∷ xs) = omega (arith, length-map f xs)

-- The findings listed and those counted as omitted are as many as the batch and those that were
-- omitted from it.
pub build_notification-size :
    (batch : List QueuedFinding) (omitted : ℕ) (url : Option (List ℕ)) (names_sensors : Bool)
    (now : ℕ)
    → let notification = build_notification batch omitted url names_sensors now in
      length notification.findings + notification.omitted_count ≡ length batch + omitted
unfolding build_notification
build_notification-size batch omitted url names_sensors now = omega (
  arith,
  length-map (λ (item : QueuedFinding). item.finding)
      (take max_listed_findings (sort_queued batch)),
  length-take max_listed_findings (sort_queued batch),
  length-sort_queued batch,
)

insert_queued-perm :
    (item : QueuedFinding) (items : List QueuedFinding)
    → Perm (insert_queued item items) (item ∷ items)
unfolding insert_queued
insert_queued-perm item [] = Perm.refl _
insert_queued-perm item (next ∷ rest) = elim (Bool-cases (is_before item next)) [
  | inl before ↦ rw before (Perm.refl _)
  | inr behind ↦
      rw behind
        (Perm.trans (Perm.cons next (insert_queued-perm item rest)) (Perm.swap item next rest))
]

-- Ranks of the severities, the most urgent first.
abbrev pub urgency : Severity → ℕ
urgency critical = 0
urgency high = 1
urgency medium = 2
urgency low = 3
urgency info = 4

-- The one is more urgent than the other, or as urgent and seen as often at least.
abbrev pub IsAhead : NotifiableFinding → NotifiableFinding → Type 0
IsAhead a b =
    (urgency a.severity < urgency b.severity)
    ⊎ (urgency a.severity ≡ urgency b.severity) × (b.occurrences ≤ a.occurrences)

-- Every item is ahead of all that stand behind it.
abbrev pub IsRanked : List QueuedFinding → Type 0
IsRanked [] = Unit {0}
IsRanked (item ∷ items) =
    All (λ (other : QueuedFinding). IsAhead item.finding other.finding) items × IsRanked items

abbrev IsSorted : List QueuedFinding → Type 0
IsSorted [] = Unit {0}
IsSorted (item ∷ items) = All (λ other. is_before item other ≡ true) items × IsSorted items

index_of-urgency : (severity : Severity) → index_of severity severity_order ≡ urgency severity
unfolding index_of severity_order
index_of-urgency critical = refl
index_of-urgency high = refl
index_of-urgency medium = refl
index_of-urgency low = refl
index_of-urgency info = refl

is_before-IsAhead : (a b : QueuedFinding) → is_before a b ≡ true → IsAhead a.finding b.finding
unfolding is_before
is_before-IsAhead a b h =
    let ra = index_of-urgency a.finding.severity in
    let rb = index_of-urgency b.finding.severity in ground (arith, h, ra, rb)

All-IsAhead :
    (a : QueuedFinding) (items : List QueuedFinding)
    → All (λ other. is_before a other ≡ true) items
    → All (λ (other : QueuedFinding). IsAhead a.finding other.finding) items
All-IsAhead a [] h = tt
All-IsAhead a (item ∷ items) h = (is_before-IsAhead a item h.0, All-IsAhead a items h.1)

IsRanked-of_IsSorted : (items : List QueuedFinding) → IsSorted items → IsRanked items
IsRanked-of_IsSorted [] h = tt
IsRanked-of_IsSorted (item ∷ items) h = (All-IsAhead item items h.0, IsRanked-of_IsSorted items h.1)

sort_queued-perm : (items : List QueuedFinding) → Perm (sort_queued items) items
unfolding sort_queued
sort_queued-perm [] = Perm.refl _
sort_queued-perm (item ∷ items) =
    Perm.trans (insert_queued-perm item (sort_queued items))
      (Perm.cons item (sort_queued-perm items))

is_before_trans :
    (a b c : QueuedFinding) → is_before a b ≡ true → is_before b c ≡ true → is_before a c ≡ true
unfolding is_before
is_before_trans a b c h k = ground (arith, h, k)

is_before_total : (a b : QueuedFinding) → is_before a b ≡ false → is_before b a ≡ true
unfolding is_before
is_before_total a b h = ground (arith, h)

All-before :
    (a b : QueuedFinding) (items : List QueuedFinding)
    → is_before a b ≡ true
    → All (λ other. is_before b other ≡ true) items
    → All (λ other. is_before a other ≡ true) items
All-before a b [] h k = tt
All-before a b (item ∷ items) h k = (is_before_trans a b item h k.0, All-before a b items h k.1)

All-insert_queued :
    (a item : QueuedFinding) (items : List QueuedFinding)
    → is_before a item ≡ true
    → All (λ other. is_before a other ≡ true) items
    → All (λ other. is_before a other ≡ true) (insert_queued item items)
unfolding insert_queued
All-insert_queued a item [] h k = (h, tt)
All-insert_queued a item (next ∷ rest) h k = elim (Bool-cases (is_before item next)) [
  | inl before ↦ rw before (h, k)
  | inr behind ↦ rw behind (k.0, All-insert_queued a item rest h k.1)
]

insert_queued-IsSorted :
    (item : QueuedFinding) (items : List QueuedFinding)
    → IsSorted items
    → IsSorted (insert_queued item items)
unfolding insert_queued
insert_queued-IsSorted item [] h = (tt, tt)
insert_queued-IsSorted item (next ∷ rest) h = elim (Bool-cases (is_before item next)) [
  | inl before ↦ rw before ((before, All-before item next rest before h.0), h)
  | inr behind ↦ rw behind (
    All-insert_queued next item rest (is_before_total item next behind) h.0,
    insert_queued-IsSorted item rest h.1,
  )
]

sort_queued-IsSorted : (items : List QueuedFinding) → IsSorted (sort_queued items)
unfolding sort_queued
sort_queued-IsSorted [] = tt
sort_queued-IsSorted (item ∷ items) =
    insert_queued-IsSorted item (sort_queued items) (sort_queued-IsSorted items)

-- A digest lists the first eight of its batch in an order in which each finding is more severe than
-- those behind it, or as severe and seen as often at least, and counts the rest of the batch as omitted,
-- with what had been omitted from it.
pub build_notification-IsRanked :
    (batch : List QueuedFinding) (omitted : ℕ) (url : Option (List ℕ)) (names_sensors : Bool)
    (now : ℕ)
    → let notification = build_notification batch omitted url names_sensors now in
      (ranked : List QueuedFinding) × Perm ranked batch
      × IsRanked ranked
      × (notification.findings ≡ map (λ item. item.finding) (take 8 ranked))
      × (length notification.findings + notification.omitted_count ≡ length batch + omitted)
unfolding build_notification
build_notification-IsRanked batch omitted url names_sensors now = (
  sort_queued batch,
  sort_queued-perm batch,
  IsRanked-of_IsSorted (sort_queued batch) (sort_queued-IsSorted batch),
  refl,
  build_notification-size batch omitted url names_sensors now,
)
