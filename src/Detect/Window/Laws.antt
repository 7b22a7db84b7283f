-- ===== src/Detect/Window/Laws.antt =====
-- The window counts what is added (api/src/packet/detect/types.ts, `SlidingWindow`).
use network_monitoring.Base.{
  or_zero, ℕ, ◌+◌, ◌≤◌, ◌≡◌, refl, sym, ap, ◌∙◌, Bool, true, false, Option, none, some, List, [],
  ◌∷◌, ◌++◌, arith, leb, if◌then◌else◌, length, Str, Eq, ◌==◌, list_eq, nat_eq, beq_refl,
}
use network_monitoring.Detect.Window.{
  Entry, SlidingWindow, current, or_new, count_item, add, sum_counts, total_of, keys, items_of,
  distinct,
}
use network_monitoring.Js.Map

module _ {T : Type 0} ⦃e : Eq T⦄ where
  sum_counts-set :
      (item : T) (items : List (T × ℕ))
      → sum_counts (Map.set item (or_zero (Map.get item items) + 1) items) ≡ sum_counts items + 1
  unfolding Map.set Map.get
  sum_counts-set item [] = omega arith
  sum_counts-set item ((other, count) ∷ items) = ground (arith, sum_counts-set item items)

  length-keys : (items : List (T × ℕ)) → length (keys items) ≡ length items
  length-keys [] = refl
  length-keys ((item, count) ∷ items) = omega (arith, length-keys items)

  fresh_or_current :
      (now window_ms : ℕ) (found : Option (Entry T))
      → 1 ≤ window_ms
      → leb (or_new (now + window_ms) (current now found)).expires_at now ≡ false
  fresh_or_current now window_ms none h = ground arith
  fresh_or_current now window_ms (some entry) h = ground arith

  -- What a key holds after an addition, if the window is not empty.
  current-add :
      (key : Str) (item : T) (now : ℕ) (window : SlidingWindow T)
      → 1 ≤ window.window_ms
      → current now (Map.get key (add key item now window).1.entries)
        ≡ some (
            count_item item
              (or_new (now + window.window_ms) (current now (Map.get key window.entries))))
  unfolding add count_item
  current-add key item now window h =
      rw
        (
          Map.get-set key key
              (count_item item
                (or_new (now + window.window_ms) (current now (Map.get key window.entries))))
              window.entries,
          beq_refl key,
          fresh_or_current now window.window_ms (Map.get key window.entries) h,
        )
        refl

  total_of-new :
      (now expires_at : ℕ) (found : Option (Entry T))
      → sum_counts (or_new expires_at (current now found)).items ≡ total_of (current now found)
  total_of-new now expires_at none = refl
  total_of-new now expires_at (some entry) = ground arith

  -- The number that an addition returns is that of the distinct items of the key.
  pub add-distinct :
      (key : Str) (item : T) (now : ℕ) (window : SlidingWindow T)
      → 1 ≤ window.window_ms
      → (add key item now window).0 ≡ length (distinct key now (add key item now window).1)
  unfolding add distinct count_item
  add-distinct key item now window h =
      sym (length-keys _)
      ∙ sym (ap (λ found. length (items_of found)) (current-add key item now window h))

  abbrev pub contains : T → List T → Bool
  contains item [] = false
  contains item (x ∷ xs) = if x == item then true else contains item xs

  keys-set :
      (item : T) (count : ℕ) (items : List (T × ℕ))
      → keys (Map.set item count items)
        ≡ (if contains item (keys items) then keys items else keys items ++ (item ∷ []))
  unfolding Map.set
  keys-set item count [] = refl
  keys-set item count ((other, n) ∷ items) = ground (arith, keys-set item count items)

  items_of-new :
      (now expires_at : ℕ) (found : Option (Entry T))
      → keys (or_new expires_at (current now found)).items ≡ items_of (current now found)
  items_of-new now expires_at none = refl
  items_of-new now expires_at (some entry) = ground arith
