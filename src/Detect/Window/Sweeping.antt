-- ===== src/Detect/Window/Sweeping.antt =====
-- The keys of a window and its sweep (api/src/packet/detect/types.ts, `SlidingWindow`).
use network_monitoring.Base.{
  ℕ, ◌≡◌, refl, ◌∙◌, false, List, [], ◌∷◌, arith, leb, beq_comm, Str, Eq, ◌==◌, list_eq, nat_eq,
  Bool-cases, inl, inr,
}
use network_monitoring.Detect.Window.{Entry, SlidingWindow, add, unexpired, sweep}
use network_monitoring.Js.Map

-- No key occurs twice among the entries.
abbrev pub IsUnique : {T : Type 0} → List (Str × Entry T) → Type 0
IsUnique [] = Unit
IsUnique ((key, entry) ∷ entries) = (Map.has key entries ≡ false) × IsUnique entries

module _ {T : Type 0} ⦃e : Eq T⦄ where
  has-unexpired :
      (key : Str) (now : ℕ) (entries : List (Str × Entry T))
      → Map.has key entries ≡ false
      → Map.has key (unexpired now entries) ≡ false
  unfolding unexpired Map.has
  has-unexpired key now [] h = refl
  has-unexpired key now ((k, entry) ∷ entries) h = ground (arith, has-unexpired key now entries)

  set-IsUnique :
      (key : Str) (entry : Entry T) (entries : List (Str × Entry T))
      → IsUnique entries
      → IsUnique (Map.set key entry entries)
  unfolding Map.set Map.has
  set-IsUnique key entry [] u = (refl, tt)
  set-IsUnique key entry ((k, old) ∷ entries) u = elim (Bool-cases (k == key)) [
    | inl same ↦ rw same (u.0, u.1)
    | inr other ↦ rw other (kept (beq_comm key k ∙ other), set-IsUnique key entry entries u.1)
  ]
    where
      kept : (key == k) ≡ false → Map.has k (Map.set key entry entries) ≡ false
      kept other = Map.has-set key k entry entries ∙ rw other u.0

  unexpired-IsUnique :
      (now : ℕ) (entries : List (Str × Entry T))
      → IsUnique entries
      → IsUnique (unexpired now entries)
  unfolding unexpired
  unexpired-IsUnique now [] u = tt
  unexpired-IsUnique now ((k, entry) ∷ entries) u = elim (Bool-cases (leb entry.expires_at now)) [
    | inl expired ↦ rw expired (unexpired-IsUnique now entries u.1)
    | inr live ↦ rw live (has-unexpired k now entries u.0, unexpired-IsUnique now entries u.1)
  ]

  pub add-IsUnique :
      (key : Str) (item : T) (now : ℕ) (window : SlidingWindow T)
      → IsUnique window.entries
      → IsUnique (add key item now window).1.entries
  unfolding add
  add-IsUnique key item now window u = set-IsUnique key _ window.entries u

  pub sweep-IsUnique :
      (now : ℕ) (window : SlidingWindow T)
      → IsUnique window.entries
      → IsUnique (sweep now window).entries
  unfolding sweep
  sweep-IsUnique now window u = unexpired-IsUnique now window.entries u
