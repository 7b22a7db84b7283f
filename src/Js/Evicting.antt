-- ===== src/Js/Evicting.antt =====
-- A bounded insertion into a `Map`, which `TemplateCache.set` (api/src/flow/templates.ts) and
-- `BoundedMap.set` (api/src/packet/detect/types.ts) both perform: a new key at the bound first
-- deletes the oldest entry.
use network_monitoring.Base.{
  ℕ, ◌≤◌, ◌<◌, ◌≡◌, refl, Bool, true, false, not, ◌&&◌, none, some, List, [], ◌∷◌, arith, leb,
  if◌then◌else◌, length, Eq, ◌==◌, ◌∙◌, ap,
}
use network_monitoring.Js.Map

module _ {ℓ κ} {K : Type ℓ} {V : Type κ} ⦃e : Eq K⦄ where
  unfoldable pub delete_oldest : List (K × V) → List (K × V)
  delete_oldest [] = []
  delete_oldest ((k, v) ∷ m) = Map.delete k ((k, v) ∷ m)

  -- A new key finds the map at its bound.
  unfoldable pub is_full_for : ℕ → K → List (K × V) → Bool
  is_full_for bound key m = not (Map.has key m) && leb bound (length m)

  unfoldable pub insert : ℕ → K → V → List (K × V) → List (K × V)
  insert bound key value m =
      Map.set key value (if is_full_for bound key m then delete_oldest m else m)

module _ {ℓ κ} {K : Type ℓ} {V : Type κ} ⦃e : Eq K⦄ where
  length-delete_oldest : (m : List (K × V)) → 1 ≤ length m → length (delete_oldest m) < length m
  unfolding delete_oldest Map.delete
  length-delete_oldest [] h = h
  length-delete_oldest ((k, v) ∷ m) h = ground (arith, (e.test_iff k k).1, Map.length-delete k m)

  pub get-delete_oldest :
      (key : K) (m : List (K × V)) {v : V}
      → Map.get key (delete_oldest m) ≡ some v
      → Map.get key m ≡ some v
  unfolding delete_oldest
  get-delete_oldest key [] h = h
  get-delete_oldest key ((k, w) ∷ m) h = ground (arith, Map.get-delete k key ((k, w) ∷ m))

  -- The bound holds after an insertion if it held before.
  pub length-insert :
      (bound : ℕ) (key : K) (value : V) (m : List (K × V))
      → 1 ≤ bound
      → length m ≤ bound
      → length (insert bound key value m) ≤ bound
  unfolding insert is_full_for
  length-insert bound key value m h k = ground (
    arith,
    Map.length-set key value m,
    Map.length-set key value (delete_oldest m),
    length-delete_oldest m,
  )

  pub get-insert_self :
      (bound : ℕ) (key : K) (value : V) (m : List (K × V))
      → Map.get key (insert bound key value m) ≡ some value
  unfolding insert
  get-insert_self bound key value m =
      rw
        (
          Map.get-set key key value (if is_full_for bound key m then delete_oldest m else m),
          (e.test_iff key key).1 refl,
        )
        refl

  -- With room, or for a key that is there, no other entry changes.
  pub get-insert_room :
      (bound : ℕ) (key key' : K) (value : V) (m : List (K × V))
      → is_full_for bound key m ≡ false
      → Map.get key' (insert bound key value m)
        ≡ (if key == key' then some value else Map.get key' m)
  unfolding insert
  get-insert_room bound key key' value m h = rw h (Map.get-set key key' value m)

  get-delete_head :
      (key oldest : K) (w : V) (m : List (K × V))
      → (oldest == key) ≡ false
      → Map.get key (Map.delete oldest ((oldest, w) ∷ m)) ≡ Map.get key m
  unfolding Map.get
  get-delete_head key oldest w m other =
      Map.get-delete oldest key ((oldest, w) ∷ m) ∙ rw (other, Map.get)

  -- At the bound, the entries behind the oldest stay.
  pub get-insert_full :
      (bound : ℕ) (key key' oldest : K) (value w : V) (m : List (K × V))
      → is_full_for bound key ((oldest, w) ∷ m) ≡ true
      → (oldest == key') ≡ false
      → Map.get key' (insert bound key value ((oldest, w) ∷ m))
        ≡ (if key == key' then some value else Map.get key' m)
  unfolding insert delete_oldest
  get-insert_full bound key key' oldest value w m full other = rw full (
      Map.get-set key key' value (Map.delete oldest ((oldest, w) ∷ m))
      ∙ ap (λ rest. if key == key' then some value else rest)
          (get-delete_head key' oldest w m other))

  -- The same of a map whose oldest entry is known: a key other than it and the new one is kept.
  pub get-insert_kept :
      (bound : ℕ) (key key' oldest : K) (value w : V) (rest m : List (K × V))
      → m ≡ (oldest, w) ∷ rest
      → is_full_for bound key m ≡ true
      → (oldest == key') ≡ false
      → (key == key') ≡ false
      → Map.get key' (insert bound key value m) ≡ Map.get key' m
  unfolding Map.get
  get-insert_kept bound key key' oldest value w rest m e full other new = rw e (
      get-insert_full bound key key' oldest value w rest (rw e at full) other
      ∙ rw (new, other, Map.get))

  full-new :
      (bound : ℕ) (key oldest : K) (w : V) (rest : List (K × V))
      → is_full_for bound key ((oldest, w) ∷ rest) ≡ true
      → (key == oldest) ≡ false
  unfolding is_full_for Map.has
  full-new bound key oldest w rest h =
      ground (arith, h, e.test_iff key oldest, e.test_iff oldest key)

  -- The oldest entry goes.
  pub get-insert_evicted :
      (bound : ℕ) (key oldest : K) (value w : V) (rest m : List (K × V))
      → m ≡ (oldest, w) ∷ rest
      → is_full_for bound key m ≡ true
      → Map.get oldest (insert bound key value m) ≡ none
  unfolding insert delete_oldest
  get-insert_evicted bound key oldest value w rest m p full = rw p (
      rw (rw p at full) (
        Map.get-set key oldest value (Map.delete oldest ((oldest, w) ∷ rest))
        ∙ rw
            (
              full-new bound key oldest w rest (rw p at full),
              Map.get-delete oldest oldest ((oldest, w) ∷ rest),
              (e.test_iff oldest oldest).1 refl,
            )
            refl))
