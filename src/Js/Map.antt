-- ===== src/Js/Map.antt =====
-- `Map`: entries in insertion order. A write to a key that is there keeps its place.
use network_monitoring.Base.{
  ◌+◌, ◌≤◌, ◌≡◌, refl, ◌≢◌, Bool, true, false, Option, none, some, List, [], ◌∷◌, arith,
  if◌then◌else◌, length, Eq, ◌==◌, Bool-cases, inl, inr, All, subst,
}
use mathlib.Core.Option.{some-injective}

module _ {ℓ κ} {K : Type ℓ} {V : Type κ} ⦃e : Eq K⦄ where
  unfoldable pub get : K → List (K × V) → Option V
  get key [] = none
  get key ((k, v) ∷ m) = if k == key then some v else get key m

  unfoldable pub has : K → List (K × V) → Bool
  has key [] = false
  has key ((k, v) ∷ m) = if k == key then true else has key m

  unfoldable pub set : K → V → List (K × V) → List (K × V)
  set key value [] = (key, value) ∷ []
  set key value ((k, v) ∷ m) =
      let rest = set key value m in if k == key then (k, value) ∷ m else (k, v) ∷ rest

  unfoldable pub delete : K → List (K × V) → List (K × V)
  delete key [] = []
  delete key ((k, v) ∷ m) = let rest = delete key m in if k == key then rest else (k, v) ∷ rest

module _ {ℓ κ} {K : Type ℓ} {V : Type κ} ⦃e : Eq K⦄ where
  pub get-set :
      (key key' : K) (value : V) (m : List (K × V))
      → get key' (set key value m) ≡ (if key == key' then some value else get key' m)
  unfolding get set
  get-set key key' value [] = refl
  get-set key key' value ((k, v) ∷ m) =
      ground
        (arith, e.test_iff k key, e.test_iff key key', e.test_iff k key', get-set key key' value m)

  pub has-get : (key : K) (m : List (K × V)) → has key m ≡ true → get key m ≢ none
  unfolding has get
  has-get key [] h = cc
  has-get key ((k, v) ∷ m) h = ground (arith, has-get key m)

  pub get-none : (key : K) (m : List (K × V)) → has key m ≡ false → get key m ≡ none
  unfolding has get
  get-none key [] h = refl
  get-none key ((k, v) ∷ m) h = ground (arith, get-none key m)

  pub get-delete :
      (key key' : K) (m : List (K × V))
      → get key' (delete key m) ≡ (if key == key' then none else get key' m)
  unfolding get delete
  get-delete key key' [] = ground arith
  get-delete key key' ((k, v) ∷ m) =
      ground
        (arith, e.test_iff k key, e.test_iff key key', e.test_iff k key', get-delete key key' m)

  pub length-set :
      (key : K) (value : V) (m : List (K × V))
      → length (set key value m) ≡ (if has key m then length m else length m + 1)
  unfolding set has
  length-set key value [] = omega arith
  length-set key value ((k, v) ∷ m) = ground (arith, length-set key value m)

  pub length-delete : (key : K) (m : List (K × V)) → length (delete key m) ≤ length m
  unfolding delete
  length-delete key [] = omega arith
  length-delete key ((k, v) ∷ m) = ground (arith, length-delete key m)

  pub has-set :
      (key key' : K) (value : V) (m : List (K × V))
      → has key' (set key value m) ≡ (if key == key' then true else has key' m)
  unfolding has set
  has-set key key' value [] = refl
  has-set key key' value ((k, v) ∷ m) =
      ground
        (arith, e.test_iff k key, e.test_iff key key', e.test_iff k key', has-set key key' value m)

  pub All-set {μ} :
      (P : V → Type μ) (key : K) (value : V) (m : List (K × V))
      → P value
      → All (λ b. P b.1) m
      → All (λ b. P b.1) (set key value m)
  unfolding set
  All-set P key value [] h k = (h, tt)
  All-set P key value ((k', v) ∷ m) h k = elim (Bool-cases (k' == key)) [
    | inl same ↦ rw same (h, k.1)
    | inr other ↦ rw other (k.0, All-set P key value m h k.1)
  ]

  pub All-set_keys {μ} :
      (P : K → Type μ) (key : K) (value : V) (m : List (K × V))
      → P key
      → All (λ b. P b.0) m
      → All (λ b. P b.0) (set key value m)
  unfolding set
  All-set_keys P key value [] h k = (h, tt)
  All-set_keys P key value ((k', v) ∷ m) h k = elim (Bool-cases (k' == key)) [
    | inl same ↦ rw same (k.0, k.1)
    | inr other ↦ rw other (k.0, All-set_keys P key value m h k.1)
  ]

  pub All-delete {μ} :
      (P : V → Type μ) (key : K) (m : List (K × V))
      → All (λ b. P b.1) m
      → All (λ b. P b.1) (delete key m)
  unfolding delete
  All-delete P key [] h = tt
  All-delete P key ((k', v) ∷ m) h = elim (Bool-cases (k' == key)) [
    | inl same ↦ rw same (All-delete P key m h.1)
    | inr other ↦ rw other (h.0, All-delete P key m h.1)
  ]

  pub get-All {μ} :
      (P : V → Type μ) (key : K) (m : List (K × V)) {v : V}
      → All (λ b. P b.1) m
      → get key m ≡ some v
      → P v
  unfolding get
  get-All P key [] h e = cc
  get-All P key ((k', w) ∷ m) {v} h e = elim (Bool-cases (k' == key)) [
    | inl same ↦ subst P (some-injective w v (rw (same, get) at e)) h.0
    | inr other ↦ get-All P key m h.1 (rw (other, get) at e)
  ]

  -- A key that is found satisfies what all keys do.
  pub get-All_keys {μ} :
      (P : K → Type μ) (key : K) (m : List (K × V)) {v : V}
      → All (λ b. P b.0) m
      → get key m ≡ some v
      → P key
  unfolding get
  get-All_keys P key [] h e = cc
  get-All_keys P key ((k', w) ∷ m) {v} h found = elim (Bool-cases (k' == key)) [
    | inl same ↦ subst P ((e.test_iff k' key).0 same) h.0
    | inr other ↦ get-All_keys P key m h.1 (rw (other, get) at found)
  ]
