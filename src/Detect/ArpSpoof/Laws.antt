-- ===== src/Detect/ArpSpoof/Laws.antt =====
-- When a claim is reported as a conflict (api/src/packet/detect/arp-spoof.ts).
use network_monitoring.Base.{
  ℕ, ◌+◌, ◌≤◌, ◌≡◌, refl, sym, ap, true, false, Option, none, some, List, [], ◌∷◌, arith, length,
  Str, ◌==◌, list_eq, nat_eq, All, le→leb, beq_refl, subst,
}
use network_monitoring.Detect.ArpSpoof.{
  ArpSpoofDetector, Claim, Binding, learn, first_binding, confirm, move, conflict_finding,
  inspect_claim, claimed_of, check_configured, check_sprawl,
}
use network_monitoring.Detect.Cooldown.{BoundedMap, get, set}
use network_monitoring.Detect.Finding.{Finding}
use network_monitoring.Js.Evicting
use network_monitoring.Js.Map

-- The address is bound to the MAC, which was seen `observations` times.
abbrev IsBound : Str → Str → ℕ → BoundedMap Str Binding → Type 0
IsBound ip mac observations bindings =
    (binding : Binding) × (get ip bindings ≡ some binding)
    × (binding.mac ≡ mac)
    × (binding.observations ≡ observations)

subst2 : {x x' y y' : Str} → x ≡ x' → y ≡ y' → (P : Str → Str → Type 0) → P x y → P x' y'
subst2 {x'} {y} p q P h = subst (λ b. P x' b) q (subst (λ a. P a y) p h)

learn-first :
    (claim : Claim) (configured : Option Str) (bindings : BoundedMap Str Binding)
    → get claim.ip bindings ≡ none
    → IsBound claim.ip claim.mac 1 (learn claim configured bindings).1
unfolding learn first_binding set get
learn-first claim configured bindings e = (
  first_binding claim,
  rw (e, learn)
      (Evicting.get-insert_self bindings.max_entries claim.ip (first_binding claim)
        bindings.entries),
  refl,
  refl,
)

-- A binding that is put in place is found.
get-put :
    (ip : Str) (binding : Binding) (bindings : BoundedMap Str Binding)
    → get ip (record bindings { entries = Map.set ip binding bindings.entries }) ≡ some binding
unfolding get
get-put ip binding bindings = rw (Map.get-set ip ip binding bindings.entries, beq_refl ip) refl

learn-confirm :
    (claim : Claim) (configured : Option Str) (observations : ℕ) (bindings : BoundedMap Str Binding)
    → IsBound claim.ip claim.mac observations bindings
    → IsBound claim.ip claim.mac (observations + 1) (learn claim configured bindings).1
unfolding learn confirm
learn-confirm claim configured observations bindings (binding, e, mac, count) = (
  confirm claim binding,
  rw (e, learn) (rw (same binding mac) (get-put claim.ip (confirm claim binding) bindings)),
  mac,
  ap (λ n. n + 1) count,
)
  where
    same : (b : Binding) → b.mac ≡ claim.mac → (b.mac == claim.mac) ≡ true
    same b p = (list_eq.test_iff b.mac claim.mac).1 p

-- A claim by another MAC of an address that was seen often enough is a conflict.
learn-conflict :
    (claim : Claim) (mac : Str) (observations : ℕ) (bindings : BoundedMap Str Binding)
    → IsBound claim.ip mac observations bindings
    → 3 ≤ observations
    → (mac == claim.mac) ≡ false
    → (binding : Binding) × (binding.mac ≡ mac)
      × ((learn claim none bindings).0 ≡ conflict_finding claim binding (move claim binding) ∷ [])
unfolding learn
learn-conflict claim mac observations bindings (binding, e, m, count) enough other = (
  binding,
  m,
  rw (e, learn)
      (rw (different binding m, le→leb 3 binding.observations (omega (arith, count, enough))) refl),
)
  where
    different : (b : Binding) → b.mac ≡ mac → (b.mac == claim.mac) ≡ false
    different b p = subst (λ m. (m == claim.mac) ≡ false) (sym p) other

-- The detector after a run of claims, with no configured bindings.
unfoldable pub after_claims : List Claim → ArpSpoofDetector → ArpSpoofDetector
after_claims [] detector = detector
after_claims (claim ∷ claims) detector = after_claims claims (inspect_claim none claim detector).1

abbrev pub IsClaimOf : Str → Str → Claim → Type 0
IsClaimOf ip mac claim = (claim.ip ≡ ip) × (claim.mac ≡ mac)

inspect_claim-confirm :
    (ip mac : Str) (claim : Claim) (observations : ℕ) (detector : ArpSpoofDetector)
    → IsClaimOf ip mac claim
    → IsBound ip mac observations detector.bindings
    → IsBound ip mac (observations + 1) (inspect_claim none claim detector).1.bindings
unfolding inspect_claim
inspect_claim-confirm ip mac claim observations detector (p, q) bound =
    subst2 p q
      (λ i m.
        IsBound i m observations detector.bindings
        → IsBound i m (observations + 1) (learn claim none detector.bindings).1)
      (learn-confirm claim none observations detector.bindings) bound

after_claims-IsBound :
    (ip mac : Str) (claims : List Claim) (observations : ℕ) (detector : ArpSpoofDetector)
    → All (IsClaimOf ip mac) claims
    → IsBound ip mac observations detector.bindings
    → IsBound ip mac (observations + length claims) (after_claims claims detector).bindings
unfolding after_claims
after_claims-IsBound ip mac [] observations detector h bound =
    subst (λ n. IsBound ip mac n detector.bindings) (omega arith) bound
after_claims-IsBound ip mac (claim ∷ claims) observations detector h bound =
    subst
      (λ n. IsBound ip mac n (after_claims claims (inspect_claim none claim detector).1).bindings)
      (omega arith)
      (after_claims-IsBound ip mac claims (observations + 1) (inspect_claim none claim detector).1
        h.1 (inspect_claim-confirm ip mac claim observations detector h.0 bound))

inspect_claim-first :
    (ip mac : Str) (claim : Claim) (detector : ArpSpoofDetector)
    → IsClaimOf ip mac claim
    → get ip detector.bindings ≡ none
    → IsBound ip mac 1 (inspect_claim none claim detector).1.bindings
unfolding inspect_claim
inspect_claim-first ip mac claim detector (p, q) new =
    subst2 p q
      (λ i m. get i detector.bindings ≡ none → IsBound i m 1 (learn claim none detector.bindings).1)
      (learn-first claim none detector.bindings) new

-- An address that has no configured MAC, is new to the detector and is claimed at least three times by
-- one MAC is bound to it, and the next claim by another MAC is reported as a conflict with the MAC that
-- held it.
pub inspect_claim-conflict :
    (ip mac : Str) (first claim : Claim) (claims : List Claim) (detector : ArpSpoofDetector)
    → get ip detector.bindings ≡ none
    → IsClaimOf ip mac first
    → All (IsClaimOf ip mac) claims
    → 2 ≤ length claims
    → claim.ip ≡ ip
    → (mac == claim.mac) ≡ false
    → (binding : Binding) × (rest : List (Finding ℕ)) × (binding.mac ≡ mac)
      × ((inspect_claim none claim (after_claims (first ∷ claims) detector)).0
          ≡ conflict_finding claim binding (move claim binding) ∷ rest)
unfolding inspect_claim check_configured after_claims
inspect_claim-conflict ip mac first claim claims detector new f h enough same other =
    let settled = after_claims claims (inspect_claim none first detector).1 in
    let bound : IsBound claim.ip mac (1 + length claims) settled.bindings =
      subst (λ i. IsBound i mac (1 + length claims) settled.bindings) (sym same)
        (after_claims-IsBound ip mac claims 1 (inspect_claim none first detector).1 h
          (inspect_claim-first ip mac first detector f new)) in
    let (binding, held, found) =
      learn-conflict claim mac (1 + length claims) settled.bindings bound (omega arith) other in
    (
      binding,
      (check_sprawl claim (claimed_of claim settled) settled.reported_mac_sprawl).0,
      held,
      rw found refl,
    )

learn-steady :
    (claim : Claim) (configured : Option Str) (observations : ℕ) (bindings : BoundedMap Str Binding)
    → IsBound claim.ip claim.mac observations bindings
    → (learn claim configured bindings).0 ≡ []
unfolding learn
learn-steady claim configured observations bindings (binding, e, mac, count) =
    rw (e, learn) (rw (same binding mac) refl)
  where
    same : (b : Binding) → b.mac ≡ claim.mac → (b.mac == claim.mac) ≡ true
    same b p = (list_eq.test_iff b.mac claim.mac).1 p

-- An address that has no configured MAC and that one MAC alone has claimed raises no conflict when that
-- MAC claims it again: the only finding left is the number of addresses of the MAC.
pub inspect_claim-steady :
    (ip mac : Str) (first claim : Claim) (claims : List Claim) (detector : ArpSpoofDetector)
    → get ip detector.bindings ≡ none
    → IsClaimOf ip mac first
    → All (IsClaimOf ip mac) claims
    → IsClaimOf ip mac claim
    → (inspect_claim none claim (after_claims (first ∷ claims) detector)).0
      ≡ (check_sprawl claim
          (claimed_of claim (after_claims (first ∷ claims) detector))
          (after_claims (first ∷ claims) detector).reported_mac_sprawl).0
unfolding inspect_claim check_configured after_claims
inspect_claim-steady ip mac first claim claims detector new f h (p, q) =
    let settled = after_claims claims (inspect_claim none first detector).1 in
    let bound : IsBound claim.ip claim.mac (1 + length claims) settled.bindings =
      subst2 (sym p) (sym q) (λ i m. IsBound i m (1 + length claims) settled.bindings)
        (after_claims-IsBound ip mac claims 1 (inspect_claim none first detector).1 h
          (inspect_claim-first ip mac first detector f new)) in
    rw (learn-steady claim none (1 + length claims) settled.bindings bound) refl
