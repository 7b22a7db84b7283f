-- ===== src/Intel/Assess/Laws.antt =====
-- Which end of a conversation a listed address is (api/src/intel/assess.ts, api/src/intel/match.ts).
use network_monitoring.Base.{ℕ, ◌^◌, ◌<◌, ◌≡◌, refl, ◌∙◌, false, some, nat_eq, list_eq}
use network_monitoring.Intel.Address.{int_to_ipv4, is_non_routable_v4}
use network_monitoring.Intel.Address.Dotted.{ipv4_to_int-int_to_ipv4}
use network_monitoring.Intel.Address.Units.{int_to_ipv4-colon, int_to_ipv4-some}
use network_monitoring.Intel.Assess.{is_private_address}
use network_monitoring.Intel.Indicators.{IndicatorSet, Meta}
use network_monitoring.Intel.Loading.{IsSound}
use network_monitoring.Js.Map

is_private_address-int_to_ipv4 :
    (n : ℕ) → n < 2 ^ 32 → is_private_address (some (int_to_ipv4 n)) ≡ is_non_routable_v4 n
unfolding is_private_address
is_private_address-int_to_ipv4 n h =
    rw (int_to_ipv4-some n, int_to_ipv4-colon n, ipv4_to_int-int_to_ipv4 n h) refl

-- An address that is an indicator of its own is never taken for a local one.
pub listed-public :
    (n : ℕ) (set : IndicatorSet) (meta : Meta)
    → n < 2 ^ 32
    → IsSound set
    → Map.get n set.ipv4 ≡ some meta
    → is_private_address (some (int_to_ipv4 n)) ≡ false
listed-public n set meta h sound found =
    is_private_address-int_to_ipv4 n h
    ∙ Map.get-All_keys (λ key. is_non_routable_v4 key ≡ false) n set.ipv4 sound.routable found
