-- ===== src/Detect/DeviceTests.antt =====
-- The detectors of ARP conflicts and of new devices at small inputs.
use network_monitoring.Base.{ℕ, ◌≡◌, refl, none, some, List, [], ◌∷◌, arith, codes, list_eq, nat_eq}
use network_monitoring.Detect.ArpSpoof.{
  Claim, Binding, inspect_claim, conflict_finding, move, new_arp_spoof_detector, check_sprawl,
  claimed_of,
}
use network_monitoring.Detect.ArpSpoof.Laws.{
  inspect_claim-conflict, inspect_claim-steady, after_claims,
}
use network_monitoring.Detect.Cooldown.{get}
use network_monitoring.Detect.Finding.{Finding}
use network_monitoring.Detect.NewDevice.{new_device_detector}
use network_monitoring.Detect.NewDevice.Laws.{findings_of, findings_of-learning}
use network_monitoring.Js.Map
use network_monitoring.Packet.Headers.{DecodedPacket, ethernet_link}

abbrev gateway : ℕ → Claim
gateway now = record {
  ip = codes "10.0.0.1";
  mac = codes "02:00:00:00:00:01";
  now = now;
  operation = codes "reply";
}

abbrev impostor : Claim
impostor = record (gateway 40) { mac = codes "02:00:00:00:00:66" }

inspect_claim-conflict_example :
    (binding : Binding) × (rest : List (Finding ℕ)) × (binding.mac ≡ codes "02:00:00:00:00:01")
    × ((inspect_claim none impostor
          (after_claims (gateway 10 ∷ gateway 20 ∷ gateway 30 ∷ []) new_arp_spoof_detector)).0
        ≡ conflict_finding impostor binding (move impostor binding) ∷ rest)
unfolding get Map.get
inspect_claim-conflict_example =
    inspect_claim-conflict (codes "10.0.0.1") (codes "02:00:00:00:00:01") (gateway 10) impostor
      (gateway 20 ∷ gateway 30 ∷ []) new_arp_spoof_detector refl (refl, refl)
      ((refl, refl), ((refl, refl), tt)) (omega arith) refl refl

inspect_claim-steady_example :
    (inspect_claim none
      (gateway 40)
      (after_claims (gateway 10 ∷ gateway 20 ∷ []) new_arp_spoof_detector)).0
    ≡ (check_sprawl
        (gateway 40)
        (claimed_of
          (gateway 40)
          (after_claims (gateway 10 ∷ gateway 20 ∷ []) new_arp_spoof_detector))
        (after_claims (gateway 10 ∷ gateway 20 ∷ []) new_arp_spoof_detector).reported_mac_sprawl).0
unfolding get Map.get
inspect_claim-steady_example =
    inspect_claim-steady (codes "10.0.0.1") (codes "02:00:00:00:00:01") (gateway 10) (gateway 40)
      (gateway 20 ∷ []) new_arp_spoof_detector refl (refl, refl) ((refl, refl), tt) (refl, refl)

abbrev framed : ℕ → DecodedPacket
framed timestamp = record {
  timestamp = timestamp;
  frame_length = 14;
  raw = [];
  link_type = ethernet_link;
  ethernet = some (record {
    destination_address = codes "ff:ff:ff:ff:ff:ff";
    source_address = codes "02:00:00:00:00:01";
    type = codes "IPv4";
    type_value = 0x800;
  });
  llc = none;
  vlan = none;
  ipv4 = none;
  ipv6 = none;
  arp = none;
  tcp = none;
  udp = none;
  payload = none;
  ethernet_pad = [];
}

findings_of-learning_example :
    findings_of (framed 100 ∷ framed 60_099 ∷ []) (new_device_detector 60_000) ≡ []
findings_of-learning_example =
    findings_of-learning (framed 100 ∷ framed 60_099 ∷ []) 60_000 100
      ((omega arith, omega arith), ((omega arith, omega arith), tt))
