-- ===== src/Packet/Names.antt =====
-- Protocol numbers and their names (api/src/packet/names.ts). The `Map` tables are maps in
-- insertion order.
use network_monitoring.Base.{
  ℕ, ◌%◌, Bool, true, false, Option, none, some, List, [], ◌∷◌, ◌++◌, Str, codes, nat_eq, nat_beq,
  if◌then◌else◌, leb,
}
use network_monitoring.Js.Map
use network_monitoring.Js.Text.{to_string, pad_start}

abbrev pub ether_type_ipv4 : ℕ
ether_type_ipv4 = 0x0800

abbrev pub ether_type_arp : ℕ
ether_type_arp = 0x0806

abbrev pub ether_type_rarp : ℕ
ether_type_rarp = 0x8035

abbrev pub ether_type_dot1q : ℕ
ether_type_dot1q = 0x8100

abbrev pub ether_type_ipv6 : ℕ
ether_type_ipv6 = 0x86dd

abbrev pub ether_type_qinq : ℕ
ether_type_qinq = 0x88a8

unfoldable pub ether_type_names : List (ℕ × Str)
ether_type_names =
    (0x0800, codes "IPv4")
    ∷ (0x0805, codes "X.25")
    ∷ (0x0806, codes "ARP")
    ∷ (0x22f3, codes "TRILL")
    ∷ (0x6003, codes "DECnet Phase IV")
    ∷ (0x8035, codes "RARP")
    ∷ (0x809b, codes "AppleTalk")
    ∷ (0x80f3, codes "AppleTalk ARP")
    ∷ (0x8100, codes "IEEE 802.1Q VLAN-tagged frames")
    ∷ (0x8137, codes "IPX")
    ∷ (0x8204, codes "QNX Qnet")
    ∷ (0x86dd, codes "IPv6")
    ∷ (0x8808, codes "Ethernet flow control")
    ∷ (0x8809, codes "Slow Protocols")
    ∷ (0x8819, codes "CobraNet")
    ∷ (0x8847, codes "MPLS unicast")
    ∷ (0x8848, codes "MPLS multicast")
    ∷ (0x8863, codes "PPPoE Discovery Stage")
    ∷ (0x8864, codes "PPPoE Session Stage")
    ∷ (0x887b, codes "HomePlug 1.0 MME")
    ∷ (0x888e, codes "IEEE 802.1X")
    ∷ (0x8892, codes "PROFINET")
    ∷ (0x889a, codes "HyperSCSI")
    ∷ (0x88a2, codes "ATA over Ethernet")
    ∷ (0x88a4, codes "EtherCAT")
    ∷ (0x88a8, codes "IEEE 802.1ad Provider Bridging")
    ∷ (0x88ab, codes "Ethernet Powerlink")
    ∷ (0x88cc, codes "LLDP")
    ∷ (0x88cd, codes "SERCOS III")
    ∷ (0x88e1, codes "HomePlug AV MME")
    ∷ (0x88e3, codes "IEEE 802.1ag MRP")
    ∷ (0x88e5, codes "IEEE 802.1AE MACsec")
    ∷ (0x88f7, codes "IEEE 1588 PTP")
    ∷ (0x8902, codes "IEEE 802.1ag CFM")
    ∷ (0x8906, codes "FCoE")
    ∷ (0x8914, codes "FCoE Initialization Protocol")
    ∷ (0x8915, codes "RoCE")
    ∷ (0x891d, codes "TTEthernet")
    ∷ (0x892f, codes "HSR")
    ∷ (0x9000, codes "Ethernet Configuration Testing Protocol")
    ∷ []

unfoldable pub ip_protocol_names : List (ℕ × Str)
ip_protocol_names =
    (0, codes "HOPOPT")
    ∷ (1, codes "ICMPv4")
    ∷ (2, codes "IGMP")
    ∷ (3, codes "GGP")
    ∷ (4, codes "IPv4")
    ∷ (6, codes "TCP")
    ∷ (8, codes "EGP")
    ∷ (9, codes "IGP")
    ∷ (17, codes "UDP")
    ∷ (27, codes "RDP")
    ∷ (41, codes "IPv6")
    ∷ (43, codes "IPv6-Route")
    ∷ (44, codes "IPv6-Frag")
    ∷ (46, codes "RSVP")
    ∷ (47, codes "GRE")
    ∷ (50, codes "ESP")
    ∷ (51, codes "AH")
    ∷ (58, codes "ICMPv6")
    ∷ (59, codes "IPv6-NoNxt")
    ∷ (60, codes "IPv6-Opts")
    ∷ (88, codes "EIGRP")
    ∷ (89, codes "OSPFIGP")
    ∷ (103, codes "PIM")
    ∷ (112, codes "VRRP")
    ∷ (115, codes "L2TP")
    ∷ (132, codes "SCTP")
    ∷ (136, codes "UDPLite")
    ∷ (137, codes "MPLS-in-IP")
    ∷ []

unfoldable pub llc_sap_names : List (ℕ × Str)
llc_sap_names =
    (0x00, codes "Null LSAP")
    ∷ (0x02, codes "Individual LLC Sublayer Management Function")
    ∷ (0x03, codes "Group LLC Sublayer Management Function")
    ∷ (0x04, codes "SNA Path Control (individual)")
    ∷ (0x05, codes "SNA Path Control (group)")
    ∷ (0x06, codes "TCP/IP")
    ∷ (0x0e, codes "PROWAY-LAN")
    ∷ (0x42, codes "STP")
    ∷ (0x4e, codes "RS 511")
    ∷ (0x5e, codes "ISI IP")
    ∷ (0x7e, codes "X.25 PLP")
    ∷ (0x8e, codes "PROWAY-LAN active station list maintenance")
    ∷ (0xaa, codes "SNAP")
    ∷ (0xe0, codes "IPX")
    ∷ (0xf0, codes "NetBIOS")
    ∷ (0xf4, codes "LAN Management (individual)")
    ∷ (0xf5, codes "LAN Management (group)")
    ∷ (0xfe, codes "ISO Network Layer Protocol")
    ∷ (0xff, codes "Global DSAP")
    ∷ []

unfoldable pub arp_operation_names : List (ℕ × Str)
arp_operation_names =
    (1, codes "REQUEST")
    ∷ (2, codes "REPLY")
    ∷ (3, codes "RARP REQUEST")
    ∷ (4, codes "RARP REPLY")
    ∷ (8, codes "InARP REQUEST")
    ∷ (9, codes "InARP REPLY")
    ∷ []

abbrev pub ip_protocol_tcp : ℕ
ip_protocol_tcp = 6

abbrev pub ip_protocol_udp : ℕ
ip_protocol_udp = 17

unfoldable pub hex : ℕ → ℕ → Str
hex value digits = codes "0x" ++ pad_start digits (to_string 16 value)

abbrev or_unknown : Option Str → Str
or_unknown none = codes "unknown"
or_unknown (some name) = name

unfoldable pub named : Str → Option Str → Str
named value name = value ++ codes " (" ++ or_unknown name ++ codes ")"

-- Values up to 1500 without a name are an 802.3 length field.
unfoldable pub format_ether_type : ℕ → Str
format_ether_type value = elim (Map.get value ether_type_names) [
  | some name ↦ named (hex value 4) (some name)
  | none ↦
      if leb value 0x05dc
      then named (hex value 4) (some (codes "LLC length"))
      else named (hex value 4) none
]

unfoldable pub ip_protocol_name : ℕ → Str
ip_protocol_name value = or_unknown (Map.get value ip_protocol_names)

unfoldable pub format_ip_protocol : ℕ → Str
format_ip_protocol value = named (to_string 10 value) (Map.get value ip_protocol_names)

unfoldable pub format_llc_sap : ℕ → Str
format_llc_sap value = named (hex value 2) (Map.get value llc_sap_names)

unfoldable pub format_llc_control : ℕ → Bool → Str
format_llc_control value true =
    named (hex value 4)
      (some (if nat_beq (value % 2) 0 then codes "Information" else codes "Supervisory"))
format_llc_control value false = named (hex value 2) (some (codes "Unnumbered"))

unfoldable pub format_arp_operation : ℕ → Str
format_arp_operation value = named (to_string 10 value) (Map.get value arp_operation_names)
