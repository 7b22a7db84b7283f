-- ===== src/Packet/Headers.antt =====
-- The layers of a decoded packet (api/src/packet/decode.ts, its interfaces). `null` is `none`; a
-- timestamp is its time value in milliseconds.
use network_monitoring.Base.{ℕ, Bool, Option, none, [], Str, length}
use network_monitoring.Js.Buffer.{Buffer}

pub record EthernetHeader : Type 0 where
  pub destination_address : Str
  pub source_address : Str
  pub type : Str
  pub type_value : ℕ

pub record LlcHeader : Type 0 where
  pub dsap : Str
  pub ssap : Str
  pub control : Str

pub record VlanHeader : Type 0 where
  pub priority : ℕ
  pub cfi : ℕ
  pub vid : ℕ
  pub type : Str

pub record Ipv4Flags : Type 0 where
  pub reserved : Bool
  pub dont_fragment : Bool
  pub more_fragment : Bool

pub record Ipv4Header : Type 0 where
  pub version : ℕ
  pub header_length : ℕ
  pub tos : ℕ
  pub total_length : ℕ
  pub identification : ℕ
  pub flags : Ipv4Flags
  pub fragment_offset : ℕ
  pub ttl : ℕ
  pub protocol : ℕ
  pub protocol_name : Str
  pub header_checksum : ℕ
  pub src_addr : Str
  pub dst_addr : Str

pub record Ipv6Header : Type 0 where
  pub version : ℕ
  pub traffic_class : ℕ
  pub flow_label : ℕ
  pub payload_length : ℕ
  pub next_header : ℕ
  pub next_header_name : Str
  pub hop_limit : ℕ
  pub src_addr : Str
  pub dst_addr : Str

pub record ArpHeader : Type 0 where
  pub hardware_type : ℕ
  pub protocol_type : ℕ
  pub hardware_addr_length : ℕ
  pub protocol_addr_length : ℕ
  pub operation : ℕ
  pub operation_name : Str
  pub src_hardware_addr : Str
  pub src_protocol_addr : Str
  pub dst_hardware_addr : Str
  pub dst_protocol_addr : Str

pub record TcpHeader : Type 0 where
  pub src_port : ℕ
  pub dst_port : ℕ
  pub sequence_number : ℕ
  pub acknowledgment_number : ℕ
  pub data_offset : ℕ
  pub urg : Bool
  pub ack : Bool
  pub psh : Bool
  pub rst : Bool
  pub syn : Bool
  pub fin : Bool
  pub window : ℕ
  pub checksum : ℕ
  pub urgent_pointer : ℕ

pub record UdpHeader : Type 0 where
  pub src_port : ℕ
  pub dst_port : ℕ
  pub length_field : ℕ
  pub checksum : ℕ

pub data LinkType : Type 0 where
  ethernet_link null_link loop_link raw_link : LinkType

pub record DecodedPacket : Type 0 where
  pub timestamp : ℕ
  pub frame_length : ℕ
  pub raw : Buffer
  pub link_type : LinkType
  pub ethernet : Option EthernetHeader
  pub llc : Option LlcHeader
  pub vlan : Option VlanHeader
  pub ipv4 : Option Ipv4Header
  pub ipv6 : Option Ipv6Header
  pub arp : Option ArpHeader
  pub tcp : Option TcpHeader
  pub udp : Option UdpHeader
  pub payload : Option Buffer
  pub ethernet_pad : Buffer

-- The packet before any layer is decoded.
unfoldable pub unparsed : Buffer → ℕ → LinkType → DecodedPacket
unparsed frame timestamp link_type = record {
  timestamp = timestamp;
  frame_length = length frame;
  raw = frame;
  link_type = link_type;
  ethernet = none;
  llc = none;
  vlan = none;
  ipv4 = none;
  ipv6 = none;
  arp = none;
  tcp = none;
  udp = none;
  payload = none;
  ethernet_pad = [];
}
