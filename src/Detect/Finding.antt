-- ===== src/Detect/Finding.antt =====
-- Findings (api/src/packet/detect/types.ts), and the values that their messages and evidence hold.
use network_monitoring.Base.{ℕ, Bool, Option, none, some, List, Str}

pub data Severity : Type 0 where
  critical high medium low info : Severity

pub data AlertKind : Type 0 where
  arp_spoofing port_scan host_sweep syn_flood plaintext_credentials dns_tunneling new_device
        threat_intel :
      AlertKind

-- A value within a reference to another message.
pub data Scalar : Type 0 where
  word : Str → Scalar
  truth : Bool → Scalar
  absent : Scalar

abbrev pub word_or_absent : Option Str → Scalar
word_or_absent none = absent
word_or_absent (some s) = word s

-- A value of a message parameter or of the evidence; `ref` is a message within a message.
pub data Value : Type 0 where
  text : Str → Value
  number : ℕ → Value
  flag : Bool → Value
  texts : List Str → Value
  numbers : List ℕ → Value
  null : Value
  ref : Str → List (Str × Scalar) → Value

abbrev pub text_or_null : Option Str → Value
text_or_null none = null
text_or_null (some s) = text s

pub record Finding (Time : Type 0) : Type 0 where
  pub kind : AlertKind
  pub severity : Severity
  pub message_key : Str
  pub message_params : List (Str × Value)
  pub dedup_key : Str
  pub source_ip : Option Str
  pub source_mac : Option Str
  pub target_ip : Option Str
  pub target_mac : Option Str
  pub protocol : Option Str
  pub port : Option ℕ
  pub evidence : List (Str × Value)
  pub timestamp : Time
