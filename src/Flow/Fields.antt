-- ===== src/Flow/Fields.antt =====
-- Information elements and templates (api/src/flow/fields.ts).
use network_monitoring.Base.{ℕ, ◌+◌, Option, none, some, List, [], ◌∷◌, nat_beq, if◌then◌else◌}

pub record TemplateField : Type 0 where
  pub information_element : ℕ
  pub length_field : ℕ
  pub enterprise : Option ℕ

pub record Template : Type 0 where
  pub id : ℕ
  pub fields : List TemplateField
  pub fixed_length : Option ℕ

abbrev pub variable_length : ℕ
variable_length = 0xffff

unfoldable pub fixed_length_from : ℕ → List TemplateField → Option ℕ
fixed_length_from total [] = some total
fixed_length_from total (field ∷ fields) =
    let rest = fixed_length_from (total + field.length_field) fields in
    if nat_beq field.length_field variable_length then none else rest

unfoldable pub template_fixed_length : List TemplateField → Option ℕ
unfolding fixed_length_from
template_fixed_length fields = fixed_length_from 0 fields

-- The elements of `IE`.
pub data InformationElement : Type 0 where
  octet_delta_count packet_delta_count protocol_identifier tcp_control_bits source_transport_port
        source_ipv4_address ingress_interface destination_transport_port destination_ipv4_address
        egress_interface flow_end_sys_up_time flow_start_sys_up_time source_ipv6_address
        destination_ipv6_address source_mac_address destination_mac_address flow_start_seconds
        flow_end_seconds flow_start_milliseconds flow_end_milliseconds flow_start_microseconds
        flow_end_microseconds octet_total_count packet_total_count :
      InformationElement
  other : InformationElement

-- The element that a number names, by the cases of the record decoder's switch.
unfoldable pub ie_table : List (ℕ × InformationElement)
ie_table =
    (1, octet_delta_count)
    ∷ (2, packet_delta_count)
    ∷ (4, protocol_identifier)
    ∷ (6, tcp_control_bits)
    ∷ (7, source_transport_port)
    ∷ (8, source_ipv4_address)
    ∷ (10, ingress_interface)
    ∷ (11, destination_transport_port)
    ∷ (12, destination_ipv4_address)
    ∷ (14, egress_interface)
    ∷ (21, flow_end_sys_up_time)
    ∷ (22, flow_start_sys_up_time)
    ∷ (27, source_ipv6_address)
    ∷ (28, destination_ipv6_address)
    ∷ (56, source_mac_address)
    ∷ (80, destination_mac_address)
    ∷ (150, flow_start_seconds)
    ∷ (151, flow_end_seconds)
    ∷ (152, flow_start_milliseconds)
    ∷ (153, flow_end_milliseconds)
    ∷ (154, flow_start_microseconds)
    ∷ (155, flow_end_microseconds)
    ∷ (85, octet_total_count)
    ∷ (86, packet_total_count)
    ∷ []

unfoldable pub element_of_from : ℕ → List (ℕ × InformationElement) → InformationElement
element_of_from number [] = other
element_of_from number ((n, element) ∷ rest) =
    let later = element_of_from number rest in if nat_beq number n then element else later

unfoldable pub element_of : ℕ → InformationElement
unfolding element_of_from ie_table
element_of number = element_of_from number ie_table
