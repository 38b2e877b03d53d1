-- ===== src/Tables/TypesVendor.antt =====
-- Types of the IEs of vendors in upf/pfcp.h.
use upg_vpp_tr.Base.{ℕ}

abbrev pub pfcp_ie_bbf_up_function_features : ℕ
pfcp_ie_bbf_up_function_features = 0

abbrev pub pfcp_ie_bbf_nat_outside_address : ℕ
pfcp_ie_bbf_nat_outside_address = 14

abbrev pub pfcp_ie_bbf_nat_external_port_range : ℕ
pfcp_ie_bbf_nat_external_port_range = 16

abbrev pub pfcp_ie_bbf_apply_action : ℕ
pfcp_ie_bbf_apply_action = 15

abbrev pub pfcp_ie_bbf_nat_port_block : ℕ
pfcp_ie_bbf_nat_port_block = 18

abbrev pub pfcp_ie_tp_packet_measurement : ℕ
pfcp_ie_tp_packet_measurement = 1

abbrev pub pfcp_ie_tp_build_id : ℕ
pfcp_ie_tp_build_id = 2

abbrev pub pfcp_ie_tp_now : ℕ
pfcp_ie_tp_now = 3

abbrev pub pfcp_ie_tp_start_time : ℕ
pfcp_ie_tp_start_time = 4

abbrev pub pfcp_ie_tp_end_time : ℕ
pfcp_ie_tp_end_time = 5

abbrev pub pfcp_ie_tp_error_report : ℕ
pfcp_ie_tp_error_report = 6

abbrev pub pfcp_ie_tp_error_message : ℕ
pfcp_ie_tp_error_message = 7

abbrev pub pfcp_ie_tp_file_name : ℕ
pfcp_ie_tp_file_name = 8

abbrev pub pfcp_ie_tp_line_number : ℕ
pfcp_ie_tp_line_number = 9

abbrev pub pfcp_ie_tp_created_nat_binding : ℕ
pfcp_ie_tp_created_nat_binding = 10
