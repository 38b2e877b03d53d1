-- ===== src/Tables/SpecsVendor.antt =====
-- `vendor_tp_specs` and `vendor_bbf_specs` of upf/pfcp.c.
use upg_vpp_tr.Base.{ℕ, ◌^◌, List, [], ◌∷◌}
use upg_vpp_tr.Tables.Codec.{
  Shape, simple, members, bbf_apply_action, bbf_nat_external_port_range, bbf_nat_outside_address,
  bbf_nat_port_block, bbf_up_function_features, tp_build_id, tp_end_time, tp_error_message,
  tp_file_name, tp_line_number, tp_now, tp_packet_measurement, tp_start_time,
}
use upg_vpp_tr.Tables.TypesVendor.{
  pfcp_ie_bbf_apply_action, pfcp_ie_bbf_nat_external_port_range, pfcp_ie_bbf_nat_outside_address,
  pfcp_ie_bbf_nat_port_block, pfcp_ie_bbf_up_function_features, pfcp_ie_tp_build_id,
  pfcp_ie_tp_created_nat_binding, pfcp_ie_tp_end_time, pfcp_ie_tp_error_message,
  pfcp_ie_tp_error_report, pfcp_ie_tp_file_name, pfcp_ie_tp_line_number, pfcp_ie_tp_now,
  pfcp_ie_tp_packet_measurement, pfcp_ie_tp_start_time,
}
use upg_vpp_tr.Tables.GroupsE.{tp_created_binding_group, tp_error_report_group}

abbrev pub vendor_tp_specs : List (ℕ × Shape)
vendor_tp_specs =
    (pfcp_ie_tp_packet_measurement, simple tp_packet_measurement)
    ∷ (pfcp_ie_tp_build_id, simple tp_build_id)
    ∷ (pfcp_ie_tp_now, simple tp_now)
    ∷ (pfcp_ie_tp_start_time, simple tp_start_time)
    ∷ (pfcp_ie_tp_end_time, simple tp_end_time)
    ∷ (pfcp_ie_tp_error_report, members (2 ^ 0) tp_error_report_group)
    ∷ (pfcp_ie_tp_created_nat_binding, members 0 tp_created_binding_group)
    ∷ (pfcp_ie_tp_error_message, simple tp_error_message)
    ∷ (pfcp_ie_tp_file_name, simple tp_file_name)
    ∷ (pfcp_ie_tp_line_number, simple tp_line_number)
    ∷ []

abbrev pub vendor_bbf_specs : List (ℕ × Shape)
vendor_bbf_specs =
    (pfcp_ie_bbf_up_function_features, simple bbf_up_function_features)
    ∷ (pfcp_ie_bbf_nat_outside_address, simple bbf_nat_outside_address)
    ∷ (pfcp_ie_bbf_apply_action, simple bbf_apply_action)
    ∷ (pfcp_ie_bbf_nat_port_block, simple bbf_nat_port_block)
    ∷ (pfcp_ie_bbf_nat_external_port_range, simple bbf_nat_external_port_range)
    ∷ []
