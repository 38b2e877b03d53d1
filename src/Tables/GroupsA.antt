-- ===== src/Tables/GroupsA.antt =====
-- Tables of the groups of IEs in upf/pfcp.c, `pfcp_create_pdr_group` to `pfcp_update_pdr_group`.
use upg_vpp_tr.Base.{List, [], ◌∷◌}
use upg_vpp_tr.Group.{Item, vendor_bbf}
use upg_vpp_tr.Tables.Items.{one, many, one_of}
use upg_vpp_tr.Tables.TypesA.{
  pfcp_ie_application_id, pfcp_ie_apply_action, pfcp_ie_destination_interface,
  pfcp_ie_duplicating_parameters, pfcp_ie_f_teid, pfcp_ie_forwarding_parameters,
  pfcp_ie_forwarding_policy, pfcp_ie_gate_status, pfcp_ie_gbr, pfcp_ie_inactivity_detection_time,
  pfcp_ie_mbr, pfcp_ie_measurement_method, pfcp_ie_measurement_period, pfcp_ie_monitoring_time,
  pfcp_ie_network_instance, pfcp_ie_pdi, pfcp_ie_pdr_id, pfcp_ie_precedence,
  pfcp_ie_qer_correlation_id, pfcp_ie_redirect_information, pfcp_ie_reporting_triggers,
  pfcp_ie_sdf_filter, pfcp_ie_source_interface, pfcp_ie_subsequent_time_threshold,
  pfcp_ie_subsequent_volume_threshold, pfcp_ie_time_threshold, pfcp_ie_transport_level_marking,
  pfcp_ie_volume_threshold,
}
use upg_vpp_tr.Tables.TypesB.{
  pfcp_ie_activate_predefined_rules, pfcp_ie_aggregated_urrs, pfcp_ie_bar_id,
  pfcp_ie_deactivate_predefined_rules, pfcp_ie_dl_flow_level_marking,
  pfcp_ie_dropped_dl_traffic_threshold, pfcp_ie_far_id, pfcp_ie_header_enrichment,
  pfcp_ie_linked_urr_id, pfcp_ie_measurement_information, pfcp_ie_outer_header_creation,
  pfcp_ie_outer_header_removal, pfcp_ie_packet_rate, pfcp_ie_qer_id, pfcp_ie_qfi,
  pfcp_ie_quota_holding_time, pfcp_ie_rqi, pfcp_ie_time_quota, pfcp_ie_time_quota_mechanism,
  pfcp_ie_ue_ip_address, pfcp_ie_urr_id, pfcp_ie_volume_quota,
}
use upg_vpp_tr.Tables.TypesC.{
  pfcp_ie_activation_time, pfcp_ie_additional_monitoring_time, pfcp_ie_averaging_window,
  pfcp_ie_deactivation_time, pfcp_ie_ethernet_inactivity_timer, pfcp_ie_ethernet_packet_filter,
  pfcp_ie_ethernet_pdu_session_information, pfcp_ie_framed_ipv6_route, pfcp_ie_framed_route,
  pfcp_ie_framed_routing, pfcp_ie_mar_id, pfcp_ie_paging_policy_indicator, pfcp_ie_proxying,
  pfcp_ie_quota_validity_time, pfcp_ie_tgpp_interface_type, pfcp_ie_traffic_endpoint_id,
}
use upg_vpp_tr.Tables.TypesVendor.{pfcp_ie_bbf_apply_action, pfcp_ie_bbf_nat_port_block}

abbrev pub create_pdr_group : List Item
create_pdr_group =
    one pfcp_ie_pdr_id
    ∷ one pfcp_ie_precedence
    ∷ one pfcp_ie_pdi
    ∷ one pfcp_ie_outer_header_removal
    ∷ one pfcp_ie_far_id
    ∷ many pfcp_ie_urr_id
    ∷ many pfcp_ie_qer_id
    ∷ one pfcp_ie_activate_predefined_rules
    ∷ one pfcp_ie_activation_time
    ∷ one pfcp_ie_deactivation_time
    ∷ one pfcp_ie_mar_id
    ∷ []

abbrev pub pdi_group : List Item
pdi_group =
    one pfcp_ie_source_interface
    ∷ one pfcp_ie_f_teid
    ∷ one pfcp_ie_network_instance
    ∷ one pfcp_ie_ue_ip_address
    ∷ many pfcp_ie_sdf_filter
    ∷ one pfcp_ie_application_id
    ∷ one pfcp_ie_ethernet_pdu_session_information
    ∷ one pfcp_ie_ethernet_packet_filter
    ∷ one pfcp_ie_qfi
    ∷ many pfcp_ie_framed_route
    ∷ one pfcp_ie_framed_routing
    ∷ many pfcp_ie_framed_ipv6_route
    ∷ one pfcp_ie_tgpp_interface_type
    ∷ []

abbrev pub create_far_group : List Item
create_far_group =
    one pfcp_ie_far_id
    ∷ one pfcp_ie_apply_action
    ∷ one pfcp_ie_forwarding_parameters
    ∷ one pfcp_ie_duplicating_parameters
    ∷ one pfcp_ie_bar_id
    ∷ []

abbrev pub forwarding_parameters_group : List Item
forwarding_parameters_group =
    one pfcp_ie_destination_interface
    ∷ one pfcp_ie_network_instance
    ∷ one pfcp_ie_redirect_information
    ∷ one pfcp_ie_outer_header_creation
    ∷ one pfcp_ie_transport_level_marking
    ∷ one pfcp_ie_forwarding_policy
    ∷ one pfcp_ie_header_enrichment
    ∷ one pfcp_ie_traffic_endpoint_id
    ∷ one pfcp_ie_proxying
    ∷ one pfcp_ie_tgpp_interface_type
    ∷ one_of vendor_bbf pfcp_ie_bbf_apply_action
    ∷ one_of vendor_bbf pfcp_ie_bbf_nat_port_block
    ∷ []

abbrev pub duplicating_parameters_group : List Item
duplicating_parameters_group =
    one pfcp_ie_destination_interface
    ∷ one pfcp_ie_outer_header_creation
    ∷ one pfcp_ie_transport_level_marking
    ∷ one pfcp_ie_forwarding_policy
    ∷ []

abbrev pub create_urr_group : List Item
create_urr_group =
    one pfcp_ie_urr_id
    ∷ one pfcp_ie_measurement_method
    ∷ one pfcp_ie_reporting_triggers
    ∷ one pfcp_ie_measurement_period
    ∷ one pfcp_ie_volume_threshold
    ∷ one pfcp_ie_volume_quota
    ∷ one pfcp_ie_time_threshold
    ∷ one pfcp_ie_time_quota
    ∷ one pfcp_ie_quota_holding_time
    ∷ one pfcp_ie_dropped_dl_traffic_threshold
    ∷ one pfcp_ie_quota_validity_time
    ∷ one pfcp_ie_monitoring_time
    ∷ one pfcp_ie_subsequent_volume_threshold
    ∷ one pfcp_ie_subsequent_time_threshold
    ∷ one pfcp_ie_inactivity_detection_time
    ∷ many pfcp_ie_linked_urr_id
    ∷ one pfcp_ie_measurement_information
    ∷ one pfcp_ie_time_quota_mechanism
    ∷ one pfcp_ie_aggregated_urrs
    ∷ one pfcp_ie_far_id
    ∷ one pfcp_ie_ethernet_inactivity_timer
    ∷ many pfcp_ie_additional_monitoring_time
    ∷ []

abbrev pub create_qer_group : List Item
create_qer_group =
    one pfcp_ie_qer_id
    ∷ one pfcp_ie_qer_correlation_id
    ∷ one pfcp_ie_gate_status
    ∷ one pfcp_ie_mbr
    ∷ one pfcp_ie_gbr
    ∷ one pfcp_ie_packet_rate
    ∷ one pfcp_ie_dl_flow_level_marking
    ∷ one pfcp_ie_qfi
    ∷ one pfcp_ie_rqi
    ∷ one pfcp_ie_paging_policy_indicator
    ∷ one pfcp_ie_averaging_window
    ∷ []

abbrev pub created_pdr_group : List Item
created_pdr_group = one pfcp_ie_pdr_id ∷ one pfcp_ie_f_teid ∷ one pfcp_ie_ue_ip_address ∷ []

abbrev pub update_pdr_group : List Item
update_pdr_group =
    one pfcp_ie_pdr_id
    ∷ one pfcp_ie_outer_header_removal
    ∷ one pfcp_ie_precedence
    ∷ one pfcp_ie_pdi
    ∷ one pfcp_ie_far_id
    ∷ many pfcp_ie_urr_id
    ∷ many pfcp_ie_qer_id
    ∷ one pfcp_ie_activate_predefined_rules
    ∷ one pfcp_ie_deactivate_predefined_rules
    ∷ one pfcp_ie_activation_time
    ∷ one pfcp_ie_deactivation_time
    ∷ []
