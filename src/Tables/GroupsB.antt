-- ===== src/Tables/GroupsB.antt =====
-- Tables of the groups of IEs in upf/pfcp.c, `pfcp_update_far_group` to `pfcp_pfd_group`.
use upg_vpp_tr.Base.{List, [], ◌∷◌}
use upg_vpp_tr.Group.{Item}
use upg_vpp_tr.Tables.Items.{one, many}
use upg_vpp_tr.Tables.TypesA.{
  pfcp_ie_application_id, pfcp_ie_apply_action, pfcp_ie_destination_interface,
  pfcp_ie_dl_buffering_duration, pfcp_ie_dl_buffering_suggested_packet_count,
  pfcp_ie_downlink_data_notification_delay, pfcp_ie_forwarding_policy, pfcp_ie_gate_status,
  pfcp_ie_gbr, pfcp_ie_inactivity_detection_time, pfcp_ie_mbr, pfcp_ie_measurement_method,
  pfcp_ie_measurement_period, pfcp_ie_metric, pfcp_ie_monitoring_time, pfcp_ie_network_instance,
  pfcp_ie_pdr_id, pfcp_ie_pfcpsmreq_flags, pfcp_ie_pfd, pfcp_ie_pfd_contents,
  pfcp_ie_qer_correlation_id, pfcp_ie_redirect_information, pfcp_ie_reporting_triggers,
  pfcp_ie_sequence_number, pfcp_ie_subsequent_time_threshold, pfcp_ie_subsequent_volume_threshold,
  pfcp_ie_time_threshold, pfcp_ie_timer, pfcp_ie_transport_level_marking,
  pfcp_ie_update_forwarding_parameters, pfcp_ie_volume_threshold,
}
use upg_vpp_tr.Tables.TypesB.{
  pfcp_ie_aggregated_urrs, pfcp_ie_bar_id, pfcp_ie_dl_flow_level_marking,
  pfcp_ie_dropped_dl_traffic_threshold, pfcp_ie_far_id, pfcp_ie_header_enrichment,
  pfcp_ie_linked_urr_id, pfcp_ie_measurement_information, pfcp_ie_oci_flags,
  pfcp_ie_outer_header_creation, pfcp_ie_packet_rate, pfcp_ie_qer_id, pfcp_ie_qfi,
  pfcp_ie_quota_holding_time, pfcp_ie_rqi, pfcp_ie_time_quota, pfcp_ie_time_quota_mechanism,
  pfcp_ie_update_duplicating_parameters, pfcp_ie_urr_id, pfcp_ie_volume_quota,
}
use upg_vpp_tr.Tables.TypesC.{
  pfcp_ie_averaging_window, pfcp_ie_ethernet_inactivity_timer, pfcp_ie_paging_policy_indicator,
  pfcp_ie_quota_validity_time, pfcp_ie_suggested_buffering_packets_count,
  pfcp_ie_tgpp_interface_type, pfcp_ie_traffic_endpoint_id,
}

abbrev pub update_far_group : List Item
update_far_group =
    one pfcp_ie_far_id
    ∷ one pfcp_ie_apply_action
    ∷ one pfcp_ie_update_forwarding_parameters
    ∷ one pfcp_ie_update_duplicating_parameters
    ∷ one pfcp_ie_bar_id
    ∷ []

abbrev pub update_forwarding_parameters_group : List Item
update_forwarding_parameters_group =
    one pfcp_ie_destination_interface
    ∷ one pfcp_ie_network_instance
    ∷ one pfcp_ie_redirect_information
    ∷ one pfcp_ie_outer_header_creation
    ∷ one pfcp_ie_transport_level_marking
    ∷ one pfcp_ie_forwarding_policy
    ∷ one pfcp_ie_header_enrichment
    ∷ one pfcp_ie_pfcpsmreq_flags
    ∷ one pfcp_ie_traffic_endpoint_id
    ∷ one pfcp_ie_tgpp_interface_type
    ∷ []

abbrev pub update_bar_response_group : List Item
update_bar_response_group =
    one pfcp_ie_bar_id
    ∷ one pfcp_ie_downlink_data_notification_delay
    ∷ one pfcp_ie_dl_buffering_duration
    ∷ one pfcp_ie_dl_buffering_suggested_packet_count
    ∷ one pfcp_ie_suggested_buffering_packets_count
    ∷ []

abbrev pub update_urr_group : List Item
update_urr_group =
    one pfcp_ie_urr_id
    ∷ one pfcp_ie_measurement_method
    ∷ one pfcp_ie_reporting_triggers
    ∷ one pfcp_ie_measurement_period
    ∷ one pfcp_ie_volume_threshold
    ∷ one pfcp_ie_volume_quota
    ∷ one pfcp_ie_time_threshold
    ∷ one pfcp_ie_time_quota
    ∷ one pfcp_ie_quota_holding_time
    ∷ one pfcp_ie_dropped_dl_traffic_threshold
    ∷ one pfcp_ie_quota_validity_time
    ∷ one pfcp_ie_monitoring_time
    ∷ one pfcp_ie_subsequent_volume_threshold
    ∷ one pfcp_ie_subsequent_time_threshold
    ∷ one pfcp_ie_inactivity_detection_time
    ∷ many pfcp_ie_linked_urr_id
    ∷ one pfcp_ie_measurement_information
    ∷ one pfcp_ie_time_quota_mechanism
    ∷ one pfcp_ie_aggregated_urrs
    ∷ one pfcp_ie_far_id
    ∷ one pfcp_ie_ethernet_inactivity_timer
    ∷ []

abbrev pub update_qer_group : List Item
update_qer_group =
    one pfcp_ie_qer_id
    ∷ one pfcp_ie_qer_correlation_id
    ∷ one pfcp_ie_gate_status
    ∷ one pfcp_ie_mbr
    ∷ one pfcp_ie_gbr
    ∷ one pfcp_ie_packet_rate
    ∷ one pfcp_ie_dl_flow_level_marking
    ∷ one pfcp_ie_qfi
    ∷ one pfcp_ie_rqi
    ∷ one pfcp_ie_paging_policy_indicator
    ∷ one pfcp_ie_averaging_window
    ∷ []

abbrev pub remove_pdr_group : List Item
remove_pdr_group = one pfcp_ie_pdr_id ∷ []

abbrev pub remove_far_group : List Item
remove_far_group = one pfcp_ie_far_id ∷ []

abbrev pub remove_urr_group : List Item
remove_urr_group = one pfcp_ie_urr_id ∷ []

abbrev pub remove_qer_group : List Item
remove_qer_group = one pfcp_ie_qer_id ∷ []

abbrev pub load_control_information_group : List Item
load_control_information_group = one pfcp_ie_sequence_number ∷ one pfcp_ie_metric ∷ []

abbrev pub overload_control_information_group : List Item
overload_control_information_group =
    one pfcp_ie_sequence_number
    ∷ one pfcp_ie_metric
    ∷ one pfcp_ie_timer
    ∷ one pfcp_ie_oci_flags
    ∷ []

abbrev pub application_id_pfds_group : List Item
application_id_pfds_group = one pfcp_ie_application_id ∷ many pfcp_ie_pfd ∷ []

abbrev pub pfd_group : List Item
pfd_group = many pfcp_ie_pfd_contents ∷ []
