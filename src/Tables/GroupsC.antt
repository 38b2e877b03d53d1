-- ===== src/Tables/GroupsC.antt =====
-- Tables of the groups of IEs in upf/pfcp.c, `pfcp_application_detection_information_group` to `pfcp_update_duplicating_parameters_group`.
use upg_vpp_tr.Base.{List, [], ◌∷◌}
use upg_vpp_tr.Group.{Item, vendor_travelping}
use upg_vpp_tr.Tables.Items.{no_item, one, many, one_of}
use upg_vpp_tr.Tables.TypesA.{
  pfcp_ie_application_id, pfcp_ie_destination_interface, pfcp_ie_downlink_data_notification_delay,
  pfcp_ie_downlink_data_service_information, pfcp_ie_f_teid, pfcp_ie_forwarding_policy,
  pfcp_ie_network_instance, pfcp_ie_pdr_id, pfcp_ie_transport_level_marking,
  pfcp_ie_usage_report_trigger, pfcp_ie_volume_measurement,
}
use upg_vpp_tr.Tables.TypesB.{
  pfcp_ie_application_detection_information, pfcp_ie_application_instance_id, pfcp_ie_bar_id,
  pfcp_ie_duration_measurement, pfcp_ie_end_time, pfcp_ie_flow_information,
  pfcp_ie_outer_header_creation, pfcp_ie_query_urr_reference, pfcp_ie_remote_gtp_u_peer,
  pfcp_ie_start_time, pfcp_ie_time_of_first_packet, pfcp_ie_time_of_last_packet,
  pfcp_ie_ue_ip_address, pfcp_ie_ur_seqn, pfcp_ie_urr_id, pfcp_ie_usage_information,
}
use upg_vpp_tr.Tables.TypesC.{
  pfcp_ie_ethernet_traffic_information, pfcp_ie_event_time_stamp,
  pfcp_ie_suggested_buffering_packets_count, pfcp_ie_traffic_report_packet_data,
  pfcp_ie_traffic_report_packet_header, pfcp_ie_traffic_report_packet_type,
}
use upg_vpp_tr.Tables.TypesVendor.{pfcp_ie_tp_end_time, pfcp_ie_tp_now, pfcp_ie_tp_start_time}

abbrev pub application_detection_information_group : List Item
application_detection_information_group =
    one pfcp_ie_application_id
    ∷ one pfcp_ie_application_instance_id
    ∷ one pfcp_ie_flow_information
    ∷ []

abbrev pub query_urr_group : List Item
query_urr_group = one pfcp_ie_urr_id ∷ []

abbrev pub usage_report_smr_group : List Item
usage_report_smr_group =
    one pfcp_ie_urr_id
    ∷ one pfcp_ie_ur_seqn
    ∷ one pfcp_ie_usage_report_trigger
    ∷ one pfcp_ie_start_time
    ∷ one pfcp_ie_end_time
    ∷ one pfcp_ie_volume_measurement
    ∷ one pfcp_ie_duration_measurement
    ∷ no_item
    ∷ no_item
    ∷ no_item
    ∷ one pfcp_ie_time_of_first_packet
    ∷ one pfcp_ie_time_of_last_packet
    ∷ one pfcp_ie_usage_information
    ∷ one pfcp_ie_query_urr_reference
    ∷ many pfcp_ie_event_time_stamp
    ∷ one pfcp_ie_ethernet_traffic_information
    ∷ one_of vendor_travelping pfcp_ie_tp_now
    ∷ one_of vendor_travelping pfcp_ie_tp_start_time
    ∷ one_of vendor_travelping pfcp_ie_tp_end_time
    ∷ []

abbrev pub packet_report_group : List Item
packet_report_group =
    one pfcp_ie_traffic_report_packet_type
    ∷ one pfcp_ie_traffic_report_packet_header
    ∷ one pfcp_ie_traffic_report_packet_data
    ∷ []

abbrev pub usage_report_sdr_group : List Item
usage_report_sdr_group =
    one pfcp_ie_urr_id
    ∷ one pfcp_ie_ur_seqn
    ∷ one pfcp_ie_usage_report_trigger
    ∷ one pfcp_ie_start_time
    ∷ one pfcp_ie_end_time
    ∷ one pfcp_ie_volume_measurement
    ∷ one pfcp_ie_duration_measurement
    ∷ no_item
    ∷ no_item
    ∷ no_item
    ∷ one pfcp_ie_time_of_first_packet
    ∷ one pfcp_ie_time_of_last_packet
    ∷ one pfcp_ie_usage_information
    ∷ no_item
    ∷ no_item
    ∷ one pfcp_ie_ethernet_traffic_information
    ∷ one_of vendor_travelping pfcp_ie_tp_now
    ∷ one_of vendor_travelping pfcp_ie_tp_start_time
    ∷ one_of vendor_travelping pfcp_ie_tp_end_time
    ∷ []

abbrev pub usage_report_srr_group : List Item
usage_report_srr_group =
    one pfcp_ie_urr_id
    ∷ one pfcp_ie_ur_seqn
    ∷ one pfcp_ie_usage_report_trigger
    ∷ one pfcp_ie_start_time
    ∷ one pfcp_ie_end_time
    ∷ one pfcp_ie_volume_measurement
    ∷ one pfcp_ie_duration_measurement
    ∷ one pfcp_ie_application_detection_information
    ∷ one pfcp_ie_ue_ip_address
    ∷ one pfcp_ie_network_instance
    ∷ one pfcp_ie_time_of_first_packet
    ∷ one pfcp_ie_time_of_last_packet
    ∷ one pfcp_ie_usage_information
    ∷ one pfcp_ie_query_urr_reference
    ∷ no_item
    ∷ one pfcp_ie_ethernet_traffic_information
    ∷ one_of vendor_travelping pfcp_ie_tp_now
    ∷ one_of vendor_travelping pfcp_ie_tp_start_time
    ∷ one_of vendor_travelping pfcp_ie_tp_end_time
    ∷ []

abbrev pub downlink_data_report_group : List Item
downlink_data_report_group =
    many pfcp_ie_pdr_id ∷ many pfcp_ie_downlink_data_service_information ∷ []

abbrev pub create_bar_group : List Item
create_bar_group =
    one pfcp_ie_bar_id
    ∷ one pfcp_ie_downlink_data_notification_delay
    ∷ one pfcp_ie_suggested_buffering_packets_count
    ∷ []

abbrev pub update_bar_request_group : List Item
update_bar_request_group =
    one pfcp_ie_bar_id
    ∷ one pfcp_ie_downlink_data_notification_delay
    ∷ one pfcp_ie_suggested_buffering_packets_count
    ∷ []

abbrev pub remove_bar_group : List Item
remove_bar_group = one pfcp_ie_bar_id ∷ []

abbrev pub error_indication_report_group : List Item
error_indication_report_group = many pfcp_ie_f_teid ∷ []

abbrev pub user_plane_path_failure_report_group : List Item
user_plane_path_failure_report_group = many pfcp_ie_remote_gtp_u_peer ∷ []

abbrev pub update_duplicating_parameters_group : List Item
update_duplicating_parameters_group =
    one pfcp_ie_destination_interface
    ∷ one pfcp_ie_outer_header_creation
    ∷ one pfcp_ie_transport_level_marking
    ∷ one pfcp_ie_forwarding_policy
    ∷ []
