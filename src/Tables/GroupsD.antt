-- ===== src/Tables/GroupsD.antt =====
-- Tables of the groups of IEs in upf/pfcp.c, `pfcp_aggregated_urrs_group` to `pfcp_ue_ip_address_pool_group`.
use upg_vpp_tr.Base.{List, [], ◌∷◌}
use upg_vpp_tr.Group.{Item, vendor_bbf}
use upg_vpp_tr.Tables.Items.{one, many, many_of}
use upg_vpp_tr.Tables.TypesA.{
  pfcp_ie_f_teid, pfcp_ie_monitoring_time, pfcp_ie_network_instance, pfcp_ie_sdf_filter,
  pfcp_ie_subsequent_time_threshold, pfcp_ie_subsequent_volume_threshold,
}
use upg_vpp_tr.Tables.TypesB.{
  pfcp_ie_aggregated_urr_id, pfcp_ie_far_id, pfcp_ie_multiplier, pfcp_ie_subsequent_time_quota,
  pfcp_ie_subsequent_volume_quota, pfcp_ie_ue_ip_address, pfcp_ie_urr_id,
}
use upg_vpp_tr.Tables.TypesC.{
  pfcp_ie_access_forwarding_action_information_1, pfcp_ie_access_forwarding_action_information_2,
  pfcp_ie_c_tag, pfcp_ie_ethernet_filter_id, pfcp_ie_ethernet_filter_properties,
  pfcp_ie_ethernet_pdu_session_information, pfcp_ie_ethertype, pfcp_ie_framed_ipv6_route,
  pfcp_ie_framed_route, pfcp_ie_framed_routing, pfcp_ie_ip_version, pfcp_ie_mac_address,
  pfcp_ie_mac_addresses_detected, pfcp_ie_mac_addresses_removed, pfcp_ie_mar_id, pfcp_ie_priority,
  pfcp_ie_s_tag, pfcp_ie_steering_functionality, pfcp_ie_steering_mode, pfcp_ie_traffic_endpoint_id,
  pfcp_ie_ue_ip_address_pool_identity, pfcp_ie_update_access_forwarding_action_information_1,
  pfcp_ie_update_access_forwarding_action_information_2, pfcp_ie_weight,
}
use upg_vpp_tr.Tables.TypesVendor.{pfcp_ie_bbf_nat_port_block}

abbrev pub aggregated_urrs_group : List Item
aggregated_urrs_group = one pfcp_ie_aggregated_urr_id ∷ one pfcp_ie_multiplier ∷ []

abbrev pub create_traffic_endpoint_group : List Item
create_traffic_endpoint_group =
    one pfcp_ie_traffic_endpoint_id
    ∷ one pfcp_ie_f_teid
    ∷ one pfcp_ie_network_instance
    ∷ one pfcp_ie_ue_ip_address
    ∷ one pfcp_ie_ethernet_pdu_session_information
    ∷ many pfcp_ie_framed_route
    ∷ one pfcp_ie_framed_routing
    ∷ many pfcp_ie_framed_ipv6_route
    ∷ []

abbrev pub created_traffic_endpoint_group : List Item
created_traffic_endpoint_group =
    one pfcp_ie_traffic_endpoint_id ∷ one pfcp_ie_f_teid ∷ one pfcp_ie_ue_ip_address ∷ []

abbrev pub update_traffic_endpoint_group : List Item
update_traffic_endpoint_group =
    one pfcp_ie_traffic_endpoint_id
    ∷ one pfcp_ie_f_teid
    ∷ one pfcp_ie_network_instance
    ∷ one pfcp_ie_ue_ip_address
    ∷ many pfcp_ie_framed_route
    ∷ one pfcp_ie_framed_routing
    ∷ many pfcp_ie_framed_ipv6_route
    ∷ []

abbrev pub remove_traffic_endpoint_group : List Item
remove_traffic_endpoint_group = one pfcp_ie_traffic_endpoint_id ∷ []

abbrev pub ethernet_packet_filter_group : List Item
ethernet_packet_filter_group =
    one pfcp_ie_ethernet_filter_id
    ∷ one pfcp_ie_ethernet_filter_properties
    ∷ one pfcp_ie_mac_address
    ∷ one pfcp_ie_ethertype
    ∷ one pfcp_ie_c_tag
    ∷ one pfcp_ie_s_tag
    ∷ many pfcp_ie_sdf_filter
    ∷ []

abbrev pub ethernet_traffic_information_group : List Item
ethernet_traffic_information_group =
    one pfcp_ie_mac_addresses_detected ∷ one pfcp_ie_mac_addresses_removed ∷ []

abbrev pub additional_monitoring_time_group : List Item
additional_monitoring_time_group =
    one pfcp_ie_monitoring_time
    ∷ one pfcp_ie_subsequent_volume_threshold
    ∷ one pfcp_ie_subsequent_time_threshold
    ∷ one pfcp_ie_subsequent_volume_quota
    ∷ one pfcp_ie_subsequent_time_quota
    ∷ []

abbrev pub create_mar_group : List Item
create_mar_group =
    one pfcp_ie_mar_id
    ∷ one pfcp_ie_steering_functionality
    ∷ one pfcp_ie_steering_mode
    ∷ one pfcp_ie_access_forwarding_action_information_1
    ∷ one pfcp_ie_access_forwarding_action_information_2
    ∷ []

abbrev pub access_forwarding_action_information_group : List Item
access_forwarding_action_information_group =
    one pfcp_ie_far_id ∷ one pfcp_ie_weight ∷ one pfcp_ie_priority ∷ one pfcp_ie_urr_id ∷ []

abbrev pub remove_mar_group : List Item
remove_mar_group = one pfcp_ie_mar_id ∷ []

abbrev pub update_mar_group : List Item
update_mar_group =
    one pfcp_ie_mar_id
    ∷ one pfcp_ie_steering_functionality
    ∷ one pfcp_ie_steering_mode
    ∷ one pfcp_ie_update_access_forwarding_action_information_1
    ∷ one pfcp_ie_update_access_forwarding_action_information_2
    ∷ one pfcp_ie_access_forwarding_action_information_1
    ∷ one pfcp_ie_access_forwarding_action_information_2
    ∷ []

abbrev pub update_access_forwarding_action_information_group : List Item
update_access_forwarding_action_information_group =
    one pfcp_ie_far_id ∷ one pfcp_ie_weight ∷ one pfcp_ie_priority ∷ one pfcp_ie_urr_id ∷ []

abbrev pub ue_ip_address_pool_group : List Item
ue_ip_address_pool_group =
    one pfcp_ie_ue_ip_address_pool_identity
    ∷ one pfcp_ie_network_instance
    ∷ one pfcp_ie_ip_version
    ∷ many_of vendor_bbf pfcp_ie_bbf_nat_port_block
    ∷ []
