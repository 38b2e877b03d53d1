-- ===== src/Tables/SpecsC.antt =====
-- Part of `tgpp_specs` of upf/pfcp.c, in the order of the source.
use upg_vpp_tr.Base.{ℕ, ◌^◌, List, [], ◌∷◌}
use upg_vpp_tr.Tables.Codec.{
  Shape, simple, members, activation_time, additional_usage_reports_information,
  alternative_smf_ip_address, apn_dnn, averaging_window, c_tag, deactivation_time,
  ethernet_filter_id, ethernet_filter_properties, ethernet_inactivity_timer,
  ethernet_pdu_session_information, ethertype, event_quota, event_threshold, event_time_stamp,
  fatemeh_packet_data, fatemeh_packet_header, fatemeh_packet_type, framed_ipv6_route, framed_route,
  framed_routing, ip_version, mac_addresses_detected, mac_addresses_removed, mar_id,
  paging_policy_indicator, pfcp_mac_address, pfcpaureq_flags, pfcpsrreq_flags, priority, proxying,
  quota_validity_time, s_tag, steering_functionality, steering_mode, subsequent_event_quota,
  subsequent_event_threshold, suggested_buffering_packets_count, tgpp_interface_type,
  trace_information, traffic_endpoint_id, ue_ip_address_pool_identity, user_id, weight,
}
use upg_vpp_tr.Tables.TypesB.{
  pfcp_ie_additional_usage_reports_information, pfcp_ie_create_traffic_endpoint,
  pfcp_ie_created_traffic_endpoint, pfcp_ie_remove_traffic_endpoint,
  pfcp_ie_update_traffic_endpoint,
}
use upg_vpp_tr.Tables.TypesC.{
  pfcp_ie_access_forwarding_action_information_1, pfcp_ie_access_forwarding_action_information_2,
  pfcp_ie_activation_time, pfcp_ie_additional_monitoring_time, pfcp_ie_alternative_smf_ip_address,
  pfcp_ie_apn_dnn, pfcp_ie_averaging_window, pfcp_ie_c_tag, pfcp_ie_create_mar,
  pfcp_ie_deactivation_time, pfcp_ie_ethernet_filter_id, pfcp_ie_ethernet_filter_properties,
  pfcp_ie_ethernet_inactivity_timer, pfcp_ie_ethernet_packet_filter,
  pfcp_ie_ethernet_pdu_session_information, pfcp_ie_ethernet_traffic_information, pfcp_ie_ethertype,
  pfcp_ie_event_quota, pfcp_ie_event_threshold, pfcp_ie_event_time_stamp, pfcp_ie_framed_ipv6_route,
  pfcp_ie_framed_route, pfcp_ie_framed_routing, pfcp_ie_ip_version, pfcp_ie_mac_address,
  pfcp_ie_mac_addresses_detected, pfcp_ie_mac_addresses_removed, pfcp_ie_mar_id,
  pfcp_ie_packet_report, pfcp_ie_paging_policy_indicator, pfcp_ie_pfcpaureq_flags,
  pfcp_ie_pfcpsrreq_flags, pfcp_ie_priority, pfcp_ie_proxying, pfcp_ie_quota_validity_time,
  pfcp_ie_remove_mar, pfcp_ie_s_tag, pfcp_ie_steering_functionality, pfcp_ie_steering_mode,
  pfcp_ie_subsequent_event_quota, pfcp_ie_subsequent_event_threshold,
  pfcp_ie_suggested_buffering_packets_count, pfcp_ie_tgpp_interface_type, pfcp_ie_trace_information,
  pfcp_ie_traffic_endpoint_id, pfcp_ie_traffic_report_packet_data,
  pfcp_ie_traffic_report_packet_header, pfcp_ie_traffic_report_packet_type,
  pfcp_ie_ue_ip_address_pool_identity, pfcp_ie_ue_ip_address_pool_information,
  pfcp_ie_update_access_forwarding_action_information_1,
  pfcp_ie_update_access_forwarding_action_information_2, pfcp_ie_update_mar, pfcp_ie_user_id,
  pfcp_ie_weight,
}
use upg_vpp_tr.Tables.GroupsC.{packet_report_group}
use upg_vpp_tr.Tables.GroupsD.{
  access_forwarding_action_information_group, additional_monitoring_time_group, create_mar_group,
  create_traffic_endpoint_group, created_traffic_endpoint_group, ethernet_packet_filter_group,
  ethernet_traffic_information_group, remove_mar_group, remove_traffic_endpoint_group,
  ue_ip_address_pool_group, update_access_forwarding_action_information_group, update_mar_group,
  update_traffic_endpoint_group,
}

abbrev pub traffic_specs : List (ℕ × Shape)
traffic_specs =
    (pfcp_ie_additional_usage_reports_information, simple additional_usage_reports_information)
    ∷ (pfcp_ie_create_traffic_endpoint, members (2 ^ 0) create_traffic_endpoint_group)
    ∷ (pfcp_ie_created_traffic_endpoint, members (2 ^ 0) created_traffic_endpoint_group)
    ∷ (pfcp_ie_update_traffic_endpoint, members (2 ^ 0) update_traffic_endpoint_group)
    ∷ (pfcp_ie_remove_traffic_endpoint, members (2 ^ 0) remove_traffic_endpoint_group)
    ∷ (pfcp_ie_traffic_endpoint_id, simple traffic_endpoint_id)
    ∷ (pfcp_ie_ethernet_packet_filter, members 0 ethernet_packet_filter_group)
    ∷ (pfcp_ie_mac_address, simple pfcp_mac_address)
    ∷ (pfcp_ie_c_tag, simple c_tag)
    ∷ (pfcp_ie_s_tag, simple s_tag)
    ∷ (pfcp_ie_ethertype, simple ethertype)
    ∷ (pfcp_ie_proxying, simple proxying)
    ∷ (pfcp_ie_ethernet_filter_id, simple ethernet_filter_id)
    ∷ (pfcp_ie_ethernet_filter_properties, simple ethernet_filter_properties)
    ∷ (pfcp_ie_suggested_buffering_packets_count, simple suggested_buffering_packets_count)
    ∷ (pfcp_ie_user_id, simple user_id)
    ∷ (pfcp_ie_ethernet_pdu_session_information, simple ethernet_pdu_session_information)
    ∷ (pfcp_ie_ethernet_traffic_information, members 0 ethernet_traffic_information_group)
    ∷ (pfcp_ie_mac_addresses_detected, simple mac_addresses_detected)
    ∷ (pfcp_ie_mac_addresses_removed, simple mac_addresses_removed)
    ∷ (pfcp_ie_ethernet_inactivity_timer, simple ethernet_inactivity_timer)
    ∷ (pfcp_ie_additional_monitoring_time, members 0 additional_monitoring_time_group)
    ∷ (pfcp_ie_event_quota, simple event_quota)
    ∷ (pfcp_ie_event_threshold, simple event_threshold)
    ∷ (pfcp_ie_subsequent_event_quota, simple subsequent_event_quota)
    ∷ (pfcp_ie_subsequent_event_threshold, simple subsequent_event_threshold)
    ∷ (pfcp_ie_trace_information, simple trace_information)
    ∷ (pfcp_ie_framed_route, simple framed_route)
    ∷ (pfcp_ie_framed_routing, simple framed_routing)
    ∷ (pfcp_ie_framed_ipv6_route, simple framed_ipv6_route)
    ∷ (pfcp_ie_event_time_stamp, simple event_time_stamp)
    ∷ (pfcp_ie_averaging_window, simple averaging_window)
    ∷ (pfcp_ie_paging_policy_indicator, simple paging_policy_indicator)
    ∷ (pfcp_ie_apn_dnn, simple apn_dnn)
    ∷ (pfcp_ie_tgpp_interface_type, simple tgpp_interface_type)
    ∷ (pfcp_ie_pfcpsrreq_flags, simple pfcpsrreq_flags)
    ∷ (pfcp_ie_pfcpaureq_flags, simple pfcpaureq_flags)
    ∷ (pfcp_ie_activation_time, simple activation_time)
    ∷ (pfcp_ie_deactivation_time, simple deactivation_time)
    ∷ (pfcp_ie_create_mar, members 0 create_mar_group)
    ∷ (
      pfcp_ie_access_forwarding_action_information_1,
      members 0 access_forwarding_action_information_group,
    )
    ∷ (
      pfcp_ie_access_forwarding_action_information_2,
      members 0 access_forwarding_action_information_group,
    )
    ∷ (pfcp_ie_remove_mar, members 0 remove_mar_group)
    ∷ (pfcp_ie_update_mar, members 0 update_mar_group)
    ∷ (pfcp_ie_mar_id, simple mar_id)
    ∷ (pfcp_ie_steering_functionality, simple steering_functionality)
    ∷ (pfcp_ie_steering_mode, simple steering_mode)
    ∷ (pfcp_ie_weight, simple weight)
    ∷ (pfcp_ie_priority, simple priority)
    ∷ (
      pfcp_ie_update_access_forwarding_action_information_1,
      members 0 update_access_forwarding_action_information_group,
    )
    ∷ (
      pfcp_ie_update_access_forwarding_action_information_2,
      members 0 update_access_forwarding_action_information_group,
    )
    ∷ (pfcp_ie_ue_ip_address_pool_identity, simple ue_ip_address_pool_identity)
    ∷ (pfcp_ie_alternative_smf_ip_address, simple alternative_smf_ip_address)
    ∷ (pfcp_ie_quota_validity_time, simple quota_validity_time)
    ∷ (pfcp_ie_ue_ip_address_pool_information, members 0 ue_ip_address_pool_group)
    ∷ (pfcp_ie_ip_version, simple ip_version)
    ∷ (pfcp_ie_packet_report, members (2 ^ 0) packet_report_group)
    ∷ (pfcp_ie_traffic_report_packet_type, simple fatemeh_packet_type)
    ∷ (pfcp_ie_traffic_report_packet_header, simple fatemeh_packet_header)
    ∷ (pfcp_ie_traffic_report_packet_data, simple fatemeh_packet_data)
    ∷ []
