-- ===== src/Tables/TypesC.antt =====
-- Types of the 3GPP IEs in upf/pfcp.h, the last third.
use upg_vpp_tr.Base.{ℕ}

abbrev pub pfcp_ie_traffic_endpoint_id : ℕ
pfcp_ie_traffic_endpoint_id = 131

abbrev pub pfcp_ie_ethernet_packet_filter : ℕ
pfcp_ie_ethernet_packet_filter = 132

abbrev pub pfcp_ie_mac_address : ℕ
pfcp_ie_mac_address = 133

abbrev pub pfcp_ie_c_tag : ℕ
pfcp_ie_c_tag = 134

abbrev pub pfcp_ie_s_tag : ℕ
pfcp_ie_s_tag = 135

abbrev pub pfcp_ie_ethertype : ℕ
pfcp_ie_ethertype = 136

abbrev pub pfcp_ie_proxying : ℕ
pfcp_ie_proxying = 137

abbrev pub pfcp_ie_ethernet_filter_id : ℕ
pfcp_ie_ethernet_filter_id = 138

abbrev pub pfcp_ie_ethernet_filter_properties : ℕ
pfcp_ie_ethernet_filter_properties = 139

abbrev pub pfcp_ie_suggested_buffering_packets_count : ℕ
pfcp_ie_suggested_buffering_packets_count = 140

abbrev pub pfcp_ie_user_id : ℕ
pfcp_ie_user_id = 141

abbrev pub pfcp_ie_ethernet_pdu_session_information : ℕ
pfcp_ie_ethernet_pdu_session_information = 142

abbrev pub pfcp_ie_ethernet_traffic_information : ℕ
pfcp_ie_ethernet_traffic_information = 143

abbrev pub pfcp_ie_mac_addresses_detected : ℕ
pfcp_ie_mac_addresses_detected = 144

abbrev pub pfcp_ie_mac_addresses_removed : ℕ
pfcp_ie_mac_addresses_removed = 145

abbrev pub pfcp_ie_ethernet_inactivity_timer : ℕ
pfcp_ie_ethernet_inactivity_timer = 146

abbrev pub pfcp_ie_additional_monitoring_time : ℕ
pfcp_ie_additional_monitoring_time = 147

abbrev pub pfcp_ie_event_quota : ℕ
pfcp_ie_event_quota = 148

abbrev pub pfcp_ie_event_threshold : ℕ
pfcp_ie_event_threshold = 149

abbrev pub pfcp_ie_subsequent_event_quota : ℕ
pfcp_ie_subsequent_event_quota = 150

abbrev pub pfcp_ie_subsequent_event_threshold : ℕ
pfcp_ie_subsequent_event_threshold = 151

abbrev pub pfcp_ie_trace_information : ℕ
pfcp_ie_trace_information = 152

abbrev pub pfcp_ie_framed_route : ℕ
pfcp_ie_framed_route = 153

abbrev pub pfcp_ie_framed_routing : ℕ
pfcp_ie_framed_routing = 154

abbrev pub pfcp_ie_framed_ipv6_route : ℕ
pfcp_ie_framed_ipv6_route = 155

abbrev pub pfcp_ie_event_time_stamp : ℕ
pfcp_ie_event_time_stamp = 156

abbrev pub pfcp_ie_averaging_window : ℕ
pfcp_ie_averaging_window = 157

abbrev pub pfcp_ie_paging_policy_indicator : ℕ
pfcp_ie_paging_policy_indicator = 158

abbrev pub pfcp_ie_apn_dnn : ℕ
pfcp_ie_apn_dnn = 159

abbrev pub pfcp_ie_tgpp_interface_type : ℕ
pfcp_ie_tgpp_interface_type = 160

abbrev pub pfcp_ie_pfcpsrreq_flags : ℕ
pfcp_ie_pfcpsrreq_flags = 161

abbrev pub pfcp_ie_pfcpaureq_flags : ℕ
pfcp_ie_pfcpaureq_flags = 162

abbrev pub pfcp_ie_activation_time : ℕ
pfcp_ie_activation_time = 163

abbrev pub pfcp_ie_deactivation_time : ℕ
pfcp_ie_deactivation_time = 164

abbrev pub pfcp_ie_create_mar : ℕ
pfcp_ie_create_mar = 165

abbrev pub pfcp_ie_access_forwarding_action_information_1 : ℕ
pfcp_ie_access_forwarding_action_information_1 = 166

abbrev pub pfcp_ie_access_forwarding_action_information_2 : ℕ
pfcp_ie_access_forwarding_action_information_2 = 167

abbrev pub pfcp_ie_remove_mar : ℕ
pfcp_ie_remove_mar = 168

abbrev pub pfcp_ie_update_mar : ℕ
pfcp_ie_update_mar = 169

abbrev pub pfcp_ie_mar_id : ℕ
pfcp_ie_mar_id = 170

abbrev pub pfcp_ie_steering_functionality : ℕ
pfcp_ie_steering_functionality = 171

abbrev pub pfcp_ie_steering_mode : ℕ
pfcp_ie_steering_mode = 172

abbrev pub pfcp_ie_weight : ℕ
pfcp_ie_weight = 173

abbrev pub pfcp_ie_priority : ℕ
pfcp_ie_priority = 174

abbrev pub pfcp_ie_update_access_forwarding_action_information_1 : ℕ
pfcp_ie_update_access_forwarding_action_information_1 = 175

abbrev pub pfcp_ie_update_access_forwarding_action_information_2 : ℕ
pfcp_ie_update_access_forwarding_action_information_2 = 176

abbrev pub pfcp_ie_ue_ip_address_pool_identity : ℕ
pfcp_ie_ue_ip_address_pool_identity = 177

abbrev pub pfcp_ie_alternative_smf_ip_address : ℕ
pfcp_ie_alternative_smf_ip_address = 178

abbrev pub pfcp_ie_quota_validity_time : ℕ
pfcp_ie_quota_validity_time = 181

abbrev pub pfcp_ie_ue_ip_address_pool_information : ℕ
pfcp_ie_ue_ip_address_pool_information = 233

abbrev pub pfcp_ie_ip_version : ℕ
pfcp_ie_ip_version = 258

abbrev pub pfcp_ie_packet_report : ℕ
pfcp_ie_packet_report = 180

abbrev pub pfcp_ie_traffic_report_packet_type : ℕ
pfcp_ie_traffic_report_packet_type = 181

abbrev pub pfcp_ie_traffic_report_packet_header : ℕ
pfcp_ie_traffic_report_packet_header = 182

abbrev pub pfcp_ie_traffic_report_packet_data : ℕ
pfcp_ie_traffic_report_packet_data = 183
