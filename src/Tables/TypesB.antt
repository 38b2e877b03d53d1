-- ===== src/Tables/TypesB.antt =====
-- Types of the 3GPP IEs in upf/pfcp.h, the second third.
use upg_vpp_tr.Base.{ℕ}

abbrev pub pfcp_ie_duration_measurement : ℕ
pfcp_ie_duration_measurement = 67

abbrev pub pfcp_ie_application_detection_information : ℕ
pfcp_ie_application_detection_information = 68

abbrev pub pfcp_ie_time_of_first_packet : ℕ
pfcp_ie_time_of_first_packet = 69

abbrev pub pfcp_ie_time_of_last_packet : ℕ
pfcp_ie_time_of_last_packet = 70

abbrev pub pfcp_ie_quota_holding_time : ℕ
pfcp_ie_quota_holding_time = 71

abbrev pub pfcp_ie_dropped_dl_traffic_threshold : ℕ
pfcp_ie_dropped_dl_traffic_threshold = 72

abbrev pub pfcp_ie_volume_quota : ℕ
pfcp_ie_volume_quota = 73

abbrev pub pfcp_ie_time_quota : ℕ
pfcp_ie_time_quota = 74

abbrev pub pfcp_ie_start_time : ℕ
pfcp_ie_start_time = 75

abbrev pub pfcp_ie_end_time : ℕ
pfcp_ie_end_time = 76

abbrev pub pfcp_ie_query_urr : ℕ
pfcp_ie_query_urr = 77

abbrev pub pfcp_ie_usage_report_smr : ℕ
pfcp_ie_usage_report_smr = 78

abbrev pub pfcp_ie_usage_report_sdr : ℕ
pfcp_ie_usage_report_sdr = 79

abbrev pub pfcp_ie_usage_report_srr : ℕ
pfcp_ie_usage_report_srr = 80

abbrev pub pfcp_ie_urr_id : ℕ
pfcp_ie_urr_id = 81

abbrev pub pfcp_ie_linked_urr_id : ℕ
pfcp_ie_linked_urr_id = 82

abbrev pub pfcp_ie_downlink_data_report : ℕ
pfcp_ie_downlink_data_report = 83

abbrev pub pfcp_ie_outer_header_creation : ℕ
pfcp_ie_outer_header_creation = 84

abbrev pub pfcp_ie_create_bar : ℕ
pfcp_ie_create_bar = 85

abbrev pub pfcp_ie_update_bar_request : ℕ
pfcp_ie_update_bar_request = 86

abbrev pub pfcp_ie_remove_bar : ℕ
pfcp_ie_remove_bar = 87

abbrev pub pfcp_ie_bar_id : ℕ
pfcp_ie_bar_id = 88

abbrev pub pfcp_ie_cp_function_features : ℕ
pfcp_ie_cp_function_features = 89

abbrev pub pfcp_ie_usage_information : ℕ
pfcp_ie_usage_information = 90

abbrev pub pfcp_ie_application_instance_id : ℕ
pfcp_ie_application_instance_id = 91

abbrev pub pfcp_ie_flow_information : ℕ
pfcp_ie_flow_information = 92

abbrev pub pfcp_ie_ue_ip_address : ℕ
pfcp_ie_ue_ip_address = 93

abbrev pub pfcp_ie_packet_rate : ℕ
pfcp_ie_packet_rate = 94

abbrev pub pfcp_ie_outer_header_removal : ℕ
pfcp_ie_outer_header_removal = 95

abbrev pub pfcp_ie_recovery_time_stamp : ℕ
pfcp_ie_recovery_time_stamp = 96

abbrev pub pfcp_ie_dl_flow_level_marking : ℕ
pfcp_ie_dl_flow_level_marking = 97

abbrev pub pfcp_ie_header_enrichment : ℕ
pfcp_ie_header_enrichment = 98

abbrev pub pfcp_ie_error_indication_report : ℕ
pfcp_ie_error_indication_report = 99

abbrev pub pfcp_ie_measurement_information : ℕ
pfcp_ie_measurement_information = 100

abbrev pub pfcp_ie_node_report_type : ℕ
pfcp_ie_node_report_type = 101

abbrev pub pfcp_ie_user_plane_path_failure_report : ℕ
pfcp_ie_user_plane_path_failure_report = 102

abbrev pub pfcp_ie_remote_gtp_u_peer : ℕ
pfcp_ie_remote_gtp_u_peer = 103

abbrev pub pfcp_ie_ur_seqn : ℕ
pfcp_ie_ur_seqn = 104

abbrev pub pfcp_ie_update_duplicating_parameters : ℕ
pfcp_ie_update_duplicating_parameters = 105

abbrev pub pfcp_ie_activate_predefined_rules : ℕ
pfcp_ie_activate_predefined_rules = 106

abbrev pub pfcp_ie_deactivate_predefined_rules : ℕ
pfcp_ie_deactivate_predefined_rules = 107

abbrev pub pfcp_ie_far_id : ℕ
pfcp_ie_far_id = 108

abbrev pub pfcp_ie_qer_id : ℕ
pfcp_ie_qer_id = 109

abbrev pub pfcp_ie_oci_flags : ℕ
pfcp_ie_oci_flags = 110

abbrev pub pfcp_ie_pfcp_association_release_request : ℕ
pfcp_ie_pfcp_association_release_request = 111

abbrev pub pfcp_ie_graceful_release_period : ℕ
pfcp_ie_graceful_release_period = 112

abbrev pub pfcp_ie_pdn_type : ℕ
pfcp_ie_pdn_type = 113

abbrev pub pfcp_ie_failed_rule_id : ℕ
pfcp_ie_failed_rule_id = 114

abbrev pub pfcp_ie_time_quota_mechanism : ℕ
pfcp_ie_time_quota_mechanism = 115

abbrev pub pfcp_ie_user_plane_ip_resource_information : ℕ
pfcp_ie_user_plane_ip_resource_information = 116

abbrev pub pfcp_ie_user_plane_inactivity_timer : ℕ
pfcp_ie_user_plane_inactivity_timer = 117

abbrev pub pfcp_ie_aggregated_urrs : ℕ
pfcp_ie_aggregated_urrs = 118

abbrev pub pfcp_ie_multiplier : ℕ
pfcp_ie_multiplier = 119

abbrev pub pfcp_ie_aggregated_urr_id : ℕ
pfcp_ie_aggregated_urr_id = 120

abbrev pub pfcp_ie_subsequent_volume_quota : ℕ
pfcp_ie_subsequent_volume_quota = 121

abbrev pub pfcp_ie_subsequent_time_quota : ℕ
pfcp_ie_subsequent_time_quota = 122

abbrev pub pfcp_ie_rqi : ℕ
pfcp_ie_rqi = 123

abbrev pub pfcp_ie_qfi : ℕ
pfcp_ie_qfi = 124

abbrev pub pfcp_ie_query_urr_reference : ℕ
pfcp_ie_query_urr_reference = 125

abbrev pub pfcp_ie_additional_usage_reports_information : ℕ
pfcp_ie_additional_usage_reports_information = 126

abbrev pub pfcp_ie_create_traffic_endpoint : ℕ
pfcp_ie_create_traffic_endpoint = 127

abbrev pub pfcp_ie_created_traffic_endpoint : ℕ
pfcp_ie_created_traffic_endpoint = 128

abbrev pub pfcp_ie_update_traffic_endpoint : ℕ
pfcp_ie_update_traffic_endpoint = 129

abbrev pub pfcp_ie_remove_traffic_endpoint : ℕ
pfcp_ie_remove_traffic_endpoint = 130
