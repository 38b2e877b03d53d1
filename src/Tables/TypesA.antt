-- ===== src/Tables/TypesA.antt =====
-- Types of the 3GPP IEs in upf/pfcp.h, the first third.
use upg_vpp_tr.Base.{ℕ}

abbrev pub pfcp_ie_create_pdr : ℕ
pfcp_ie_create_pdr = 1

abbrev pub pfcp_ie_pdi : ℕ
pfcp_ie_pdi = 2

abbrev pub pfcp_ie_create_far : ℕ
pfcp_ie_create_far = 3

abbrev pub pfcp_ie_forwarding_parameters : ℕ
pfcp_ie_forwarding_parameters = 4

abbrev pub pfcp_ie_duplicating_parameters : ℕ
pfcp_ie_duplicating_parameters = 5

abbrev pub pfcp_ie_create_urr : ℕ
pfcp_ie_create_urr = 6

abbrev pub pfcp_ie_create_qer : ℕ
pfcp_ie_create_qer = 7

abbrev pub pfcp_ie_created_pdr : ℕ
pfcp_ie_created_pdr = 8

abbrev pub pfcp_ie_update_pdr : ℕ
pfcp_ie_update_pdr = 9

abbrev pub pfcp_ie_update_far : ℕ
pfcp_ie_update_far = 10

abbrev pub pfcp_ie_update_forwarding_parameters : ℕ
pfcp_ie_update_forwarding_parameters = 11

abbrev pub pfcp_ie_update_bar_response : ℕ
pfcp_ie_update_bar_response = 12

abbrev pub pfcp_ie_update_urr : ℕ
pfcp_ie_update_urr = 13

abbrev pub pfcp_ie_update_qer : ℕ
pfcp_ie_update_qer = 14

abbrev pub pfcp_ie_remove_pdr : ℕ
pfcp_ie_remove_pdr = 15

abbrev pub pfcp_ie_remove_far : ℕ
pfcp_ie_remove_far = 16

abbrev pub pfcp_ie_remove_urr : ℕ
pfcp_ie_remove_urr = 17

abbrev pub pfcp_ie_remove_qer : ℕ
pfcp_ie_remove_qer = 18

abbrev pub pfcp_ie_cause : ℕ
pfcp_ie_cause = 19

abbrev pub pfcp_ie_source_interface : ℕ
pfcp_ie_source_interface = 20

abbrev pub pfcp_ie_f_teid : ℕ
pfcp_ie_f_teid = 21

abbrev pub pfcp_ie_network_instance : ℕ
pfcp_ie_network_instance = 22

abbrev pub pfcp_ie_sdf_filter : ℕ
pfcp_ie_sdf_filter = 23

abbrev pub pfcp_ie_application_id : ℕ
pfcp_ie_application_id = 24

abbrev pub pfcp_ie_gate_status : ℕ
pfcp_ie_gate_status = 25

abbrev pub pfcp_ie_mbr : ℕ
pfcp_ie_mbr = 26

abbrev pub pfcp_ie_gbr : ℕ
pfcp_ie_gbr = 27

abbrev pub pfcp_ie_qer_correlation_id : ℕ
pfcp_ie_qer_correlation_id = 28

abbrev pub pfcp_ie_precedence : ℕ
pfcp_ie_precedence = 29

abbrev pub pfcp_ie_transport_level_marking : ℕ
pfcp_ie_transport_level_marking = 30

abbrev pub pfcp_ie_volume_threshold : ℕ
pfcp_ie_volume_threshold = 31

abbrev pub pfcp_ie_time_threshold : ℕ
pfcp_ie_time_threshold = 32

abbrev pub pfcp_ie_monitoring_time : ℕ
pfcp_ie_monitoring_time = 33

abbrev pub pfcp_ie_subsequent_volume_threshold : ℕ
pfcp_ie_subsequent_volume_threshold = 34

abbrev pub pfcp_ie_subsequent_time_threshold : ℕ
pfcp_ie_subsequent_time_threshold = 35

abbrev pub pfcp_ie_inactivity_detection_time : ℕ
pfcp_ie_inactivity_detection_time = 36

abbrev pub pfcp_ie_reporting_triggers : ℕ
pfcp_ie_reporting_triggers = 37

abbrev pub pfcp_ie_redirect_information : ℕ
pfcp_ie_redirect_information = 38

abbrev pub pfcp_ie_report_type : ℕ
pfcp_ie_report_type = 39

abbrev pub pfcp_ie_offending_ie : ℕ
pfcp_ie_offending_ie = 40

abbrev pub pfcp_ie_forwarding_policy : ℕ
pfcp_ie_forwarding_policy = 41

abbrev pub pfcp_ie_destination_interface : ℕ
pfcp_ie_destination_interface = 42

abbrev pub pfcp_ie_up_function_features : ℕ
pfcp_ie_up_function_features = 43

abbrev pub pfcp_ie_apply_action : ℕ
pfcp_ie_apply_action = 44

abbrev pub pfcp_ie_downlink_data_service_information : ℕ
pfcp_ie_downlink_data_service_information = 45

abbrev pub pfcp_ie_downlink_data_notification_delay : ℕ
pfcp_ie_downlink_data_notification_delay = 46

abbrev pub pfcp_ie_dl_buffering_duration : ℕ
pfcp_ie_dl_buffering_duration = 47

abbrev pub pfcp_ie_dl_buffering_suggested_packet_count : ℕ
pfcp_ie_dl_buffering_suggested_packet_count = 48

abbrev pub pfcp_ie_pfcpsmreq_flags : ℕ
pfcp_ie_pfcpsmreq_flags = 49

abbrev pub pfcp_ie_pfcpsrrsp_flags : ℕ
pfcp_ie_pfcpsrrsp_flags = 50

abbrev pub pfcp_ie_load_control_information : ℕ
pfcp_ie_load_control_information = 51

abbrev pub pfcp_ie_sequence_number : ℕ
pfcp_ie_sequence_number = 52

abbrev pub pfcp_ie_metric : ℕ
pfcp_ie_metric = 53

abbrev pub pfcp_ie_overload_control_information : ℕ
pfcp_ie_overload_control_information = 54

abbrev pub pfcp_ie_timer : ℕ
pfcp_ie_timer = 55

abbrev pub pfcp_ie_pdr_id : ℕ
pfcp_ie_pdr_id = 56

abbrev pub pfcp_ie_f_seid : ℕ
pfcp_ie_f_seid = 57

abbrev pub pfcp_ie_application_id_pfds : ℕ
pfcp_ie_application_id_pfds = 58

abbrev pub pfcp_ie_pfd : ℕ
pfcp_ie_pfd = 59

abbrev pub pfcp_ie_node_id : ℕ
pfcp_ie_node_id = 60

abbrev pub pfcp_ie_pfd_contents : ℕ
pfcp_ie_pfd_contents = 61

abbrev pub pfcp_ie_measurement_method : ℕ
pfcp_ie_measurement_method = 62

abbrev pub pfcp_ie_usage_report_trigger : ℕ
pfcp_ie_usage_report_trigger = 63

abbrev pub pfcp_ie_measurement_period : ℕ
pfcp_ie_measurement_period = 64

abbrev pub pfcp_ie_fq_csid : ℕ
pfcp_ie_fq_csid = 65

abbrev pub pfcp_ie_volume_measurement : ℕ
pfcp_ie_volume_measurement = 66
