-- ===== src/Tables/MessagesA.antt =====
-- Tables of the groups of messages in upf/pfcp.c, `pfcp_simple_response_group` to `pfcp_session_establishment_response_group`.
use upg_vpp_tr.Base.{List, [], ◌∷◌}
use upg_vpp_tr.Group.{Item, vendor_bbf, vendor_travelping}
use upg_vpp_tr.Tables.Items.{no_item, one, many, one_of}
use upg_vpp_tr.Tables.TypesA.{
  pfcp_ie_application_id_pfds, pfcp_ie_cause, pfcp_ie_create_far, pfcp_ie_create_pdr,
  pfcp_ie_create_qer, pfcp_ie_create_urr, pfcp_ie_created_pdr, pfcp_ie_f_seid, pfcp_ie_fq_csid,
  pfcp_ie_load_control_information, pfcp_ie_node_id, pfcp_ie_offending_ie,
  pfcp_ie_overload_control_information, pfcp_ie_up_function_features,
}
use upg_vpp_tr.Tables.TypesB.{
  pfcp_ie_cp_function_features, pfcp_ie_create_bar, pfcp_ie_create_traffic_endpoint,
  pfcp_ie_created_traffic_endpoint, pfcp_ie_failed_rule_id, pfcp_ie_graceful_release_period,
  pfcp_ie_node_report_type, pfcp_ie_pdn_type, pfcp_ie_pfcp_association_release_request,
  pfcp_ie_recovery_time_stamp, pfcp_ie_user_plane_inactivity_timer,
  pfcp_ie_user_plane_ip_resource_information, pfcp_ie_user_plane_path_failure_report,
}
use upg_vpp_tr.Tables.TypesC.{
  pfcp_ie_alternative_smf_ip_address, pfcp_ie_apn_dnn, pfcp_ie_create_mar, pfcp_ie_pfcpaureq_flags,
  pfcp_ie_trace_information, pfcp_ie_ue_ip_address_pool_information, pfcp_ie_user_id,
}
use upg_vpp_tr.Tables.TypesVendor.{
  pfcp_ie_bbf_up_function_features, pfcp_ie_tp_build_id, pfcp_ie_tp_created_nat_binding,
  pfcp_ie_tp_error_report,
}

abbrev pub simple_response_group : List Item
simple_response_group =
    no_item
    ∷ one pfcp_ie_cause
    ∷ one pfcp_ie_offending_ie
    ∷ one pfcp_ie_recovery_time_stamp
    ∷ one_of vendor_travelping pfcp_ie_tp_error_report
    ∷ []

abbrev pub heartbeat_request_group : List Item
heartbeat_request_group = one pfcp_ie_recovery_time_stamp ∷ []

abbrev pub pfd_management_request_group : List Item
pfd_management_request_group = many pfcp_ie_application_id_pfds ∷ []

abbrev pub association_setup_request_group : List Item
association_setup_request_group =
    one pfcp_ie_node_id
    ∷ one pfcp_ie_recovery_time_stamp
    ∷ one pfcp_ie_up_function_features
    ∷ one pfcp_ie_cp_function_features
    ∷ many pfcp_ie_user_plane_ip_resource_information
    ∷ many pfcp_ie_ue_ip_address_pool_information
    ∷ one_of vendor_travelping pfcp_ie_tp_build_id
    ∷ many pfcp_ie_alternative_smf_ip_address
    ∷ []

abbrev pub association_setup_response_group : List Item
association_setup_response_group =
    one pfcp_ie_node_id
    ∷ one pfcp_ie_cause
    ∷ one pfcp_ie_recovery_time_stamp
    ∷ one pfcp_ie_up_function_features
    ∷ one pfcp_ie_cp_function_features
    ∷ one_of vendor_bbf pfcp_ie_bbf_up_function_features
    ∷ many pfcp_ie_ue_ip_address_pool_information
    ∷ many pfcp_ie_user_plane_ip_resource_information
    ∷ one_of vendor_travelping pfcp_ie_tp_error_report
    ∷ one_of vendor_travelping pfcp_ie_tp_build_id
    ∷ []

abbrev pub association_update_request_group : List Item
association_update_request_group =
    one pfcp_ie_node_id
    ∷ one pfcp_ie_cp_function_features
    ∷ one pfcp_ie_up_function_features
    ∷ one pfcp_ie_pfcp_association_release_request
    ∷ one pfcp_ie_graceful_release_period
    ∷ many pfcp_ie_ue_ip_address_pool_information
    ∷ many pfcp_ie_user_plane_ip_resource_information
    ∷ one pfcp_ie_pfcpaureq_flags
    ∷ no_item
    ∷ many pfcp_ie_alternative_smf_ip_address
    ∷ []

abbrev pub association_update_response_group : List Item
association_update_response_group =
    one pfcp_ie_node_id
    ∷ one pfcp_ie_cause
    ∷ no_item
    ∷ one pfcp_ie_up_function_features
    ∷ one pfcp_ie_cp_function_features
    ∷ no_item
    ∷ no_item
    ∷ no_item
    ∷ one_of vendor_travelping pfcp_ie_tp_error_report
    ∷ []

abbrev pub association_release_request_group : List Item
association_release_request_group = one pfcp_ie_node_id ∷ []

abbrev pub node_report_request_group : List Item
node_report_request_group =
    one pfcp_ie_node_id
    ∷ one pfcp_ie_node_report_type
    ∷ one pfcp_ie_user_plane_path_failure_report
    ∷ []

abbrev pub session_set_deletion_request_group : List Item
session_set_deletion_request_group = one pfcp_ie_node_id ∷ many pfcp_ie_fq_csid ∷ []

abbrev pub session_establishment_request_group : List Item
session_establishment_request_group =
    one pfcp_ie_node_id
    ∷ one pfcp_ie_f_seid
    ∷ many pfcp_ie_create_pdr
    ∷ many pfcp_ie_create_far
    ∷ many pfcp_ie_create_urr
    ∷ many pfcp_ie_create_qer
    ∷ many pfcp_ie_create_bar
    ∷ many pfcp_ie_create_traffic_endpoint
    ∷ one pfcp_ie_pdn_type
    ∷ many pfcp_ie_fq_csid
    ∷ one pfcp_ie_user_plane_inactivity_timer
    ∷ one pfcp_ie_user_id
    ∷ one pfcp_ie_trace_information
    ∷ one pfcp_ie_apn_dnn
    ∷ many pfcp_ie_create_mar
    ∷ []

abbrev pub session_establishment_response_group : List Item
session_establishment_response_group =
    one pfcp_ie_node_id
    ∷ one pfcp_ie_cause
    ∷ one pfcp_ie_offending_ie
    ∷ one_of vendor_travelping pfcp_ie_tp_error_report
    ∷ one pfcp_ie_f_seid
    ∷ many pfcp_ie_created_pdr
    ∷ one pfcp_ie_load_control_information
    ∷ one pfcp_ie_overload_control_information
    ∷ no_item
    ∷ many pfcp_ie_fq_csid
    ∷ one pfcp_ie_failed_rule_id
    ∷ no_item
    ∷ many pfcp_ie_created_traffic_endpoint
    ∷ one_of vendor_travelping pfcp_ie_tp_created_nat_binding
    ∷ []
