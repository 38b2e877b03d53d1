-- ===== src/Tables/MessagesB.antt =====
-- Tables of the groups of messages in upf/pfcp.c, `pfcp_session_modification_request_group` to `pfcp_session_report_response_group`.
use upg_vpp_tr.Base.{List, [], ◌∷◌}
use upg_vpp_tr.Group.{Item, vendor_travelping}
use upg_vpp_tr.Tables.Items.{no_item, one, many, one_of}
use upg_vpp_tr.Tables.TypesA.{
  pfcp_ie_cause, pfcp_ie_create_far, pfcp_ie_create_pdr, pfcp_ie_create_qer, pfcp_ie_create_urr,
  pfcp_ie_created_pdr, pfcp_ie_f_seid, pfcp_ie_f_teid, pfcp_ie_fq_csid,
  pfcp_ie_load_control_information, pfcp_ie_offending_ie, pfcp_ie_overload_control_information,
  pfcp_ie_pfcpsmreq_flags, pfcp_ie_pfcpsrrsp_flags, pfcp_ie_remove_far, pfcp_ie_remove_pdr,
  pfcp_ie_remove_qer, pfcp_ie_remove_urr, pfcp_ie_report_type, pfcp_ie_update_bar_response,
  pfcp_ie_update_far, pfcp_ie_update_pdr, pfcp_ie_update_qer, pfcp_ie_update_urr,
}
use upg_vpp_tr.Tables.TypesB.{
  pfcp_ie_additional_usage_reports_information, pfcp_ie_create_bar, pfcp_ie_create_traffic_endpoint,
  pfcp_ie_created_traffic_endpoint, pfcp_ie_downlink_data_report, pfcp_ie_error_indication_report,
  pfcp_ie_failed_rule_id, pfcp_ie_query_urr, pfcp_ie_query_urr_reference, pfcp_ie_remove_bar,
  pfcp_ie_remove_traffic_endpoint, pfcp_ie_update_bar_request, pfcp_ie_update_traffic_endpoint,
  pfcp_ie_usage_report_sdr, pfcp_ie_usage_report_smr, pfcp_ie_usage_report_srr,
  pfcp_ie_user_plane_inactivity_timer,
}
use upg_vpp_tr.Tables.TypesC.{
  pfcp_ie_create_mar, pfcp_ie_packet_report, pfcp_ie_pfcpsrreq_flags, pfcp_ie_remove_mar,
  pfcp_ie_trace_information, pfcp_ie_update_mar,
}
use upg_vpp_tr.Tables.TypesVendor.{pfcp_ie_tp_error_report}

abbrev pub session_modification_request_group : List Item
session_modification_request_group =
    one pfcp_ie_f_seid
    ∷ many pfcp_ie_remove_pdr
    ∷ many pfcp_ie_remove_far
    ∷ many pfcp_ie_remove_urr
    ∷ many pfcp_ie_remove_qer
    ∷ many pfcp_ie_remove_bar
    ∷ many pfcp_ie_remove_traffic_endpoint
    ∷ many pfcp_ie_create_pdr
    ∷ many pfcp_ie_create_far
    ∷ many pfcp_ie_create_urr
    ∷ many pfcp_ie_create_qer
    ∷ many pfcp_ie_create_bar
    ∷ many pfcp_ie_create_traffic_endpoint
    ∷ many pfcp_ie_update_pdr
    ∷ many pfcp_ie_update_far
    ∷ many pfcp_ie_update_urr
    ∷ many pfcp_ie_update_qer
    ∷ many pfcp_ie_update_bar_request
    ∷ many pfcp_ie_update_traffic_endpoint
    ∷ one pfcp_ie_pfcpsmreq_flags
    ∷ many pfcp_ie_query_urr
    ∷ many pfcp_ie_fq_csid
    ∷ one pfcp_ie_user_plane_inactivity_timer
    ∷ one pfcp_ie_query_urr_reference
    ∷ one pfcp_ie_trace_information
    ∷ many pfcp_ie_remove_mar
    ∷ many pfcp_ie_update_mar
    ∷ many pfcp_ie_create_mar
    ∷ []

abbrev pub session_modification_response_group : List Item
session_modification_response_group =
    no_item
    ∷ one pfcp_ie_cause
    ∷ one pfcp_ie_offending_ie
    ∷ one_of vendor_travelping pfcp_ie_tp_error_report
    ∷ no_item
    ∷ many pfcp_ie_created_pdr
    ∷ one pfcp_ie_load_control_information
    ∷ one pfcp_ie_overload_control_information
    ∷ many pfcp_ie_usage_report_smr
    ∷ no_item
    ∷ one pfcp_ie_failed_rule_id
    ∷ one pfcp_ie_additional_usage_reports_information
    ∷ many pfcp_ie_created_traffic_endpoint
    ∷ []

abbrev pub session_deletion_response_group : List Item
session_deletion_response_group =
    no_item
    ∷ one pfcp_ie_cause
    ∷ one pfcp_ie_offending_ie
    ∷ one_of vendor_travelping pfcp_ie_tp_error_report
    ∷ no_item
    ∷ no_item
    ∷ one pfcp_ie_load_control_information
    ∷ one pfcp_ie_overload_control_information
    ∷ many pfcp_ie_usage_report_sdr
    ∷ []

abbrev pub session_report_request_group : List Item
session_report_request_group =
    one pfcp_ie_report_type
    ∷ one pfcp_ie_downlink_data_report
    ∷ many pfcp_ie_usage_report_srr
    ∷ one pfcp_ie_error_indication_report
    ∷ one pfcp_ie_load_control_information
    ∷ one pfcp_ie_overload_control_information
    ∷ one pfcp_ie_additional_usage_reports_information
    ∷ one pfcp_ie_packet_report
    ∷ one pfcp_ie_pfcpsrreq_flags
    ∷ []

abbrev pub session_report_response_group : List Item
session_report_response_group =
    no_item
    ∷ one pfcp_ie_cause
    ∷ one pfcp_ie_offending_ie
    ∷ no_item
    ∷ one_of vendor_travelping pfcp_ie_tp_error_report
    ∷ many pfcp_ie_update_bar_response
    ∷ one pfcp_ie_pfcpsrrsp_flags
    ∷ one pfcp_ie_f_seid
    ∷ one pfcp_ie_f_teid
    ∷ []
