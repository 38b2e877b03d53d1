-- ===== src/Tables/SpecsA.antt =====
-- Part of `tgpp_specs` of upf/pfcp.c, in the order of the source.
use upg_vpp_tr.Base.{ℕ, ◌+◌, ◌^◌, List, [], ◌∷◌}
use upg_vpp_tr.Tables.Codec.{
  Shape, simple, members, application_id, apply_action, cause, destination_interface,
  dl_buffering_duration, dl_buffering_suggested_packet_count, downlink_data_notification_delay,
  downlink_data_service_information, f_seid, f_teid, forwarding_policy, gate_status, gbr,
  inactivity_detection_time, mbr, measurement_method, metric, monitoring_time, network_instance,
  node_id, offending_ie, pdr_id, pfcpsmreq_flags, pfcpsrrsp_flags, pfd_contents, precedence,
  qer_correlation_id, redirect_information, report_type, reporting_triggers, sdf_filter,
  sequence_number, source_interface, subsequent_time_threshold, subsequent_volume_threshold,
  time_threshold, timer, transport_level_marking, up_function_features, volume_threshold,
}
use upg_vpp_tr.Tables.TypesA.{
  pfcp_ie_application_id, pfcp_ie_application_id_pfds, pfcp_ie_apply_action, pfcp_ie_cause,
  pfcp_ie_create_far, pfcp_ie_create_pdr, pfcp_ie_create_qer, pfcp_ie_create_urr,
  pfcp_ie_created_pdr, pfcp_ie_destination_interface, pfcp_ie_dl_buffering_duration,
  pfcp_ie_dl_buffering_suggested_packet_count, pfcp_ie_downlink_data_notification_delay,
  pfcp_ie_downlink_data_service_information, pfcp_ie_duplicating_parameters, pfcp_ie_f_seid,
  pfcp_ie_f_teid, pfcp_ie_forwarding_parameters, pfcp_ie_forwarding_policy, pfcp_ie_gate_status,
  pfcp_ie_gbr, pfcp_ie_inactivity_detection_time, pfcp_ie_load_control_information, pfcp_ie_mbr,
  pfcp_ie_measurement_method, pfcp_ie_metric, pfcp_ie_monitoring_time, pfcp_ie_network_instance,
  pfcp_ie_node_id, pfcp_ie_offending_ie, pfcp_ie_overload_control_information, pfcp_ie_pdi,
  pfcp_ie_pdr_id, pfcp_ie_pfcpsmreq_flags, pfcp_ie_pfcpsrrsp_flags, pfcp_ie_pfd,
  pfcp_ie_pfd_contents, pfcp_ie_precedence, pfcp_ie_qer_correlation_id,
  pfcp_ie_redirect_information, pfcp_ie_remove_far, pfcp_ie_remove_pdr, pfcp_ie_remove_qer,
  pfcp_ie_remove_urr, pfcp_ie_report_type, pfcp_ie_reporting_triggers, pfcp_ie_sdf_filter,
  pfcp_ie_sequence_number, pfcp_ie_source_interface, pfcp_ie_subsequent_time_threshold,
  pfcp_ie_subsequent_volume_threshold, pfcp_ie_time_threshold, pfcp_ie_timer,
  pfcp_ie_transport_level_marking, pfcp_ie_up_function_features, pfcp_ie_update_bar_response,
  pfcp_ie_update_far, pfcp_ie_update_forwarding_parameters, pfcp_ie_update_pdr, pfcp_ie_update_qer,
  pfcp_ie_update_urr, pfcp_ie_volume_threshold,
}
use upg_vpp_tr.Tables.GroupsA.{
  create_far_group, create_pdr_group, create_qer_group, create_urr_group, created_pdr_group,
  duplicating_parameters_group, forwarding_parameters_group, pdi_group, update_pdr_group,
}
use upg_vpp_tr.Tables.GroupsB.{
  application_id_pfds_group, load_control_information_group, overload_control_information_group,
  pfd_group, remove_far_group, remove_pdr_group, remove_qer_group, remove_urr_group,
  update_bar_response_group, update_far_group, update_forwarding_parameters_group, update_qer_group,
  update_urr_group,
}

abbrev pub rule_specs : List (ℕ × Shape)
rule_specs =
    (pfcp_ie_create_pdr, members (2 ^ 0 + 2 ^ 1 + 2 ^ 2) create_pdr_group)
    ∷ (pfcp_ie_pdi, members (2 ^ 0) pdi_group)
    ∷ (pfcp_ie_create_far, members (2 ^ 0 + 2 ^ 1) create_far_group)
    ∷ (pfcp_ie_forwarding_parameters, members (2 ^ 0) forwarding_parameters_group)
    ∷ (pfcp_ie_duplicating_parameters, members (2 ^ 0) duplicating_parameters_group)
    ∷ (pfcp_ie_create_urr, members (2 ^ 0 + 2 ^ 1 + 2 ^ 2) create_urr_group)
    ∷ (pfcp_ie_create_qer, members (2 ^ 0 + 2 ^ 2) create_qer_group)
    ∷ (pfcp_ie_created_pdr, members (2 ^ 0) created_pdr_group)
    ∷ (pfcp_ie_update_pdr, members (2 ^ 0) update_pdr_group)
    ∷ (pfcp_ie_update_far, members (2 ^ 0) update_far_group)
    ∷ (pfcp_ie_update_forwarding_parameters, members 0 update_forwarding_parameters_group)
    ∷ (pfcp_ie_update_bar_response, members (2 ^ 0) update_bar_response_group)
    ∷ (pfcp_ie_update_urr, members (2 ^ 0) update_urr_group)
    ∷ (pfcp_ie_update_qer, members (2 ^ 0) update_qer_group)
    ∷ (pfcp_ie_remove_pdr, members (2 ^ 0) remove_pdr_group)
    ∷ (pfcp_ie_remove_far, members (2 ^ 0) remove_far_group)
    ∷ (pfcp_ie_remove_urr, members (2 ^ 0) remove_urr_group)
    ∷ (pfcp_ie_remove_qer, members (2 ^ 0) remove_qer_group)
    ∷ (pfcp_ie_cause, simple cause)
    ∷ (pfcp_ie_source_interface, simple source_interface)
    ∷ (pfcp_ie_f_teid, simple f_teid)
    ∷ (pfcp_ie_network_instance, simple network_instance)
    ∷ (pfcp_ie_sdf_filter, simple sdf_filter)
    ∷ (pfcp_ie_application_id, simple application_id)
    ∷ (pfcp_ie_gate_status, simple gate_status)
    ∷ (pfcp_ie_mbr, simple mbr)
    ∷ (pfcp_ie_gbr, simple gbr)
    ∷ (pfcp_ie_qer_correlation_id, simple qer_correlation_id)
    ∷ (pfcp_ie_precedence, simple precedence)
    ∷ (pfcp_ie_transport_level_marking, simple transport_level_marking)
    ∷ (pfcp_ie_volume_threshold, simple volume_threshold)
    ∷ (pfcp_ie_time_threshold, simple time_threshold)
    ∷ (pfcp_ie_monitoring_time, simple monitoring_time)
    ∷ (pfcp_ie_subsequent_volume_threshold, simple subsequent_volume_threshold)
    ∷ (pfcp_ie_subsequent_time_threshold, simple subsequent_time_threshold)
    ∷ (pfcp_ie_inactivity_detection_time, simple inactivity_detection_time)
    ∷ (pfcp_ie_reporting_triggers, simple reporting_triggers)
    ∷ (pfcp_ie_redirect_information, simple redirect_information)
    ∷ (pfcp_ie_report_type, simple report_type)
    ∷ (pfcp_ie_offending_ie, simple offending_ie)
    ∷ (pfcp_ie_forwarding_policy, simple forwarding_policy)
    ∷ (pfcp_ie_destination_interface, simple destination_interface)
    ∷ (pfcp_ie_up_function_features, simple up_function_features)
    ∷ (pfcp_ie_apply_action, simple apply_action)
    ∷ (pfcp_ie_downlink_data_service_information, simple downlink_data_service_information)
    ∷ (pfcp_ie_downlink_data_notification_delay, simple downlink_data_notification_delay)
    ∷ (pfcp_ie_dl_buffering_duration, simple dl_buffering_duration)
    ∷ (pfcp_ie_dl_buffering_suggested_packet_count, simple dl_buffering_suggested_packet_count)
    ∷ (pfcp_ie_pfcpsmreq_flags, simple pfcpsmreq_flags)
    ∷ (pfcp_ie_pfcpsrrsp_flags, simple pfcpsrrsp_flags)
    ∷ (pfcp_ie_load_control_information, members (2 ^ 0 + 2 ^ 1) load_control_information_group)
    ∷ (pfcp_ie_sequence_number, simple sequence_number)
    ∷ (pfcp_ie_metric, simple metric)
    ∷ (
      pfcp_ie_overload_control_information,
      members (2 ^ 0 + 2 ^ 1 + 2 ^ 2) overload_control_information_group,
    )
    ∷ (pfcp_ie_timer, simple timer)
    ∷ (pfcp_ie_pdr_id, simple pdr_id)
    ∷ (pfcp_ie_f_seid, simple f_seid)
    ∷ (pfcp_ie_application_id_pfds, members (2 ^ 0) application_id_pfds_group)
    ∷ (pfcp_ie_pfd, members (2 ^ 0) pfd_group)
    ∷ (pfcp_ie_node_id, simple node_id)
    ∷ (pfcp_ie_pfd_contents, simple pfd_contents)
    ∷ (pfcp_ie_measurement_method, simple measurement_method)
    ∷ []
