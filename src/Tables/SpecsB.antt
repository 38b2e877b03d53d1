-- ===== src/Tables/SpecsB.antt =====
-- Part of `tgpp_specs` of upf/pfcp.c, in the order of the source.
use upg_vpp_tr.Base.{ℕ, ◌+◌, ◌^◌, List, [], ◌∷◌}
use upg_vpp_tr.Tables.Codec.{
  Shape, simple, members, activate_predefined_rules, aggregated_urr_id, application_instance_id,
  bar_id, cp_function_features, deactivate_predefined_rules, dl_flow_level_marking,
  dropped_dl_traffic_threshold, duration_measurement, end_time, failed_rule_id, far_id,
  flow_information, fq_csid, graceful_release_period, header_enrichment, linked_urr_id,
  measurement_information, measurement_period, multiplier, node_report_type, oci_flags,
  outer_header_creation, outer_header_removal, packet_rate, pdn_type,
  pfcp_association_release_request, qer_id, qfi, query_urr_reference, quota_holding_time,
  recovery_time_stamp, remote_gtp_u_peer, rqi, start_time, subsequent_time_quota,
  subsequent_volume_quota, time_of_first_packet, time_of_last_packet, time_quota,
  time_quota_mechanism, ue_ip_address, ur_seqn, urr_id, usage_information, usage_report_trigger,
  user_plane_inactivity_timer, user_plane_ip_resource_information, volume_measurement, volume_quota,
}
use upg_vpp_tr.Tables.TypesA.{
  pfcp_ie_fq_csid, pfcp_ie_measurement_period, pfcp_ie_usage_report_trigger,
  pfcp_ie_volume_measurement,
}
use upg_vpp_tr.Tables.TypesB.{
  pfcp_ie_activate_predefined_rules, pfcp_ie_aggregated_urr_id, pfcp_ie_aggregated_urrs,
  pfcp_ie_application_detection_information, pfcp_ie_application_instance_id, pfcp_ie_bar_id,
  pfcp_ie_cp_function_features, pfcp_ie_create_bar, pfcp_ie_deactivate_predefined_rules,
  pfcp_ie_dl_flow_level_marking, pfcp_ie_downlink_data_report, pfcp_ie_dropped_dl_traffic_threshold,
  pfcp_ie_duration_measurement, pfcp_ie_end_time, pfcp_ie_error_indication_report,
  pfcp_ie_failed_rule_id, pfcp_ie_far_id, pfcp_ie_flow_information, pfcp_ie_graceful_release_period,
  pfcp_ie_header_enrichment, pfcp_ie_linked_urr_id, pfcp_ie_measurement_information,
  pfcp_ie_multiplier, pfcp_ie_node_report_type, pfcp_ie_oci_flags, pfcp_ie_outer_header_creation,
  pfcp_ie_outer_header_removal, pfcp_ie_packet_rate, pfcp_ie_pdn_type,
  pfcp_ie_pfcp_association_release_request, pfcp_ie_qer_id, pfcp_ie_qfi, pfcp_ie_query_urr,
  pfcp_ie_query_urr_reference, pfcp_ie_quota_holding_time, pfcp_ie_recovery_time_stamp,
  pfcp_ie_remote_gtp_u_peer, pfcp_ie_remove_bar, pfcp_ie_rqi, pfcp_ie_start_time,
  pfcp_ie_subsequent_time_quota, pfcp_ie_subsequent_volume_quota, pfcp_ie_time_of_first_packet,
  pfcp_ie_time_of_last_packet, pfcp_ie_time_quota, pfcp_ie_time_quota_mechanism,
  pfcp_ie_ue_ip_address, pfcp_ie_update_bar_request, pfcp_ie_update_duplicating_parameters,
  pfcp_ie_ur_seqn, pfcp_ie_urr_id, pfcp_ie_usage_information, pfcp_ie_usage_report_sdr,
  pfcp_ie_usage_report_smr, pfcp_ie_usage_report_srr, pfcp_ie_user_plane_inactivity_timer,
  pfcp_ie_user_plane_ip_resource_information, pfcp_ie_user_plane_path_failure_report,
  pfcp_ie_volume_quota,
}
use upg_vpp_tr.Tables.GroupsC.{
  application_detection_information_group, create_bar_group, downlink_data_report_group,
  error_indication_report_group, query_urr_group, remove_bar_group, update_bar_request_group,
  update_duplicating_parameters_group, usage_report_sdr_group, usage_report_smr_group,
  usage_report_srr_group, user_plane_path_failure_report_group,
}
use upg_vpp_tr.Tables.GroupsD.{aggregated_urrs_group}

abbrev pub session_specs : List (ℕ × Shape)
session_specs =
    (pfcp_ie_usage_report_trigger, simple usage_report_trigger)
    ∷ (pfcp_ie_measurement_period, simple measurement_period)
    ∷ (pfcp_ie_fq_csid, simple fq_csid)
    ∷ (pfcp_ie_volume_measurement, simple volume_measurement)
    ∷ (pfcp_ie_duration_measurement, simple duration_measurement)
    ∷ (
      pfcp_ie_application_detection_information,
      members (2 ^ 0) application_detection_information_group,
    )
    ∷ (pfcp_ie_time_of_first_packet, simple time_of_first_packet)
    ∷ (pfcp_ie_time_of_last_packet, simple time_of_last_packet)
    ∷ (pfcp_ie_quota_holding_time, simple quota_holding_time)
    ∷ (pfcp_ie_dropped_dl_traffic_threshold, simple dropped_dl_traffic_threshold)
    ∷ (pfcp_ie_volume_quota, simple volume_quota)
    ∷ (pfcp_ie_time_quota, simple time_quota)
    ∷ (pfcp_ie_start_time, simple start_time)
    ∷ (pfcp_ie_end_time, simple end_time)
    ∷ (pfcp_ie_query_urr, members (2 ^ 0) query_urr_group)
    ∷ (pfcp_ie_usage_report_smr, members (2 ^ 0 + 2 ^ 1 + 2 ^ 2) usage_report_smr_group)
    ∷ (pfcp_ie_usage_report_sdr, members (2 ^ 0 + 2 ^ 1 + 2 ^ 2) usage_report_sdr_group)
    ∷ (pfcp_ie_usage_report_srr, members (2 ^ 0 + 2 ^ 1 + 2 ^ 2) usage_report_srr_group)
    ∷ (pfcp_ie_urr_id, simple urr_id)
    ∷ (pfcp_ie_linked_urr_id, simple linked_urr_id)
    ∷ (pfcp_ie_downlink_data_report, members (2 ^ 0) downlink_data_report_group)
    ∷ (pfcp_ie_outer_header_creation, simple outer_header_creation)
    ∷ (pfcp_ie_create_bar, members (2 ^ 0) create_bar_group)
    ∷ (pfcp_ie_update_bar_request, members (2 ^ 0) update_bar_request_group)
    ∷ (pfcp_ie_remove_bar, members (2 ^ 0) remove_bar_group)
    ∷ (pfcp_ie_bar_id, simple bar_id)
    ∷ (pfcp_ie_cp_function_features, simple cp_function_features)
    ∷ (pfcp_ie_usage_information, simple usage_information)
    ∷ (pfcp_ie_application_instance_id, simple application_instance_id)
    ∷ (pfcp_ie_flow_information, simple flow_information)
    ∷ (pfcp_ie_ue_ip_address, simple ue_ip_address)
    ∷ (pfcp_ie_packet_rate, simple packet_rate)
    ∷ (pfcp_ie_outer_header_removal, simple outer_header_removal)
    ∷ (pfcp_ie_recovery_time_stamp, simple recovery_time_stamp)
    ∷ (pfcp_ie_dl_flow_level_marking, simple dl_flow_level_marking)
    ∷ (pfcp_ie_header_enrichment, simple header_enrichment)
    ∷ (pfcp_ie_error_indication_report, members (2 ^ 0) error_indication_report_group)
    ∷ (pfcp_ie_measurement_information, simple measurement_information)
    ∷ (pfcp_ie_node_report_type, simple node_report_type)
    ∷ (pfcp_ie_user_plane_path_failure_report, members (2 ^ 0) user_plane_path_failure_report_group)
    ∷ (pfcp_ie_remote_gtp_u_peer, simple remote_gtp_u_peer)
    ∷ (pfcp_ie_ur_seqn, simple ur_seqn)
    ∷ (pfcp_ie_update_duplicating_parameters, members 0 update_duplicating_parameters_group)
    ∷ (pfcp_ie_activate_predefined_rules, simple activate_predefined_rules)
    ∷ (pfcp_ie_deactivate_predefined_rules, simple deactivate_predefined_rules)
    ∷ (pfcp_ie_far_id, simple far_id)
    ∷ (pfcp_ie_qer_id, simple qer_id)
    ∷ (pfcp_ie_oci_flags, simple oci_flags)
    ∷ (pfcp_ie_pfcp_association_release_request, simple pfcp_association_release_request)
    ∷ (pfcp_ie_graceful_release_period, simple graceful_release_period)
    ∷ (pfcp_ie_pdn_type, simple pdn_type)
    ∷ (pfcp_ie_failed_rule_id, simple failed_rule_id)
    ∷ (pfcp_ie_time_quota_mechanism, simple time_quota_mechanism)
    ∷ (pfcp_ie_user_plane_ip_resource_information, simple user_plane_ip_resource_information)
    ∷ (pfcp_ie_user_plane_inactivity_timer, simple user_plane_inactivity_timer)
    ∷ (pfcp_ie_aggregated_urrs, members (2 ^ 0 + 2 ^ 1) aggregated_urrs_group)
    ∷ (pfcp_ie_multiplier, simple multiplier)
    ∷ (pfcp_ie_aggregated_urr_id, simple aggregated_urr_id)
    ∷ (pfcp_ie_subsequent_volume_quota, simple subsequent_volume_quota)
    ∷ (pfcp_ie_subsequent_time_quota, simple subsequent_time_quota)
    ∷ (pfcp_ie_rqi, simple rqi)
    ∷ (pfcp_ie_qfi, simple qfi)
    ∷ (pfcp_ie_query_urr_reference, simple query_urr_reference)
    ∷ []
