-- ===== src/Tables/Codec.antt =====
-- The functions that the tables of IE definitions in upf/pfcp.c name, and the shape of an entry.
use upg_vpp_tr.Base.{ℕ, List}
use upg_vpp_tr.Group.{Item}

-- The `TYPE` of `SIMPLE_IE (IE, TYPE, NAME)`: the definition has `decode_TYPE` and `encode_TYPE`.
pub data Codec : Type 0 where
  cause : Codec
  source_interface : Codec
  f_teid : Codec
  network_instance : Codec
  sdf_filter : Codec
  application_id : Codec
  gate_status : Codec
  mbr : Codec
  gbr : Codec
  qer_correlation_id : Codec
  precedence : Codec
  transport_level_marking : Codec
  volume_threshold : Codec
  time_threshold : Codec
  monitoring_time : Codec
  subsequent_volume_threshold : Codec
  subsequent_time_threshold : Codec
  inactivity_detection_time : Codec
  reporting_triggers : Codec
  redirect_information : Codec
  report_type : Codec
  offending_ie : Codec
  forwarding_policy : Codec
  destination_interface : Codec
  up_function_features : Codec
  apply_action : Codec
  downlink_data_service_information : Codec
  downlink_data_notification_delay : Codec
  dl_buffering_duration : Codec
  dl_buffering_suggested_packet_count : Codec
  pfcpsmreq_flags : Codec
  pfcpsrrsp_flags : Codec
  sequence_number : Codec
  metric : Codec
  timer : Codec
  pdr_id : Codec
  f_seid : Codec
  node_id : Codec
  pfd_contents : Codec
  measurement_method : Codec
  usage_report_trigger : Codec
  measurement_period : Codec
  fq_csid : Codec
  volume_measurement : Codec
  duration_measurement : Codec
  time_of_first_packet : Codec
  time_of_last_packet : Codec
  quota_holding_time : Codec
  dropped_dl_traffic_threshold : Codec
  volume_quota : Codec
  time_quota : Codec
  start_time : Codec
  end_time : Codec
  urr_id : Codec
  linked_urr_id : Codec
  outer_header_creation : Codec
  bar_id : Codec
  cp_function_features : Codec
  usage_information : Codec
  application_instance_id : Codec
  flow_information : Codec
  ue_ip_address : Codec
  packet_rate : Codec
  outer_header_removal : Codec
  recovery_time_stamp : Codec
  dl_flow_level_marking : Codec
  header_enrichment : Codec
  measurement_information : Codec
  node_report_type : Codec
  remote_gtp_u_peer : Codec
  ur_seqn : Codec
  activate_predefined_rules : Codec
  deactivate_predefined_rules : Codec
  far_id : Codec
  qer_id : Codec
  oci_flags : Codec
  pfcp_association_release_request : Codec
  graceful_release_period : Codec
  pdn_type : Codec
  failed_rule_id : Codec
  time_quota_mechanism : Codec
  user_plane_ip_resource_information : Codec
  user_plane_inactivity_timer : Codec
  multiplier : Codec
  aggregated_urr_id : Codec
  subsequent_volume_quota : Codec
  subsequent_time_quota : Codec
  rqi : Codec
  qfi : Codec
  query_urr_reference : Codec
  additional_usage_reports_information : Codec
  traffic_endpoint_id : Codec
  pfcp_mac_address : Codec
  c_tag : Codec
  s_tag : Codec
  ethertype : Codec
  proxying : Codec
  ethernet_filter_id : Codec
  ethernet_filter_properties : Codec
  suggested_buffering_packets_count : Codec
  user_id : Codec
  ethernet_pdu_session_information : Codec
  mac_addresses_detected : Codec
  mac_addresses_removed : Codec
  ethernet_inactivity_timer : Codec
  event_quota : Codec
  event_threshold : Codec
  subsequent_event_quota : Codec
  subsequent_event_threshold : Codec
  trace_information : Codec
  framed_route : Codec
  framed_routing : Codec
  framed_ipv6_route : Codec
  event_time_stamp : Codec
  averaging_window : Codec
  paging_policy_indicator : Codec
  apn_dnn : Codec
  tgpp_interface_type : Codec
  pfcpsrreq_flags : Codec
  pfcpaureq_flags : Codec
  activation_time : Codec
  deactivation_time : Codec
  mar_id : Codec
  steering_functionality : Codec
  steering_mode : Codec
  weight : Codec
  priority : Codec
  ue_ip_address_pool_identity : Codec
  alternative_smf_ip_address : Codec
  quota_validity_time : Codec
  ip_version : Codec
  fatemeh_packet_type : Codec
  fatemeh_packet_header : Codec
  fatemeh_packet_data : Codec
  tp_packet_measurement : Codec
  tp_build_id : Codec
  tp_now : Codec
  tp_start_time : Codec
  tp_end_time : Codec
  tp_error_message : Codec
  tp_file_name : Codec
  tp_line_number : Codec
  bbf_up_function_features : Codec
  bbf_nat_outside_address : Codec
  bbf_apply_action : Codec
  bbf_nat_port_block : Codec
  bbf_nat_external_port_range : Codec

-- An entry without members, or with the mask `mandatory` and the table `group`.
pub data Shape : Type 0 where
  simple : Codec → Shape
  members : ℕ → List Item → Shape
