-- ===== src/Ie/Bounds.antt =====
-- The length tests of the decode functions of upf/pfcp.c.
use upg_vpp_tr.Base.{◌^◌, ◌<◌, ◌≤◌, ◌≢◌, ℕ, List, length}
use upg_vpp_tr.Wire.Defs.{fault}
use upg_vpp_tr.Wire.Safe.{run-Safe}
use upg_vpp_tr.Wire.Guarded.{run-Guarded}
use upg_vpp_tr.Ie.SdfFilter.{SdfFilter, decode_sdf_filter, sdf_filter-Safe}
use upg_vpp_tr.Ie.UeIpAddress.{UeIpAddress, decode_ue_ip_address, ue_ip_address-Safe}
use upg_vpp_tr.Ie.PfdContents.{PfdContents, decode_pfd_contents, pfd_contents-Safe}
use upg_vpp_tr.Ie.Volume.{Volume, VolumeMeasurement, decode_volume_ie, decode_volume_measurement}
use upg_vpp_tr.Ie.Volume.Laws.{volume_ie-Guarded, volume_measurement-Guarded}
use upg_vpp_tr.Ie.Marking.{
  DlFlowLevelMarking, decode_dl_flow_level_marking, DownlinkDataService,
  decode_downlink_data_service_information, PacketRate, decode_packet_rate,
}
use upg_vpp_tr.Ie.Marking.RoundTrip.{
  dl_flow_level_marking-Safe, downlink_data_service-Safe, packet_rate-Safe,
}
use upg_vpp_tr.Ie.Text.{
  decode_header_enrichment, decode_flow_information, decode_forwarding_policy,
  decode_failed_rule_id,
}
use upg_vpp_tr.Ie.Text.Laws.{
  header_enrichment-Safe, flow_information-Safe, forwarding_policy-Guarded, failed_rule_id-Guarded,
}
use upg_vpp_tr.Ie.Mac.{MacAddress, decode_pfcp_mac_address}
use upg_vpp_tr.Ie.Mac.Laws.{pfcp_mac_address-Safe}
use upg_vpp_tr.Ie.UserId.{decode_user_id, user_id-Safe}

-- On any octets, `decode_sdf_filter`, `decode_ue_ip_address`, `decode_pfd_contents` and
-- `decode_pfcp_mac_address` read nothing outside the IE, whose length is at most that of the memory
-- and fits 16 bits.
pub filters_in_bounds :
    (sdf : SdfFilter) (ue : UeIpAddress) (pfd : PfdContents) (mac : MacAddress) (bytes : List ℕ)
    (l : ℕ)
    → l ≤ length bytes
    → l < 2 ^ 16
    → (decode_sdf_filter sdf bytes l ≢ fault)
      × (decode_ue_ip_address ue bytes l ≢ fault)
      × (decode_pfd_contents pfd bytes l ≢ fault)
      × (decode_pfcp_mac_address mac bytes l ≢ fault)
unfolding decode_sdf_filter decode_ue_ip_address decode_pfd_contents decode_pfcp_mac_address
filters_in_bounds sdf ue pfd mac bytes l h k = (
  run-Safe bytes l (sdf_filter-Safe sdf) h k,
  run-Safe bytes l (ue_ip_address-Safe ue) h k,
  run-Safe bytes l (pfd_contents-Safe pfd) h k,
  run-Safe bytes l (pfcp_mac_address-Safe mac) h k,
)

-- On any octets, `decode_volume_ie` and `decode_volume_measurement`, whose one length test counts the
-- flags, read nothing outside the IE, whose length is at most that of the memory and fits 16 bits.
pub volumes_in_bounds :
    (volume : Volume) (measurement : VolumeMeasurement) (bytes : List ℕ) (l : ℕ)
    → l ≤ length bytes
    → l < 2 ^ 16
    → (decode_volume_ie volume bytes l ≢ fault)
      × (decode_volume_measurement measurement bytes l ≢ fault)
unfolding decode_volume_ie decode_volume_measurement
volumes_in_bounds volume measurement bytes l h k = (
  run-Guarded bytes l (volume_ie-Guarded volume) h k,
  run-Guarded bytes l (volume_measurement-Guarded measurement) h k,
)

-- On any octets, `decode_dl_flow_level_marking`, `decode_downlink_data_service_information` and
-- `decode_packet_rate` read nothing outside the IE, whose length is at most that of the memory and
-- fits 16 bits.
pub markings_in_bounds :
    (marking : DlFlowLevelMarking) (service : DownlinkDataService) (rate : PacketRate)
    (bytes : List ℕ) (l : ℕ)
    → l ≤ length bytes
    → l < 2 ^ 16
    → (decode_dl_flow_level_marking marking bytes l ≢ fault)
      × (decode_downlink_data_service_information service bytes l ≢ fault)
      × (decode_packet_rate rate bytes l ≢ fault)
unfolding decode_dl_flow_level_marking decode_downlink_data_service_information decode_packet_rate
markings_in_bounds marking service rate bytes l h k = (
  run-Safe bytes l (dl_flow_level_marking-Safe marking) h k,
  run-Safe bytes l (downlink_data_service-Safe service) h k,
  run-Safe bytes l (packet_rate-Safe rate) h k,
)

-- On any octets, `decode_header_enrichment`, `decode_flow_information`, `decode_forwarding_policy`,
-- `decode_failed_rule_id` and `decode_user_id` read nothing outside the IE, whose length is at most
-- that of the memory and fits 16 bits.
pub texts_in_bounds :
    (bytes : List ℕ) (l : ℕ)
    → l ≤ length bytes
    → l < 2 ^ 16
    → (decode_header_enrichment bytes l ≢ fault)
      × (decode_flow_information bytes l ≢ fault)
      × (decode_forwarding_policy bytes l ≢ fault)
      × (decode_failed_rule_id bytes l ≢ fault)
      × (decode_user_id bytes l ≢ fault)
unfolding decode_header_enrichment decode_flow_information decode_forwarding_policy
    decode_failed_rule_id decode_user_id
texts_in_bounds bytes l h k = (
  run-Safe bytes l header_enrichment-Safe h k,
  run-Safe bytes l flow_information-Safe h k,
  run-Guarded bytes l forwarding_policy-Guarded h k,
  run-Guarded bytes l failed_rule_id-Guarded h k,
  run-Safe bytes l user_id-Safe h k,
)
