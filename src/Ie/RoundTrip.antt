-- ===== src/Ie/RoundTrip.antt =====
-- The decode and encode functions of upf/pfcp.c for the IEs with flags and counted parts.
use upg_vpp_tr.Base.{◌^◌, ◌<◌, ◌≡◌, ℕ, List, ◌++◌, length}
use upg_vpp_tr.Wire.Defs.{ok}
use upg_vpp_tr.Wire.Reads.{run-Reads}
use upg_vpp_tr.Ie.SdfFilter.{
  SdfFilter, decode_sdf_filter, encode_sdf_filter, IsSdfFilter, sdf_received, sdf_filter-Reads,
}
use upg_vpp_tr.Ie.UeIpAddress.{
  UeIpAddress, decode_ue_ip_address, encode_ue_ip_address, IsUeIpAddress, ue_ip_received,
  ue_ip_address-Reads,
}
use upg_vpp_tr.Ie.PfdContents.{
  PfdContents, decode_pfd_contents, encode_pfd_contents, IsPfdContents, pfd_contents_received,
  pfd_contents-Reads,
}
use upg_vpp_tr.Ie.Marking.{
  DlFlowLevelMarking, decode_dl_flow_level_marking, encode_dl_flow_level_marking,
  DownlinkDataService, decode_downlink_data_service_information,
  encode_downlink_data_service_information, PacketRate, decode_packet_rate, encode_packet_rate,
}
use upg_vpp_tr.Ie.Marking.RoundTrip.{
  IsMarking, marking_received, dl_flow_level_marking-Reads, IsDataService, data_service_received,
  downlink_data_service-Reads, IsPacketRate, packet_rate_received, packet_rate-Reads,
}
use upg_vpp_tr.Ie.Mac.{MacAddress, decode_pfcp_mac_address, encode_pfcp_mac_address}
use upg_vpp_tr.Ie.Mac.Laws.{IsMacAddress, mac_received, pfcp_mac_address-Reads}
use upg_vpp_tr.Ie.Text.{
  HeaderEnrichment, decode_header_enrichment, encode_header_enrichment, FlowInformation,
  decode_flow_information, encode_flow_information,
}
use upg_vpp_tr.Ie.Text.Laws.{
  IsHeaderEnrichment, header_enrichment-Reads, IsFlowInformation, flow_information-Reads,
}
use upg_vpp_tr.Ie.UserId.{UserId, decode_user_id, encode_user_id, IsUserId, user_id-Reads}

-- The SDF filter that `encode_sdf_filter` wrote, its parts of the widths that `IsSdfFilter` asks
-- for, is read back from an encoding shorter than 2 ^ 16, whatever lies behind the IE; a part
-- without its flag keeps what the structure held.
pub decode-encode_sdf_filter :
    (v old : SdfFilter) (rest : List ℕ)
    → IsSdfFilter v
    → length (encode_sdf_filter v) < 2 ^ 16
    → decode_sdf_filter old (encode_sdf_filter v ++ rest) (length (encode_sdf_filter v))
      ≡ ok (sdf_received v old)
unfolding decode_sdf_filter
decode-encode_sdf_filter v old rest w fits = run-Reads rest (sdf_filter-Reads v old w) fits

-- The UE IP address that `encode_ue_ip_address` wrote, its parts of the widths that
-- `IsUeIpAddress` asks for, is read back from an encoding shorter than 2 ^ 16, whatever lies
-- behind the IE; a part without its flag keeps what the structure held.
pub decode-encode_ue_ip_address :
    (v old : UeIpAddress) (rest : List ℕ)
    → IsUeIpAddress v
    → length (encode_ue_ip_address v) < 2 ^ 16
    → decode_ue_ip_address old (encode_ue_ip_address v ++ rest) (length (encode_ue_ip_address v))
      ≡ ok (ue_ip_received v old)
unfolding decode_ue_ip_address
decode-encode_ue_ip_address v old rest w fits = run-Reads rest (ue_ip_address-Reads v old w) fits

-- The PFD contents that `encode_pfd_contents` wrote, its parts of the widths that `IsPfdContents`
-- asks for, is read back from an encoding shorter than 2 ^ 16, whatever lies behind the IE; a
-- part that is empty keeps what the structure held.
pub decode-encode_pfd_contents :
    (v old : PfdContents) (rest : List ℕ)
    → IsPfdContents v
    → length (encode_pfd_contents v) < 2 ^ 16
    → decode_pfd_contents old (encode_pfd_contents v ++ rest) (length (encode_pfd_contents v))
      ≡ ok (pfd_contents_received v old)
unfolding decode_pfd_contents
decode-encode_pfd_contents v old rest w fits = run-Reads rest (pfd_contents-Reads v old w) fits

-- The DL flow level marking that `encode_dl_flow_level_marking` wrote, its parts of the widths
-- that `IsMarking` asks for, is read back from an encoding shorter than 2 ^ 16, whatever lies
-- behind the IE; a part without its flag keeps what the structure held.
pub decode-encode_dl_flow_level_marking :
    (v old : DlFlowLevelMarking) (rest : List ℕ)
    → IsMarking v
    → length (encode_dl_flow_level_marking v) < 2 ^ 16
    → decode_dl_flow_level_marking old
        (encode_dl_flow_level_marking v ++ rest)
        (length (encode_dl_flow_level_marking v))
      ≡ ok (marking_received v old)
unfolding decode_dl_flow_level_marking
decode-encode_dl_flow_level_marking v old rest w fits =
    run-Reads rest (dl_flow_level_marking-Reads v old w) fits

-- The downlink data service information that `encode_downlink_data_service_information` wrote,
-- its parts of the widths that `IsDataService` asks for, is read back from an encoding shorter
-- than 2 ^ 16, whatever lies behind the IE; a part without its flag keeps what the structure
-- held.
pub decode-encode_downlink_data_service_information :
    (v old : DownlinkDataService) (rest : List ℕ)
    → IsDataService v
    → length (encode_downlink_data_service_information v) < 2 ^ 16
    → decode_downlink_data_service_information old
        (encode_downlink_data_service_information v ++ rest)
        (length (encode_downlink_data_service_information v))
      ≡ ok (data_service_received v old)
unfolding decode_downlink_data_service_information
decode-encode_downlink_data_service_information v old rest w fits =
    run-Reads rest (downlink_data_service-Reads v old w) fits

-- The packet rate that `encode_packet_rate` wrote, its parts of the widths that `IsPacketRate`
-- asks for, is read back from an encoding shorter than 2 ^ 16, whatever lies behind the IE; a
-- rate without its flag keeps what the structure held.
pub decode-encode_packet_rate :
    (v old : PacketRate) (rest : List ℕ)
    → IsPacketRate v
    → length (encode_packet_rate v) < 2 ^ 16
    → decode_packet_rate old (encode_packet_rate v ++ rest) (length (encode_packet_rate v))
      ≡ ok (packet_rate_received v old)
unfolding decode_packet_rate
decode-encode_packet_rate v old rest w fits = run-Reads rest (packet_rate-Reads v old w) fits

-- The MAC address that `encode_pfcp_mac_address` wrote, its parts of the widths that
-- `IsMacAddress` asks for, is read back from an encoding shorter than 2 ^ 16, whatever lies
-- behind the IE; an address without its flag keeps what the structure held.
pub decode-encode_pfcp_mac_address :
    (v old : MacAddress) (rest : List ℕ)
    → IsMacAddress v
    → length (encode_pfcp_mac_address v) < 2 ^ 16
    → decode_pfcp_mac_address old
        (encode_pfcp_mac_address v ++ rest)
        (length (encode_pfcp_mac_address v))
      ≡ ok (mac_received v old)
unfolding decode_pfcp_mac_address
decode-encode_pfcp_mac_address v old rest w fits =
    run-Reads rest (pfcp_mac_address-Reads v old w) fits

-- The header enrichment that `encode_header_enrichment` wrote, its parts of the widths that
-- `IsHeaderEnrichment` asks for, is read back from an encoding shorter than 2 ^ 16, whatever lies
-- behind the IE.
pub decode-encode_header_enrichment :
    (v : HeaderEnrichment) (rest : List ℕ)
    → IsHeaderEnrichment v
    → length (encode_header_enrichment v) < 2 ^ 16
    → decode_header_enrichment
        (encode_header_enrichment v ++ rest)
        (length (encode_header_enrichment v))
      ≡ ok v
unfolding decode_header_enrichment
decode-encode_header_enrichment v rest w fits = run-Reads rest (header_enrichment-Reads v w) fits

-- The flow information that `encode_flow_information` wrote, its parts of the widths that
-- `IsFlowInformation` asks for, is read back from an encoding shorter than 2 ^ 16, whatever lies
-- behind the IE.
pub decode-encode_flow_information :
    (v : FlowInformation) (rest : List ℕ)
    → IsFlowInformation v
    → length (encode_flow_information v) < 2 ^ 16
    → decode_flow_information
        (encode_flow_information v ++ rest)
        (length (encode_flow_information v))
      ≡ ok v
unfolding decode_flow_information
decode-encode_flow_information v rest w fits = run-Reads rest (flow_information-Reads v w) fits

-- The user id that `encode_user_id` wrote, its parts of the widths that `IsUserId` asks for, is
-- read back from an encoding shorter than 2 ^ 16, whatever lies behind the IE.
pub decode-encode_user_id :
    (v : UserId) (rest : List ℕ)
    → IsUserId v
    → length (encode_user_id v) < 2 ^ 16
    → decode_user_id (encode_user_id v ++ rest) (length (encode_user_id v)) ≡ ok v
unfolding decode_user_id
decode-encode_user_id v rest w fits = run-Reads rest (user_id-Reads v w) fits
