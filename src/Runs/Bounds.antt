-- ===== src/Runs/Bounds.antt =====
-- The bounds of the IEs of upf/pfcp.c on concrete octets.
use upg_vpp_tr.Base.{ℕ, ◌≢◌, arith, List, ◌∷◌, []}
use upg_vpp_tr.Wire.Defs.{fault}
use upg_vpp_tr.Ie.SdfFilter.{SdfFilter, decode_sdf_filter}
use upg_vpp_tr.Ie.UeIpAddress.{UeIpAddress, decode_ue_ip_address}
use upg_vpp_tr.Ie.PfdContents.{PfdContents, decode_pfd_contents}
use upg_vpp_tr.Ie.Volume.{Volume, VolumeMeasurement}
use upg_vpp_tr.Ie.Marking.{DlFlowLevelMarking, DownlinkDataService, Rate, PacketRate}
use upg_vpp_tr.Ie.Mac.{MacAddress, decode_pfcp_mac_address}
use upg_vpp_tr.Ie.Bounds.{filters_in_bounds}

abbrev five : List ℕ
five = 1 ∷ 0 ∷ 0 ∷ 2 ∷ 112 ∷ []

abbrev sdf : SdfFilter
sdf = record {
  flags = 0;
  flow = [];
  tos_traffic_class = 0;
  spi = 0;
  flow_label = 0;
  sdf_filter_id = 0;
}

abbrev ue : UeIpAddress
ue = record { flags = 0; ip4 = []; ip6 = []; prefix_delegation_length = 0; prefix_length = 0 }

abbrev pfd : PfdContents
pfd = record { flow_description = []; url = []; domain = []; custom = []; dnp = [] }

abbrev mac : MacAddress
mac = record { flags = 0; src_mac = []; dst_mac = []; upper_src_mac = []; upper_dst_mac = [] }

abbrev volume : Volume
volume = record { fields = 0; total = 0; ul = 0; dl = 0 }

abbrev measurement : VolumeMeasurement
measurement = record {
  fields = 0;
  volume = record { total = 0; ul = 0; dl = 0 };
  packets = record { total = 0; ul = 0; dl = 0 };
}

abbrev marking : DlFlowLevelMarking
marking = record { flags = 0; tos_traffic_class = 0; service_class_indicator = 0 }

abbrev service : DownlinkDataService
service = record { flags = 0; paging_policy_indication = 0; qfi = 0 }

abbrev rate : Rate
rate = record { unit = 0; max = 0 }

abbrev rates : PacketRate
rates = record { flags = 0; ul = rate; dl = rate; a_ul = rate; a_dl = rate }

filters_in_bounds_example :
    (decode_sdf_filter sdf five 5 ≢ fault)
    × (decode_ue_ip_address ue five 5 ≢ fault)
    × (decode_pfd_contents pfd five 5 ≢ fault)
    × (decode_pfcp_mac_address mac five 5 ≢ fault)
filters_in_bounds_example = filters_in_bounds sdf ue pfd mac five 5 (omega arith) (omega arith)
