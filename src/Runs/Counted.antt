-- ===== src/Runs/Counted.antt =====
-- The theorems on the marking and MAC address IEs of upf/pfcp.c at concrete octets.
use upg_vpp_tr.Base.{ℕ, refl, arith, List, ◌∷◌, []}
use upg_vpp_tr.Ie.Marking.{
  DlFlowLevelMarking, DownlinkDataService, PacketRate, Rate, DroppedDlTrafficThreshold,
}
use upg_vpp_tr.Ie.Marking.RoundTrip.{IsMarking, IsDataService, IsRate, IsPacketRate}
use upg_vpp_tr.Ie.Mac.{MacAddress}
use upg_vpp_tr.Ie.Mac.Laws.{IsMacAddress}

abbrev six : List ℕ
six = 2 ∷ 0 ∷ 0 ∷ 0 ∷ 0 ∷ 1 ∷ []

abbrev marking : DlFlowLevelMarking
marking = record { flags = 2; tos_traffic_class = 3; service_class_indicator = 400 }

abbrev no_marking : DlFlowLevelMarking
no_marking = record { flags = 0; tos_traffic_class = 0; service_class_indicator = 0 }

marking-IsMarking : IsMarking marking
marking-IsMarking = record { flags_ok = omega arith; tos_ok = omega arith; sci_ok = omega arith }

abbrev service : DownlinkDataService
service = record { flags = 3; paging_policy_indication = 4; qfi = 5 }

abbrev no_service : DownlinkDataService
no_service = record { flags = 0; paging_policy_indication = 0; qfi = 0 }

service-IsDataService : IsDataService service
service-IsDataService = record {
  flags_ok = omega arith;
  ppi_ok = omega arith;
  qfi_ok = omega arith;
}

abbrev some_rate : Rate
some_rate = record { unit = 1; max = 500 }

abbrev no_rate : Rate
no_rate = record { unit = 0; max = 0 }

abbrev limits : PacketRate
limits = record { flags = 3; ul = some_rate; dl = some_rate; a_ul = no_rate; a_dl = no_rate }

abbrev no_limits : PacketRate
no_limits = record { flags = 0; ul = no_rate; dl = no_rate; a_ul = some_rate; a_dl = no_rate }

some_rate-IsRate : IsRate some_rate
some_rate-IsRate = record { unit_ok = omega arith; max_ok = omega arith }

limits-IsPacketRate : IsPacketRate limits
limits-IsPacketRate = record {
  flags_ok = omega arith;
  ul_ok = some_rate-IsRate;
  dl_ok = some_rate-IsRate;
}

abbrev threshold : DroppedDlTrafficThreshold
threshold = record { flags = 3; downlink_packets = 20; downlink_volume = 30000 }

abbrev no_threshold : DroppedDlTrafficThreshold
no_threshold = record { flags = 0; downlink_packets = 0; downlink_volume = 0 }

abbrev mac : MacAddress
mac = record { flags = 3; src_mac = six; dst_mac = six; upper_src_mac = six; upper_dst_mac = six }

abbrev no_mac : MacAddress
no_mac = record { flags = 0; src_mac = []; dst_mac = []; upper_src_mac = []; upper_dst_mac = [] }

mac-IsMacAddress : IsMacAddress mac
mac-IsMacAddress = record {
  flags_ok = omega arith;
  src_ok = refl;
  dst_ok = refl;
  upper_src_ok = refl;
  upper_dst_ok = refl;
}
