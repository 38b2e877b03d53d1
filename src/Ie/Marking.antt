-- ===== src/Ie/Marking.antt =====
-- upf/pfcp.c: the DL Flow Level Marking, Downlink Data Service Information, Packet Rate and Dropped
-- DL Traffic Threshold IEs.
pub mod RoundTrip
pub mod Threshold
use upg_vpp_tr.Base.{ℕ, ◌+◌, ◌^◌, has, List, ◌++◌, [], if◌then◌else◌}
use upg_vpp_tr.Wire.Defs.{
  Outcome, Decoder, ◌>>=◌, pure, checked, taken, when, run, get_u8, get_u16, get_u64, get_masked,
  put_u8, put_u16, put_u64,
}

pub record DlFlowLevelMarking : Type 0 where
  pub flags : ℕ
  pub tos_traffic_class : ℕ
  pub service_class_indicator : ℕ

abbrev pub dl_flm_ttc : ℕ
dl_flm_ttc = 2 ^ 0

abbrev pub dl_flm_sci : ℕ
dl_flm_sci = 2 ^ 1

unfoldable pub dl_flow_level_marking : DlFlowLevelMarking → Decoder DlFlowLevelMarking
dl_flow_level_marking v = do
  flags ← checked 1 (get_masked 0x03)
  tos ← when (has flags dl_flm_ttc) v.tos_traffic_class (checked 2 get_u16)
  sci ← when (has flags dl_flm_sci) v.service_class_indicator (checked 2 get_u16)
  pure (record { flags = flags; tos_traffic_class = tos; service_class_indicator = sci })

unfoldable pub decode_dl_flow_level_marking :
    DlFlowLevelMarking → List ℕ → ℕ → Outcome DlFlowLevelMarking
decode_dl_flow_level_marking v = run (dl_flow_level_marking v)

unfoldable pub encode_dl_flow_level_marking : DlFlowLevelMarking → List ℕ
encode_dl_flow_level_marking v =
    put_u8 v.flags
    ++ ((if has v.flags dl_flm_ttc then put_u16 v.tos_traffic_class else [])
        ++ (if has v.flags dl_flm_sci then put_u16 v.service_class_indicator else []))

pub record DownlinkDataService : Type 0 where
  pub flags : ℕ
  pub paging_policy_indication : ℕ
  pub qfi : ℕ

abbrev pub f_ddsi_ppi : ℕ
f_ddsi_ppi = 2 ^ 0

abbrev pub f_ddsi_qfii : ℕ
f_ddsi_qfii = 2 ^ 1

unfoldable pub downlink_data_service_information : DownlinkDataService → Decoder DownlinkDataService
downlink_data_service_information v = do
  flags ← checked 1 (get_masked 0x03)
  ppi ← when (has flags f_ddsi_ppi) v.paging_policy_indication (checked 1 get_u8)
  qfi ← when (has flags f_ddsi_qfii) v.qfi (checked 1 get_u8)
  pure (record { flags = flags; paging_policy_indication = ppi; qfi = qfi })

unfoldable pub decode_downlink_data_service_information :
    DownlinkDataService → List ℕ → ℕ → Outcome DownlinkDataService
decode_downlink_data_service_information v = run (downlink_data_service_information v)

unfoldable pub encode_downlink_data_service_information : DownlinkDataService → List ℕ
encode_downlink_data_service_information v =
    put_u8 v.flags
    ++ ((if has v.flags f_ddsi_ppi then put_u8 v.paging_policy_indication else [])
        ++ (if has v.flags f_ddsi_qfii then put_u8 v.qfi else []))

pub record Rate : Type 0 where
  pub unit : ℕ
  pub max : ℕ

pub record PacketRate : Type 0 where
  pub flags : ℕ
  pub ul : Rate
  pub dl : Rate
  pub a_ul : Rate
  pub a_dl : Rate

abbrev pub packet_rate_ulpr : ℕ
packet_rate_ulpr = 2 ^ 0

abbrev pub packet_rate_dlpr : ℕ
packet_rate_dlpr = 2 ^ 1

abbrev pub packet_rate_aprc : ℕ
packet_rate_aprc = 2 ^ 3

-- `v->ul.unit = get_u8 (data) & 0x0f; v->ul.max = get_u16 (data);`
unfoldable pub get_rate : Decoder Rate
get_rate = do unit ← get_masked 0x0f; max ← get_u16; pure (record { unit = unit; max = max })

unfoldable pub put_rate : Rate → List ℕ
put_rate r = put_u8 r.unit ++ put_u16 r.max

-- The additional rates, behind the APRC flag.
unfoldable pub additional_rates : PacketRate → ℕ → Decoder (Rate × Rate)
additional_rates v flags = do
  a_ul ← when (has flags packet_rate_ulpr) v.a_ul (checked 3 get_rate)
  a_dl ← when (has flags packet_rate_dlpr) v.a_dl (checked 3 get_rate)
  pure (a_ul, a_dl)

unfoldable pub packet_rate : PacketRate → Decoder PacketRate
packet_rate v = do
  flags ← checked 1 (get_masked 0x03)
  ul ← when (has flags packet_rate_ulpr) v.ul (checked 3 get_rate)
  dl ← when (has flags packet_rate_dlpr) v.dl (checked 3 get_rate)
  a ← when (has flags packet_rate_aprc) (v.a_ul, v.a_dl) (additional_rates v flags)
  pure (record { flags = flags; ul = ul; dl = dl; a_ul = a.0; a_dl = a.1 })

unfoldable pub decode_packet_rate : PacketRate → List ℕ → ℕ → Outcome PacketRate
decode_packet_rate v = run (packet_rate v)

unfoldable pub encode_packet_rate : PacketRate → List ℕ
encode_packet_rate v =
    put_u8 v.flags
    ++ ((if has v.flags packet_rate_ulpr then put_rate v.ul else [])
        ++ ((if has v.flags packet_rate_dlpr then put_rate v.dl else [])
            ++ (if has v.flags packet_rate_aprc
                then (if has v.flags packet_rate_ulpr then put_rate v.a_ul else [])
                  ++ (if has v.flags packet_rate_dlpr then put_rate v.a_dl else [])
                else [])))

pub record DroppedDlTrafficThreshold : Type 0 where
  pub flags : ℕ
  pub downlink_packets : ℕ
  pub downlink_volume : ℕ

abbrev pub ddtt_dlpa : ℕ
ddtt_dlpa = 2 ^ 0

abbrev pub ddtt_dlby : ℕ
ddtt_dlby = 2 ^ 1

unfoldable pub dropped_dl_traffic_threshold :
    DroppedDlTrafficThreshold → Decoder DroppedDlTrafficThreshold
dropped_dl_traffic_threshold v = do
  flags ← taken 2 1 get_u8
  packets ← when (has flags ddtt_dlpa) v.downlink_packets (checked 8 get_u64)
  volume ← when (has flags ddtt_dlby) v.downlink_volume (checked 8 get_u64)
  pure (record { flags = flags; downlink_packets = packets; downlink_volume = volume })

unfoldable pub decode_dropped_dl_traffic_threshold :
    DroppedDlTrafficThreshold → List ℕ → ℕ → Outcome DroppedDlTrafficThreshold
decode_dropped_dl_traffic_threshold v = run (dropped_dl_traffic_threshold v)

unfoldable pub encode_dropped_dl_traffic_threshold : DroppedDlTrafficThreshold → List ℕ
encode_dropped_dl_traffic_threshold v =
    put_u8 v.flags
    ++ ((if has v.flags ddtt_dlby then put_u64 v.downlink_packets else [])
        ++ (if has v.flags ddtt_dlpa then put_u64 v.downlink_packets else []))
