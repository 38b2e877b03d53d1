-- ===== src/Ie/Marking/RoundTrip.antt =====
-- The marking and rate IEs of upf/pfcp.c.
use upg_vpp_tr.Base.{
  ℕ, ◌^◌, ◌<◌, ◌≤◌, ◌≡◌, refl, arith, has, has_clear, all_below, false, List, length-append,
  if◌then◌else◌,
}
use upg_vpp_tr.Wire.Defs.{ok, checked, when}
use upg_vpp_tr.Wire.Reads.{
  Reads, Gets-masked, Gets-be, Gets-bind, Gets-end, Reads-bind, Reads-end, Reads-be, Reads-masked,
  Reads-checked, Reads-when, Reads-pure, length-octets,
}
use upg_vpp_tr.Wire.Safe.{Safe, Exact, Exact-bind, Exact-be, Exact-masked, Exact-pure, safe}
use upg_vpp_tr.Wire.Masks.{mask_three, mask_fifteen}
use upg_vpp_tr.Wire.Yields.{
  Yields, Yields-step, Yields-bind, Yields-masked, Yields-checked, Yields-when_not, Yields-pure,
  run-Yields,
}
use upg_vpp_tr.Ie.Marking.{
  DlFlowLevelMarking, dl_flm_ttc, dl_flm_sci, dl_flow_level_marking, encode_dl_flow_level_marking,
  DownlinkDataService, f_ddsi_ppi, f_ddsi_qfii, downlink_data_service_information,
  encode_downlink_data_service_information, Rate, PacketRate, packet_rate_ulpr, packet_rate_dlpr,
  packet_rate_aprc, get_rate, put_rate, additional_rates, packet_rate, decode_packet_rate,
  encode_packet_rate,
}

pub record IsMarking (v : DlFlowLevelMarking) : Type 0 where
  pub flags_ok : v.flags < 4
  pub tos_ok : v.tos_traffic_class < 2 ^ 16
  pub sci_ok : v.service_class_indicator < 2 ^ 16

abbrev pub marking_received : DlFlowLevelMarking → DlFlowLevelMarking → DlFlowLevelMarking
marking_received v old = record {
  flags = v.flags;
  tos_traffic_class = if has v.flags dl_flm_ttc then v.tos_traffic_class else old.tos_traffic_class;
  service_class_indicator =
      if has v.flags dl_flm_sci then v.service_class_indicator else old.service_class_indicator;
}

pub dl_flow_level_marking-Reads :
    (v old : DlFlowLevelMarking)
    → IsMarking v
    → Reads (dl_flow_level_marking old) (encode_dl_flow_level_marking v) (marking_received v old)
unfolding dl_flow_level_marking encode_dl_flow_level_marking
dl_flow_level_marking-Reads v old w =
    Reads-bind _ (Reads-masked 0x03 _ (omega arith) (mask_three _ w.flags_ok)) (
      Reads-bind _ (Reads-when _ _ (Reads-be 2 _ w.tos_ok))
        (Reads-end _ (Reads-when _ _ (Reads-be 2 _ w.sci_ok))))

pub dl_flow_level_marking-Safe : (v : DlFlowLevelMarking) → Safe (dl_flow_level_marking v)
unfolding dl_flow_level_marking
dl_flow_level_marking-Safe v = search safe depth 20

pub record IsDataService (v : DownlinkDataService) : Type 0 where
  pub flags_ok : v.flags < 4
  pub ppi_ok : v.paging_policy_indication < 2 ^ 8
  pub qfi_ok : v.qfi < 2 ^ 8

abbrev pub data_service_received : DownlinkDataService → DownlinkDataService → DownlinkDataService
data_service_received v old = record {
  flags = v.flags;
  paging_policy_indication =
      if has v.flags f_ddsi_ppi then v.paging_policy_indication else old.paging_policy_indication;
  qfi = if has v.flags f_ddsi_qfii then v.qfi else old.qfi;
}

pub downlink_data_service-Reads :
    (v old : DownlinkDataService)
    → IsDataService v
    → Reads
        (downlink_data_service_information old)
        (encode_downlink_data_service_information v)
        (data_service_received v old)
unfolding downlink_data_service_information encode_downlink_data_service_information
downlink_data_service-Reads v old w =
    Reads-bind _ (Reads-masked 0x03 _ (omega arith) (mask_three _ w.flags_ok)) (
      Reads-bind _ (Reads-when _ _ (Reads-be 1 _ w.ppi_ok))
        (Reads-end _ (Reads-when _ _ (Reads-be 1 _ w.qfi_ok))))

pub downlink_data_service-Safe :
    (v : DownlinkDataService) → Safe (downlink_data_service_information v)
unfolding downlink_data_service_information
downlink_data_service-Safe v = search safe depth 20

pub record IsRate (r : Rate) : Type 0 where
  pub unit_ok : r.unit < 16
  pub max_ok : r.max < 2 ^ 16

pub record IsPacketRate (v : PacketRate) : Type 0 where
  pub flags_ok : v.flags < 4
  pub ul_ok : IsRate v.ul
  pub dl_ok : IsRate v.dl

Reads-rate : (r : Rate) → IsRate r → Reads (checked 3 get_rate) (put_rate r) r
unfolding get_rate put_rate
Reads-rate r w =
    Reads-checked 3
      (Gets-bind _ (Gets-masked 0x0f r.unit (omega arith) (mask_fifteen _ w.unit_ok))
        (Gets-end (λ m. record { unit = r.unit; max = m }) (Gets-be 2 r.max w.max_ok)))
      (rw (length-append, length-octets, length-octets))

-- What `decode_packet_rate` leaves of a packet rate.
abbrev pub packet_rate_received : PacketRate → PacketRate → PacketRate
packet_rate_received v old = record {
  flags = v.flags;
  ul = if has v.flags packet_rate_ulpr then v.ul else old.ul;
  dl = if has v.flags packet_rate_dlpr then v.dl else old.dl;
  a_ul = old.a_ul;
  a_dl = old.a_dl;
}

pub packet_rate-Reads :
    (v old : PacketRate)
    → IsPacketRate v
    → Reads (packet_rate old) (encode_packet_rate v) (packet_rate_received v old)
unfolding packet_rate encode_packet_rate when
packet_rate-Reads v old w =
    let none : has v.flags packet_rate_aprc ≡ false =
      unfold all_below in has_clear 4 packet_rate_aprc refl v.flags w.flags_ok in
    Reads-bind _ (Reads-masked 0x03 _ (omega arith) (mask_three _ w.flags_ok)) (
      Reads-bind _ (Reads-when _ _ (Reads-rate _ w.ul_ok)) (
        Reads-bind _ (Reads-when _ _ (Reads-rate _ w.dl_ok))
          (rw none (Reads-end _ (Reads-pure (old.a_ul, old.a_dl))))))

get_rate-Exact : Exact 3 get_rate
unfolding get_rate
get_rate-Exact =
    Exact-bind _ (Exact-masked 0x0f) (λ u. Exact-bind _ (Exact-be 2) (λ m. Exact-pure _) refl) refl

pub packet_rate-Safe : (v : PacketRate) → Safe (packet_rate v)
unfolding packet_rate additional_rates
packet_rate-Safe v = search (safe, get_rate-Exact) depth 20

KeepsAdditional : PacketRate → PacketRate → Type 0
KeepsAdditional old v = (v.a_ul ≡ old.a_ul) × (v.a_dl ≡ old.a_dl)

packet_rate-Yields : (old : PacketRate) → Yields (KeepsAdditional old) (packet_rate old)
unfolding packet_rate KeepsAdditional
packet_rate-Yields old =
    Yields-bind (λ x. x ≤ 3) _ _ (Yields-checked _ 1 (Yields-masked 0x03))
      λ flags small.
        let none : has flags packet_rate_aprc ≡ false =
          unfold all_below in has_clear 4 packet_rate_aprc refl flags (omega arith) in
        Yields-step _ _ _ λ ul. Yields-step _ _ _ λ dl.
          Yields-bind (λ a. (a.0 ≡ old.a_ul) × (a.1 ≡ old.a_dl)) _ _
            (Yields-when_not _ _ _ none (refl, refl)) λ a e. Yields-pure _ e

-- The additional packet rates are never decoded: whenever `decode_packet_rate` succeeds, on any
-- octets, they are what the structure held.
pub decode_packet_rate-additional :
    (old v : PacketRate) (bytes : List ℕ) (l : ℕ)
    → decode_packet_rate old bytes l ≡ ok v
    → (v.a_ul ≡ old.a_ul) × (v.a_dl ≡ old.a_dl)
unfolding decode_packet_rate KeepsAdditional
decode_packet_rate-additional old v bytes l e =
    run-Yields (KeepsAdditional old) bytes l (packet_rate-Yields old) e
