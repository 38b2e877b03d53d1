-- ===== src/Runs/Filters.antt =====
-- The theorems on the flagged and the counted IEs of upf/pfcp.c at concrete octets.
use upg_vpp_tr.Base.{ℕ, ◌^◌, ◌≡◌, refl, arith, List, ◌∷◌, ◌++◌, [], length}
use upg_vpp_tr.Wire.Defs.{ok, octets}
use upg_vpp_tr.Ie.SdfFilter.{
  SdfFilter, IsSdfFilter, decode_sdf_filter, encode_sdf_filter, sdf_received,
}
use upg_vpp_tr.Ie.UeIpAddress.{UeIpAddress, IsUeIpAddress}
use upg_vpp_tr.Ie.PfdContents.{PfdContents, IsPfdContents}
use upg_vpp_tr.Ie.Volume.{Volume, VolumeMeasurement}
use upg_vpp_tr.Ie.Volume.Laws.{IsVolume}
use upg_vpp_tr.Ie.RoundTrip.{decode-encode_sdf_filter}
use upg_vpp_tr.Runs.Ies.{behind, four, sixteen}

abbrev pub text : List ℕ
text = 112 ∷ 101 ∷ []

abbrev filter : SdfFilter
filter = record {
  flags = 15;
  flow = text;
  tos_traffic_class = 300;
  spi = 5;
  flow_label = 6;
  sdf_filter_id = 0;
}

abbrev no_filter : SdfFilter
no_filter = record {
  flags = 0;
  flow = [];
  tos_traffic_class = 0;
  spi = 0;
  flow_label = 0;
  sdf_filter_id = 0;
}

filter-IsSdfFilter : IsSdfFilter filter
filter-IsSdfFilter = record {
  flags_ok = omega arith;
  flow_ok = omega arith;
  tos_ok = omega arith;
  spi_ok = omega arith;
  label_ok = omega arith;
  id_ok = omega arith;
}

decode-encode_sdf_filter_example :
    decode_sdf_filter no_filter
      (encode_sdf_filter filter ++ behind)
      (length (encode_sdf_filter filter))
    ≡ ok (sdf_received filter no_filter)
unfolding encode_sdf_filter octets
decode-encode_sdf_filter_example =
    decode-encode_sdf_filter filter no_filter behind filter-IsSdfFilter (omega arith)

abbrev ue : UeIpAddress
ue = record {
  flags = 0x4b;
  ip4 = four;
  ip6 = sixteen;
  prefix_delegation_length = 8;
  prefix_length = 56;
}

abbrev no_ue : UeIpAddress
no_ue = record { flags = 0; ip4 = []; ip6 = []; prefix_delegation_length = 0; prefix_length = 0 }

ue-IsUeIpAddress : IsUeIpAddress ue
ue-IsUeIpAddress = record {
  flags_ok = omega arith;
  ip4_ok = refl;
  ip6_ok = refl;
  delegation_ok = omega arith;
  prefix_ok = omega arith;
}

abbrev pfd : PfdContents
pfd = record { flow_description = text; url = []; domain = text; custom = []; dnp = [] }

abbrev no_pfd : PfdContents
no_pfd = record { flow_description = []; url = []; domain = []; custom = []; dnp = [] }

pfd-IsPfdContents : IsPfdContents pfd
pfd-IsPfdContents = record {
  flow_ok = omega arith;
  url_ok = omega arith;
  domain_ok = omega arith;
  custom_ok = omega arith;
  dnp_ok = omega arith;
}

abbrev volume : Volume
volume = record { fields = 5; total = 2 ^ 40; ul = 0; dl = 7 }

abbrev no_volume : Volume
no_volume = record { fields = 0; total = 0; ul = 0; dl = 0 }

volume-IsVolume : IsVolume volume
volume-IsVolume = record {
  fields_ok = omega arith;
  total_ok = omega arith;
  ul_ok = omega arith;
  dl_ok = omega arith;
}

abbrev no_measurement : VolumeMeasurement
no_measurement = record {
  fields = 0;
  volume = record { total = 0; ul = 0; dl = 0 };
  packets = record { total = 1; ul = 2; dl = 3 };
}
