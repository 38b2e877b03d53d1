-- ===== src/Runs/Ies.antt =====
-- The theorems on the IEs of upf/pfcp.c at concrete octets.
use upg_vpp_tr.Base.{ℕ, ◌≡◌, refl, arith, List, ◌∷◌, ◌++◌, [], length}
use upg_vpp_tr.Wire.Defs.{ok, fault}
use upg_vpp_tr.Ie.Basic.{GateStatus}
use upg_vpp_tr.Ie.FTeid.{
  FTeid, IsAssigned, decode_f_teid, encode_f_teid, f_teid_received, decode-encode_f_teid,
  decode_f_teid_over_read,
}
use upg_vpp_tr.Ie.FSeid.{
  FSeid, IsFSeid, decode_f_seid, encode_f_seid, f_seid_received, decode-encode_f_seid,
}

abbrev pub behind : List ℕ
behind = 7 ∷ 8 ∷ []

abbrev pub four : List ℕ
four = 10 ∷ 0 ∷ 0 ∷ 1 ∷ []

abbrev pub sixteen : List ℕ
sixteen = four ++ (four ++ (four ++ four))

abbrev gates : GateStatus
gates = record { ul = 1; dl = 2 }

abbrev tunnel : FTeid
tunnel = record { flags = 3; teid = 4660; ip4 = four; ip6 = sixteen; choose_id = 9 }

abbrev no_tunnel : FTeid
no_tunnel = record { flags = 0; teid = 0; ip4 = []; ip6 = []; choose_id = 0 }

tunnel-IsAssigned : IsAssigned tunnel
tunnel-IsAssigned = record {
  flags_ok = omega arith;
  no_ch = refl;
  no_chid = refl;
  some_address = refl;
  teid_ok = omega arith;
  ip4_ok = refl;
  ip6_ok = refl;
}

decode-encode_f_teid_example :
    decode_f_teid no_tunnel (encode_f_teid tunnel ++ behind) (length (encode_f_teid tunnel))
    ≡ ok (f_teid_received tunnel no_tunnel)
decode-encode_f_teid_example = decode-encode_f_teid tunnel no_tunnel behind tunnel-IsAssigned

decode_f_teid_over_read_example : decode_f_teid no_tunnel (1 ∷ 0 ∷ 0 ∷ 18 ∷ []) 4 ≡ fault
decode_f_teid_over_read_example = decode_f_teid_over_read no_tunnel 1 0 0 18 refl

abbrev session : FSeid
session = record { flags = 2; seid = 77; ip4 = four; ip6 = sixteen }

abbrev no_session : FSeid
no_session = record { flags = 0; seid = 0; ip4 = []; ip6 = [] }

session-IsFSeid : IsFSeid session
session-IsFSeid = record {
  flags_ok = omega arith;
  some_flag = refl;
  seid_ok = omega arith;
  ip4_ok = refl;
  ip6_ok = refl;
}

decode-encode_f_seid_example :
    decode_f_seid no_session (encode_f_seid session ++ behind) (length (encode_f_seid session))
    ≡ ok (f_seid_received session no_session)
decode-encode_f_seid_example = decode-encode_f_seid session no_session behind session-IsFSeid
