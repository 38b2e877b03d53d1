-- ===== src/Ie/Mac.antt =====
-- upf/pfcp.c: the MAC Address IE and the MAC address lists.
pub mod Laws
use upg_vpp_tr.Base.{ℕ, ◌+◌, ◌*◌, ◌^◌, has, List, ◌++◌, [], length, ◌/◌, if◌then◌else◌}
use upg_vpp_tr.Wire.Defs.{
  Outcome, Decoder, ◌>>=◌, ◌>>◌, pure, need, checked, when, run, get_vec, get_u8, put_u8,
}

pub record MacAddress : Type 0 where
  pub flags : ℕ
  pub src_mac : List ℕ
  pub dst_mac : List ℕ
  pub upper_src_mac : List ℕ
  pub upper_dst_mac : List ℕ

abbrev pub f_source_mac : ℕ
f_source_mac = 2 ^ 0

abbrev pub f_destination_mac : ℕ
f_destination_mac = 2 ^ 1

abbrev pub f_upper_source_mac : ℕ
f_upper_source_mac = 2 ^ 2

abbrev pub f_upper_destination_mac : ℕ
f_upper_destination_mac = 2 ^ 3

unfoldable pub pfcp_mac_address : MacAddress → Decoder MacAddress
pfcp_mac_address v = do
  flags ← checked 1 get_u8
  src ← when (has flags f_source_mac) v.src_mac (checked 6 (get_vec 6))
  dst ← when (has flags f_destination_mac) v.dst_mac (checked 6 (get_vec 6))
  upper_src ← when (has flags f_upper_source_mac) v.upper_src_mac (checked 6 (get_vec 6))
  upper_dst ← when (has flags f_upper_destination_mac) v.upper_dst_mac (checked 6 (get_vec 6))
  pure (record {
    flags = flags;
    src_mac = src;
    dst_mac = dst;
    upper_src_mac = upper_src;
    upper_dst_mac = upper_dst;
  })

unfoldable pub decode_pfcp_mac_address : MacAddress → List ℕ → ℕ → Outcome MacAddress
decode_pfcp_mac_address v = run (pfcp_mac_address v)

unfoldable pub encode_pfcp_mac_address : MacAddress → List ℕ
encode_pfcp_mac_address v =
    put_u8 v.flags
    ++ ((if has v.flags f_source_mac then v.src_mac else [])
        ++ ((if has v.flags f_destination_mac then v.dst_mac else [])
            ++ ((if has v.flags f_upper_source_mac then v.upper_src_mac else [])
                ++ (if has v.flags f_upper_destination_mac then v.upper_dst_mac else []))))

-- A list of MAC addresses is the string of their octets; `vec_add` appends to the list that `v` is.
-- The octet of the count is still in `length` when that is tested.
unfoldable pub mac_addresses_vec : List ℕ → Decoder (List ℕ)
mac_addresses_vec v = do
  need 1
  cnt ← get_u8
  need (cnt * 6)
  macs ← get_vec (cnt * 6)
  pure (v ++ macs)

unfoldable pub decode_mac_addresses_vec : List ℕ → List ℕ → ℕ → Outcome (List ℕ)
decode_mac_addresses_vec v = run (mac_addresses_vec v)

unfoldable pub encode_mac_addresses_vec : List ℕ → List ℕ
encode_mac_addresses_vec v = put_u8 (length v / 6) ++ v
