-- ===== src/Ie/UeIpAddress.antt =====
-- The UE IP Address IE: `pfcp_ue_ip_address_t` and its functions in upf/pfcp.c.
use upg_vpp_tr.Base.{ℕ, ◌^◌, ◌<◌, ◌≡◌, has, List, ◌++◌, [], length, if◌then◌else◌}
use upg_vpp_tr.Wire.Defs.{
  Outcome, Decoder, ◌>>=◌, pure, checked, when, run, get_u8, get_ip4, get_ip6, put_u8,
}
use upg_vpp_tr.Wire.Reads.{Reads, Reads-bind, Reads-end, Reads-be, Reads-vec, Reads-when}
use upg_vpp_tr.Wire.Safe.{Safe, safe}

pub record UeIpAddress : Type 0 where
  pub flags : ℕ
  pub ip4 : List ℕ
  pub ip6 : List ℕ
  pub prefix_delegation_length : ℕ
  pub prefix_length : ℕ

abbrev pub ue_ip_v6 : ℕ
ue_ip_v6 = 2 ^ 0

abbrev pub ue_ip_v4 : ℕ
ue_ip_v4 = 2 ^ 1

abbrev pub ue_ip_ipv6d : ℕ
ue_ip_ipv6d = 2 ^ 3

abbrev pub ue_ip_ip6pl : ℕ
ue_ip_ip6pl = 2 ^ 6

unfoldable pub ue_ip_address : UeIpAddress → Decoder UeIpAddress
ue_ip_address v = do
  flags ← checked 1 get_u8
  ip4 ← when (has flags ue_ip_v4) v.ip4 (checked 4 get_ip4)
  ip6 ← when (has flags ue_ip_v6) v.ip6 (checked 16 get_ip6)
  delegation ← when (has flags ue_ip_ipv6d) v.prefix_delegation_length (checked 1 get_u8)
  prefix ← when (has flags ue_ip_ip6pl) v.prefix_length (checked 1 get_u8)
  pure (record {
    flags = flags;
    ip4 = ip4;
    ip6 = ip6;
    prefix_delegation_length = delegation;
    prefix_length = prefix;
  })

unfoldable pub decode_ue_ip_address : UeIpAddress → List ℕ → ℕ → Outcome UeIpAddress
decode_ue_ip_address v = run (ue_ip_address v)

unfoldable pub encode_ue_ip_address : UeIpAddress → List ℕ
encode_ue_ip_address v =
    put_u8 v.flags
    ++ ((if has v.flags ue_ip_v4 then v.ip4 else [])
        ++ ((if has v.flags ue_ip_v6 then v.ip6 else [])
            ++ ((if has v.flags ue_ip_ipv6d then put_u8 v.prefix_delegation_length else [])
                ++ (if has v.flags ue_ip_ip6pl then put_u8 v.prefix_length else []))))

pub record IsUeIpAddress (v : UeIpAddress) : Type 0 where
  pub flags_ok : v.flags < 2 ^ 8
  pub ip4_ok : length v.ip4 ≡ 4
  pub ip6_ok : length v.ip6 ≡ 16
  pub delegation_ok : v.prefix_delegation_length < 2 ^ 8
  pub prefix_ok : v.prefix_length < 2 ^ 8

abbrev pub ue_ip_received : UeIpAddress → UeIpAddress → UeIpAddress
ue_ip_received v old = record {
  flags = v.flags;
  ip4 = if has v.flags ue_ip_v4 then v.ip4 else old.ip4;
  ip6 = if has v.flags ue_ip_v6 then v.ip6 else old.ip6;
  prefix_delegation_length =
      if has v.flags ue_ip_ipv6d then v.prefix_delegation_length else old.prefix_delegation_length;
  prefix_length = if has v.flags ue_ip_ip6pl then v.prefix_length else old.prefix_length;
}

pub ue_ip_address-Reads :
    (v old : UeIpAddress)
    → IsUeIpAddress v
    → Reads (ue_ip_address old) (encode_ue_ip_address v) (ue_ip_received v old)
unfolding ue_ip_address encode_ue_ip_address
ue_ip_address-Reads v old w = Reads-bind _ (Reads-be 1 _ w.flags_ok) (
    Reads-bind _ (Reads-when _ _ (Reads-vec 4 _ w.ip4_ok)) (
      Reads-bind _ (Reads-when _ _ (Reads-vec 16 _ w.ip6_ok)) (
        Reads-bind _ (Reads-when _ _ (Reads-be 1 _ w.delegation_ok))
          (Reads-end _ (Reads-when _ _ (Reads-be 1 _ w.prefix_ok))))))

pub ue_ip_address-Safe : (v : UeIpAddress) → Safe (ue_ip_address v)
unfolding ue_ip_address
ue_ip_address-Safe v = search safe depth 20
