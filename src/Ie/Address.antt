-- ===== src/Ie/Address.antt =====
-- upf/pfcp.c: the IEs that hold an `ip46_address_t` (Node ID, Outer Header Creation, Remote GTP-U
-- Peer). That type is VPP's, and so an interface here.
pub mod Laws
pub mod Octets
pub mod Header
pub mod Peer
use upg_vpp_tr.Base.{
  ℕ, ◌+◌, ◌^◌, ◌≡◌, Bool, true, not, ◌&&◌, ◌||◌, bit_or, bit_and, has, ltb, ◌==◌, List, ◌++◌, [],
  length, if◌then◌else◌,
}
use upg_vpp_tr.Wire.Defs.{
  Outcome, Decoder, invalid_length, request_rejected, ◌>>=◌, ◌>>◌, pure, fail, need, checked, taken,
  counted_vec, when, run, map_result, get_length, get_vec, get_u8, get_u16, get_u24, get_u32,
  get_ip4, get_ip6, get_masked, get_u16_little, put_u8, put_u16, put_u24, put_u32, put_u16_little,
}
use upg_vpp_tr.Ie.Basic.{dst_intf_num}

-- The union of an IPv4 and an IPv6 address: what VPP documents of its accessors.
pub record Ip46 : Type 1 where
  pub Address : Type 0
  pub of_ip4 : List ℕ → Address
  pub ip4 : Address → List ℕ
  pub of_ip6 : List ℕ → Address
  pub ip6 : Address → List ℕ
  pub is_ip4 : Address → Bool
  pub length-ip4 : (a : Address) → length (ip4 a) ≡ 4
  pub length-ip6 : (a : Address) → length (ip6 a) ≡ 16
  pub of_ip4-ip4 : (a : Address) → is_ip4 a ≡ true → of_ip4 (ip4 a) ≡ a
  pub of_ip6-ip6 : (a : Address) → of_ip6 (ip6 a) ≡ a

pub record NodeId (A : Type 0) : Type 0 where
  pub kind : ℕ
  pub ip : A
  pub fqdn : List ℕ

abbrev pub nid_ipv4 : ℕ
nid_ipv4 = 0

abbrev pub nid_ipv6 : ℕ
nid_ipv6 = 1

abbrev pub nid_fqdn : ℕ
nid_fqdn = 2

pub record OuterHeaderCreation (A : Type 0) : Type 0 where
  pub description : ℕ
  pub teid : ℕ
  pub ip : A
  pub port : ℕ
  pub c_tag : ℕ
  pub s_tag : ℕ

abbrev pub gtp_ip4 : ℕ
gtp_ip4 = 2 ^ 0

abbrev pub gtp_ip6 : ℕ
gtp_ip6 = 2 ^ 1

abbrev pub udp_ip4 : ℕ
udp_ip4 = 2 ^ 2

abbrev pub udp_ip6 : ℕ
udp_ip6 = 2 ^ 3

abbrev pub plain_ip4 : ℕ
plain_ip4 = 2 ^ 4

abbrev pub has_c_tag : ℕ
has_c_tag = 2 ^ 6

abbrev pub has_s_tag : ℕ
has_s_tag = 2 ^ 7

abbrev pub gtp_any : ℕ
gtp_any = bit_or gtp_ip4 gtp_ip6

abbrev pub udp_any : ℕ
udp_any = bit_or udp_ip4 udp_ip6

abbrev pub any_ip4 : ℕ
any_ip4 = bit_or (bit_or gtp_ip4 udp_ip4) plain_ip4

-- The third flag is that of IPv4, as in `OUTER_HEADER_CREATION_ANY_IP6`.
abbrev pub any_ip6 : ℕ
any_ip6 = bit_or (bit_or gtp_ip6 udp_ip6) plain_ip4

-- The test under which `decode_outer_header_creation` rejects a description.
abbrev pub bad_description : ℕ → Bool
bad_description d =
    d == 0
    || (has d gtp_any && has d udp_any || not (has d gtp_any) && not (has d udp_any))
    || bit_and d udp_any == udp_any

pub record RemoteGtpUPeer (A : Type 0) : Type 0 where
  pub ip : A
  pub destination_interface : ℕ
  pub network_instance : List ℕ

abbrev pub peer_ip6 : ℕ
peer_ip6 = 2 ^ 0

abbrev pub peer_ip4 : ℕ
peer_ip4 = 2 ^ 1

abbrev pub peer_di : ℕ
peer_di = 2 ^ 2

abbrev pub peer_ni : ℕ
peer_ni = 2 ^ 3

-- `(u8) ~0`: no destination interface.
abbrev pub no_interface : ℕ
no_interface = 0xff

module _ (i : Ip46) where
  open i use {Address, of_ip4, ip4, of_ip6, ip6, is_ip4}

  unfoldable pub get_ip46_ip4 : Decoder Address
  get_ip46_ip4 = map_result of_ip4 get_ip4

  unfoldable pub get_ip46_ip6 : Decoder Address
  get_ip46_ip6 = map_result of_ip6 get_ip6

  unfoldable pub node_id : NodeId Address → Decoder (NodeId Address)
  node_id v = do
    kind ← checked 1 (get_masked 0x0f)
    if kind == nid_ipv4
        then need 4 >> (get_ip46_ip4 >>= (λ a. pure (record v { kind = kind; ip = a })))
        else if kind == nid_ipv6
        then need 16 >> (get_ip46_ip6 >>= (λ a. pure (record v { kind = kind; ip = a })))
        else if kind == nid_fqdn
        then (get_length >>= get_vec) >>= (λ xs. pure (record v { kind = kind; fqdn = xs }))
        else fail request_rejected

  unfoldable pub decode_node_id : NodeId Address → List ℕ → ℕ → Outcome (NodeId Address)
  decode_node_id v = run (node_id v)

  unfoldable pub encode_node_id : NodeId Address → List ℕ
  encode_node_id v =
      put_u8 v.kind
      ++ (if v.kind == nid_ipv4
          then ip4 v.ip
          else if v.kind == nid_ipv6
          then ip6 v.ip
          else if v.kind == nid_fqdn
          then v.fqdn
          else [])

  -- The part behind the description. From the port on `length` is not reduced.
  unfoldable pub outer_header :
      OuterHeaderCreation Address → ℕ → Decoder (OuterHeaderCreation Address)
  outer_header v d = do
    teid ← when (has d gtp_any) v.teid (checked 4 get_u32)
    ip ← when (has d any_ip4) v.ip (checked 4 get_ip46_ip4)
    ip ← when (has d any_ip6) ip (checked 16 get_ip46_ip6)
    port ← when (has d udp_any) v.port (need 2 >> get_u16)
    c_tag ← when (has d has_c_tag) v.c_tag (need 3 >> get_u24)
    s_tag ← when (has d has_s_tag) v.s_tag (need 3 >> get_u24)
    pure (record {
      description = d;
      teid = teid;
      ip = ip;
      port = port;
      c_tag = c_tag;
      s_tag = s_tag;
    })

  unfoldable pub outer_header_creation :
      OuterHeaderCreation Address → Decoder (OuterHeaderCreation Address)
  outer_header_creation v = do
    d ← checked 2 get_u16_little
    if bad_description d then fail request_rejected else outer_header v d

  unfoldable pub decode_outer_header_creation :
      OuterHeaderCreation Address → List ℕ → ℕ → Outcome (OuterHeaderCreation Address)
  decode_outer_header_creation v = run (outer_header_creation v)

  unfoldable pub encode_outer_header_creation : OuterHeaderCreation Address → List ℕ
  encode_outer_header_creation v =
      put_u16_little v.description
      ++ ((if has v.description gtp_any then put_u32 v.teid else [])
          ++ ((if has v.description any_ip4 then ip4 v.ip else [])
              ++ ((if has v.description any_ip6 then ip6 v.ip else [])
                  ++ ((if has v.description udp_any then put_u16 v.port else [])
                      ++ ((if has v.description has_c_tag then put_u24 v.c_tag else [])
                          ++ (if has v.description has_s_tag then put_u24 v.s_tag else []))))))

  -- `di_len` must be 1, and the interface one of the known ones.
  unfoldable pub peer_interface : Decoder ℕ
  peer_interface = do
    di_len ← checked 2 get_u16
    if not (di_len == 1) then fail invalid_length else (do
      di ← checked 1 (get_masked 0x0f)
      if ltb di dst_intf_num then pure di else fail request_rejected)

  unfoldable pub remote_gtp_u_peer : RemoteGtpUPeer Address → Decoder (RemoteGtpUPeer Address)
  remote_gtp_u_peer v = do
    flags ← checked 1 get_u8
    ip ←
        if has flags peer_ip6
        then checked 16 get_ip46_ip6
        else when (has flags peer_ip4) v.ip (checked 4 get_ip46_ip4)
    di ← when (has flags peer_di) no_interface peer_interface
    ni ← when (has flags peer_ni) v.network_instance (counted_vec 2)
    pure (record { ip = ip; destination_interface = di; network_instance = ni })

  unfoldable pub decode_remote_gtp_u_peer :
      RemoteGtpUPeer Address → List ℕ → ℕ → Outcome (RemoteGtpUPeer Address)
  decode_remote_gtp_u_peer v = run (remote_gtp_u_peer v)

  unfoldable pub peer_flags : (di ni v4 : Bool) → ℕ
  peer_flags di ni v4 =
      bit_or (bit_or (if di then peer_di else 0) (if ni then peer_ni else 0))
        (if v4 then peer_ip4 else peer_ip6)

  abbrev pub has_interface : RemoteGtpUPeer Address → Bool
  has_interface v = not (v.destination_interface == no_interface)

  abbrev pub has_instance : RemoteGtpUPeer Address → Bool
  has_instance v = ltb 0 (length v.network_instance)

  unfoldable pub encode_remote_gtp_u_peer : RemoteGtpUPeer Address → List ℕ
  encode_remote_gtp_u_peer v =
      put_u8 (peer_flags (has_interface v) (has_instance v) (is_ip4 v.ip))
      ++ ((if is_ip4 v.ip then ip4 v.ip else ip6 v.ip)
          ++ ((if has_interface v then put_u16 1 ++ put_u8 v.destination_interface else [])
              ++ (if has_instance v
                  then put_u16 (length v.network_instance) ++ v.network_instance
                  else [])))
