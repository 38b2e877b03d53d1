-- ===== src/Flow/Key.antt =====
-- upf/flowtable.h: the key of a flow, `flow_mk_key` and what it calls.
--
-- The comparison of two addresses and the setters of `ip46_address_t` are VPP's, and so an interface
-- here. A packet is what the functions read of its headers.
pub mod Laws
use upg_vpp_tr.Base.{ℕ, Bool, ◌||◌, ◌==◌, if◌then◌else◌}

-- The addresses of one version of IP: `before a b` is whether the comparison of the two is below 0. It
-- need not be an order.
pub record Addresses (U : Type 0) : Type 1 where
  pub Address : Type 0
  pub before : Address → Address → Bool
  pub set : Address → U

pub record Packet {ℓ} (A : Type ℓ) : Type ℓ where
  pub src_address : A
  pub dst_address : A
  pub protocol : ℕ
  pub src_port : ℕ
  pub dst_port : ℕ

-- Two values by their order: `x[FT_ORIGIN]` and `x[FT_REVERSE]`.
pub record Both {ℓ} (A : Type ℓ) : Type ℓ where
  pub origin : A
  pub reverse : A

pub record FlowKey (U : Type 0) : Type 0 where
  pub seid : ℕ
  pub ip : Both U
  pub port : Both ℕ
  pub proto : ℕ

abbrev pub ip_protocol_tcp : ℕ
ip_protocol_tcp = 6

abbrev pub ip_protocol_udp : ℕ
ip_protocol_udp = 17

-- `x[FT_ORIGIN ^ is_reverse] = a; x[FT_REVERSE ^ is_reverse] = b;`
unfoldable pub ordered {ℓ} : {A : Type ℓ} → Bool → A → A → Both A
ordered is_reverse a b =
    if is_reverse then record { origin = b; reverse = a } else record { origin = a; reverse = b }

unfoldable pub parse_packet_protocol : ℕ → Bool → ℕ → ℕ → Both ℕ
unfolding ordered
parse_packet_protocol proto is_reverse src_port dst_port =
    if proto == ip_protocol_udp || proto == ip_protocol_tcp
    then ordered is_reverse src_port dst_port
    else record { origin = 0; reverse = 0 }

module _ {U : Type 0} (addresses : Addresses U) where
  open addresses use {Address, before, set}

  -- `parse_ip4_packet` and `parse_ip6_packet`, on the addresses of their version: whether the packet
  -- is of the reverse direction, and the key.
  unfoldable pub parse_ip_packet : ℕ → Packet Address → Bool × FlowKey U
  unfolding ordered parse_packet_protocol
  parse_ip_packet seid p =
      let is_reverse = before p.src_address p.dst_address in
      (
        is_reverse,
        record {
          seid = seid;
          ip = ordered is_reverse (set p.src_address) (set p.dst_address);
          port = parse_packet_protocol p.protocol is_reverse p.src_port p.dst_port;
          proto = p.protocol;
        },
      )

module _ {U : Type 0} (v4 v6 : Addresses U) where
  -- A packet by its version: `header` with `is_ip4`.
  pub data Header : Type 1 where
    ip4 : Packet v4.Address → Header
    ip6 : Packet v6.Address → Header

  unfoldable pub flow_mk_key : ℕ → Header → Bool × FlowKey U
  flow_mk_key seid (ip4 p) = parse_ip_packet v4 seid p
  flow_mk_key seid (ip6 p) = parse_ip_packet v6 seid p
