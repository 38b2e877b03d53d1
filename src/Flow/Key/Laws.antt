-- ===== src/Flow/Key/Laws.antt =====
-- The keys of packets and of their answers: `flow_mk_key` of upf/flowtable.h.
use upg_vpp_tr.Base.{ℕ, ◌≡◌, ◌≢◌, refl, sym, ap, Bool, true, false, not}
use upg_vpp_tr.Flow.Key

-- The packet of the other direction.
abbrev pub answer {ℓ} : {A : Type ℓ} → Key.Packet A → Key.Packet A
answer p = record {
  src_address = p.dst_address;
  dst_address = p.src_address;
  protocol = p.protocol;
  src_port = p.dst_port;
  dst_port = p.src_port;
}

ordered-swap {ℓ} : {A : Type ℓ} (b : Bool) (x y : A) → Key.ordered (not b) y x ≡ Key.ordered b x y
unfolding Key.ordered
ordered-swap true x y = refl
ordered-swap false x y = refl

same_ports :
    (b : Bool) (x y : ℕ)
    → Key.parse_packet_protocol Key.ip_protocol_tcp b x y
      ≡ Key.parse_packet_protocol Key.ip_protocol_tcp b y x
    → x ≡ y
unfolding Key.parse_packet_protocol Key.ordered
same_ports true x y e = ap (λ p. p.reverse) e
same_ports false x y e = ap (λ p. p.origin) e

parse_packet_protocol-swap :
    (proto : ℕ) (b : Bool) (x y : ℕ)
    → Key.parse_packet_protocol proto (not b) y x ≡ Key.parse_packet_protocol proto b x y
unfolding Key.parse_packet_protocol
parse_packet_protocol-swap proto b x y = rw (ordered-swap b x y) refl

module _ {U : Type 0} (addresses : Key.Addresses U) where
  open addresses use {Address, before, set}

  parse_ip_packet-answer :
      (seid : ℕ) (p : Key.Packet Address)
      → before p.dst_address p.src_address ≡ not (before p.src_address p.dst_address)
      → Key.parse_ip_packet addresses seid (answer p)
        ≡ (not (Key.parse_ip_packet addresses seid p).0, (Key.parse_ip_packet addresses seid p).1)
  unfolding Key.parse_ip_packet
  parse_ip_packet-answer seid p h = rw (h, ordered-swap, parse_packet_protocol-swap) refl

module _ {U : Type 0} (v4 v6 : Key.Addresses U) where
  -- The header of the other direction.
  unfoldable pub answered : Key.Header v4 v6 → Key.Header v4 v6
  answered (Key.ip4 p) = Key.ip4 (answer p)
  answered (Key.ip6 p) = Key.ip6 (answer p)

  -- A header of two addresses of which just one is before the other.
  unfoldable pub IsBetween : Key.Header v4 v6 → Type 0
  IsBetween (Key.ip4 p) =
      v4.before p.dst_address p.src_address ≡ not (v4.before p.src_address p.dst_address)
  IsBetween (Key.ip6 p) =
      v6.before p.dst_address p.src_address ≡ not (v6.before p.src_address p.dst_address)

  -- The packets of both directions between two addresses of which just one is before the other have one
  -- key in a session, and opposite directions.
  pub flow_mk_key-answer :
      (seid : ℕ) (header : Key.Header v4 v6)
      → IsBetween header
      → Key.flow_mk_key v4 v6 seid (answered header)
        ≡ (not (Key.flow_mk_key v4 v6 seid header).0, (Key.flow_mk_key v4 v6 seid header).1)
  unfolding Key.flow_mk_key answered IsBetween
  flow_mk_key-answer seid (Key.ip4 p) h = parse_ip_packet-answer v4 seid p h
  flow_mk_key-answer seid (Key.ip6 p) h = parse_ip_packet-answer v6 seid p h

  -- The TCP packets of both directions between two different ports of one IPv4 address have
  -- different keys in a session.
  pub flow_mk_key-same_address :
      (seid : ℕ) (p : Key.Packet v4.Address)
      → p.dst_address ≡ p.src_address
      → p.protocol ≡ Key.ip_protocol_tcp
      → p.src_port ≢ p.dst_port
      → (Key.flow_mk_key v4 v6 seid (Key.ip4 (answer p))).1
        ≢ (Key.flow_mk_key v4 v6 seid (Key.ip4 p)).1
  unfolding Key.flow_mk_key Key.parse_ip_packet
  flow_mk_key-same_address seid p h k n e = n (
      sym (
        same_ports (v4.before p.src_address p.src_address) p.dst_port p.src_port
          (rw (h, k) at (ap (λ x. x.port) e))))
