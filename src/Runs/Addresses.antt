-- ===== src/Runs/Addresses.antt =====
-- The theorems on the IEs with an `ip46_address_t`, over an address of sixteen octets.
use upg_vpp_tr.Base.{ℕ, ◌≡◌, refl, arith, ◌∷◌, ◌++◌, [], length}
use upg_vpp_tr.Wire.Defs.{ok}
use upg_vpp_tr.Ie.Address
use upg_vpp_tr.Ie.Address.Octets.{Sixteen, octets46, of_last, quad}
use upg_vpp_tr.Ie.Address.Header.{IsHeader, header_received, decode-encode_outer_header_creation}
use upg_vpp_tr.Ie.Address.Peer.{IsPeer}
use upg_vpp_tr.Runs.Ies.{behind}

abbrev host : Sixteen
host = of_last (quad 10 0 0 1)

abbrev no_host : Sixteen
no_host = of_last (quad 0 0 0 0)

abbrev node : Address.NodeId Sixteen
node = record { kind = 0; ip = host; fqdn = [] }

abbrev no_node : Address.NodeId Sixteen
no_node = record { kind = 0; ip = no_host; fqdn = [] }

abbrev tagged : ℕ → Address.OuterHeaderCreation Sixteen
tagged d = record { description = d; teid = 4660; ip = host; port = 0; c_tag = 5; s_tag = 6 }

abbrev no_header : Address.OuterHeaderCreation Sixteen
no_header = record { description = 0; teid = 0; ip = no_host; port = 0; c_tag = 0; s_tag = 0 }

-- GTP-U over IPv4, with both tags.
tagged-IsHeader : IsHeader octets46 (tagged 0xc1)
tagged-IsHeader = record {
  description_ok = omega arith;
  accepted = refl;
  ip4_ok = λ _. refl;
  teid_ok = omega arith;
  port_ok = omega arith;
  c_tag_ok = omega arith;
  s_tag_ok = omega arith;
}

decode-encode_outer_header_creation_example :
    Address.decode_outer_header_creation octets46 no_header
      (Address.encode_outer_header_creation octets46 (tagged 0xc1) ++ behind)
      (length (Address.encode_outer_header_creation octets46 (tagged 0xc1)))
    ≡ ok (header_received octets46 (tagged 0xc1) no_header)
decode-encode_outer_header_creation_example =
    decode-encode_outer_header_creation octets46 (tagged 0xc1) no_header behind tagged-IsHeader

abbrev peer : Address.RemoteGtpUPeer Sixteen
peer = record { ip = host; destination_interface = 1; network_instance = 101 ∷ [] }

abbrev no_peer : Address.RemoteGtpUPeer Sixteen
no_peer = record { ip = no_host; destination_interface = 0; network_instance = [] }

peer-IsPeer : IsPeer octets46 peer
peer-IsPeer = record { interface_ok = λ _. omega arith; instance_ok = omega arith }
