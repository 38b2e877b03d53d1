-- ===== src/Ie/Address/Laws.antt =====
-- Node IDs: `decode_node_id` and `encode_node_id` of upf/pfcp.c.
use upg_vpp_tr.Base.{
  ℕ, ◌+◌, ◌^◌, ◌<◌, ◌≡◌, refl, sym, arith, Bool, true, false, ◌||◌, ◌==◌, List, ◌++◌, [], length,
  length-append, if◌then◌else◌,
}
use upg_vpp_tr.Wire.Defs.{
  ok, Decoder, request_rejected, ◌>>=◌, ◌>>◌, pure, fail, need, get_length, get_vec, put_u8,
}
use upg_vpp_tr.Wire.Reads.{Gets, Gets-vec_of, Gets-map, Gets-masked, length-octets}
use upg_vpp_tr.Wire.Steps.{
  Steps, Steps-bind, Steps-silent, Steps-end, Steps-need, Steps-Gets, Steps-checked, Steps-length,
  run-Steps,
}
use upg_vpp_tr.Wire.Masks.{mask_fifteen}
use upg_vpp_tr.Ie.Address

module _ (i : Address.Ip46) where
  open i use {
    Address as A, of_ip4, ip4, of_ip6, ip6, is_ip4, length-ip4, length-ip6, of_ip4-ip4, of_ip6-ip6,
  }

  pub Gets-ip4 : (a : A) → is_ip4 a ≡ true → Gets (Address.get_ip46_ip4 i) (ip4 a) a
  unfolding Address.get_ip46_ip4
  Gets-ip4 a e = rw (of_ip4-ip4 a e) at (Gets-map of_ip4 (Gets-vec_of 4 (ip4 a) (length-ip4 a)))

  pub Gets-ip6 : (a : A) → Gets (Address.get_ip46_ip6 i) (ip6 a) a
  unfolding Address.get_ip46_ip6
  Gets-ip6 a = rw (of_ip6-ip6 a) at (Gets-map of_ip6 (Gets-vec_of 16 (ip6 a) (length-ip6 a)))

  -- The `switch` on the kind of node id, with its tests as truth values.
  abbrev node_body : Bool → Bool → Bool → ℕ → Address.NodeId A → Decoder (Address.NodeId A)
  node_body b c d kind old =
      if b
      then need 4 >> (Address.get_ip46_ip4 i >>= (λ a. pure (record old { kind = kind; ip = a })))
      else if c
      then need 16 >> (Address.get_ip46_ip6 i >>= (λ a. pure (record old { kind = kind; ip = a })))
      else if d
      then (get_length >>= get_vec) >>= (λ xs. pure (record old { kind = kind; fqdn = xs }))
      else fail request_rejected

  abbrev node_octets : Bool → Bool → Bool → Address.NodeId A → List ℕ
  node_octets b c d v = if b then ip4 v.ip else if c then ip6 v.ip else if d then v.fqdn else []

  abbrev node_got : Bool → Bool → Address.NodeId A → Address.NodeId A → Address.NodeId A
  node_got b c v old = record {
    kind = v.kind;
    ip = if b || c then v.ip else old.ip;
    fqdn = if b || c then old.fqdn else v.fqdn;
  }

  node_body-Steps :
      (b c d : Bool) (v old : Address.NodeId A) (p : ℕ)
      → (b ≡ true → is_ip4 v.ip ≡ true)
      → (b || (c || d)) ≡ true
      → p ≡ length (node_octets b c d v)
      → Steps (node_body b c d v.kind old) p (node_octets b c d v) (node_got b c v old) p
  node_body-Steps true c d v old p h some e =
      Steps-silent _ (Steps-need 4 p (omega (arith, length-ip4 v.ip)))
        (Steps-end _ (Steps-Gets p (Gets-ip4 v.ip (h refl))))
  node_body-Steps false true d v old p h some e =
      Steps-silent _ (Steps-need 16 p (omega (arith, length-ip6 v.ip)))
        (Steps-end _ (Steps-Gets p (Gets-ip6 v.ip)))
  node_body-Steps false false true v old p h some e =
      Steps-end _
        (Steps-silent get_vec (Steps-length p) (Steps-Gets p (Gets-vec_of p v.fqdn (sym e))))
  node_body-Steps false false false v old p h some e = cc

  -- What `decode_node_id` leaves of a node id: the address or the name, as its kind says.
  abbrev pub node_id_received : Address.NodeId A → Address.NodeId A → Address.NodeId A
  node_id_received v old = node_got (v.kind == Address.nid_ipv4) (v.kind == Address.nid_ipv6) v old

  -- A node id of a known kind (with an IPv4 address where it says so) that `encode_node_id` wrote
  -- is read back from an encoding shorter than 2 ^ 16, whatever lies behind the IE; the member
  -- that its kind does not select keeps what the structure held.
  pub decode-encode_node_id :
      (v old : Address.NodeId A) (rest : List ℕ)
      → v.kind < 3
      → ((v.kind == Address.nid_ipv4) ≡ true → is_ip4 v.ip ≡ true)
      → length (Address.encode_node_id i v) < 2 ^ 16
      → Address.decode_node_id i old
          (Address.encode_node_id i v ++ rest)
          (length (Address.encode_node_id i v))
        ≡ ok (node_id_received v old)
  unfolding Address.decode_node_id Address.node_id Address.encode_node_id
  decode-encode_node_id v old rest h k fits =
      let b = v.kind == Address.nid_ipv4 in
      let c = v.kind == Address.nid_ipv6 in
      let d = v.kind == Address.nid_fqdn in
      let tail = node_octets b c d v in
      let size : length (put_u8 v.kind ++ tail) ≡ length tail + 1 =
        omega (arith, length-append (put_u8 v.kind) tail, length-octets 1 v.kind) in
      run-Steps rest (
        Steps-bind _
          (Steps-checked 1 _ (length tail)
            (Gets-masked 0x0f v.kind (omega arith) (mask_fifteen _ (omega arith))) size fits)
          (node_body-Steps b c d v old (length tail) k (ground arith) refl))
