-- ===== src/Ie/Address/Peer.antt =====
-- Remote GTP-U Peer: `decode_remote_gtp_u_peer` and `encode_remote_gtp_u_peer` of upf/pfcp.c.
use upg_vpp_tr.Base.{
  ℕ, ◌^◌, ◌<◌, ◌≡◌, refl, arith, Bool, true, false, not, ltb, has, List, ◌++◌, [], append-nil,
  length, if◌then◌else◌,
}
use upg_vpp_tr.Wire.Defs.{
  ok, Decoder, ◌>>=◌, pure, checked, when, fail, request_rejected, get_masked, put_u8, put_u16,
}
use upg_vpp_tr.Wire.Reads.{
  Reads, Reads-bind, Reads-end, Reads-be, Reads-masked, Reads-when, Reads-when_if, Reads-checked,
  Reads-counted, Reads-pure, run-Reads,
}
use upg_vpp_tr.Wire.Masks.{mask_fifteen}
use upg_vpp_tr.Ie.Basic.{dst_intf_num}
use upg_vpp_tr.Ie.Address
use upg_vpp_tr.Ie.Address.Laws.{Gets-ip4, Gets-ip6}

record Tells (n : ℕ) (di ni v4 : Bool) : Type 0 where
  octet : n < 256
  di_ok : has n Address.peer_di ≡ di
  ni_ok : has n Address.peer_ni ≡ ni
  v4_ok : has n Address.peer_ip4 ≡ v4
  v6_ok : has n Address.peer_ip6 ≡ not v4

module _ (i : Address.Ip46) where
  open i use {Address as A, of_ip4, ip4, of_ip6, ip6, is_ip4, length-ip4, length-ip6}

  peer_flags-Tells : (a b c : Bool) → Tells (Address.peer_flags i a b c) a b c
  unfolding Address.peer_flags
  peer_flags-Tells a b c = ground arith

  -- A known interface or none, and an instance whose length fits.
  pub record IsPeer (v : Address.RemoteGtpUPeer A) : Type 0 where
    pub interface_ok : Address.has_interface i v ≡ true → v.destination_interface < dst_intf_num
    pub instance_ok : length v.network_instance < 2 ^ 16

  unfoldable known_interface : ℕ → Decoder ℕ
  known_interface d = if ltb d dst_intf_num then pure d else fail request_rejected

  Reads-known :
      (di : ℕ)
      → di < dst_intf_num
      → Reads (checked 1 (get_masked 0x0f) >>= known_interface) (put_u8 di) di
  unfolding known_interface
  Reads-known di h =
      let known : ltb di dst_intf_num ≡ true = ground arith in
      rw append-nil at (
        Reads-bind known_interface {ys = []} {b = di}
          (Reads-masked 0x0f di (omega arith) (mask_fifteen di (omega arith)))
          (rw known (Reads-pure di)))

  Reads-interface :
      (di : ℕ) → di < dst_intf_num → Reads (Address.peer_interface i) (put_u16 1 ++ put_u8 di) di
  unfolding Address.peer_interface known_interface
  Reads-interface di h = Reads-bind _ (Reads-be 2 1 (omega arith)) (Reads-known di h)

  peer_address :
      (b : Bool) (v old : Address.RemoteGtpUPeer A)
      → is_ip4 v.ip ≡ b
      → Reads
          (if not b
            then checked 16 (Address.get_ip46_ip6 i)
            else when b old.ip (checked 4 (Address.get_ip46_ip4 i)))
          (if b then ip4 v.ip else ip6 v.ip)
          v.ip
  unfolding when
  peer_address true v old e = Reads-checked 4 (Gets-ip4 i v.ip e) (length-ip4 v.ip)
  peer_address false v old e = Reads-checked 16 (Gets-ip6 i v.ip) (length-ip6 v.ip)

  -- What `decode_remote_gtp_u_peer` leaves of a peer: an instance that is empty keeps the old one.
  abbrev pub peer_received :
      Address.RemoteGtpUPeer A → Address.RemoteGtpUPeer A → Address.RemoteGtpUPeer A
  peer_received v old = record {
    ip = v.ip;
    destination_interface =
        if Address.has_interface i v then v.destination_interface else Address.no_interface;
    network_instance =
        if Address.has_instance i v then v.network_instance else old.network_instance;
  }

  remote_gtp_u_peer-Reads :
      (v old : Address.RemoteGtpUPeer A)
      → IsPeer v
      → Reads
          (Address.remote_gtp_u_peer i old)
          (Address.encode_remote_gtp_u_peer i v)
          (peer_received v old)
  unfolding Address.remote_gtp_u_peer Address.encode_remote_gtp_u_peer
  remote_gtp_u_peer-Reads v old w =
      let t =
        peer_flags-Tells (Address.has_interface i v) (Address.has_instance i v) (is_ip4 v.ip) in
      Reads-bind _ (Reads-be 1 _ t.octet) (
        rw (t.v6_ok, t.v4_ok, t.di_ok, t.ni_ok)
          (Reads-bind _ (peer_address (is_ip4 v.ip) v old refl) (
            Reads-bind _
              (Reads-when_if (Address.has_interface i v) _
                (λ e. Reads-interface _ (w.interface_ok e)))
              (Reads-end _
                (Reads-when (Address.has_instance i v) _ (Reads-counted 2 _ w.instance_ok))))))

  -- A peer with a known interface or none, and an instance that fits (`IsPeer`), that
  -- `encode_remote_gtp_u_peer` wrote is read back from an encoding shorter than 2 ^ 16, whatever
  -- lies behind the IE; an empty network instance keeps what the structure held, and no interface
  -- is read as 0xff.
  pub decode-encode_remote_gtp_u_peer :
      (v old : Address.RemoteGtpUPeer A) (rest : List ℕ)
      → IsPeer v
      → length (Address.encode_remote_gtp_u_peer i v) < 2 ^ 16
      → Address.decode_remote_gtp_u_peer i old
          (Address.encode_remote_gtp_u_peer i v ++ rest)
          (length (Address.encode_remote_gtp_u_peer i v))
        ≡ ok (peer_received v old)
  unfolding Address.decode_remote_gtp_u_peer
  decode-encode_remote_gtp_u_peer v old rest w fits =
      run-Reads rest (remote_gtp_u_peer-Reads v old w) fits
