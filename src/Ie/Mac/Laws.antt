-- ===== src/Ie/Mac/Laws.antt =====
-- MAC addresses: `*_pfcp_mac_address` and `*_mac_addresses_vec` of upf/pfcp.c.
use upg_vpp_tr.Base.{
  ℕ, ◌+◌, ◌*◌, ◌/◌, ◌^◌, ◌<◌, ◌≤◌, ◌≡◌, arith, has, List, ◌++◌, length, if◌then◌else◌,
}
use upg_vpp_tr.Wire.Defs.{ok, fault, put_u8}
use upg_vpp_tr.Wire.Reads.{
  Reads, Gets-be, Gets-vec_of, Reads-bind, Reads-end, Reads-be, Reads-vec, Reads-when,
}
use upg_vpp_tr.Wire.Safe.{Safe, safe}
use upg_vpp_tr.Wire.Steps.{Steps-bind, Steps-silent, Steps-end, Steps-need, Steps-Gets, run-Steps}
use upg_vpp_tr.Wire.Faults.{Faults-later, Faults-silent, Faults-now, Faults-vec, run-Faults}
use upg_vpp_tr.Ie.Mac.{
  MacAddress, f_source_mac, f_destination_mac, f_upper_source_mac, f_upper_destination_mac,
  pfcp_mac_address, encode_pfcp_mac_address, mac_addresses_vec, decode_mac_addresses_vec,
  encode_mac_addresses_vec,
}

pub record IsMacAddress (v : MacAddress) : Type 0 where
  pub flags_ok : v.flags < 2 ^ 8
  pub src_ok : length v.src_mac ≡ 6
  pub dst_ok : length v.dst_mac ≡ 6
  pub upper_src_ok : length v.upper_src_mac ≡ 6
  pub upper_dst_ok : length v.upper_dst_mac ≡ 6

abbrev pub mac_received : MacAddress → MacAddress → MacAddress
mac_received v old = record {
  flags = v.flags;
  src_mac = if has v.flags f_source_mac then v.src_mac else old.src_mac;
  dst_mac = if has v.flags f_destination_mac then v.dst_mac else old.dst_mac;
  upper_src_mac = if has v.flags f_upper_source_mac then v.upper_src_mac else old.upper_src_mac;
  upper_dst_mac =
      if has v.flags f_upper_destination_mac then v.upper_dst_mac else old.upper_dst_mac;
}

pub pfcp_mac_address-Reads :
    (v old : MacAddress)
    → IsMacAddress v
    → Reads (pfcp_mac_address old) (encode_pfcp_mac_address v) (mac_received v old)
unfolding pfcp_mac_address encode_pfcp_mac_address
pfcp_mac_address-Reads v old w = Reads-bind _ (Reads-be 1 _ w.flags_ok) (
    Reads-bind _ (Reads-when _ _ (Reads-vec 6 _ w.src_ok)) (
      Reads-bind _ (Reads-when _ _ (Reads-vec 6 _ w.dst_ok)) (
        Reads-bind _ (Reads-when _ _ (Reads-vec 6 _ w.upper_src_ok))
          (Reads-end _ (Reads-when _ _ (Reads-vec 6 _ w.upper_dst_ok))))))

pub pfcp_mac_address-Safe : (v : MacAddress) → Safe (pfcp_mac_address v)
unfolding pfcp_mac_address
pfcp_mac_address-Safe v = search safe depth 20

-- A list of `n` < 2 ^ 8 MAC addresses that `encode_mac_addresses_vec` wrote is appended to what
-- the list held, for any declared length that covers the count and the addresses.
pub decode-encode_mac_addresses_vec :
    (old macs rest : List ℕ) (n p : ℕ)
    → length macs ≡ n * 6
    → n < 2 ^ 8
    → n * 6 + 1 ≤ p
    → decode_mac_addresses_vec old (encode_mac_addresses_vec macs ++ rest) p ≡ ok (old ++ macs)
unfolding decode_mac_addresses_vec mac_addresses_vec encode_mac_addresses_vec
decode-encode_mac_addresses_vec old macs rest n p e h k =
    let count : length macs / 6 ≡ n = omega arith in
    rw count (
      run-Steps rest (
        Steps-silent _ (Steps-need 1 p (omega arith)) (
          Steps-bind _ (Steps-Gets p (Gets-be 1 n h)) (
            Steps-silent _ (Steps-need (n * 6) p (omega arith))
              (Steps-end (λ m. old ++ m) (Steps-Gets p (Gets-vec_of (n * 6) macs e)))))))

-- `decode_mac_addresses_vec` on an IE with a count of at least one address whose declared length
-- is just that of the addresses, so that the last octet is missing, with no memory behind it,
-- passes its length tests and reads past the end.
pub decode_mac_addresses_vec_over_read :
    (old macs : List ℕ) (n : ℕ)
    → 0 < n
    → n < 2 ^ 8
    → length macs + 1 ≡ n * 6
    → decode_mac_addresses_vec old (put_u8 n ++ macs) (n * 6) ≡ fault
unfolding decode_mac_addresses_vec mac_addresses_vec
decode_mac_addresses_vec_over_read old macs n h k e = run-Faults (
    Faults-silent _ (Steps-need 1 _ (omega arith)) (
      Faults-later _ (Steps-Gets _ (Gets-be 1 n k)) (
        Faults-silent _ (Steps-need (n * 6) _ (omega arith))
          (Faults-now _ (Faults-vec (n * 6) _ macs (omega arith))))))
