-- ===== src/Ie/Address/Header/OverRead.antt =====
-- The length tests of `decode_outer_header_creation` of upf/pfcp.c.
use upg_vpp_tr.Base.{ℕ, ◌+◌, ◌≤◌, ◌≡◌, arith, true, has, List, ◌++◌, [], length, length-append}
use upg_vpp_tr.Wire.Defs.{fault, put_u16_little}
use upg_vpp_tr.Wire.Reads.{
  Gets-le, Reads-be, Reads-when_if, Reads-when, Reads-checked, length-octets,
}
use upg_vpp_tr.Wire.Steps.{Steps-need, Steps-Reads, Steps-checked}
use upg_vpp_tr.Wire.Faults.{
  Faults-later, Faults-silent, Faults-now, Faults-be, Faults-when, run-Faults,
}
use upg_vpp_tr.Ie.Address
use upg_vpp_tr.Ie.Address.Laws.{Gets-ip4, Gets-ip6}
use upg_vpp_tr.Ie.Address.Header.{
  Header, IsHeader, teid_part, ip4_part, ip6_part, port_part, c_part, short, word-Steps,
}

module _ (i : Address.Ip46) where
  open i use {ip4, ip6, length-ip4, length-ip6}

  -- What the encode function writes, without the service tag.
  abbrev pub cut_header : Header i → List ℕ
  cut_header v =
      put_u16_little v.description
      ++ (teid_part i v
          ++ (ip4_part i v ++ (ip6_part i v ++ (port_part i v ++ (c_part i v ++ [])))))

  abbrev cut_counted : Header i → ℕ
  cut_counted v = length (port_part i v) + length (c_part i v)

  abbrev cut_behind : Header i → ℕ
  cut_behind v =
      length (teid_part i v) + (length (ip4_part i v) + (length (ip6_part i v) + cut_counted v))

  cut_size : (v : Header i) → length (cut_header v) ≡ cut_behind v + 2
  unfolding put_u16_little
  cut_size v = omega (
    arith,
    length-append (teid_part i v)
        (ip4_part i v ++ (ip6_part i v ++ (port_part i v ++ (c_part i v ++ [])))),
    length-append (ip4_part i v) (ip6_part i v ++ (port_part i v ++ (c_part i v ++ []))),
    length-append (ip6_part i v) (port_part i v ++ (c_part i v ++ [])),
    length-append (port_part i v) (c_part i v ++ []),
    length-append (c_part i v) [],
  )

  tag_there : (v : Header i) → has v.description Address.has_c_tag ≡ true → 3 ≤ length (c_part i v)
  tag_there v e = rw e (omega (arith, length-octets 3 v.c_tag))

  -- `decode_outer_header_creation` on an IE whose description has both tags, cut off behind the
  -- customer tag, with no memory behind it, passes its length tests and reads past the end.
  pub decode_outer_header_creation_over_read :
      (v old : Header i)
      → IsHeader i v
      → has v.description Address.has_c_tag ≡ true
      → has v.description Address.has_s_tag ≡ true
      → Address.decode_outer_header_creation i old (cut_header v) (length (cut_header v)) ≡ fault
  unfolding Address.decode_outer_header_creation Address.outer_header_creation Address.outer_header
      put_u16_little
  decode_outer_header_creation_over_read v old w c s =
      let d = v.description in
      let n = cut_counted v in
      run-Faults (
        Faults-later _
          (Steps-checked 2 _ (cut_behind v) (Gets-le v.description w.description_ok) (cut_size v)
            (omega (arith, cut_size v, short i v)))
          (rw w.accepted (
            Faults-later _
              (Steps-Reads _
                (Reads-when (has d Address.gtp_any) old.teid (Reads-be 4 v.teid w.teid_ok))
                (omega (arith, short i v)))
              (Faults-later _
                (Steps-Reads _
                  (Reads-when_if (has d Address.any_ip4) old.ip
                    (λ e. Reads-checked 4 (Gets-ip4 i v.ip (w.ip4_ok e)) (length-ip4 v.ip)))
                  (omega (arith, short i v)))
                (Faults-later _
                  (Steps-Reads n
                    (Reads-when (has d Address.any_ip6) _
                      (Reads-checked 16 (Gets-ip6 i v.ip) (length-ip6 v.ip)))
                    (omega (arith, short i v)))
                  (Faults-later _
                    (word-Steps i (has d Address.udp_any) 2 v.port old.port n w.port_ok
                      (omega arith))
                    (Faults-later _
                      (word-Steps i (has d Address.has_c_tag) 3 v.c_tag old.c_tag n w.c_tag_ok
                        (omega arith))
                      (Faults-now _ (
                        Faults-when (has d Address.has_s_tag) old.s_tag s (
                          Faults-silent _ (Steps-need 3 n (omega (arith, tag_there v c)))
                            (Faults-be 3 n [] (omega arith))))))))))))
