-- ===== src/Ie/Address/Header.antt =====
-- The Outer Header Creation IE: `*_outer_header_creation` of upf/pfcp.c.
pub mod OverRead
use upg_vpp_tr.Base.{
  ℕ, ◌+◌, ◌^◌, ◌<◌, ◌≤◌, ◌≡◌, arith, Bool, true, false, has, List, ◌++◌, [], length, length-append,
  length-option, if◌then◌else◌,
}
use upg_vpp_tr.Wire.Defs.{
  ok, fault, ◌>>◌, need, when, get_be, octets, put_u16, put_u24, put_u32, put_u16_little,
}
use upg_vpp_tr.Wire.Reads.{
  Gets-be, Gets-le, Reads-be, Reads-when_if, Reads-when, Reads-checked, length-octets,
}
use upg_vpp_tr.Wire.Steps.{
  Steps, Steps-bind, Steps-silent, Steps-end, Steps-need, Steps-Gets, Steps-Reads, Steps-option,
  Steps-checked, Steps-else, run-Steps,
}
use upg_vpp_tr.Wire.Faults.{
  Faults-later, Faults-silent, Faults-now, Faults-be, Faults-when, run-Faults,
}
use upg_vpp_tr.Ie.Address
use upg_vpp_tr.Ie.Address.Laws.{Gets-ip4, Gets-ip6}

module _ (i : Address.Ip46) where
  open i use {Address as A, of_ip4, ip4, of_ip6, ip6, is_ip4, length-ip4, length-ip6}

  abbrev pub Header : Type 0
  Header = Address.OuterHeaderCreation A

  -- A description that the decode function does not reject, fields that fit, and an IPv4 address
  -- where the description asks for one.
  pub record IsHeader (v : Header) : Type 0 where
    pub description_ok : v.description < 2 ^ 16
    pub accepted : Address.bad_description v.description ≡ false
    pub ip4_ok : has v.description Address.any_ip4 ≡ true → is_ip4 v.ip ≡ true
    pub teid_ok : v.teid < 2 ^ 32
    pub port_ok : v.port < 2 ^ 16
    pub c_tag_ok : v.c_tag < 2 ^ 24
    pub s_tag_ok : v.s_tag < 2 ^ 24

  -- Fields that the description does not name keep what the structure held.
  abbrev pub header_received : Header → Header → Header
  header_received v old = record {
    description = v.description;
    teid = if has v.description Address.gtp_any then v.teid else old.teid;
    ip =
        if has v.description Address.any_ip6
        then v.ip
        else if has v.description Address.any_ip4
        then v.ip
        else old.ip;
    port = if has v.description Address.udp_any then v.port else old.port;
    c_tag = if has v.description Address.has_c_tag then v.c_tag else old.c_tag;
    s_tag = if has v.description Address.has_s_tag then v.s_tag else old.s_tag;
  }

  abbrev pub teid_part : Header → List ℕ
  teid_part v = if has v.description Address.gtp_any then put_u32 v.teid else []

  abbrev pub ip4_part : Header → List ℕ
  ip4_part v = if has v.description Address.any_ip4 then ip4 v.ip else []

  abbrev pub ip6_part : Header → List ℕ
  ip6_part v = if has v.description Address.any_ip6 then ip6 v.ip else []

  abbrev pub port_part : Header → List ℕ
  port_part v = if has v.description Address.udp_any then put_u16 v.port else []

  abbrev pub c_part : Header → List ℕ
  c_part v = if has v.description Address.has_c_tag then put_u24 v.c_tag else []

  abbrev s_part : Header → List ℕ
  s_part v = if has v.description Address.has_s_tag then put_u24 v.s_tag else []

  -- The octets that are still counted when the port and the tags are read.
  abbrev pub counted : Header → ℕ
  counted v = length (port_part v) + (length (c_part v) + length (s_part v))

  abbrev pub behind : Header → ℕ
  behind v = length (teid_part v) + (length (ip4_part v) + (length (ip6_part v) + counted v))

  header_size : (v : Header) → length (Address.encode_outer_header_creation i v) ≡ behind v + 2
  unfolding Address.encode_outer_header_creation put_u16_little
  header_size v = omega (
    arith,
    length-append (teid_part v)
        (ip4_part v ++ (ip6_part v ++ (port_part v ++ (c_part v ++ s_part v)))),
    length-append (ip4_part v) (ip6_part v ++ (port_part v ++ (c_part v ++ s_part v))),
    length-append (ip6_part v) (port_part v ++ (c_part v ++ s_part v)),
    length-append (port_part v) (c_part v ++ s_part v),
    length-append (c_part v) (s_part v),
  )

  pub short : (v : Header) → behind v ≤ 32
  short v = omega (
    arith,
    length-option (has v.description Address.gtp_any) (put_u32 v.teid),
    length-option (has v.description Address.any_ip4) (ip4 v.ip),
    length-option (has v.description Address.any_ip6) (ip6 v.ip),
    length-option (has v.description Address.udp_any) (put_u16 v.port),
    length-option (has v.description Address.has_c_tag) (put_u24 v.c_tag),
    length-option (has v.description Address.has_s_tag) (put_u24 v.s_tag),
    length-octets 4 v.teid,
    length-ip4 v.ip,
    length-ip6 v.ip,
    length-octets 2 v.port,
    length-octets 3 v.c_tag,
    length-octets 3 v.s_tag,
  )

  -- A word that is there when its flag is set, and is not taken off `length`.
  pub word-Steps :
      (b : Bool) (k x old p : ℕ)
      → x < 256 ^ k
      → length (if b then octets k x else []) ≤ p
      → Steps
          (when b old (need k >> get_be k))
          p
          (if b then octets k x else [])
          (if b then x else old)
          p
  word-Steps b k x old p h fits =
      Steps-option b old
        λ e. Steps-silent _ (Steps-need k p (enough b e fits)) (Steps-Gets p (Gets-be k x h))
    where
      enough : (b : Bool) → b ≡ true → length (if b then octets k x else []) ≤ p → k ≤ p
      enough true e fits = omega (arith, length-octets k x)
      enough false e fits = cc

  outer_header-Steps :
      (v old : Header)
      → IsHeader v
      → Steps
          (Address.outer_header i old v.description)
          (behind v)
          (teid_part v ++ (ip4_part v ++ (ip6_part v ++ (port_part v ++ (c_part v ++ s_part v)))))
          (header_received v old)
          (counted v)
  unfolding Address.outer_header
  outer_header-Steps v old w =
      let d = v.description in
      let n = counted v in
      Steps-bind _
        (Steps-Reads _ (Reads-when (has d Address.gtp_any) old.teid (Reads-be 4 v.teid w.teid_ok))
          (omega (arith, short v)))
        (Steps-bind _
          (Steps-Reads _
            (Reads-when_if (has d Address.any_ip4) old.ip
              (λ e. Reads-checked 4 (Gets-ip4 i v.ip (w.ip4_ok e)) (length-ip4 v.ip)))
            (omega (arith, short v)))
          (Steps-bind _
            (Steps-Reads n
              (Reads-when (has d Address.any_ip6) _
                (Reads-checked 16 (Gets-ip6 i v.ip) (length-ip6 v.ip)))
              (omega (arith, short v)))
            (Steps-bind _
              (word-Steps (has d Address.udp_any) 2 v.port old.port n w.port_ok (omega arith))
              (Steps-bind _
                (word-Steps (has d Address.has_c_tag) 3 v.c_tag old.c_tag n w.c_tag_ok
                  (omega arith))
                (Steps-end _ (
                  word-Steps (has d Address.has_s_tag) 3 v.s_tag old.s_tag n w.s_tag_ok
                    (omega arith)))))))

  -- An Outer Header Creation IE with an accepted description that
  -- `encode_outer_header_creation` wrote is read back, whatever lies behind the IE; fields that the
  -- description does not name keep what the structure held.
  pub decode-encode_outer_header_creation :
      (v old : Header) (rest : List ℕ)
      → IsHeader v
      → let xs = Address.encode_outer_header_creation i v in
        Address.decode_outer_header_creation i old (xs ++ rest) (length xs)
        ≡ ok (header_received v old)
  unfolding Address.decode_outer_header_creation Address.outer_header_creation
      Address.encode_outer_header_creation put_u16_little
  decode-encode_outer_header_creation v old rest w = run-Steps rest (
      Steps-bind _
        (Steps-checked 2 _ (behind v) (Gets-le v.description w.description_ok) (header_size v)
          (omega (arith, header_size v, short v)))
        (Steps-else (Address.bad_description v.description) _ w.accepted
          (outer_header-Steps v old w)))
