-- ===== src/Message/Header.antt =====
-- What the accessors of upf/pfcp.h read from a header that `pfcp_encode_msg` of upf/pfcp.c wrote.
use upg_vpp_tr.Base.{
  ℕ, ◌+◌, ◌^◌, ◌<◌, ◌≡◌, refl, arith, true, false, List, ◌∷◌, ◌++◌, length, take, drop, take-append,
  drop-append, Bool-cases, inl, inr, if◌then◌else◌,
}
use upg_vpp_tr.Wire.Defs.{from_be, octets, put_u8, put_u16, put_u24, put_u64}
use upg_vpp_tr.Wire.Reads.{length-octets, from_be-octets}
use upg_vpp_tr.Message.{
  Prefix, field, pfcp_node_msg_seq, pfcp_session_msg_seq, pfcp_session_msg_seid, pfcp_msg_type,
  pfcp_msg_length, pfcp_msg_s_flag, pfcp_msg_version, pfcp_is_session_msg, hdr_len, prefix_of,
  msg_header,
}

-- A number is read back from its octets, behind `xs` and before `zs`.
pub field-at :
    (k x : ℕ) (xs zs : List ℕ) → x < 256 ^ k → field (length xs) k (xs ++ (octets k x ++ zs)) ≡ x
unfolding field
field-at k x xs zs h =
    let front : take k (octets k x ++ zs) ≡ octets k x =
      rw (length-octets k x) at (take-append (octets k x) zs) in
    rw (drop-append xs (octets k x ++ zs), front) (from_be-octets k x h)

-- The first octet, and what follows it, up to the fields that depend on the kind of message.
abbrev flag_octet : Prefix → ℕ
flag_octet m = 32 + (if pfcp_is_session_msg m.kind then 1 else 0)

-- A prefix that a message can carry: a node message has no SEID.
pub record IsPrefix (m : Prefix) : Type 0 where
  pub kind_small : m.kind < 2 ^ 8
  pub seid_small : m.seid < 2 ^ 64
  pub seq_small : m.seq_no < 2 ^ 24
  pub no_seid : pfcp_is_session_msg m.kind ≡ false → m.seid ≡ 0

module _ (m : Prefix) (n : ℕ) (rest : List ℕ) where
  pub msg_type-msg_header : m.kind < 2 ^ 8 → pfcp_msg_type (msg_header m n ++ rest) ≡ m.kind
  unfolding pfcp_msg_type msg_header field octets from_be
  msg_type-msg_header h = omega arith

  pub msg_length-msg_header : n < 2 ^ 16 → pfcp_msg_length (msg_header m n ++ rest) ≡ n
  unfolding pfcp_msg_length msg_header field octets from_be
  msg_length-msg_header h = omega arith

  pub s_flag-msg_header : pfcp_msg_s_flag (msg_header m n ++ rest) ≡ pfcp_is_session_msg m.kind
  unfolding pfcp_msg_s_flag msg_header field octets from_be
  s_flag-msg_header = ground arith

  pub version-msg_header : pfcp_msg_version (msg_header m n ++ rest) ≡ 1
  unfolding pfcp_msg_version msg_header field octets from_be
  version-msg_header = ground arith

  pub length-msg_header : length (msg_header m n) ≡ hdr_len m.kind
  unfolding msg_header hdr_len octets
  length-msg_header = ground arith

  session_seid :
      pfcp_is_session_msg m.kind ≡ true
      → m.seid < 2 ^ 64
      → pfcp_session_msg_seid (msg_header m n ++ rest) ≡ m.seid
  unfolding pfcp_session_msg_seid msg_header octets
  session_seid e h = rw e (
      field-at 8 m.seid (put_u8 33 ++ (put_u8 m.kind ++ put_u16 n)) (put_u24 m.seq_no ++ (0 ∷ rest))
        h)

  session_seq :
      pfcp_is_session_msg m.kind ≡ true
      → m.seq_no < 2 ^ 24
      → pfcp_session_msg_seq (msg_header m n ++ rest) ≡ m.seq_no
  unfolding pfcp_session_msg_seq msg_header octets
  session_seq e h = rw e (
      field-at 3 m.seq_no (put_u8 33 ++ (put_u8 m.kind ++ (put_u16 n ++ put_u64 m.seid))) (0 ∷ rest)
        h)

  node_seq :
      pfcp_is_session_msg m.kind ≡ false
      → m.seq_no < 2 ^ 24
      → pfcp_node_msg_seq (msg_header m n ++ rest) ≡ m.seq_no
  unfolding pfcp_node_msg_seq msg_header octets
  node_seq e h = rw e (field-at 3 m.seq_no (put_u8 32 ++ (put_u8 m.kind ++ put_u16 n)) (0 ∷ rest) h)

  pub prefix_of-msg_header : IsPrefix m → prefix_of m.kind (msg_header m n ++ rest) ≡ m
  unfolding prefix_of
  prefix_of-msg_header w = elim (Bool-cases (pfcp_is_session_msg m.kind)) [
    | inl e ↦ rw (e, session_seid e w.seid_small, session_seq e w.seq_small) refl
    | inr e ↦ rw (e, node_seq e w.seq_small, ← w.no_seid e) refl
  ]

  pub drop-msg_header : drop (hdr_len m.kind) (msg_header m n ++ rest) ≡ rest
  drop-msg_header = rw (← length-msg_header) (drop-append (msg_header m n) rest)
