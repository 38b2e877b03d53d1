-- ===== src/Message/RoundTrip.antt =====
-- `pfcp_decode_msg` of upf/pfcp.c on what `pfcp_encode_msg` wrote.
use upg_vpp_tr.Base.{
  ℕ, ◌+◌, ◌-◌, ◌^◌, ◌<◌, ◌≤◌, ◌≡◌, refl, ap, ◌∙◌, arith, Bool, true, false, ltb, ◌==◌, List, [],
  ◌++◌, append_assoc, length, length-append, Option, none, some,
}
use upg_vpp_tr.Wire.Defs.{ok}
use upg_vpp_tr.Group.{GroupDef, Specs, Entries, end}
use upg_vpp_tr.Group.Read.{missing, decode_group}
use upg_vpp_tr.Group.Write.{encode_entries}
use upg_vpp_tr.Group.Order.{Ascending}
use upg_vpp_tr.Group.Fits.{Codecs, Readable}
use upg_vpp_tr.Group.RoundTrip.{decode-encode_group}
use upg_vpp_tr.Message.{
  Prefix, pfcp_is_session_msg, hdr_len, msg_header, same, reply, with_group, with_header,
  decode_contents, decode_known_msg, pfcp_decode_msg, pfcp_encode_msg,
}
use upg_vpp_tr.Message.Header.{
  IsPrefix, msg_type-msg_header, msg_length-msg_header, s_flag-msg_header, length-msg_header,
  prefix_of-msg_header, drop-msg_header,
}

same_refl : (b : Bool) → same b b ≡ true
unfolding same
same_refl true = refl
same_refl false = refl

hdr_len-bounds : (kind : ℕ) → (8 ≤ hdr_len kind) × (hdr_len kind ≤ 16)
unfolding hdr_len
hdr_len-bounds kind = (ground arith, ground arith)

with_header-some :
    (m : Prefix) (xs : Option (List ℕ)) {zs : List ℕ}
    → with_header m xs ≡ some zs
    → (a : List ℕ) × (xs ≡ some a) × (zs ≡ msg_header m (hdr_len m.kind + length a - 4) ++ a)
unfolding with_header
with_header-some m none e = cc
with_header-some m (some a) e = (a, refl, cc)

module _ {V : Type 0} (s : Specs V) (d : GroupDef) (m : Prefix) (xs rest : List ℕ) where
  abbrev header : List ℕ
  header = msg_header m (hdr_len m.kind + length xs - 4)

  abbrev whole : List ℕ
  whole = header ++ (xs ++ rest)

  abbrev total : ℕ
  total = hdr_len m.kind + length xs

  -- A header with its contents goes to `decode_group` with the octets of the contents.
  contents_of :
      IsPrefix m
      → total - 4 < 2 ^ 16
      → decode_contents s d m.kind whole total
        ≡ with_group m (decode_group s d (xs ++ rest) (length xs))
  unfolding decode_contents
  contents_of w small =
      let (low, high) = hdr_len-bounds m.kind in
      let size : hdr_len m.kind + length xs - 4 + 4 ≡ total = omega arith in
      let left : total - hdr_len m.kind ≡ length xs = omega arith in
      let fits : ltb total total ≡ false = ground arith in
      rw
        (
          msg_length-msg_header m (total - 4) (xs ++ rest) small,
          s_flag-msg_header m (total - 4) (xs ++ rest),
          prefix_of-msg_header m (total - 4) (xs ++ rest) w,
          drop-msg_header m (total - 4) (xs ++ rest),
          size,
          fits,
          same_refl (pfcp_is_session_msg m.kind),
          left,
        )
        refl

  decoded :
      (msgs : ℕ → Option GroupDef)
      → msgs m.kind ≡ some d
      → IsPrefix m
      → total - 4 < 2 ^ 16
      → pfcp_decode_msg s msgs whole total
        ≡ with_group m (decode_group s d (xs ++ rest) (length xs))
  unfolding pfcp_decode_msg decode_known_msg
  decoded msgs known w small =
      let (low, high) = hdr_len-bounds m.kind in
      let size : length whole ≡ total + length rest = omega (
        arith,
        length-append header (xs ++ rest),
        length-append xs rest,
        length-msg_header m (total - 4) rest,
      ) in
      let more : (total == 0) ≡ false = ground arith in
      let two : ltb (length whole) 2 ≡ false = ground (arith, size) in
      let enough : ltb total (hdr_len m.kind) ≡ false = ground arith in
      let there : ltb (length whole) (hdr_len m.kind) ≡ false = ground (arith, size) in
      rw
        (
          msg_type-msg_header m (total - 4) (xs ++ rest) w.kind_small,
          more,
          two,
          enough,
          known,
          decode_known_msg,
          there,
        )
        (contents_of w small)

-- A message is read back from what `pfcp_encode_msg` wrote, with its type, SEID and sequence number
-- and all IEs of its group, whatever lies in memory behind it, so long as its length fits 16 bits and
-- its group is one that `encode_group` and `decode_group` agree on: the values are those of their
-- items, in the order of the items, with every mandatory one.
pub decode-encode_msg :
    {V : Type 0} (s : Specs V) (c : Codecs V) (msgs : ℕ → Option GroupDef) (d : GroupDef)
    (m : Prefix) (es : Entries V) (zs rest : List ℕ)
    → msgs m.kind ≡ some d
    → IsPrefix m
    → Readable s c es d end
    → Ascending 0 (length d.items) (encode_entries s d.items es)
    → missing d.mandatory 0 d.items es ≡ []
    → pfcp_encode_msg s d m (record { entries = es; ies = [] }) ≡ some zs
    → length zs < 2 ^ 16 + 4
    → pfcp_decode_msg s msgs (zs ++ rest) (length zs)
      ≡ some (reply m (ok (record { entries = es; ies = [] })))
unfolding pfcp_encode_msg with_group
decode-encode_msg s c msgs d m es zs rest known w readable sorted all e small =
    let (xs, contents, octets) = with_header-some m _ e in
    let head = msg_header m (hdr_len m.kind + length xs - 4) in
    let (low, high) = hdr_len-bounds m.kind in
    let size : length zs ≡ hdr_len m.kind + length xs = rw octets (
      length-append head xs
      ∙ ap (λ l. l + length xs) (length-msg_header m (hdr_len m.kind + length xs - 4) rest)) in
    rw (size, octets, append_assoc head xs rest)
      (decoded s d m xs rest msgs known w (omega arith)
        ∙ (rw (decode-encode_group s c d es xs rest readable sorted all contents, with_group) refl))
