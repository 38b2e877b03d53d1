-- ===== src/Message.antt =====
-- PFCP messages: the header macros of upf/pfcp.h and upf/pfcp.c, `pfcp_decode_msg`,
-- `pfcp_encode_msg` and `pfcp_encode_version_not_supported_response` of upf/pfcp.c.
--
-- `msgs` stands for `msg_specs`: `none` for a type that is refused, outside of the array or without a
-- group although it has a size.
pub mod Header
pub mod RoundTrip
pub mod Start
pub mod Errors
pub mod Accept
use upg_vpp_tr.Base.{
  ℕ, zero, suc, ◌+◌, ◌-◌, ◌*◌, ◌/◌, ◌%◌, ◌^◌, Bool, true, false, not, ◌&&◌, ltb, leb, ◌==◌, List,
  [], ◌∷◌, ◌++◌, length, drop, take, if◌then◌else◌, Option, none, some,
}
use upg_vpp_tr.Wire.Defs.{
  Outcome, ok, err, fault, failure, invalid_length, request_rejected, from_be, put_u8, put_u16,
  put_u24, put_u64,
}
use upg_vpp_tr.Group.{GroupDef, Specs, Group}
use upg_vpp_tr.Group.Read.{Answer, decode_group}
use upg_vpp_tr.Group.Write.{encode_group}

abbrev pub node_msg_hdr_len : ℕ
node_msg_hdr_len = 8

abbrev pub session_msg_hdr_len : ℕ
session_msg_hdr_len = 16

-- The big-endian number in the `k` octets from `n` on.
unfoldable pub field : ℕ → ℕ → List ℕ → ℕ
unfolding from_be
field n k mem = from_be 0 (take k (drop n mem))

unfoldable pub pfcp_node_msg_seq : List ℕ → ℕ
unfolding field
pfcp_node_msg_seq mem = field 4 3 mem

unfoldable pub pfcp_session_msg_seq : List ℕ → ℕ
unfolding field
pfcp_session_msg_seq mem = field 12 3 mem

unfoldable pub pfcp_session_msg_seid : List ℕ → ℕ
unfolding field
pfcp_session_msg_seid mem = field 4 8 mem

unfoldable pub pfcp_msg_version : List ℕ → ℕ
unfolding field
pfcp_msg_version mem = field 0 1 mem / 32 % 8

unfoldable pub pfcp_msg_type : List ℕ → ℕ
unfolding field
pfcp_msg_type mem = field 1 1 mem

unfoldable pub pfcp_msg_length : List ℕ → ℕ
unfolding field
pfcp_msg_length mem = field 2 2 mem

unfoldable pub pfcp_msg_s_flag : List ℕ → Bool
unfolding field
pfcp_msg_s_flag mem = field 0 1 mem % 2 == 1

unfoldable pub pfcp_msg_version_valid : List ℕ → Bool
unfolding pfcp_msg_version
pfcp_msg_version_valid mem = pfcp_msg_version mem == 1

unfoldable pub pfcp_msg_enough_len : List ℕ → ℕ → Bool
unfolding pfcp_msg_length pfcp_msg_s_flag
pfcp_msg_enough_len mem l =
    leb (pfcp_msg_length mem + 4) l
    && leb (if pfcp_msg_s_flag mem then session_msg_hdr_len else node_msg_hdr_len) l

unfoldable pub pfcp_msg_seq : List ℕ → ℕ
unfolding pfcp_msg_s_flag pfcp_session_msg_seq pfcp_node_msg_seq
pfcp_msg_seq mem = if pfcp_msg_s_flag mem then pfcp_session_msg_seq mem else pfcp_node_msg_seq mem

-- `~0` as a u64.
unfoldable pub pfcp_msg_seid : List ℕ → ℕ
unfolding pfcp_msg_s_flag pfcp_session_msg_seid
pfcp_msg_seid mem = if pfcp_msg_s_flag mem then pfcp_session_msg_seid mem else 2 ^ 64 - 1

unfoldable pub pfcp_is_session_msg : ℕ → Bool
pfcp_is_session_msg kind = leb 50 kind && leb kind 99

unfoldable pub hdr_len : ℕ → ℕ
unfolding pfcp_is_session_msg
hdr_len kind = if pfcp_is_session_msg kind then session_msg_hdr_len else node_msg_hdr_len

-- The fields of `pfcp_decoded_msg_t` before the groups.
pub record Prefix : Type 0 where
  pub kind : ℕ
  pub seid : ℕ
  pub seq_no : ℕ

-- What `memset` leaves.
abbrev pub no_prefix : Prefix
no_prefix = record { kind = 0; seid = 0; seq_no = 0 }

unfoldable pub same : Bool → Bool → Bool
same true b = b
same false b = not b

unfoldable pub prefix_of : ℕ → List ℕ → Prefix
unfolding pfcp_is_session_msg pfcp_session_msg_seid pfcp_session_msg_seq pfcp_node_msg_seq
prefix_of kind mem =
    if pfcp_is_session_msg kind
    then record { kind = kind; seid = pfcp_session_msg_seid mem; seq_no = pfcp_session_msg_seq mem }
    else record { kind = kind; seid = 0; seq_no = pfcp_node_msg_seq mem }

-- The header as it ends up in the vector; `n` is what `set_msg_hdr_length` is given.
unfoldable pub msg_header : Prefix → ℕ → List ℕ
unfolding pfcp_is_session_msg
msg_header m n =
    let session = pfcp_is_session_msg m.kind in
    put_u8 (32 + (if session then 1 else 0))
    ++ (put_u8 m.kind
        ++ (put_u16 n
            ++ ((if session then put_u64 m.seid else []) ++ (put_u24 m.seq_no ++ (0 ∷ [])))))

-- `PFCP_VERSION_NOT_SUPPORTED_RESPONSE` is 11.
unfoldable pub pfcp_encode_version_not_supported_response : List ℕ
pfcp_encode_version_not_supported_response =
    32 ∷ 11 ∷ 0 ∷ (node_msg_hdr_len - 4) ∷ 0 ∷ 0 ∷ 0 ∷ 0 ∷ []

unfoldable pub with_header : Prefix → Option (List ℕ) → Option (List ℕ)
unfolding msg_header hdr_len
with_header m none = none
with_header m (some xs) = some (msg_header m (hdr_len m.kind + length xs - 4) ++ xs)

-- `dmsg` and what `pfcp_decode_msg` returns.
pub record DecodedMsg (V : Type 0) : Type 0 where
  pub prefix : Prefix
  pub answer : Answer V

module _ {V : Type 0} where
  abbrev pub reply : Prefix → Outcome (Group V) → DecodedMsg V
  reply m r = record { prefix = m; answer = record { result = r; offending = [] } }

  unfoldable pub with_group : Prefix → Option (Answer V) → Option (DecodedMsg V)
  with_group m none = none
  with_group m (some a) = some (record { prefix = m; answer = a })

  -- Behind the reads of the header: the tests of its length and flag, and the group.
  unfoldable pub decode_contents : Specs V → GroupDef → ℕ → List ℕ → ℕ → Option (DecodedMsg V)
  unfolding prefix_of pfcp_msg_length pfcp_msg_s_flag hdr_len same with_group decode_group
  decode_contents s d kind mem len =
      let m = prefix_of kind mem in
      let msg_len = pfcp_msg_length mem in
      if ltb len (msg_len + 4)
      then some (reply m (err invalid_length))
      else if not (same (pfcp_is_session_msg kind) (pfcp_msg_s_flag mem))
      then some (reply m (err request_rejected))
      else with_group m (decode_group s d (drop (hdr_len kind) mem) (msg_len + 4 - hdr_len kind))

  unfoldable pub decode_known_msg :
      Specs V → Option GroupDef → ℕ → List ℕ → ℕ → Option (DecodedMsg V)
  unfolding decode_contents hdr_len
  decode_known_msg s none kind mem len = some (reply no_prefix (err failure))
  decode_known_msg s (some d) kind mem len =
      if ltb (length mem) (hdr_len kind)
      then some (reply no_prefix fault)
      else decode_contents s d kind mem len

  -- `failure` stands for -1.
  unfoldable pub pfcp_decode_msg :
      Specs V → (ℕ → Option GroupDef) → List ℕ → ℕ → Option (DecodedMsg V)
  unfolding decode_known_msg pfcp_msg_type
  pfcp_decode_msg s msgs mem len =
      let kind = pfcp_msg_type mem in
      if len == 0
      then some (reply no_prefix (err failure))
      else if ltb (length mem) 2
      then some (reply no_prefix fault)
      else if ltb len (hdr_len kind)
      then some (reply no_prefix (err failure))
      else decode_known_msg s (msgs kind) kind mem len

  -- The assertions on the type are the definition `d` being there.
  unfoldable pub pfcp_encode_msg : Specs V → GroupDef → Prefix → Group V → Option (List ℕ)
  unfolding with_header encode_group
  pfcp_encode_msg s d m g = with_header m (encode_group s d g)
