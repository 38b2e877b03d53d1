-- ===== src/Runs/Messages.antt =====
-- The theorems on groups and messages of upf/pfcp.c at a Node Report Request, with the tables of that
-- file and one-octet structures for all IEs.
use upg_vpp_tr.Base.{
  ℕ, ◌+◌, ◌^◌, ◌<◌, ◌≤◌, ◌≡◌, ◌≢◌, ◌==◌, refl, ap, arith, true, false, List, ◌∷◌, ◌++◌, [], length,
  Option, none, some,
}
use upg_vpp_tr.Wire.Defs.{ok, octets}
use upg_vpp_tr.Ie.Basic.{decode_u8_ie, encode_u8_ie}
use upg_vpp_tr.Ie.Basic.RoundTrip.{decode-encode_u8_ie}
use upg_vpp_tr.Group.{
  Item, GroupDef, Leaf, IeDef, leaf, grouped, Specs, plain, group, Entries, end, entry, Group,
  get_ie_spec, get_ie_def, is_set, add,
}
use upg_vpp_tr.Group.Read.{answer, missing, decode_group}
use upg_vpp_tr.Group.Write.{
  get_item, encode_group, encode_entries, encode_value, gather, put_known, put_header,
}
use upg_vpp_tr.Group.Step.{IsItem}
use upg_vpp_tr.Group.Fits.{Codecs, Readable}
use upg_vpp_tr.Group.RoundTrip.{decode-encode_group}
use upg_vpp_tr.Message.{
  Prefix, pfcp_decode_msg, pfcp_encode_msg, reply, pfcp_is_session_msg, with_header, msg_header,
  hdr_len, pfcp_msg_type, pfcp_msg_seq, pfcp_msg_s_flag, pfcp_msg_seid, pfcp_msg_enough_len,
}
use upg_vpp_tr.Message.Errors.{decode_msg-ends}
use upg_vpp_tr.Message.Accept.{IsRead, decode_msg-IsRead, decode_msg-accessors, decode_msg-Complete}
use upg_vpp_tr.Group.Listed.{IsId, decode_group-IsId}
use upg_vpp_tr.Group.Order.{Ascending}
use upg_vpp_tr.Tables.Sound.{upf-IsItem, upf-Bits}
use mathlib.Core.List.{Memᴰ}
use upg_vpp_tr.Message.Header.{IsPrefix}
use upg_vpp_tr.Message.RoundTrip.{decode-encode_msg}
use upg_vpp_tr.Tables.Items.{one, many}
use upg_vpp_tr.Tables.GroupsC.{user_plane_path_failure_report_group}
use upg_vpp_tr.Tables.GroupsA.{create_pdr_group}
use upg_vpp_tr.Tables.TypesA.{pfcp_ie_pdr_id}
use upg_vpp_tr.Tables.MessagesA.{node_report_request_group}
use upg_vpp_tr.Tables.Upf.{upf_specs, upf_messages, upf_groups, groups_of}

abbrev pub u8_leaf : Leaf ℕ
u8_leaf = record { decode = decode_u8_ie; encode = λ v. some (encode_u8_ie v) }

abbrev pub specs : Specs ℕ
specs = upf_specs (λ c. u8_leaf)

u8_back :
    (f : Leaf ℕ) (v : ℕ) (xs rest : List ℕ)
    → (f ≡ u8_leaf) × (v < 2 ^ 8)
    → f.encode v ≡ some xs
    → length xs < 2 ^ 16
    → f.decode (xs ++ rest) (length xs) ≡ ok v
unfolding encode_u8_ie octets
u8_back f v xs rest (e, h) written small =
    let here : ◌≡◌ {A = Option (List ℕ)} (some (encode_u8_ie v)) (some xs) = rw e at written in
    let same : encode_u8_ie v ≡ xs = cc in
    rw (e, ← same) (decode-encode_u8_ie v 1 rest h (omega arith))

abbrev u8_codecs : Codecs ℕ
u8_codecs = record { IsPlain = λ f v. (f ≡ u8_leaf) × (v < 2 ^ 8); decode-encode = u8_back }

abbrev pub request : GroupDef
request = record { mandatory = 2 ^ 0 + 2 ^ 1; items = node_report_request_group }

abbrev peers : Entries ℕ
peers = entry 0 (plain 3) (entry 0 (plain 4) end)

abbrev report : Entries ℕ
report = entry 0 (plain 7) (entry 1 (plain 1) (entry 2 (group peers []) end))

abbrev pub report_octets : List ℕ
report_octets =
    0 ∷ 60 ∷ 0 ∷ 1 ∷ 7 ∷ 0 ∷ 101 ∷ 0 ∷ 1 ∷ 1 ∷ 0 ∷ 102 ∷ 0 ∷ 10 ∷ 0 ∷ 103 ∷ 0 ∷ 1 ∷ 3 ∷ 0 ∷ 103 ∷ 0
    ∷ 1 ∷ 4 ∷ []

short_some :
    (o : Option (List ℕ)) (ys : List ℕ)
    → o ≡ some ys
    → length ys + 2 < 2 ^ 16
    → (xs : List ℕ) → o ≡ some xs
    → length xs + 2 < 2 ^ 16
short_some o ys e small xs e' = let same : ys ≡ xs = cc in rw (← same) small

report_octets_lem :
    encode_group specs request (record { entries = report; ies = [] }) ≡ some report_octets
unfolding encode_group encode_u8_ie octets put_header get_item upf_specs put_known
report_octets_lem = refl

-- An item of a group, found in the tables by its id.
IsItem-of :
    (d : GroupDef) (id : ℕ) (item : Item) (def : IeDef ℕ)
    → get_ie_spec 0 d.items item.kind ≡ some (id, item)
    → get_item d.items id ≡ some item
    → get_ie_def specs item ≡ some def
    → (item.kind == 0) ≡ false
    → item.kind < 2 ^ 15
    → item.vendor < 2 ^ 16
    → IsItem specs d id item def
IsItem-of d id item def found listed known some_kind kind_ok vendor_ok = record {
  found = found;
  listed = listed;
  known = known;
  some_kind = some_kind;
  kind_ok = kind_ok;
  vendor_ok = vendor_ok;
}

abbrev failure_report : GroupDef
failure_report = record { mandatory = 2 ^ 0; items = user_plane_path_failure_report_group }

peers-Readable : Readable specs u8_codecs peers failure_report end
unfolding Readable get_ie_spec get_ie_def upf_specs get_item encode_value encode_u8_ie octets is_set
    add
peers-Readable =
    let peer =
      IsItem-of failure_report 0 (many 103) (leaf u8_leaf) refl refl refl refl (omega arith)
        (omega arith) in
    (
      _,
      _,
      peer,
      refl,
      (refl, omega arith),
      short_some _ (3 ∷ []) refl (omega arith),
      (_, _, peer, refl, (refl, omega arith), short_some _ (4 ∷ []) refl (omega arith), tt),
    )

report-Readable : Readable specs u8_codecs report request end
unfolding Readable get_ie_spec get_ie_def upf_specs get_item encode_value encode_u8_ie octets is_set
    add put_header missing gather put_known
report-Readable = (
  _,
  _,
  IsItem-of request 0 (one 60) (leaf u8_leaf) refl refl refl refl (omega arith) (omega arith),
  refl,
  (refl, omega arith),
  short_some _ (7 ∷ []) refl (omega arith),
  (
    _,
    _,
    IsItem-of request 1 (one 101) (leaf u8_leaf) refl refl refl refl (omega arith) (omega arith),
    refl,
    (refl, omega arith),
    short_some _ (1 ∷ []) refl (omega arith),
    (
      _,
      _,
      IsItem-of request 2 (one 102) (grouped failure_report) refl refl refl refl (omega arith)
          (omega arith),
      refl,
      (refl, peers-Readable, (omega arith, omega arith, (omega arith, omega arith, tt)), refl),
      short_some _ (0 ∷ 103 ∷ 0 ∷ 1 ∷ 3 ∷ 0 ∷ 103 ∷ 0 ∷ 1 ∷ 4 ∷ []) refl (omega arith),
      tt,
    ),
  ),
)

abbrev pub report_group : Group ℕ
report_group = record { entries = report; ies = [] }

nothing_missing : missing request.mandatory 0 request.items report ≡ []
unfolding missing is_set
nothing_missing = refl

report-Ascending : Ascending 0 (length request.items) (encode_entries specs request.items report)
unfolding encode_entries
report-Ascending =
    (omega arith, omega arith, (omega arith, omega arith, (omega arith, omega arith, tt)))

decode-encode_group_example :
    decode_group specs request (report_octets ++ (9 ∷ [])) (length report_octets)
    ≡ some (answer (ok report_group) [])
decode-encode_group_example =
    decode-encode_group specs u8_codecs request report report_octets (9 ∷ []) report-Readable
      report-Ascending nothing_missing report_octets_lem

abbrev head : Prefix
head = record { kind = 12; seid = 0; seq_no = 5 }

abbrev pub message : List ℕ
message = 32 ∷ 12 ∷ 0 ∷ 28 ∷ 0 ∷ 0 ∷ 5 ∷ 0 ∷ report_octets

head-IsPrefix : IsPrefix head
head-IsPrefix = record {
  kind_small = omega arith;
  seid_small = omega arith;
  seq_small = omega arith;
  no_seid = λ e. refl;
}

pub known_request : upf_messages 12 ≡ some request
unfolding upf_messages
known_request = refl

message_lem : pfcp_encode_msg specs request head report_group ≡ some message
unfolding pfcp_encode_msg with_header msg_header hdr_len pfcp_is_session_msg octets
message_lem = ap (with_header head) report_octets_lem

decode-encode_msg_example :
    pfcp_decode_msg specs upf_messages (message ++ (9 ∷ [])) (length message)
    ≡ some (reply head (ok report_group))
decode-encode_msg_example =
    decode-encode_msg specs u8_codecs upf_messages request head report message (9 ∷ [])
      known_request head-IsPrefix report-Readable report-Ascending nothing_missing message_lem
      (omega arith)

decode_msg-ends_example : pfcp_decode_msg specs upf_messages message 32 ≢ none
decode_msg-ends_example = decode_msg-ends specs upf_messages message 32

decode_msg-IsRead_example :
    IsRead specs upf_messages (message ++ (9 ∷ [])) (length message) (reply head (ok report_group))
decode_msg-IsRead_example =
    decode_msg-IsRead specs upf_messages (message ++ (9 ∷ [])) (length message)
      (reply head (ok report_group)) (report_group, refl) decode-encode_msg_example

decode_msg-accessors_example :
    (12 ≡ pfcp_msg_type (message ++ (9 ∷ [])))
    × (5 ≡ pfcp_msg_seq (message ++ (9 ∷ [])))
    × (pfcp_msg_s_flag (message ++ (9 ∷ [])) ≡ true → 0 ≡ pfcp_msg_seid (message ++ (9 ∷ [])))
    × (pfcp_msg_enough_len (message ++ (9 ∷ [])) (length message) ≡ true)
decode_msg-accessors_example =
    decode_msg-accessors specs upf_messages (message ++ (9 ∷ [])) (length message)
      (reply head (ok report_group)) (report_group, refl) decode-encode_msg_example

decode_msg-Complete_example :
    (d : GroupDef) × (upf_messages 12 ≡ some d) × (missing d.mandatory 0 d.items report ≡ [])
decode_msg-Complete_example =
    decode_msg-Complete specs upf_messages (message ++ (9 ∷ [])) (length message) head report_group
      [] decode-encode_msg_example

set_two : is_set 2 report ≡ true
unfolding is_set
set_two = refl

abbrev create_pdr : GroupDef
create_pdr = record { mandatory = 2 ^ 0 + 2 ^ 1 + 2 ^ 2; items = create_pdr_group }

pdr_id_item : get_item create_pdr.items 0 ≡ some (one pfcp_ie_pdr_id)
unfolding get_item
pdr_id_item = refl

create_pdr-Mem : Memᴰ create_pdr upf_groups
unfolding upf_groups groups_of
create_pdr-Mem = Memᴰ.head refl

decode_group-IsId_example : IsId request.items 2
decode_group-IsId_example =
    decode_group-IsId specs request (report_octets ++ (9 ∷ [])) (length report_octets) report_group
      [] 2 decode-encode_group_example set_two

upf-IsItem_example : (def : IeDef ℕ) × IsItem specs create_pdr 0 (one pfcp_ie_pdr_id) def
upf-IsItem_example =
    upf-IsItem (λ c. u8_leaf) create_pdr 0 (one pfcp_ie_pdr_id) create_pdr-Mem pdr_id_item refl

upf-Bits_example :
    (length create_pdr.items ≤ 32) × (create_pdr.mandatory < 2 ^ length create_pdr.items)
upf-Bits_example = upf-Bits create_pdr create_pdr-Mem
