-- ===== src/Tables/Conflicts.antt =====
-- What the tables of upf/pfcp.c make of messages whose mandatory IE their group does not name.
use upg_vpp_tr.Base.{
  ℕ, ◌+◌, ◌/◌, ◌%◌, ◌^◌, ◌≡◌, ◌≢◌, ◌⊎◌, refl, ap, ◌∙◌, arith, true, false, ◌==◌, List, [], ◌∷◌,
  Option, some, Bool-cases, inl, inr,
}
use upg_vpp_tr.Wire.Defs.{ok}
use upg_vpp_tr.Group.{Item, GroupDef, Leaf, Specs, Entries, Group, is_set}
use upg_vpp_tr.Group.Write.{get_item}
use upg_vpp_tr.Group.Read.{answer, missing, decode_group}
use upg_vpp_tr.Group.Listed.{IsId, decode_group-IsId}
use upg_vpp_tr.Message.{DecodedMsg, pfcp_msg_type, pfcp_decode_msg}
use upg_vpp_tr.Message.Accept.{decode_msg-IsRead}
use upg_vpp_tr.Group.Mandatory.{decode_group-Complete}
use upg_vpp_tr.Tables.Codec.{Codec}
use upg_vpp_tr.Tables.MessagesA.{simple_response_group}
use upg_vpp_tr.Tables.Upf.{upf_specs, upf_messages}
use upg_vpp_tr.Tables.SpecsMessage.{
  pfcp_association_release_response, pfcp_node_report_response, pfcp_session_set_deletion_response,
}

-- A mandatory item at the head of a definition that is not missing is set.
mandatory_head :
    {V : Type 0} (mask : ℕ) (item : Item) (items : List Item) (es : Entries V)
    → mask % 2 ≡ 1
    → missing mask 0 (item ∷ items) es ≡ []
    → is_set 0 es ≡ true
unfolding missing
mandatory_head mask item items es odd e = elim (Bool-cases (is_set 0 es)) [
  | inl set ↦ set
  | inr unset ↦
      let needed : (mask % 2 == 1) ≡ true = ground arith in
      let bad : ◌≡◌ {A = List ℕ} (item.kind ∷ missing (mask / 2) 1 items es) [] =
        rw (needed, unset) at e in
      cc
]

free_head : (item : Item) (items : List Item) → item.kind ≡ 0 → ¬ (IsId (item ∷ items) 0)
unfolding IsId get_item
free_head item items free (x, stands, used) =
    let same : item ≡ x = cc in
    let zero_kind : x.kind ≡ 0 = rw same at free in
    let bad : (0 == 0) ≡ false = rw zero_kind at used in cc

-- A definition that has a free slot at its head, and calls it mandatory.
abbrev Unmet : GroupDef → Type 0
Unmet d =
    (item : Item) × (items : List Item) × (d.items ≡ item ∷ items)
    × (item.kind ≡ 0)
    × (d.mandatory % 2 ≡ 1)

Unmet-group :
    {V : Type 0} (s : Specs V) (d : GroupDef) (mem : List ℕ) (len : ℕ) (g : Group V)
    (offending : List ℕ)
    → Unmet d
    → decode_group s d mem len ≢ some (answer (ok g) offending)
Unmet-group s d mem len g offending (item, items, e, free, odd) accepted =
    let whole : missing d.mandatory 0 (item ∷ items) g.entries ≡ [] =
      rw e at (decode_group-Complete s d mem len g offending accepted) in
    let set = mandatory_head d.mandatory item items g.entries odd whole in
    let id : IsId (item ∷ items) 0 =
      rw e at (decode_group-IsId s d mem len g offending 0 accepted set) in
    free_head item items free id

-- The messages for which `msg_specs` calls a Node ID mandatory that their table does not have.
abbrev pub NeedsNodeId : ℕ → Type 0
NeedsNodeId kind =
    (kind ≡ pfcp_association_release_response)
    ⊎ ((kind ≡ pfcp_node_report_response) ⊎ (kind ≡ pfcp_session_set_deletion_response))

abbrev node_id_def : GroupDef
node_id_def = record { mandatory = 2 ^ 0 + 2 ^ 1; items = simple_response_group }

node_id-Unmet : (d : GroupDef) → ◌≡◌ {A = Option GroupDef} (some node_id_def) (some d) → Unmet d
node_id-Unmet d e = let same : node_id_def ≡ d = cc in rw (← same) (_, _, refl, refl, refl)

needs-Unmet : (kind : ℕ) (d : GroupDef) → NeedsNodeId kind → upf_messages kind ≡ some d → Unmet d
unfolding upf_messages
needs-Unmet kind d (inl e) known = node_id-Unmet d (rw e at known)
needs-Unmet kind d (inr (inl e)) known = node_id-Unmet d (rw e at known)
needs-Unmet kind d (inr (inr e)) known = node_id-Unmet d (rw e at known)

-- An Association Release Response, a Node Report Response or a Session Set Deletion Response is never
-- accepted, whatever its octets and the functions of the IEs: `msg_specs` calls an item mandatory
-- for them that `pfcp_simple_response_group` does not have.
pub NeedsNodeId-refused :
    {V : Type 0} (leafs : Codec → Leaf V) (mem : List ℕ) (len : ℕ) (r : DecodedMsg V) (g : Group V)
    → NeedsNodeId (pfcp_msg_type mem)
    → pfcp_decode_msg (upf_specs leafs) upf_messages mem len ≡ some r
    → r.answer.result ≢ ok g
NeedsNodeId-refused leafs mem len r g needs e accepted =
    let w = decode_msg-IsRead (upf_specs leafs) upf_messages mem len r (g, accepted) e in
    let same : r.answer ≡ answer (ok g) r.answer.offending = rw (← accepted) refl in
    Unmet-group (upf_specs leafs) w.def _ _ g r.answer.offending
      (needs-Unmet (pfcp_msg_type mem) w.def needs w.known) (w.group_read ∙ ap some same)
