-- ===== src/Session/Tunnels.antt =====
-- The TEIDs that a session registers in the tunnel tables: `rules_add_v4_teid` and
-- `rules_add_v6_teid` of upf/upf_pfcp.c, `pfcp_add_del_v4_teid` and `pfcp_add_del_v6_teid`, and what
-- `pfcp_update_apply` does with them.
--
-- The octets of an address and a TEID are read as one number, `key`, whose order is that of `memcmp`.
pub mod Laws
use upg_vpp_tr.Base.{ℕ, ◌+◌, ◌*◌, ◌^◌, Bool, ◌==◌, List, [], ◌∷◌, Option, none, some, if◌then◌else◌}
use upg_vpp_tr.Session.Diff

-- `gtpu4_endp_rule_t` and `gtpu6_endp_rule_t`; `none` stands for ~0.
pub record Endp : Type 0 where
  pub key : ℕ
  pub rule_index : Option ℕ

abbrev pub endp_key : Endp → ℕ
endp_key e = e.key

-- The key of a tunnel to an IPv4 address, both in the order of the network.
unfoldable pub v4_key : ℕ → ℕ → ℕ
v4_key dst teid = dst * 2 ^ 32 + teid

-- A duplicate is marked.
unfoldable pub rules_add_teid : List Endp → ℕ → ℕ → List Endp
rules_add_teid [] key rule_index = record { key = key; rule_index = some rule_index } ∷ []
rules_add_teid (e ∷ es) key rule_index =
    let rest = rules_add_teid es key rule_index in
    if key == e.key then record e { rule_index = none } ∷ es else e ∷ rest

-- The vector after the calls for the rules, each with its key and its index.
unfoldable pub registered : List Endp → List (ℕ × ℕ) → List Endp
unfolding rules_add_teid
registered es [] = es
registered es ((key, rule_index) ∷ calls) = registered (rules_add_teid es key rule_index) calls

-- The value that the tunnel table has for a key: the rule's index above the session's.
unfoldable pub tunnel_value : ℕ → Endp → Option ℕ × ℕ
tunnel_value session e = (e.rule_index, session)

-- `pending->v4_teid` once the rules are built: of the pending PDRs, given by their calls of
-- `rules_add_v4_teid`, or what the active rules had where no PDRs are pending.
unfoldable pub pdr_teids : Option (List (ℕ × ℕ)) → List Endp → List Endp
unfolding registered
pdr_teids none active = active
pdr_teids (some calls) active = registered [] calls

-- What the calls for the pending FARs, where there are some, add to it.
unfoldable pub far_teids : Option (List (ℕ × ℕ)) → List Endp → List Endp
unfolding registered
far_teids none es = es
far_teids (some calls) es = registered es calls

-- The tunnel table is changed only where PDRs are pending.
unfoldable pub update_table :
    (session : ℕ)
    → Diff.Sorter endp_key (tunnel_value session)
    → Option (List (ℕ × ℕ))
    → List Endp
    → List Endp
    → (ℕ → Option (Option ℕ × ℕ))
    → ℕ
    → Option (Option ℕ × ℕ)
unfolding Diff.run Diff.diff tunnel_value
update_table session s none pending active table = table
update_table session s (some calls) pending active table =
    Diff.run endp_key (tunnel_value session)
      (Diff.diff endp_key (tunnel_value session) s pending active) table

-- What `pfcp_update_apply` makes of the vector of the active rules and of the tunnel table, by the calls
-- for the pending PDRs and for the pending FARs: the vector that is active then, and the table.
unfoldable pub update_tunnels :
    (session : ℕ)
    → Diff.Sorter endp_key (tunnel_value session)
    → Option (List (ℕ × ℕ))
    → Option (List (ℕ × ℕ))
    → List Endp
    → (ℕ → Option (Option ℕ × ℕ))
    → List Endp × (ℕ → Option (Option ℕ × ℕ))
unfolding pdr_teids far_teids update_table
update_tunnels session s pdrs fars active table =
    let pending = far_teids fars (pdr_teids pdrs active) in
    (pending, update_table session s pdrs pending active table)

-- The indices that the calls give for a key.
unfoldable pub indices : ℕ → List (ℕ × ℕ) → List ℕ
indices q [] = []
indices q ((key, rule_index) ∷ calls) =
    let rest = indices q calls in if q == key then rule_index ∷ rest else rest

-- What is registered for a key: the index of the one call for it, or the mark of several.
unfoldable pub summary : ℕ → List ℕ → Option Endp
summary q [] = none
summary q (i ∷ []) = some (record { key = q; rule_index = some i })
summary q (i ∷ j ∷ more) = some (record { key = q; rule_index = none })
