-- ===== src/Session/Assoc.antt =====
-- The list of the sessions of a node: `node_assoc_attach_session`, `node_assoc_detach_session`, the
-- ends of sessions and `pfcp_release_association` of upf/upf_pfcp.c.
--
-- Nodes and sessions are pool indices, `none` stands for ~0. Of a session the store has its links and
-- its SEID; what else `pfcp_disable_session` and `pfcp_free_session` take down is not part of it.
pub mod Shape
pub mod Laws
pub mod Detach
pub mod Refine
use upg_vpp_tr.Base.{ℕ, zero, suc, Bool, ◌==◌, List, [], ◌∷◌, Option, none, some, if◌then◌else◌}
use upg_vpp_tr.Flow.Tcp.{without}

-- `assoc` of a session.
pub record Link : Type 0 where
  pub node : Option ℕ
  pub prev : Option ℕ
  pub next : Option ℕ

abbrev pub unlinked : Link
unlinked = record { node = none; prev = none; next = none }

-- `nodes` with the first session of each, and `sessions` with `session_by_id`.
pub record Store : Type 0 where
  pub heads : ℕ → Option ℕ
  pub links : ℕ → Link
  pub sessions : List ℕ
  pub seids : ℕ → ℕ
  pub session_by_id : ℕ → Option ℕ

unfoldable pub set {ℓ} : {A : Type ℓ} → (ℕ → A) → ℕ → A → ℕ → A
set f i v j = if j == i then v else f j

-- A link of the session at an index, where there is one.
unfoldable pub set_prev : (ℕ → Link) → Option ℕ → Option ℕ → ℕ → Link
unfolding set
set_prev links none v = links
set_prev links (some i) v = set links i (record (links i) { prev = v })

unfoldable pub set_next : (ℕ → Link) → Option ℕ → Option ℕ → ℕ → Link
unfolding set
set_next links none v = links
set_next links (some i) v = set links i (record (links i) { next = v })

-- The old first session points back to the new one before that gets its own links.
unfoldable pub node_assoc_attach_session : ℕ → ℕ → Store → Store
unfolding set set_prev
node_assoc_attach_session n sx s =
    let first = s.heads n in
    let links = set s.links sx (record (s.links sx) { node = some n; prev = none }) in
    let links' = set_prev links first (some sx) in
    record s {
      links = set links' sx (record (links' sx) { next = first });
      heads = set s.heads n (some sx);
    }

-- The first session of the node, for a session without one before it; a node is asserted.
unfoldable pub set_head : (ℕ → Option ℕ) → Option ℕ → Option ℕ → Option ℕ → ℕ → Option ℕ
unfolding set
set_head heads none prev v = heads
set_head heads (some n) none v = set heads n v
set_head heads (some n) (some p) v = heads

unfoldable pub node_assoc_detach_session : ℕ → Store → Store
unfolding set set_prev set_next set_head
node_assoc_detach_session sx s =
    let l = s.links sx in
    let links = set_next s.links l.prev l.next in
    let l' = links sx in
    record s {
      links = set (set_prev links l'.next l'.prev) sx unlinked;
      heads = set_head s.heads l.node l.prev l.next;
    }

-- `pfcp_create_session`, for an index that `pool_get` gives.
unfoldable pub pfcp_create_session : ℕ → ℕ → ℕ → Store → Store
unfolding node_assoc_attach_session set
pfcp_create_session new n cp_seid s =
    let s' =
      node_assoc_attach_session n new
        (record s { sessions = new ∷ s.sessions; seids = set s.seids new cp_seid }) in
    record s' { session_by_id = set s'.session_by_id cp_seid (some new) }

unfoldable pub pfcp_disable_session : ℕ → Store → Store
unfolding node_assoc_detach_session set
pfcp_disable_session sx s =
    node_assoc_detach_session sx
      (record s { session_by_id = set s.session_by_id (s.seids sx) none })

unfoldable pub pfcp_free_session : ℕ → Store → Store
unfolding without
pfcp_free_session sx s = record s { sessions = without sx s.sessions }

unfoldable pub pfcp_lookup : ℕ → Store → Option ℕ
pfcp_lookup sess_id s = s.session_by_id sess_id

-- The loop of `pfcp_release_association`: the next session is read before one is ended. `none` when
-- `fuel` runs out.
unfoldable pub release_loop : ℕ → Option ℕ → Store → Option Store
unfolding pfcp_disable_session pfcp_free_session
release_loop fuel none s = some s
release_loop zero (some idx) s = none
release_loop (suc fuel) (some idx) s =
    release_loop fuel (s.links idx).next (pfcp_free_session idx (pfcp_disable_session idx s))

unfoldable pub pfcp_release_association : ℕ → ℕ → Store → Option Store
unfolding release_loop
pfcp_release_association fuel n s = release_loop fuel (s.heads n) s
