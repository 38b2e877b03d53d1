-- ===== src/Session.antt =====
-- The sessions of upf/upf_pfcp.c: their rules, what is registered for them, the counters of their
-- usage, and the list of the sessions of a node.
pub mod Assoc
pub mod Diff
pub mod Rules
pub mod Tunnels
pub mod Urr
