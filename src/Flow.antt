-- ===== src/Flow.antt =====
-- The flow table of upf/: the life of a TCP flow and the key of a flow.
pub mod Tcp
pub mod Key
pub mod Table
