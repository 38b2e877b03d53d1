-- ===== src/Wire.antt =====
-- upf/pfcp.c, the put_* and get_* macros: byte vectors that grow and byte cursors that advance.
pub mod Defs
pub mod Reads
pub mod Safe
pub mod Masks
pub mod Steps
pub mod Guarded
pub mod Yields
pub mod Faults
