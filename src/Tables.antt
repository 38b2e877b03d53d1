-- ===== src/Tables.antt =====
-- The tables of upf/pfcp.c: IE types, groups, IE definitions and messages, as `decode_group` and
-- `pfcp_decode_msg` are given them.
--
-- The functions that an entry names are a parameter, by the `TYPE` of its `SIMPLE_IE`.
pub mod Items
pub mod Codec
pub mod TypesA
pub mod TypesB
pub mod TypesC
pub mod TypesVendor
pub mod GroupsA
pub mod GroupsB
pub mod GroupsC
pub mod GroupsD
pub mod GroupsE
pub mod MessagesA
pub mod MessagesB
pub mod SpecsA
pub mod SpecsB
pub mod SpecsC
pub mod SpecsVendor
pub mod SpecsMessage
pub mod Upf
pub mod Sound
pub mod Conflicts
pub mod Overridden
