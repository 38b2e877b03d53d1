-- ===== src/Lib.antt =====
-- The PFCP messages and the flow table of the user plane function (upf/).
--
-- The user plane takes its rules from a control plane by PFCP. upf/pfcp.c turns the octets of a
-- message into structures and back: a decode function and an encode function for each information
-- element (IE), called by the group engine with the octets of the IE and its length. The data path
-- (upf/flowtable.h, upf/flowtable_tcp.h) sorts packets into flows by a key,
-- and follows the TCP state of a flow to set its lifetime and its place in the timer wheel.
--
-- Wire: the cursor of a decode function, and the put_* and get_* macros of upf/pfcp.c (Wire/Defs).
--   `data` is all memory that may be read from the pointer on, `length` the u16 variable that the
--   function tests. A read past the end of the memory is a `fault`, a `return` of a cause an `err`,
--   and `return 0` an `ok` with the structure. Subtraction on `length` wraps at 2 ^ 16. The other
--   files of Wire hold the rules by which decode functions are taken apart: what they read (Reads,
--   Steps), what their length tests cover (Safe, Guarded), what they leave (Yields), where they read
--   too far (Faults).
-- Ie: one file for each IE or family of IEs. A structure is a record with the fields of the C
--   structure, octet strings and addresses being lists. A function `x` of a structure is the body of
--   `decode_x`, from the structure as it was before the call, as the C code leaves fields alone whose
--   flag is not set; `decode_x` runs it, and `encode_x` gives the octets appended to the vector.
--   Ie/Basic: the integer, time, timer, interface, gate and bit rate IEs. Ie/FTeid, Ie/FSeid,
--   Ie/SdfFilter, Ie/PfdContents, Ie/UeIpAddress, Ie/UserId: the IEs of those names. Ie/Volume: volumes
--   and volume measurements. Ie/Marking: flow level marking, data service information, packet rates,
--   traffic threshold. Ie/Text: header enrichment, flow information, forwarding policy, failed rule.
--   Ie/Mac: MAC addresses. Ie/Address: node id, outer header creation and GTP-U peer, over an
--   interface for VPP's `ip46_address_t`, with an instance in Ie/Address/Octets. Ie/RoundTrip and
--   Ie/Bounds state for several IEs what the files of the IEs prepare.
-- Flow: Flow/Tcp is upf/flowtable_tcp.h and `flow_tcp_update_lifetime` of upf/flowtable.h, over an
--   interface for the doubly linked lists of VPP; Flow/Key is `flow_mk_key` of upf/flowtable.h, over
--   an interface for VPP's comparison of addresses, which need not be an order.
--   Flow/Table is upf/flowtable.c with the timer wheel of upf/flowtable.h, for one worker: the cache of
--   entries (Flow/Table), expiry and recycling (Flow/Table/Expire), lookup and creation
--   (Flow/Table/Create). VPP's pools are a parameter, its hash table is a function and a slot of the
--   wheel a list. Walk has the induction over the loops, Invariant, Keep, New and Answer the table's
--   invariant, Safety, Recycle and Cache what follows.
-- Session: of upf/upf_pfcp.c, the linked list of a node's sessions (Session/Assoc), the vectors of
--   pending and active rules (Session/Rules, with their exchange in Session/Rules/Apply), vec_diff
--   (Session/Diff) and the TEIDs that it registers (Session/Tunnels), and the volume counters of usage
--   rules (Session/Urr, with the check of upf/upf_pfcp_server.c). The sort and the binary search of
--   the C library are parameters.
-- Group: the group engine of upf/pfcp.c (decode_group, encode_group and what they call), over tables
--   of IE definitions whose functions are members. A structure of an IE without members is a `V`; a
--   group is a list of entries, each the id of an item and a value, and the positions of the IEs that
--   were ignored. Group/Read decodes, Group/Write encodes; the other files are about them: Total
--   (the end of the loop), Order, Step, Fits and RoundTrip (reading what was written), Mandatory and Listed (what
--   an accepted group holds), Malformed (octets that are not written by encode_group).
-- Message: pfcp_decode_msg, pfcp_encode_msg and the header macros of upf/pfcp.h and upf/pfcp.c.
-- Tables: the tables of upf/pfcp.c that the group engine runs on, one definition for each group table
--   (Tables/GroupsA to GroupsE and MessagesA, MessagesB), in the order of the source; the IE types
--   (Tables/TypesA and on); tgpp_specs in three parts, the vendor tables and msg_specs (Tables/SpecsA
--   and on). Tables/Upf makes arrays of them, and has the tests that Tables/Sound evaluates.
--   Tables/Conflicts and Tables/Overridden are about entries that do not fit the group tables.
-- Server: the transactions of upf/upf_pfcp_server.c. The state holds the valid messages of the pool,
--   the two hashes and the expired timers; each function takes the state before to the state after,
--   and calls of VPP and of the handlers are appended to a log. Server/Rx is upf_pfcp_server_rx_msg.
-- Runs: the theorems at concrete inputs. Base: the names and lemmas that all share.
--
-- The IE functions have no loop but the copy of a counted string, so they need no fuel. `decode_group`
-- runs on `suc (length mem)`, one more than the octets of memory: each turn of its loop, and each group
-- inside, takes four octets at least. The release of an association runs on as many turns as the node
-- has sessions. The loop of `recycle_flow` has fuel that no number makes enough. Expiry needs none: it
-- recurs on the budget of 256 flows, on the list of a slot and on the seconds. Numbers are natural
-- numbers; the theorems ask that a field fits its C type where that matters.
--
-- Not modelled: what a failing decode function leaves in the structure; the format and free functions
-- (output and memory management); the layout of the C structures; the remaining IEs; the locks of
-- the flow table and its set up; the server's message pool, heartbeats and event loop; the message
-- handlers; of a session the ACLs, timers, links of usage
-- rules, and the references to peers and policers that rules get when they become active;
-- VPP's graph nodes, proxy, command line and API; the event exposure code and its vendored headers.
pub mod Base
pub mod Wire
pub mod Ie
pub mod Flow
pub mod Group
pub mod Message
pub mod Tables
pub mod Server
pub mod Session
mod Runs
