-- ===== src/Runs.antt =====
-- The theorems at concrete inputs, by the code they are about.
mod Ies
mod Filters
mod Counted
mod Texts
mod Bounds
mod Addresses
mod Flows
mod Messages
mod Malformed
mod Sorting
mod Sessions
mod FlowTable
mod Transactions
