-- ===== src/Ie.antt =====
-- The information elements.
pub mod SdfFilter
pub mod Basic
pub mod FTeid
pub mod FSeid
pub mod UeIpAddress
pub mod PfdContents
pub mod Volume
pub mod Marking
pub mod Text
pub mod Mac
pub mod UserId
pub mod Address
pub mod RoundTrip
pub mod Bounds
