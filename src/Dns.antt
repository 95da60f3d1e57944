-- ===== src/Dns.antt =====
-- The module x/dnsblockchain: the domains and the permitted TLDs.
pub mod Types
pub mod Tld
pub mod Permitted
pub mod Tlds
pub mod Msg
pub mod Index
pub mod Effects
pub mod Registry
pub mod Query
pub mod Basic
pub mod Genesis
pub mod Module
mod Samples
pub mod Tests
unfoldable pub use Types.*
