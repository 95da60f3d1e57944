-- ===== src/Dns/Effects.antt =====
-- What each handler does to the chain, on every branch.
mod Rules
pub mod Update
pub mod Success
pub mod Others
pub mod Create
