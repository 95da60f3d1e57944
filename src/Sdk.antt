-- ===== src/Sdk.antt =====
-- What both modules take from the Cosmos SDK: errors, coins, the context of a block, handlers, and
-- the interface of the parts that the program only calls.
mod Errors
mod Calls
mod External
mod Rules
pub mod Paging
pub mod Json
pub mod Panic
pub use Errors.*
unfoldable pub use Calls.*
pub use External.*
pub use Rules.*
