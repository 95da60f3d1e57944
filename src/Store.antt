-- ===== src/Store.antt =====
-- The key-value stores of the keepers: the documented behaviour of `collections.Map`, `KeySet`
-- and `Sequence` (Get, Set, Remove, Has, Walk in key order), which the program only calls.
mod Key
mod Defs
mod Laws
pub mod Order
pub mod Copy
unfoldable pub use Key.*
unfoldable pub use Defs.*
pub use Laws.*
