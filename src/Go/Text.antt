-- ===== src/Go/Text.antt =====
-- Package strings: a text is the list of its code points. `ToLower` below U+0080 is written out;
-- above it is a parameter, the simple case mapping of Unicode.
mod Defs
pub mod Trim
pub mod Normal
pub mod Digits
unfoldable pub use Defs.*
