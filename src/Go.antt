-- ===== src/Go.antt =====
-- Parts of the Go language and its standard library that the program uses.
pub mod Word
pub mod Text
pub mod Net
pub mod Time
mod Tests
