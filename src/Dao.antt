-- ===== src/Dao.antt =====
-- The module x/dao: proposals, votes, voting power and their execution.
mod Types
pub mod Samples
pub mod Tests
mod External
pub mod Content
pub mod Power
mod Store
pub mod Page
pub mod Query
pub mod Vote
pub mod Submit
pub mod Tally
pub mod Execute
pub mod EndBlock
pub mod Params
pub mod Genesis
pub mod Module
pub mod Ballot
pub mod Opening
pub mod Agreement
pub mod Frame
pub mod Closing
pub mod Loop
pub mod Reach
pub mod Counts
pub mod Casting
pub mod History
pub mod Distinct
pub mod Decay
pub mod Frozen
unfoldable pub use Types.*
pub use External.*
unfoldable pub use Store.*
