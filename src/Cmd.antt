-- ===== src/Cmd.antt =====
-- The commands that set up test networks (cmd/dnsblockchaind/cmd).
pub mod Multinode
pub mod Testnet
pub mod Tests
