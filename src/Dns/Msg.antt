-- ===== src/Dns/Msg.antt =====
-- The message handlers (x/dnsblockchain/keeper/msg_server_domain.go and msg_update_params.go).
mod Checks
mod Domains
mod Create
unfoldable pub use Checks.*
unfoldable pub use Domains.*
unfoldable pub use Create.*
