-- ===== src/Dns/Index.antt =====
-- The domain table and its index by name.
pub mod Changes
pub mod Steps
pub mod Handlers
use dnsblockchain.Prelude.{ℕ, ◌<◌, ◌≡◌, some}
use dnsblockchain.Go.Text.{Text}
use dnsblockchain.Store.{nat_key, text_key, lookup}
use dnsblockchain.Dns.Types.{Domain, Keeper}
