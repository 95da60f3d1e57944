-- ===== src/Cmd/Testnet/Modules.antt =====
-- What the command for a test network in place (cmd/dnsblockchaind/cmd/testnet.go) uses of the SDK.
use dnsblockchain.Prelude.{ℕ, Bool, Option, List}
use dnsblockchain.Prelude.Int.{ℤ}
use dnsblockchain.Go.Text.{Text}
use dnsblockchain.Sdk.{Address, Coins}

-- The validator, with the fields that the command sets.
pub record NewValidator (Any : Type 0) : Type 0 where
  pub operator_address : Text
  pub consensus_pubkey : Any
  pub jailed : Bool
  pub bonded : Bool
  pub tokens : ℕ
  pub delegator_shares : ℕ
  pub moniker : Text
  pub rate : ℕ
  pub max_rate : ℕ
  pub max_change_rate : ℕ
  pub min_self_delegation : ℕ

pub record NewSigningInfo : Type 0 where
  pub address : Text
  pub start_height : ℤ
  pub tombstoned : Bool

-- The keepers and the raw store of the staking module. A call that returns an error is `none`; an
-- iteration is the list of the keys that it visits. The setters of the distribution module write
-- the initial records.
pub record TestnetModules : Type 1 where
  pub Store : Type 0
  pub Key : Type 0
  pub Any : Type 0
  pub StoreKey : Type 0
  pub operator_bytes : Text → Option Address
  pub account_bytes : Text → Option Address
  pub cons_text : Address → Text
  pub pack_key : Key → Option Any
  -- the raw store of the staking module
  pub power_keys : Store → Option (List StoreKey)
  pub last_keys : Store → Option (List StoreKey)
  pub validator_keys : Store → List StoreKey
  pub queue_keys : Store → List StoreKey
  pub delete_key : StoreKey → Store → Store
  -- staking
  pub set_validator : NewValidator Any → Store → Option Store
  pub set_validator_by_cons_addr : NewValidator Any → Store → Option Store
  pub set_validator_by_power_index : NewValidator Any → Store → Option Store
  pub set_last_power : Address → ℕ → Store → Option Store
  pub after_validator_created : Address → Store → Option Store
  pub bond_denom : Store → Option Text
  -- distribution
  pub set_historical_rewards : Address → Store → Option Store
  pub set_current_rewards : Address → Store → Option Store
  pub set_accumulated_commission : Address → Store → Option Store
  pub set_outstanding_rewards : Address → Store → Option Store
  -- slashing and bank
  pub set_signing_info : Address → NewSigningInfo → Store → Store
  pub mint_coins : Coins → Store → Option Store
  pub send_to_account : Address → Coins → Store → Option Store
