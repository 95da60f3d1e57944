-- ===== src/App/Export/Modules.antt =====
-- What the export (app/export.go) uses of the staking, distribution and slashing modules of the SDK.
use dnsblockchain.Prelude.{ℕ, Bool, Option, List}
use dnsblockchain.Go.Text.{Text}
use dnsblockchain.Sdk.{Address}

-- The structures of the SDK, with the fields that the export reads or writes.
pub record Validator (Rest : Type 0) : Type 0 where
  pub operator : Text
  pub unbonding_height : ℕ
  pub jailed : Bool
  pub others : Rest

pub record Delegation : Type 0 where
  pub validator_address : Text
  pub delegator_address : Text

pub record UnbondingEntry (Rest : Type 0) : Type 0 where
  pub creation_height : ℕ
  pub others : Rest

-- A redelegation, or an unbonding delegation.
pub record Unbonding (Rest : Type 0) : Type 0 where
  pub entries : List (UnbondingEntry Rest)
  pub others : Rest

pub record SigningInfo (Rest : Type 0) : Type 0 where
  pub start_height : ℕ
  pub others : Rest

-- The keepers. A call that returns an error is `none`; one whose error the export ignores gives the
-- store that it leaves; an iteration is the list of what it visits. The height is that of the
-- context.
pub record SdkModules : Type 1 where
  pub Store : Type 0
  pub Rest : Type 0
  pub Rewards : Type 0
  -- the address codecs
  pub validator_bytes : Text → Option Address
  pub account_bytes : Text → Option Address
  pub validator_text : Address → Option Text
  -- staking
  pub validators : Store → Option (List (Validator Rest))
  pub delegations : Store → Option (List Delegation)
  pub redelegations : Store → Option (List (Unbonding Rest))
  pub set_redelegation : Unbonding Rest → Store → Option Store
  pub unbondings : Store → Option (List (Unbonding Rest))
  pub set_unbonding : Unbonding Rest → Store → Option Store
  -- The addresses of the keys under `ValidatorsKey`, those of all stored validators, in reverse order.
  pub validator_keys : Store → List Address
  pub get_validator : Address → Store → Option (Validator Rest)
  pub set_validator : Validator Rest → Store → Option Store
  pub close_iterator : Store → Bool
  pub apply_updates : Store → Option Store
  -- distribution
  pub withdraw_commission : ℕ → Address → Store → Store
  pub withdraw_rewards : ℕ → Address → Address → Store → Store
  pub delete_slash_events : Store → Store
  pub delete_historical_rewards : Store → Store
  pub outstanding_rewards : Address → Store → Option Rewards
  pub community_pool : Store → Option Rewards
  pub add_rewards : Rewards → Rewards → Rewards
  pub set_community_pool : Rewards → Store → Option Store
  pub after_validator_created : ℕ → Address → Store → Option Store
  pub before_delegation_created : ℕ → Address → Address → Store → Option Store
  pub after_delegation_modified : ℕ → Address → Address → Store → Option Store
  -- slashing
  pub signing_infos : Store → Option (List (Address × SigningInfo Rest))
  pub set_signing_info : Address → SigningInfo Rest → Store → Store
