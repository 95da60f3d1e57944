-- ===== src/App/Export.antt =====
-- The export of the application's state (app/export.go), over the staking, distribution and slashing
-- modules of the SDK, which are parameters.
pub mod Modules
pub mod Jailing
pub mod Refusals
use dnsblockchain.Prelude.{
  ℕ, ◌+◌, Bool, true, false, not, ◌&&◌, Option, none, some, List, [], ◌∷◌, map, any, if◌then◌else◌,
}
use dnsblockchain.Go.Text.{Text, is_empty}
use dnsblockchain.Sdk.{Address, Result, ok, err, plain}
use dnsblockchain.Sdk.Panic.{Outcome, returns, panics, must, must_then, and_go, each}
use dnsblockchain.Store.{text_key, ◌==◌}
use dnsblockchain.App.Export.Modules.{
  SdkModules, Validator, Delegation, Unbonding, UnbondingEntry, SigningInfo,
}

-- `len(jailAllowedAddrs) > 0`.
abbrev pub is_given : List Text → Bool
is_given [] = false
is_given (addr ∷ addrs) = true

-- What is exported.
pub record ExportedApp (AppState Validators ConsensusParams : Type 0) : Type 0 where
  pub app_state : AppState
  pub validators : Validators
  pub height : ℕ
  pub consensus_params : ConsensusParams

module _ (m : SdkModules) where
  open m use {
    Store, Rest, Rewards, validator_bytes, account_bytes, validator_text, validators,
    withdraw_commission, delegations, withdraw_rewards, delete_slash_events,
    delete_historical_rewards, outstanding_rewards, community_pool, add_rewards, set_community_pool,
    after_validator_created, before_delegation_created, after_delegation_modified, redelegations,
    set_redelegation, unbondings, set_unbonding, validator_keys, get_validator, set_validator,
    close_iterator, apply_updates, signing_infos, set_signing_info,
  }

  -- The map of the allowed addresses; one that does not decode panics.
  unfoldable pub allowed_addrs : List Text → Outcome (List Text)
  allowed_addrs [] = returns []
  allowed_addrs (addr ∷ addrs) =
      must_then (validator_bytes addr)
        λ _. and_go (allowed_addrs addrs) λ rest. returns (addr ∷ rest)

  abbrev pub is_allowed : Text → List Text → Bool
  is_allowed addr allowed = any (λ a. addr == a) allowed

  -- An error of a withdrawal is ignored.
  unfoldable pub withdraw_commissions : ℕ → Store → Outcome Store
  withdraw_commissions height s = must_then (validators s) λ vals.
      each
        (λ val t.
          must_then (validator_bytes val.operator) λ a. returns (withdraw_commission height a t))
        vals s

  -- The two addresses of a delegation, and what is done with them.
  abbrev pub with_addresses :
      (Address → Address → Store → Outcome Store) → Delegation → Store → Outcome Store
  with_addresses f del s =
      must_then (validator_bytes del.validator_address)
        λ val. must_then (account_bytes del.delegator_address) λ who. f who val s

  unfoldable pub withdraw_all_rewards : ℕ → List Delegation → Store → Outcome Store
  withdraw_all_rewards height dels s =
      each (with_addresses (λ who val t. returns (withdraw_rewards height who val t))) dels s

  -- The outstanding rewards go to the community pool, and the validator starts anew.
  unfoldable pub reinit_validator : Validator Rest → Store → Outcome Store
  reinit_validator val s = must_then (validator_bytes val.operator) λ a.
      must_then (outstanding_rewards a s) λ rewards. must_then (community_pool s) λ pool.
        must_then (set_community_pool (add_rewards pool rewards) s)
          λ t. must (after_validator_created 0 a t)

  unfoldable pub reinit_delegation : Delegation → Store → Outcome Store
  reinit_delegation = with_addresses λ who val s.
      must_then (before_delegation_created 0 who val s)
        λ t. must (after_delegation_modified 0 who val t)

  -- The part on the fee distribution.
  unfoldable pub reset_distribution : ℕ → Store → Outcome Store
  reset_distribution height s = and_go (withdraw_commissions height s) λ s1.
      must_then (delegations s1) λ dels. and_go (withdraw_all_rewards height dels s1) λ s2.
        let s3 = delete_historical_rewards (delete_slash_events s2) in
        must_then (validators s3)
          λ vals. and_go (each reinit_validator vals s3) (each reinit_delegation dels)

  abbrev pub reset_entry : UnbondingEntry Rest → UnbondingEntry Rest
  reset_entry e = record e { creation_height = 0 }

  abbrev pub reset_entries : Unbonding Rest → Unbonding Rest
  reset_entries u = record u { entries = map reset_entry u.entries }

  unfoldable pub reset_redelegations : Store → Outcome Store
  reset_redelegations s =
      must_then (redelegations s)
        λ reds. each (λ red t. must (set_redelegation (reset_entries red) t)) reds s

  unfoldable pub reset_unbondings : Store → Outcome Store
  reset_unbondings s =
      must_then (unbondings s)
        λ ubds. each (λ ubd t. must (set_unbonding (reset_entries ubd) t)) ubds s

  -- A validator outside the list of allowed addresses, if one is given, is jailed.
  abbrev pub reset_of : Bool → List Text → Text → Validator Rest → Validator Rest
  reset_of apply_allowed allowed addr val = record val {
    unbonding_height = 0;
    jailed = if apply_allowed && not (is_allowed addr allowed) then true else val.jailed;
  }

  unfoldable pub reset_validator : Bool → List Text → Address → Store → Outcome Store
  reset_validator apply_allowed allowed addr s = must_then (get_validator addr s) λ val.
      must_then (validator_text addr)
        λ text. must (set_validator (reset_of apply_allowed allowed text val) s)

  -- The walk over every validator that is stored.
  unfoldable pub reset_validators : Bool → List Text → Store → Outcome Store
  reset_validators apply_allowed allowed s =
      each (reset_validator apply_allowed allowed) (validator_keys s) s

  unfoldable pub reset_signing_infos : Store → Outcome Store
  reset_signing_infos s = must_then (signing_infos s) λ infos.
      each (λ (a, info) t. returns (set_signing_info a (record info { start_height = 0 }) t)) infos
        s

  -- After the validators: an iterator that cannot be closed ends the preparation early.
  unfoldable pub finish : Store → Outcome Store
  finish s = if close_iterator s then must_then (apply_updates s) reset_signing_infos else returns s

  unfoldable pub prep_for_zero_height : ℕ → List Text → Store → Outcome Store
  prep_for_zero_height height jail_allowed s = and_go (allowed_addrs jail_allowed) λ allowed.
      and_go (reset_distribution height s) λ s1. and_go (reset_redelegations s1) λ s2.
        and_go (reset_unbondings s2)
          λ s3. and_go (reset_validators (is_given jail_allowed) allowed s3) finish

-- `ExportAppStateAndValidators` over the stores at the last height. What it calls of the module
-- manager, of encoding/json and of the consensus parameters is an argument; the result of an error
-- in the last call, which the function returns beside the error, is left out.
module _ (m : SdkModules) {Genesis AppState Validators ConsensusParams : Type 0}
    (export_modules : List Text → m.Store → Option Genesis) (marshal : Genesis → Option AppState)
    (write_validators : m.Store → Option Validators)
    (get_consensus_params : m.Store → ConsensusParams) where
  open m use {Store}

  unfoldable pub export_state :
      List Text → ℕ → Store → Result (ExportedApp AppState Validators ConsensusParams)
  export_state modules height s = elim (export_modules modules s) [
    | none ↦ err plain
    | some g ↦ elim (marshal g) [
      | none ↦ err plain
      | some state ↦ elim (write_validators s) [
        | none ↦ err plain
        | some vals ↦ ok (record {
          app_state = state;
          validators = vals;
          height = height;
          consensus_params = get_consensus_params s;
        })
      ]
    ]
  ]

  unfoldable pub export_app :
      Bool
      → List Text
      → List Text
      → ℕ
      → Store
      → Outcome (Result (ExportedApp AppState Validators ConsensusParams))
  export_app for_zero_height jail_allowed modules last_height s =
      if for_zero_height
      then and_go (prep_for_zero_height m last_height jail_allowed s)
          (λ t. returns (export_state modules 0 t))
      else returns (export_state modules (last_height + 1) s)
