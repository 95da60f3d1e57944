-- ===== src/Cmd/Testnet.antt =====
-- The command that turns a chain into a test network in place (cmd/dnsblockchaind/cmd/testnet.go).
-- A program that exits is a call that panics.
pub mod Modules
pub mod Funding
use dnsblockchain.Prelude.{
  ℕ, ◌-◌, ◌*◌, ◌^◌, Bool, true, false, Option, none, some, List, [], ◌∷◌, if◌then◌else◌,
}
use dnsblockchain.Prelude.Int.{ℤ, pos, ◌-ℤ◌}
use dnsblockchain.Go.Text.{Text, codes, is_empty}
use dnsblockchain.Go.Text.Digits.{split_commas}
use dnsblockchain.Sdk.{Address, Coins, Result, ok, err, plain}
use dnsblockchain.Sdk.Panic.{Outcome, returns, panics, must, must_then, and_go, each}
use dnsblockchain.Cmd.Testnet.Modules.{TestnetModules, NewValidator, NewSigningInfo}

-- What the command line gives: an option of another type is missing.
pub record Options (Key : Type 0) : Type 0 where
  pub new_val_addr : Option Address
  pub new_val_pub_key : Option Key
  pub new_operator_address : Option Text
  pub upgrade_to_trigger : Option Text
  pub accounts_to_fund : Text
  pub home_dir : Text

pub record ValArgs (Key : Type 0) : Type 0 where
  pub new_val_addr : Address
  pub new_operator_address : Text
  pub new_val_pub_key : Key
  pub accounts_to_fund : List Text
  pub upgrade_to_trigger : Text
  pub home_dir : Text

unfoldable pub get_command_args : {Key : Type 0} → Options Key → Result (ValArgs Key)
get_command_args o = elim o.new_val_addr [
  | none ↦ err plain
  | some addr ↦ elim o.new_val_pub_key [
    | none ↦ err plain
    | some key ↦ elim o.new_operator_address [
      | none ↦ err plain
      | some operator ↦ elim o.upgrade_to_trigger [
        | none ↦ err plain
        | some upgrade ↦
            if is_empty o.home_dir
            then err plain
            else ok (record {
              new_val_addr = addr;
              new_operator_address = operator;
              new_val_pub_key = key;
              accounts_to_fund = split_commas o.accounts_to_fund;
              upgrade_to_trigger = upgrade;
              home_dir = o.home_dir;
            })
      ]
    ]
  ]
]

module _ (m : TestnetModules) where
  open m use {
    Store, Key, Any, StoreKey, operator_bytes, account_bytes, pack_key, power_keys, last_keys,
    validator_keys, queue_keys, delete_key, set_validator, set_validator_by_cons_addr,
    set_validator_by_power_index, set_last_power, after_validator_created, set_historical_rewards,
    set_current_rewards, set_accumulated_commission, set_outstanding_rewards, cons_text,
    set_signing_info, bond_denom, mint_coins, send_to_account,
  }

  -- The validator of the test network. Shares and rates are in units of 10^-18.
  abbrev pub new_validator : ValArgs Key → Any → NewValidator Any
  new_validator args key = record {
    operator_address = args.new_operator_address;
    consensus_pubkey = key;
    jailed = false;
    bonded = true;
    tokens = 900000000000000;
    delegator_shares = 10000000 * 10 ^ 18;
    moniker = codes "Testnet Validator";
    rate = 5 * 10 ^ 16;
    max_rate = 10 ^ 17;
    max_change_rate = 5 * 10 ^ 16;
    min_self_delegation = 1;
  }

  unfoldable pub delete_all : List StoreKey → Store → Store
  delete_all [] s = s
  delete_all (k ∷ rest) s = delete_all rest (delete_key k s)

  -- The validators of the chain are removed.
  unfoldable pub remove_validators : Store → Outcome Store
  remove_validators s = must_then (power_keys s) λ powers.
      let s1 = delete_all powers s in
      must_then (last_keys s1) λ lasts.
        let s2 = delete_all lasts s1 in
        let s3 = delete_all (validator_keys s2) s2 in returns (delete_all (queue_keys s3) s3)

  unfoldable pub add_validator : NewValidator Any → Address → Store → Outcome Store
  add_validator val a s = must_then (set_validator val s) λ s1.
      must_then (set_validator_by_cons_addr val s1) λ s2.
        must_then (set_validator_by_power_index val s2) λ s3.
          must_then (set_last_power a 0 s3) λ s4. must_then (after_validator_created a s4) λ s5.
            must_then (set_historical_rewards a s5) λ s6. must_then (set_current_rewards a s6) λ s7.
              must_then (set_accumulated_commission a s7) λ s8. must (set_outstanding_rewards a s8)

  abbrev pub default_coins : Text → Coins
  default_coins denom = record { denom = denom; amount = pos 1000000000 } ∷ []

  -- The coins are minted before the address is looked at.
  unfoldable pub fund_account : Coins → Text → Store → Outcome Store
  fund_account coins account s =
      must_then (mint_coins coins s)
        λ t. must_then (account_bytes account) λ a. must (send_to_account a coins t)

  unfoldable pub fund_accounts : List Text → Store → Outcome Store
  fund_accounts accounts s =
      must_then (bond_denom s) λ denom. each (fund_account (default_coins denom)) accounts s

  unfoldable pub init_app_for_testnet : ℤ → ValArgs Key → Store → Outcome Store
  init_app_for_testnet last_height args s = must_then (pack_key args.new_val_pub_key) λ key.
      let val = new_validator args key in
      must_then (operator_bytes val.operator_address) λ a. and_go (remove_validators s) λ s1.
        and_go (add_validator val a s1) λ s2.
          let info : NewSigningInfo = record {
            address = cons_text args.new_val_addr;
            start_height = last_height -ℤ pos 1;
            tombstoned = false;
          } in
          fund_accounts args.accounts_to_fund (set_signing_info args.new_val_addr info s2)

  -- `newTestnetApp`, past the construction of the app.
  unfoldable pub new_testnet_app : ℤ → Options Key → Store → Outcome Store
  new_testnet_app last_height o s = elim (get_command_args o) [
    | err e ↦ panics
    | ok args ↦ init_app_for_testnet last_height args s
  ]
