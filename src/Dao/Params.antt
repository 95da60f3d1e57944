-- ===== src/Dao/Params.antt =====
-- The parameters of x/dao and its genesis state (x/dao/types/params.go, x/dao/types/genesis.go,
-- x/dao/keeper/genesis.go). A decimal that is nil in Go is left out: every decimal here has a value.
use dnsblockchain.Prelude.{ℕ, ◌*◌, ◌^◌, not, ◌||◌, none, some, [], ◌∷◌, Bool, if◌then◌else◌}
use dnsblockchain.Prelude.Int.{ℤ, pos, leb_ℤ, is_zero, is_negative}
use dnsblockchain.Go.Text.{Text, codes}
use dnsblockchain.Sdk.{
  store_not_found, Platform, Coin, Coins, Result, ok, err, check, and_then, plain, invalid_coins,
  invalid_request,
}
use dnsblockchain.Store.{nat_key, text_key, ◌==◌}
use dnsblockchain.Dao.Types.{DaoParams, DaoKeeper}
use dnsblockchain.Dao.External.{dec_one}

abbrev pub voting_token : Text
voting_token = codes "udns"

-- `sdk.NewInt64Coin(votingTokenDenom, n)`; `NewCoins` of one such positive coin is its list.
abbrev pub token_coin : ℕ → Coin
token_coin n = record { denom = voting_token; amount = pos n }

abbrev pub default_params : DaoParams
default_params = record {
  voting_period_blocks = 500;
  proposal_submission_deposit = token_coin 10000000 ∷ [];
  quorum_percent = pos (334 * 10 ^ 15);
  min_yes_threshold_percent = pos (5 * 10 ^ 17);
  voting_token_denom = voting_token;
  voting_power_decay_duration_blocks = 100;
  validator_reward_voting_tokens_amount = token_coin 0;
  add_tld_proposal_cost = token_coin 5000000 ∷ [];
}

-- `GenesisState`.
pub record DaoGenesis : Type 0 where
  pub params : DaoParams

abbrev pub default_genesis : DaoGenesis
default_genesis = record { params = default_params }

module _ (p : Platform) where
  open p use {coins_valid, coins_positive, coins_zero, coin_valid, denom_valid, Bank}

  -- `Validate` of a share: neither negative nor above one.
  unfoldable pub validate_percent : ℤ → Result (Unit {0})
  validate_percent percent =
      and_then (check (not (is_negative percent)) plain) (check (leb_ℤ percent (pos dec_one)) plain)

  -- `Validate` of a price: valid coins, all positive or none.
  unfoldable pub validate_price : Coins → Result (Unit {0})
  validate_price coins =
      and_then (check (coins_valid coins) invalid_coins)
        (check (coins_positive coins || coins_zero coins) invalid_coins)

  -- `Validate` of the reward of the validators.
  unfoldable pub validate_reward : Coin → Text → Result (Unit {0})
  validate_reward reward denom =
      and_then (check (coin_valid reward) invalid_coins)
        (check (is_zero reward.amount || reward.denom == denom) plain)

  unfoldable pub validate_dao_params : DaoParams → Result (Unit {0})
  validate_dao_params params = and_then (check (not (params.voting_period_blocks == 0)) plain) (
      and_then (validate_price params.proposal_submission_deposit) (
        and_then (validate_percent params.min_yes_threshold_percent) (
          and_then (check (denom_valid params.voting_token_denom) invalid_request) (
            and_then
              (validate_reward params.validator_reward_voting_tokens_amount
                params.voting_token_denom)
              (and_then (validate_price params.add_tld_proposal_cost)
                (validate_percent params.quorum_percent))))))

  -- `GenesisState.Validate`.
  abbrev pub validate_dao_genesis : DaoGenesis → Result (Unit {0})
  validate_dao_genesis g = validate_dao_params g.params

  -- The parameters to set: those of the genesis state if they are valid, else the default ones.
  abbrev pub params_to_set : DaoParams → Result (Unit {0}) → DaoParams
  params_to_set params (ok u) = params
  params_to_set params (err e) = default_params

  unfoldable pub init_dao_genesis : DaoGenesis → DaoKeeper → DaoKeeper
  init_dao_genesis g k = record k {
    params = some (params_to_set g.params (validate_dao_params g.params));
  }

-- `ExportGenesis`. Whether `Get` returns `collections.ErrNotFound` itself, for `err !=`, is an
-- argument.
unfoldable pub export_dao_genesis : Bool → DaoKeeper → Result DaoGenesis
export_dao_genesis bare k = elim k.params [
  | none ↦ if bare then ok default_genesis else err store_not_found
  | some params ↦ ok (record { params = params })
]
