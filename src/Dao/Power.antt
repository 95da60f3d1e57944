-- ===== src/Dao/Power.antt =====
-- `IsLotBasedVotingActive` and `CalculateVoterPower` (x/dao/keeper/keeper.go).
use dnsblockchain.Prelude.{
  ℕ, Bool, true, false, not, none, some, List, [], ◌∷◌, leb, ◌==◌, if◌then◌else◌,
}
use dnsblockchain.Prelude.Int.{ℤ, pos, ◌+ℤ◌, ◌-ℤ◌, ◌*ℤ◌, is_zero, is_positive}
use dnsblockchain.Go.Word.{sub64, int64}
use dnsblockchain.Sdk.{Platform, Address, Result, ok, err, store_not_found}
use dnsblockchain.Store.{text_key, walk_prefix}
use dnsblockchain.Dao.Types.{VotingPowerLot, DaoKeeper}
use dnsblockchain.Dao.External.{Decimals, dec_one}

-- `LegacyNewDec` and `LegacyNewDecFromInt`.
abbrev pub new_dec : ℤ → ℤ
new_dec n = n *ℤ pos dec_one

abbrev pub is_lot_based_voting_active : DaoKeeper → Bool
is_lot_based_voting_active k = elim k.voter_power_lots [ [] ↦ false | _ ∷ _ ↦ true ]

module _ (d : Decimals) where
  open d use {mul, quo_int64, truncate_int}

  -- `1 - blocksPassed / decayDurationBlocks`.
  abbrev pub remaining_ratio : ℕ → ℕ → ℤ
  remaining_ratio passed decay = pos dec_one -ℤ quo_int64 (new_dec (int64 passed)) (int64 decay)

  -- What a lot is worth after some blocks, if the decay is not off.
  unfoldable pub decayed_power : ℤ → ℕ → ℕ → ℤ
  decayed_power amount passed decay =
      let power = truncate_int (mul (new_dec amount) (remaining_ratio passed decay)) in
      if is_positive power then power else pos 0

  -- What one lot adds to the power of its voter.
  unfoldable pub lot_power : ℕ → ℕ → VotingPowerLot → ℤ
  lot_power decay height lot =
      let passed = sub64 height lot.grant_block_height in
      if is_zero lot.initial_amount
      then pos 0
      else if decay == 0
      then lot.initial_amount
      else if leb decay passed
      then pos 0
      else decayed_power lot.initial_amount passed decay

  -- The walk over a voter's lots.
  unfoldable pub lots_power : ℕ → ℕ → ℤ → List VotingPowerLot → ℤ
  lots_power decay height total [] = total
  lots_power decay height total (lot ∷ lots) =
      lots_power decay height (total +ℤ lot_power decay height lot) lots

  module _ (p : Platform) where
    open p use {Bank, balance}

    unfoldable pub calculate_voter_power : Address → ℕ → DaoKeeper → Bank → Result ℤ
    calculate_voter_power voter height k bank = elim k.params [
      | none ↦ err store_not_found
      | some params ↦
          if not (is_lot_based_voting_active k)
          then ok (balance bank voter params.voting_token_denom)
          else ok (
              lots_power params.voting_power_decay_duration_blocks height (pos 0)
                (walk_prefix voter k.voter_power_lots))
    ]
