-- ===== src/Dao/Vote.antt =====
-- `Vote` (x/dao/keeper/msg_server.go), with `SetVote` and `GetVote`.
use dnsblockchain.Prelude.{ℕ, Bool, false, not, none, some, ltb}
use dnsblockchain.Prelude.Int.{is_zero}
use dnsblockchain.Go.Text.{is_empty}
use dnsblockchain.Sdk.{
  Platform, Address, Context, Handler, ◌>>=◌, ◌>>◌, gets, lift, or_fail, fail_if, modify,
  invalid_address, proposal_not_found, inactive_proposal, voting_period_ended, already_voted,
  no_voting_power, plain,
}
use dnsblockchain.Store.{nat_key, text_key, pair_key, lookup, insert}
use dnsblockchain.Dao.Types.{Proposal, Vote, MsgVote, DaoKeeper, DaoEvent, is_voting}
use dnsblockchain.Dao.External.{Decimals}
use dnsblockchain.Dao.Power.{calculate_voter_power}
use dnsblockchain.Dao.Store.{DaoChain, emit}

-- `err == nil && existingVote.Voter != ""`.
unfoldable pub has_voted : ℕ → Address → DaoKeeper → Bool
has_voted id voter k = elim (lookup (id, voter) k.votes) [
  | none ↦ false
  | some v ↦ not (is_empty v.voter)
]

module _ (d : Decimals) (p : Platform) {R : Type 0} where
  open p use {address, Bank}

  unfoldable pub get_proposal : ℕ → Handler (DaoChain R Bank) Proposal
  get_proposal id s = or_fail (lookup id s.keeper.proposals) proposal_not_found s

  unfoldable pub set_vote : Vote → Handler (DaoChain R Bank) (Unit {0})
  set_vote v = do
    voter ← or_fail (address v.voter) plain
    modify (λ s. record s {
      keeper = record s.keeper { votes = insert (v.proposal_id, voter) v s.keeper.votes };
    })

  unfoldable pub vote : Context → MsgVote → Handler (DaoChain R Bank) (Unit {0})
  vote ctx msg = do
    voter ← or_fail (address msg.voter) invalid_address
    proposal ← get_proposal msg.proposal_id
    fail_if (not (is_voting proposal.status)) inactive_proposal
    fail_if (ltb proposal.voting_end_block ctx.height) voting_period_ended
    s ← gets (λ s. s)
    fail_if (has_voted msg.proposal_id voter s.keeper) already_voted
    power ← lift (calculate_voter_power d p voter ctx.height s.keeper s.bank)
    fail_if (is_zero power) no_voting_power
    set_vote (record {
      proposal_id = msg.proposal_id;
      voter = msg.voter;
      option = msg.option;
      voting_power = power;
    })
    emit (DaoEvent.proposal_vote msg.proposal_id msg.voter msg.option power)
