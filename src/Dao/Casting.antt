-- ===== src/Dao/Casting.antt =====
-- When `Vote` succeeds (x/dao/keeper/msg_server.go).
use dnsblockchain.Prelude.{ℕ, ◌≤◌, ◌≡◌, ap, ◌∙◌, true, false, some, arith, not, ltb}
use dnsblockchain.Prelude.Int.{ℤ, is_zero}
use dnsblockchain.Sdk.{
  Platform, Address, Context, ok, through, through_or_fail, through_fail_if, through_gets,
  through_lift, ◌>>=◌, plain, or_fail, proposal_not_found,
}
use dnsblockchain.Store.{nat_key, lookup}
use dnsblockchain.Dao.Types.{Proposal, MsgVote, is_voting, DaoEvent}
use dnsblockchain.Dao.External.{Decimals}
use dnsblockchain.Dao.Power.{calculate_voter_power}
use dnsblockchain.Dao.Store.{DaoChain, emit}
use dnsblockchain.Dao.Vote.{has_voted, get_proposal, set_vote, vote}
use dnsblockchain.Dao.Ballot.{ballot}

module _ (d : Decimals) (p : Platform) {R : Type 0} where
  open p use {address, Bank}

  cast :
      (msg : MsgVote) (s : DaoChain R Bank) (voter : Address) (power : ℤ)
      → address msg.voter ≡ some voter
      → ((set_vote d p (ballot msg power) >>= λ _.
            emit (DaoEvent.proposal_vote msg.proposal_id msg.voter msg.option power))
          s).0
        ≡ ok tt
  unfolding set_vote
  cast msg s voter power known =
      ap (λ r. r.0)
        (through (set_vote d p (ballot msg power)) _ s tt _
          (through_or_fail (address msg.voter) plain _ s voter known))

  get_proposal-found :
      (id : ℕ) (q : Proposal) (s : DaoChain R Bank)
      → lookup id s.keeper.proposals ≡ some q
      → get_proposal d p id s ≡ (ok q, s)
  unfolding get_proposal
  get_proposal-found id q s e = ap (λ o. or_fail o proposal_not_found s) e

  -- Vote succeeds whenever the voter's address decodes, the proposal is stored and in its voting
  -- period, the block is not after its end, no vote of this address for it is stored under a
  -- voter's name, and the voter's power is computed and not zero.
  pub vote_succeeds :
      (ctx : Context) (msg : MsgVote) (s : DaoChain R Bank) (voter : Address) (q : Proposal)
      (power : ℤ)
      → address msg.voter ≡ some voter
      → lookup msg.proposal_id s.keeper.proposals ≡ some q
      → is_voting q.status ≡ true
      → ctx.height ≤ q.voting_end_block
      → has_voted msg.proposal_id voter s.keeper ≡ false
      → calculate_voter_power d p voter ctx.height s.keeper s.bank ≡ ok power
      → is_zero power ≡ false
      → (vote d p ctx msg s).0 ≡ ok tt
  unfolding vote
  vote_succeeds ctx msg s voter q power known there still in_time first computed some_power =
      ap (λ r. r.0)
        (through_or_fail _ _ _ s voter known
          ∙ through (get_proposal d p msg.proposal_id) _ s q s
              (get_proposal-found msg.proposal_id q s there)
          ∙ through_fail_if (not (is_voting q.status)) _ _ s (ground (arith, still))
          ∙ through_fail_if (ltb q.voting_end_block ctx.height) _ _ s (ground (arith, in_time))
          ∙ through_gets _ _ s
          ∙ through_fail_if _ _ _ s first
          ∙ through_lift _ _ s power computed
          ∙ through_fail_if _ _ _ s some_power)
      ∙ cast msg s voter power known
