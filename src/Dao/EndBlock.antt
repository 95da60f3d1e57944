-- ===== src/Dao/EndBlock.antt =====
-- `EndBlocker` (x/dao/keeper/end_blocker.go): every proposal whose voting period is over is tallied,
-- settled and stored.
use dnsblockchain.Prelude.{ℕ, ◌&&◌, none, some, List, [], ◌∷◌, ◌++◌, ltb, if◌then◌else◌}
use dnsblockchain.Go.Text.{Text}
use dnsblockchain.Sdk.{Platform, Coins, Context, Handler, Result, ok, err, ◌>>=◌, gets, modify}
use dnsblockchain.Store.{Map}
use dnsblockchain.Dao.Types.{
  add_tld, request_tokens, Proposal, DaoParams, DaoEvent, ProposalStatus, voting_period, passed,
  rejected, executed, failed, unspecified, submitted, is_voting,
}
use dnsblockchain.Dao.External.{Codec, Decimals, Unpacked, broken, empty, unpacked, TldRegistry}
use dnsblockchain.Dao.Execute.{execute_proposal}
use dnsblockchain.Dao.Store.{DaoChain, module_name, quietly, get_params, set_proposal}
use dnsblockchain.Dao.Tally.{tally_of, tallied}

-- The proposals whose voting period ended before the block.
unfoldable pub due_proposals : ℕ → Map ℕ Proposal → List Proposal
due_proposals height [] = []
due_proposals height ((id, p) ∷ m) =
    if is_voting p.status && ltb p.voting_end_block height
    then p ∷ due_proposals height m
    else due_proposals height m

-- The deposit that is at stake: what such a proposal pays by the parameters.
abbrev pub deposit_of : DaoParams → Unpacked → Coins
deposit_of params broken = params.proposal_submission_deposit
deposit_of params empty = params.proposal_submission_deposit
deposit_of params (unpacked (add_tld c)) = params.add_tld_proposal_cost
deposit_of params (unpacked (request_tokens c)) = params.proposal_submission_deposit

-- A proposal whose content cannot be unpacked fails, unless it was rejected.
abbrev pub checked_status : Unpacked → ProposalStatus → ProposalStatus
checked_status broken rejected = rejected
checked_status broken _ = failed
checked_status empty s = s
checked_status (unpacked c) s = s

module _ (codec : Codec) (d : Decimals) (g : TldRegistry) (p : Platform) where
  open codec use {unpack_any}
  open g use {Registry}
  open p use {address, coins_zero, Bank, burn_coins, send_to_account}

  unfoldable pub burn_deposit : Coins → DaoChain Registry Bank → DaoChain Registry Bank
  burn_deposit deposit s =
      if coins_zero deposit then s else quietly (burn_coins module_name deposit) s

  unfoldable pub refund_deposit : Text → Coins → DaoChain Registry Bank → DaoChain Registry Bank
  refund_deposit proposer deposit s = if coins_zero deposit then s else elim (address proposer) [
    | none ↦ s
    | some to ↦ quietly (send_to_account module_name to deposit) s
  ]

  -- After the execution: the final status, and the chain.
  abbrev pub after_execution :
      Proposal
      → Coins
      → Result (Unit {0}) × DaoChain Registry Bank
      → ProposalStatus × DaoChain Registry Bank
  after_execution proposal deposit (ok u, s) =
      (executed, refund_deposit proposal.proposer deposit s)
  after_execution proposal deposit (err e, s) = (failed, burn_deposit deposit s)

  -- What happens to a tallied proposal, by its status.
  unfoldable pub settle :
      Context
      → Proposal
      → Coins
      → ProposalStatus
      → DaoChain Registry Bank
      → ProposalStatus × DaoChain Registry Bank
  settle ctx proposal deposit passed s =
      after_execution proposal deposit (execute_proposal codec g p ctx proposal s)
  settle ctx proposal deposit rejected s = (rejected, burn_deposit deposit s)
  settle ctx proposal deposit failed s = (failed, burn_deposit deposit s)
  settle ctx proposal deposit unspecified s = (unspecified, s)
  settle ctx proposal deposit submitted s = (submitted, s)
  settle ctx proposal deposit voting_period s = (voting_period, s)
  settle ctx proposal deposit executed s = (executed, s)

  -- The body of the loop.
  unfoldable pub process_proposal :
      Context → DaoParams → Proposal → DaoChain Registry Bank → DaoChain Registry Bank
  process_proposal ctx params proposal s =
      let counted = tallied d params proposal (tally_of proposal.id s.keeper) in
      let content = unpack_any counted.content in
      let (status, s') =
        settle ctx counted (deposit_of params content) (checked_status content counted.status) s in
      let stored = set_proposal (record counted { status = status }) s' in
      record stored { events = stored.events ++ DaoEvent.proposal_finished proposal.id status ∷ [] }

  unfoldable pub process_proposals :
      Context → DaoParams → List Proposal → DaoChain Registry Bank → DaoChain Registry Bank
  process_proposals ctx params [] s = s
  process_proposals ctx params (proposal ∷ rest) s =
      process_proposals ctx params rest (process_proposal ctx params proposal s)

  unfoldable pub end_blocker : Context → Handler (DaoChain Registry Bank) (Unit {0})
  end_blocker ctx = do
    params ← get_params
    s ← gets (λ s. s)
    modify (process_proposals ctx params (due_proposals ctx.height s.keeper.proposals))
