-- ===== src/Dao/Closing.antt =====
-- What one round of the loop of `EndBlocker` (x/dao/keeper/end_blocker.go) stores for a proposal.
use dnsblockchain.Prelude.{ℕ, ◌≡◌, ◌≢◌, refl, ap, List, [], ◌∷◌, arith, All}
use dnsblockchain.Prelude.Int.{ℤ}
use dnsblockchain.Sdk.{Platform, Coins, Context, Result, ok, err}
use dnsblockchain.Store.{Map, nat_key, insert}
use dnsblockchain.Dao.Types.{
  Proposal, DaoParams, ProposalStatus, passed, rejected, executed, failed,
}
use dnsblockchain.Dao.External.{Codec, Decimals, Unpacked, broken, empty, unpacked, TldRegistry}
use dnsblockchain.Dao.Store.{DaoChain, set_proposal}
use dnsblockchain.Dao.Tally.{Tally, tally_of, tallied, verdict}
use dnsblockchain.Dao.EndBlock.{
  deposit_of, checked_status, settle, process_proposal, after_execution,
}
use dnsblockchain.Dao.Execute.{execute_proposal}
use dnsblockchain.Dao.Frame.{settle-Keeps}

-- The final statuses.
abbrev pub IsFinal : ProposalStatus → Type 0
IsFinal = elim [ executed ↦ Unit | rejected ↦ Unit | failed ↦ Unit | _ ↦ ⊥ ]

-- What a tally can say.
abbrev pub IsVerdict : ProposalStatus → Type 0
IsVerdict = elim [ passed ↦ Unit | rejected ↦ Unit | failed ↦ Unit | _ ↦ ⊥ ]

abbrev pub NotIn : ℕ → List Proposal → Type 0
NotIn i [] = Unit
NotIn i (q ∷ qs) = (i ≢ q.id) × NotIn i qs

-- Every proposal stands under its own id.
abbrev pub IsKeyed : Map ℕ Proposal → Type 0
IsKeyed = All (λ e. e.1.id ≡ e.0)

checked_status-IsVerdict :
    (c : Unpacked) (st : ProposalStatus) → IsVerdict st → IsVerdict (checked_status c st)
checked_status-IsVerdict broken passed h = tt
checked_status-IsVerdict broken rejected h = tt
checked_status-IsVerdict broken failed h = tt
checked_status-IsVerdict broken _ h = tt
checked_status-IsVerdict empty st h = h
checked_status-IsVerdict (unpacked c) st h = h

module _ (codec : Codec) (d : Decimals) (g : TldRegistry) (p : Platform) where
  open codec use {unpack_any}
  open g use {Registry}
  open p use {Bank}

  verdict-IsVerdict :
      (params : DaoParams) (snapshot : ℤ) (t : Tally) → IsVerdict (verdict d params snapshot t)
  unfolding verdict
  verdict-IsVerdict params snapshot t = ground arith

  after_execution-IsFinal :
      (q : Proposal) (deposit : Coins) (r : Result (Unit {0}) × DaoChain Registry Bank)
      → IsFinal (after_execution codec d g p q deposit r).0
  after_execution-IsFinal q deposit (ok u, t) = tt
  after_execution-IsFinal q deposit (err e, t) = tt

  settle-IsFinal :
      (ctx : Context) (q : Proposal) (deposit : Coins) (st : ProposalStatus)
      (s : DaoChain Registry Bank)
      → IsVerdict st
      → IsFinal (settle codec d g p ctx q deposit st s).0
  unfolding settle
  settle-IsFinal ctx q deposit passed s h =
      after_execution-IsFinal q deposit (execute_proposal codec g p ctx q s)
  settle-IsFinal ctx q deposit rejected s h = tt
  settle-IsFinal ctx q deposit failed s h = tt
  settle-IsFinal ctx q deposit _ s h = absurd h

  -- The proposal is closed by the tally: its counts are those of the votes, its status is final, and
  -- the rest of it is as it was.
  pub record ClosedBy (t : Tally) (q q' : Proposal) : Type 0 where
    pub is_final : IsFinal q'.status
    pub same_proposal :
        record q' {
          status = q.status;
          yes_votes = q.yes_votes;
          no_votes = q.no_votes;
          abstain_votes = q.abstain_votes;
        }
        ≡ q
    pub yes_counted : q'.yes_votes ≡ t.yes
    pub no_counted : q'.no_votes ≡ t.no
    pub abstain_counted : q'.abstain_votes ≡ t.abstained

  -- What the loop stores for a proposal.
  abbrev pub closed_status :
      Context → DaoParams → Proposal → DaoChain Registry Bank → ProposalStatus
  closed_status ctx params q s =
      let counted = tallied d params q (tally_of q.id s.keeper) in
      let content = unpack_any counted.content in
      (settle codec d g p ctx counted (deposit_of params content)
        (checked_status content counted.status) s).0

  abbrev pub closed : Context → DaoParams → Proposal → DaoChain Registry Bank → Proposal
  closed ctx params q s = record (tallied d params q (tally_of q.id s.keeper)) {
    status = closed_status ctx params q s;
  }

  pub closed-ClosedBy :
      (ctx : Context) (params : DaoParams) (q : Proposal) (s : DaoChain Registry Bank)
      → ClosedBy (tally_of q.id s.keeper) q (closed ctx params q s)
  unfolding tallied
  closed-ClosedBy ctx params q s =
      let counted = tallied d params q (tally_of q.id s.keeper) in
      record {
        is_final =
            settle-IsFinal ctx counted (deposit_of params (unpack_any q.content))
              (checked_status (unpack_any q.content) counted.status) s
              (checked_status-IsVerdict (unpack_any q.content) counted.status (
                verdict-IsVerdict params q.total_voting_power_at_snapshot
                  (tally_of q.id s.keeper)));
        same_proposal = refl;
        yes_counted = refl;
        no_counted = refl;
        abstain_counted = refl;
      }

  pub process_proposal_effect :
      (ctx : Context) (params : DaoParams) (q : Proposal) (s : DaoChain Registry Bank)
      → ((process_proposal codec d g p ctx params q s).keeper.proposals
          ≡ insert q.id (closed ctx params q s) s.keeper.proposals)
        × ((process_proposal codec d g p ctx params q s).keeper.votes ≡ s.keeper.votes)
  unfolding process_proposal set_proposal tallied
  process_proposal_effect ctx params q s =
      let counted = tallied d params q (tally_of q.id s.keeper) in
      let content = unpack_any q.content in
      let kept =
        settle-Keeps codec d g p ctx counted (deposit_of params content)
          (checked_status content counted.status) s in
      (ap (insert q.id (closed ctx params q s)) kept.proposals, kept.votes)
