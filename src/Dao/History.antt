-- ===== src/Dao/History.antt =====
-- The life of a proposal: opened by a submission, closed once by an end of block
-- (x/dao/keeper/msg_server.go, x/dao/keeper/end_blocker.go).
pub mod Steps
pub mod Lasting
use mathlib.Core.Path.{subst}
use dnsblockchain.Prelude.{
  ℕ, ◌+◌, ◌<◌, ◌^◌, ◌≡◌, ◌≢◌, refl, sym, ap, ◌∙◌, Bool, true, false, Option, none, some, List, [],
  ◌∷◌, inl, inr, arith, Bool-cases,
}
use dnsblockchain.Go.Word.{add64, u64_mod}
use dnsblockchain.Sdk.{Platform, Context, Ensures, either_way, succeeds, after_gets}
use dnsblockchain.Store.{Map, nat_key, lookup, insert, lookup-insert}
use dnsblockchain.Dao.Types.{
  Proposal, ProposalStatus, voting_period, DaoParams, DaoKeeper, is_voting,
}
use dnsblockchain.Dao.External.{Codec, Decimals, TldRegistry}
use dnsblockchain.Dao.Store.{DaoChain, set_proposal}
use dnsblockchain.Dao.Submit.{new_proposal}
use dnsblockchain.Dao.EndBlock.{process_proposal, process_proposals, end_blocker, due_proposals}
use dnsblockchain.Dao.Tally.{tallied, tally_of}
use dnsblockchain.Dao.Closing.{IsFinal}
use dnsblockchain.Dao.Opening.{submit_proposal_effect, opened}
use dnsblockchain.Dao.Ballot.{vote_effect}
use dnsblockchain.Dao.Frame.{after_get_params, settle-Keeps}
use dnsblockchain.Dao.Loop.{is_due, end_blocker_effect, Block}
use dnsblockchain.Dao.Reach.{IsBook, DaoStep, submitting, voting, ending}

-- What a step can do under an id of a proposal.
pub data Moves (o o' : Option Proposal) : Type 0 where
  stays : o' ≡ o → Moves o o'
  opens : (q : Proposal) → o ≡ none → o' ≡ some q → q.status ≡ voting_period → Moves o o'
  closes :
      (q q' : Proposal)
      → o ≡ some q
      → o' ≡ some q'
      → q.status ≡ voting_period
      → IsFinal q'.status
      → record q' {
        status = q.status;
        yes_votes = q.yes_votes;
        no_votes = q.no_votes;
        abstain_votes = q.abstain_votes;
      }
        ≡ q
      → Moves o o'

-- The ids in use lie below the sequence.
abbrev pub IsBelow : DaoKeeper → Type 0
IsBelow k = (i : ℕ) (q : Proposal) → lookup i k.proposals ≡ some q → i < k.proposal_seq

voting_of : (st : ProposalStatus) → is_voting st ≡ true → st ≡ voting_period
voting_of voting_period h = refl
voting_of _ h = absurd (cc h)

next_unused : (k : DaoKeeper) → IsBelow k → lookup k.proposal_seq k.proposals ≡ none
next_unused k b = at (lookup k.proposal_seq k.proposals) refl
  where
    at : (o : Option Proposal) → lookup k.proposal_seq k.proposals ≡ o → o ≡ none
    at none e = refl
    at (some q) e = absurd (omega (arith, b k.proposal_seq q e))

opened-Moves :
    (q : Proposal) (k : DaoKeeper) (i : ℕ)
    → IsBelow k
    → q.status ≡ voting_period
    → Moves (lookup i k.proposals) (lookup i (opened k.proposal_seq q k).proposals)
opened-Moves q k i b open_now = elim (Bool-cases (nat_key.beq i k.proposal_seq)) [
  | inl e ↦
      opens q
        (ap (λ j. lookup j k.proposals) ((nat_key.beq_iff i k.proposal_seq).0 e) ∙ next_unused k b)
        (ground (arith, lookup-insert i k.proposal_seq q k.proposals)) open_now
  | inr e ↦ stays (ground (arith, lookup-insert i k.proposal_seq q k.proposals))
]

opened-IsBelow :
    (q : Proposal) (k : DaoKeeper)
    → IsBelow k
    → k.proposal_seq + 1 < u64_mod
    → IsBelow (opened k.proposal_seq q k)
opened-IsBelow q k b room i r there =
    ground
      (arith, lookup-insert i k.proposal_seq q k.proposals, nat_key.beq_iff i k.proposal_seq, b i r)

module _ (codec : Codec) (d : Decimals) (g : TldRegistry) (p : Platform) where
  open g use {Registry}
  open p use {Bank}

  process_proposal-seq :
      (ctx : Context) (params : DaoParams) (q : Proposal) (s : DaoChain Registry Bank)
      → (process_proposal codec d g p ctx params q s).keeper.proposal_seq ≡ s.keeper.proposal_seq
  unfolding process_proposal set_proposal
  process_proposal-seq ctx params q s = (settle-Keeps codec d g p ctx _ _ _ s).proposal_seq

  process_proposals-seq :
      (ctx : Context) (params : DaoParams) (qs : List Proposal) (s : DaoChain Registry Bank)
      → (process_proposals codec d g p ctx params qs s).keeper.proposal_seq ≡ s.keeper.proposal_seq
  unfolding process_proposals
  process_proposals-seq ctx params [] s = refl
  process_proposals-seq ctx params (q ∷ qs) s =
      process_proposals-seq ctx params qs (process_proposal codec d g p ctx params q s)
      ∙ process_proposal-seq ctx params q s
