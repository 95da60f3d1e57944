-- ===== src/Dao/Query.antt =====
-- The queries of x/dao (x/dao/keeper/query_*.go). A request may be nil.
pub mod Paged
pub mod Counted
use dnsblockchain.Prelude.{
  ℕ, Bool, true, false, ◌&&◌, Option, none, some, List, [], ◌∷◌, if◌then◌else◌,
}
use dnsblockchain.Prelude.Int.{ℤ, pos}
use dnsblockchain.Go.Text.{Text, is_empty}
use dnsblockchain.Sdk.{
  Platform, Coin, Result, ok, err, invalid_argument, not_found, internal, proposal_not_found,
}
use dnsblockchain.Sdk.Paging.{PageRequest, PageResponse}
use dnsblockchain.Store.{Map, nat_key, text_key, pair_key, ◌==◌, lookup, walk_prefix}
use dnsblockchain.Dao.Types.{
  Proposal, ProposalStatus, unspecified, submitted, voting_period, passed, rejected, executed,
  failed, Vote, DaoParams, DaoKeeper,
}
use dnsblockchain.Dao.Page.{page_of}

pub record QueryProposalRequest : Type 0 where
  pub proposal_id : ℕ

pub record QueryProposalsRequest : Type 0 where
  pub proposal_status : ProposalStatus
  pub voter : Text
  pub proposer : Text
  pub pagination : Option PageRequest

pub record QueryProposalsResponse : Type 0 where
  pub proposals : List Proposal
  pub pagination : PageResponse

pub record QueryVoteRequest : Type 0 where
  pub proposal_id : ℕ
  pub voter : Text

pub record QueryVotesRequest : Type 0 where
  pub proposal_id : ℕ
  pub pagination : Option PageRequest

pub record QueryVotesResponse : Type 0 where
  pub votes : List Vote
  pub pagination : PageResponse

pub record QueryTallyResultRequest : Type 0 where
  pub proposal_id : ℕ

pub record TallyResult : Type 0 where
  pub yes_count : ℤ
  pub abstain_count : ℤ
  pub no_count : ℤ

abbrev pub with_request : {Q A : Type 0} → Option Q → (Q → Result A) → Result A
with_request none f = err invalid_argument
with_request (some q) f = f q

-- The numbers of the statuses.
unfoldable pub status_number : ProposalStatus → ℕ
status_number ProposalStatus.unspecified = 0
status_number submitted = 1
status_number voting_period = 2
status_number passed = 3
status_number rejected = 4
status_number executed = 5
status_number failed = 6

unfoldable pub same_status : ProposalStatus → ProposalStatus → Bool
unfolding status_number
same_status a b = status_number a == status_number b

-- `Params.Get` where none are set gives the zero value.
unfoldable pub query_dao_params : DaoParams → Option (Unit {0}) → DaoKeeper → Result DaoParams
query_dao_params zero_params req k =
    with_request req λ q. ok (elim k.params [ none ↦ zero_params | some ps ↦ ps ])

-- Whether `Get` returns `collections.ErrNotFound` itself, for `err ==`, is an argument.
unfoldable pub query_proposal : Bool → Option QueryProposalRequest → DaoKeeper → Result Proposal
query_proposal bare req k = with_request req λ q. elim (lookup q.proposal_id k.proposals) [
  | none ↦ if bare then err proposal_not_found else err internal
  | some p ↦ ok p
]

unfoldable pub query_tally_result : Option QueryTallyResultRequest → DaoKeeper → Result TallyResult
query_tally_result req k = with_request req λ q. elim (lookup q.proposal_id k.proposals) [
  | none ↦ err not_found
  | some p ↦
      ok
        (record { yes_count = p.yes_votes; abstain_count = p.abstain_votes; no_count = p.no_votes })
]

module _ (p : Platform) where
  open p use {address}

  -- The test of the walk over the proposals.
  unfoldable pub matches : QueryProposalsRequest → Proposal → Bool
  unfolding same_status
  matches req q =
      let by_proposer =
        if is_empty req.proposer
        then true
        else elim (address req.proposer) [ none ↦ false | some _ ↦ q.proposer == req.proposer ] in
      by_proposer
      && (if same_status req.proposal_status ProposalStatus.unspecified
          then true
          else same_status q.status req.proposal_status)

  unfoldable pub filtered_proposals : QueryProposalsRequest → Map ℕ Proposal → List Proposal
  filtered_proposals req [] = []
  filtered_proposals req (e ∷ m) =
      if matches req e.1 then e.1 ∷ filtered_proposals req m else filtered_proposals req m

  unfoldable pub query_proposals :
      ℕ → Option QueryProposalsRequest → DaoKeeper → Result QueryProposalsResponse
  query_proposals default_limit req k = with_request req λ q.
      let r = page_of default_limit q.pagination (filtered_proposals q k.proposals) in
      ok (record { proposals = r.0; pagination = r.1 })

  unfoldable pub query_vote : Option QueryVoteRequest → DaoKeeper → Result Vote
  query_vote req k = with_request req λ q.
      if is_empty q.voter then err invalid_argument else elim (address q.voter) [
        | none ↦ err invalid_argument
        | some a ↦ elim (lookup (q.proposal_id, a) k.votes) [ none ↦ err not_found | some v ↦ ok v ]
      ]

unfoldable pub query_votes : ℕ → Option QueryVotesRequest → DaoKeeper → Result QueryVotesResponse
query_votes default_limit req k = with_request req λ q.
    let r = page_of default_limit q.pagination (walk_prefix q.proposal_id k.votes) in
    ok (record { votes = r.0; pagination = r.1 })
