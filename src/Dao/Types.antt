-- ===== src/Dao/Types.antt =====
-- The data of x/dao: proto/dnsblockchain/dao/v1, as generated in x/dao/types, and the stores of its
-- keeper.
use dnsblockchain.Prelude.{ℕ, Bool, true, false, Option, List}
use dnsblockchain.Prelude.Int.{ℤ}
use dnsblockchain.Go.Text.{Text}
use dnsblockchain.Sdk.{Address, Coin, Coins}
use dnsblockchain.Store.{Map, KeySet}

pub data ProposalStatus : Type 0 where
  unspecified submitted voting_period passed rejected executed failed : ProposalStatus

pub data VoteOption : Type 0 where
  unspecified yes_vote no_vote abstain : VoteOption

-- `status == PROPOSAL_STATUS_VOTING_PERIOD`.
abbrev pub is_voting : ProposalStatus → Bool
is_voting = elim [ voting_period ↦ true | _ ↦ false ]

-- A packed message: `google.protobuf.Any`.
pub record Any : Type 0 where
  pub type_url : Text
  pub value : List ℕ

pub record AddTld : Type 0 where
  pub tld : Text
  pub description : Text

pub record RequestTokens : Type 0 where
  pub recipient_address : Text
  pub amount_requested : Coins
  pub activity_description : Text

-- The registered implementations of `ProposalContent`.
pub data Content : Type 0 where
  add_tld : AddTld → Content
  request_tokens : RequestTokens → Content

pub record Proposal : Type 0 where
  pub id : ℕ
  pub proposer : Text
  pub title : Text
  pub description : Text
  pub content : Any
  pub status : ProposalStatus
  pub submit_block : ℕ
  pub voting_start_block : ℕ
  pub voting_end_block : ℕ
  pub yes_votes : ℤ
  pub no_votes : ℤ
  pub abstain_votes : ℤ
  pub total_voting_power_at_snapshot : ℤ

pub record Vote : Type 0 where
  pub proposal_id : ℕ
  pub voter : Text
  pub option : VoteOption
  pub voting_power : ℤ

pub record VotingPowerLot : Type 0 where
  pub voter_address : Text
  pub granted_by_proposal_id : ℕ
  pub initial_amount : ℤ
  pub grant_block_height : ℕ

-- The percentages are decimals: integers in units of 10^-18.
pub record DaoParams : Type 0 where
  pub voting_period_blocks : ℕ
  pub proposal_submission_deposit : Coins
  pub quorum_percent : ℤ
  pub min_yes_threshold_percent : ℤ
  pub voting_token_denom : Text
  pub voting_power_decay_duration_blocks : ℕ
  pub validator_reward_voting_tokens_amount : Coin
  pub add_tld_proposal_cost : Coins

-- The stores of the keeper.
pub record DaoKeeper : Type 0 where
  pub params : Option DaoParams
  pub proposal_seq : ℕ
  pub proposals : Map ℕ Proposal
  pub votes : Map (ℕ × Address) Vote
  pub active_proposal_queue : KeySet ℕ
  pub voter_power_lots : Map (Address × ℕ) VotingPowerLot

pub data DaoEvent : Type 0 where
  submit_proposal : ℕ → Text → Text → DaoEvent
  proposal_vote : ℕ → Text → VoteOption → ℤ → DaoEvent
  proposal_finished : ℕ → ProposalStatus → DaoEvent

pub record MsgSubmitProposal : Type 0 where
  pub proposer : Text
  pub title : Text
  pub description : Text
  pub initial_deposit : Coins
  pub content : Option Any

pub record MsgVote : Type 0 where
  pub proposal_id : ℕ
  pub voter : Text
  pub option : VoteOption
