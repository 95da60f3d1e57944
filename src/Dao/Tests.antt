-- ===== src/Dao/Tests.antt =====
-- Runs of x/dao, and the theorems at concrete inputs.
pub mod Power
pub mod Queries
pub mod Frozen
pub mod Opening
use dnsblockchain.Prelude.{
  ℕ, ◌≡◌, ◌≢◌, ◌≤◌, ◌<◌, ◌+◌, ◌-◌, ◌*◌, ◌^◌, refl, true, false, none, some, [], ◌∷◌, arith,
}
use dnsblockchain.Prelude.Int.{pos, ◌+ℤ◌, ◌-ℤ◌, ◌*ℤ◌}
use dnsblockchain.Go.Text.{Text, codes, split_dots, trim_space, trim_dots, to_lower}
use dnsblockchain.Go.Text.Normal.{normal_name, normal_tld}
use dnsblockchain.Samples.{coins, sample, now}
use dnsblockchain.Sdk.{ok, err, Ensures, ◌>>=◌, already_voted, duplicate_active_proposal}
use dnsblockchain.Store.{lookup, insert, remove, walk_prefix, nat_key, text_key, pair_key}
use dnsblockchain.Store.Order.{IsOrdered}
use dnsblockchain.Dns.Types.{Keeper}
use dnsblockchain.Dns.Permitted.{add_permitted_tld, is_tld_permitted, is_tld_globally_reserved}
use dnsblockchain.Dns.Tld.{is_reserved_tld, reserved_tlds}
use dnsblockchain.Dao.Types.{AddTld, MsgSubmitProposal, add_tld, Vote, yes_vote, MsgVote, passed}
use dnsblockchain.Dao.External.{dec_one}
use dnsblockchain.Dao.Store.{DaoChain, set_proposal, get_params, get_next_proposal_id}
use dnsblockchain.Dao.Power.{calculate_voter_power, lots_power, lot_power, decayed_power}
use dnsblockchain.Dao.Vote.{vote, get_proposal, set_vote, has_voted}
use dnsblockchain.Dao.Tally.{
  Tally, tally_of, tally_votes, count_vote, has_quorum, quorum_ratio, passes_threshold, yes_ratio,
  verdict, tallied,
}
use dnsblockchain.Dao.Execute.{execute_proposal, execute_content, execute_add_tld}
use dnsblockchain.Dao.EndBlock.{
  due_proposals, settle, burn_deposit, refund_deposit, process_proposal, process_proposals,
  end_blocker,
}
use dnsblockchain.Dao.Ballot.{Cast, vote_effect, vote_stands, vote_once}
use dnsblockchain.Dao.Closing.{IsKeyed}
use dnsblockchain.Dao.Frame.{SameBooks, settle-Keeps}
use dnsblockchain.Dao.Loop.{Block, end_blocker_effect}
use dnsblockchain.Dao.Counts.{has_quorum-bounds, passes_threshold-bounds}
use dnsblockchain.Dao.Decay.{decayed_power-bounds, decayed_power-grows}
use dnsblockchain.Dao.Content.{validate_add_tld, matches_tld, matches_tail, validate_content}
use dnsblockchain.Dao.Submit.{
  submit_proposal, required_deposit, pay_deposit, store_proposal, has_duplicate, is_duplicate,
  new_proposal,
}
use dnsblockchain.Dao.Opening.{Submitted, submit_proposal_effect}
use dnsblockchain.Dao.Agreement.{accepted_tld-permitted}
use dnsblockchain.Dao.Params.{
  DaoGenesis, default_params, validate_percent, validate_price, validate_reward,
  validate_dao_params, init_dao_genesis, export_dao_genesis,
}
use dnsblockchain.Dao.Genesis.{init_dao_genesis-export, verdict-unanimous}
use dnsblockchain.Dao.Reach.{DaoStep, DaoReach, IsBook, DaoReach-IsBook}
use dnsblockchain.Dao.Samples.{
  sample_codec, sample_decimals, sample_decimals-IsDecimals, dns_registry, dao_params,
  proposal_until,
}

unfoldable pub program : Unit {0}
unfolding end_blocker process_proposals process_proposal settle burn_deposit refund_deposit
    due_proposals execute_proposal execute_content execute_add_tld tallied verdict passes_threshold
    yes_ratio has_quorum quorum_ratio tally_of tally_votes count_vote vote get_proposal set_vote
    has_voted calculate_voter_power lots_power lot_power decayed_power ◌>>=◌ lookup insert remove
    walk_prefix ◌+ℤ◌ ◌-ℤ◌ ◌*ℤ◌ set_proposal get_params add_permitted_tld is_tld_permitted
    is_tld_globally_reserved is_reserved_tld reserved_tlds split_dots trim_space trim_dots to_lower
    normal_name normal_tld validate_add_tld matches_tld matches_tail submit_proposal
    required_deposit pay_deposit store_proposal has_duplicate is_duplicate new_proposal
    validate_content get_next_proposal_id
program = tt

abbrev pub alice : Text
alice = codes "alice"

abbrev pub registry : Keeper
registry = record {
  params = none;
  domain_seq = 0;
  domain = [];
  domain_name = [];
  permitted_tlds = [];
}

-- A proposal to permit "moon", open until the block 101; the bank holds 60 udns for every account.
abbrev pub chain : DaoChain Keeper ℕ
chain = record {
  keeper = record {
    params = some dao_params;
    proposal_seq = 8;
    proposals = (7, proposal_until 101) ∷ [];
    votes = [];
    active_proposal_queue = [];
    voter_power_lots = [];
  };
  registry = registry;
  bank = 60;
  events = [];
}

abbrev pub yes : MsgVote
yes = record { proposal_id = 7; voter = alice; option = yes_vote }

abbrev pub voted : DaoChain Keeper ℕ
voted = (vote sample_decimals sample now yes chain).1

-- The vote is cast; at the block 102 the proposal is executed.
life-run :
    ((vote sample_decimals sample now yes chain).0 ≡ ok tt)
    × ((vote sample_decimals sample now yes voted).0 ≡ err already_voted)
    × (tally_of 7 voted.keeper
        ≡ record { yes = pos 60; no = pos 0; abstained = pos 0; voted = pos 60 })
    × ((end_blocker sample_codec sample_decimals dns_registry sample
          (record { height = 102; time = 0 })
          voted).1.registry.permitted_tlds
        ≡ (codes "moon", tt) ∷ [])
unfolding program
life-run = (refl, refl, refl, refl)

pub params_set : voted.keeper.params ≡ some dao_params
unfolding program
params_set = refl

pub voted-IsOrdered : IsOrdered voted.keeper.proposals
unfolding program
voted-IsOrdered = (tt, tt)

pub voted-IsKeyed : IsKeyed voted.keeper.proposals
unfolding program
voted-IsKeyed = (refl, tt)

cast : (vote sample_decimals sample now yes chain).0 ≡ ok tt
unfolding program
cast = refl

end_blocker_effect_example :
    let t =
      end_blocker sample_codec sample_decimals dns_registry sample
        (record { height = 102; time = 0 })
        voted in
    (t.0 ≡ ok tt)
    × ((i : ℕ) → Block sample_codec sample_decimals dns_registry sample 102 voted t.1 i)
end_blocker_effect_example =
    end_blocker_effect sample_codec sample_decimals dns_registry sample
      (record { height = 102; time = 0 }) dao_params voted params_set voted-IsOrdered voted-IsKeyed

vote_once_example : (vote sample_decimals sample now yes voted).0 ≢ ok tt
vote_once_example = vote_once sample_decimals sample now now yes yes chain refl cast refl refl

vote_effect_example :
    Ensures
      (λ _ t. Cast sample_decimals sample now yes chain t)
      (λ t. t ≡ chain)
      (vote sample_decimals sample now yes chain)
vote_effect_example = vote_effect sample_decimals sample now yes chain

abbrev alice_vote : Vote
alice_vote = record { proposal_id = 7; voter = alice; option = yes_vote; voting_power = pos 60 }

alice_stands : lookup (7, alice) voted.keeper.votes ≡ some alice_vote
unfolding program
alice_stands = refl

alice_named : alice_vote.voter ≢ []
alice_named e = cc

pub defaults_valid : validate_dao_params sample default_params ≡ ok tt
unfolding validate_dao_params validate_percent validate_price validate_reward
defaults_valid = refl

-- A quorum above one is refused, and the default parameters are set instead.
abbrev too_much : DaoGenesis
too_much = record { params = record dao_params { quorum_percent = pos (2 * dec_one) } }

init_dao_genesis-run :
    export_dao_genesis false (init_dao_genesis sample too_much chain.keeper)
    ≡ ok (record { params = default_params })
unfolding init_dao_genesis export_dao_genesis validate_dao_params validate_percent validate_price
    validate_reward
init_dao_genesis-run = refl

abbrev pub closed_chain : DaoChain Keeper ℕ
closed_chain =
    (end_blocker sample_codec sample_decimals dns_registry sample
      (record { height = 102; time = 0 }) voted).1

abbrev pub vote_and_end :
    DaoReach sample_codec sample_decimals dns_registry sample chain closed_chain
vote_and_end =
    DaoReach.then_step (DaoReach.then_step DaoReach.start (DaoStep.voting now yes refl))
      (DaoStep.ending (record { height = 102; time = 0 }) refl)

pub chain-IsBook : IsBook chain.keeper
chain-IsBook = ((tt, tt), (refl, tt))
