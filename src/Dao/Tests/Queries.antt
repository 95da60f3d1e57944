-- ===== src/Dao/Tests/Queries.antt =====
-- The queries of x/dao, the life of a proposal and the success of a vote at concrete inputs.
use dnsblockchain.Prelude.{
  ◌≡◌, ◌≤◌, ◌-◌, ◌*◌, ◌^◌, refl, false, none, some, [], arith, length, Option,
}
use dnsblockchain.Prelude.Int.{pos, ◌+ℤ◌, ◌-ℤ◌, ◌*ℤ◌}
use dnsblockchain.Samples.{sample, now}
use dnsblockchain.Sdk.{ok, ◌>>=◌}
use dnsblockchain.Sdk.Paging.{PageRequest}
use dnsblockchain.Store.{lookup, insert, remove, walk_prefix, nat_key, text_key, pair_key}
use dnsblockchain.Dao.Types.{Proposal, voting_period}
use dnsblockchain.Dao.Store.{get_params}
use dnsblockchain.Dao.Power.{calculate_voter_power, lots_power, lot_power, decayed_power}
use dnsblockchain.Dao.Vote.{vote, get_proposal, set_vote, has_voted}
use dnsblockchain.Dao.EndBlock.{end_blocker}
use dnsblockchain.Dao.History.{IsBelow}
use dnsblockchain.Dao.History.Lasting.{Lasts, proposal-Lasts}
use dnsblockchain.Dao.Casting.{vote_succeeds}
use dnsblockchain.Dao.Page.{page_of, clamp, slice}
use dnsblockchain.Dao.Query.{
  QueryProposalsRequest, query_proposals, query_votes, query_tally_result, filtered_proposals,
  matches, same_status, status_number,
}
use dnsblockchain.Dao.Query.Paged.{
  read_proposals, read_proposals-all, read_votes, large_limit-empty,
}
use dnsblockchain.Dao.Query.Counted.{counted_votes, query_tally_result-end_blocker}
use dnsblockchain.Dao.Distinct.{IsDistinct}
use dnsblockchain.Dao.Distinct.Runs.{DaoReach-IsDistinct}
use dnsblockchain.Dao.Samples.{
  sample_codec, sample_decimals, dns_registry, dao_params, proposal_until,
}
use dnsblockchain.Dao.Tests.{
  alice, chain, yes, voted, closed_chain, params_set, voted-IsOrdered, voted-IsKeyed, vote_and_end,
  chain-IsBook,
}

program : Unit {0}
unfolding vote get_proposal set_vote has_voted calculate_voter_power lots_power lot_power
    decayed_power ◌>>=◌ lookup insert remove walk_prefix ◌+ℤ◌ ◌-ℤ◌ ◌*ℤ◌ get_params query_proposals
    query_votes filtered_proposals matches same_status status_number page_of clamp slice
program = tt

abbrev open_ones : QueryProposalsRequest
open_ones = record { proposal_status = voting_period; voter = []; proposer = []; pagination = none }

-- With a limit that an int64 cannot hold the response is empty, and says that there is one.
unlimited-run :
    query_proposals sample 100
      (some (record open_ones {
        pagination = some (record {
          key = [];
          offset = 0;
          limit = 2 ^ 64 - 1;
          count_total = false;
          reverse = false;
        });
      }))
      chain.keeper
    ≡ ok (record { proposals = []; pagination = record { next_key = []; total = 1 } })
unfolding program
unlimited-run = refl

one_open : length (filtered_proposals sample open_ones chain.keeper.proposals) ≤ 2 * 10
unfolding program
one_open = omega arith

read_proposals-all_example :
    read_proposals sample 100 2 10 0 open_ones chain.keeper
    ≡ filtered_proposals sample open_ones chain.keeper.proposals
read_proposals-all_example =
    read_proposals-all sample 100 2 10 open_ones chain.keeper (omega arith) one_open (omega arith)

abbrev unlimited : Option PageRequest
unlimited =
    some (record { key = []; offset = 3; limit = 2 ^ 64 - 1; count_total = false; reverse = false })

large_limit-empty_example :
    (query_proposals sample 100 (some (record open_ones { pagination = unlimited })) voted.keeper
      ≡ ok (record {
        proposals = [];
        pagination = record {
          next_key = [];
          total = length (filtered_proposals sample open_ones voted.keeper.proposals);
        };
      }))
    × (query_votes 100 (some (record { proposal_id = 7; pagination = unlimited })) voted.keeper
        ≡ ok (record {
          votes = [];
          pagination = record { next_key = []; total = length (walk_prefix 7 voted.keeper.votes) };
        }))
large_limit-empty_example =
    large_limit-empty sample 100 open_ones 7 unlimited voted.keeper (omega arith) (omega arith)
      (omega arith)

still_there : lookup 7 voted.keeper.proposals ≡ some (proposal_until 101)
unfolding program
still_there = refl

one_vote : length (walk_prefix 7 voted.keeper.votes) ≤ 1 * 5
unfolding program
one_vote = omega arith

query_tally_result-end_blocker_example :
    query_tally_result
      (some (record { proposal_id = 7 }))
      (end_blocker sample_codec sample_decimals dns_registry sample
        (record { height = 102; time = 0 })
        voted).1.keeper
    ≡ ok (counted_votes (read_votes 100 1 5 0 7 voted.keeper))
query_tally_result-end_blocker_example =
    query_tally_result-end_blocker sample_codec sample_decimals dns_registry sample
      (record { height = 102; time = 0 }) dao_params voted 7 (proposal_until 101) 100 1 5 params_set
      (voted-IsOrdered, voted-IsKeyed) still_there refl (omega arith) one_vote (omega arith)

chain-IsBelow : IsBelow chain.keeper
unfolding lookup
chain-IsBelow i q h = ground (arith, nat_key.beq_iff i 7)

first_there : lookup 7 chain.keeper.proposals ≡ some (proposal_until 101)
unfolding program
first_there = refl

proposal-Lasts_example :
    (q : Proposal) × (lookup 7 closed_chain.keeper.proposals ≡ some q)
    × Lasts (proposal_until 101) q
proposal-Lasts_example =
    proposal-Lasts sample_codec sample_decimals dns_registry sample chain vote_and_end 7
      (proposal_until 101) chain-IsBook chain-IsBelow (omega arith) first_there

not_yet : has_voted 7 alice chain.keeper ≡ false
unfolding program
not_yet = refl

sixty :
    calculate_voter_power sample_decimals sample alice now.height chain.keeper chain.bank
    ≡ ok (pos 60)
unfolding program
sixty = refl

vote_succeeds_example : (vote sample_decimals sample now yes chain).0 ≡ ok tt
vote_succeeds_example =
    vote_succeeds sample_decimals sample now yes chain alice (proposal_until 101) (pos 60) refl
      first_there refl (omega arith) not_yet sixty refl

chain-IsDistinct : IsDistinct sample_codec dns_registry sample chain.keeper
unfolding lookup
chain-IsDistinct i j q r i≢j at_i at_j twins =
    i≢j (ground (arith, nat_key.beq_iff i 7, nat_key.beq_iff j 7))

DaoReach-IsDistinct_example : IsDistinct sample_codec dns_registry sample closed_chain.keeper
DaoReach-IsDistinct_example =
    DaoReach-IsDistinct sample_codec sample_decimals dns_registry sample chain vote_and_end
      chain-IsBook chain-IsDistinct
