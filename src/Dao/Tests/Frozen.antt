-- ===== src/Dao/Tests/Frozen.antt =====
-- A frozen DAO at concrete inputs.
use dnsblockchain.Prelude.{◌*◌, ◌/◌, suc, ℕ, ◌≡◌, ◌≤◌, ◌+◌, ◌∷◌, refl, false, [], arith, ap}
use dnsblockchain.Prelude.Int.{ℤ, pos, negsuc, ◌-ℤ◌, is_zero}
use dnsblockchain.Samples.{sample}
use dnsblockchain.Sdk.{Context}
use dnsblockchain.Dao.Types.{VotingPowerLot, yes_vote, MsgVote}
use dnsblockchain.Dao.Store.{DaoChain}
use dnsblockchain.Dao.Vote.{vote}
use dnsblockchain.Dao.EndBlock.{end_blocker}
use dnsblockchain.Dao.External.{dec_one}
use dnsblockchain.Dao.Reach.{DaoReach, start, then_step, voting, ending}
use dnsblockchain.Dao.Frozen.{HasZero, IsFrozen, walk_prefix-none}
use dnsblockchain.Dao.Frozen.Runs.{DaoReach-IsFrozen}
use dnsblockchain.Dao.Samples.{sample_codec, sample_decimals, dns_registry, dao_params}
use dnsblockchain.Dao.Tests.{alice, chain, now, Keeper}

no_share_of : (s : ℤ) → is_zero s ≡ false → sample_decimals.quo (pos 0) s ≡ pos 0
unfolding ◌-ℤ◌
no_share_of (pos b) e = ap pos (ground (arith, e))
no_share_of (negsuc b) e =
    let none_of : 0 * dec_one / suc b ≡ 0 = omega arith in ap (λ n. pos 0 -ℤ pos n) none_of

sample_decimals-HasZero : HasZero sample_decimals
sample_decimals-HasZero = record { from_text_zero = refl; quo_zero = no_share_of }

abbrev old_lot : VotingPowerLot
old_lot = record {
  voter_address = alice;
  granted_by_proposal_id = 1;
  initial_amount = pos 40;
  grant_block_height = 1;
}

-- One lot, granted at block 1: it has decayed at block 1001. The proposal for "moon" is open.
abbrev late_chain : DaoChain Keeper ℕ
late_chain = record chain {
  keeper = record chain.keeper { voter_power_lots = ((alice, 1), old_lot) ∷ [] };
}

-- Alice cannot vote any more for a proposal to permit "moon" that closes then.
abbrev late : Context
late = record now { height = 1001 }

abbrev late_vote : MsgVote
late_vote = record { proposal_id = 7; voter = alice; option = yes_vote }

abbrev after_vote : DaoChain Keeper ℕ
after_vote = (vote sample_decimals sample late late_vote late_chain).1

abbrev after_block : DaoChain Keeper ℕ
after_block = (end_blocker sample_codec sample_decimals dns_registry sample late after_vote).1

abbrev late_run : DaoReach sample_codec sample_decimals dns_registry sample late_chain after_block
late_run = then_step (then_step start (voting late late_vote refl)) (ending late refl)

late_chain-IsFrozen : IsFrozen dao_params 1001 late_chain.keeper
late_chain-IsFrozen = record {
  set = refl;
  lots = refl;
  expired = (omega arith, tt);
  quiet = (λ _. walk_prefix-none 7 [] tt, tt);
  below = tt;
}

DaoReach-IsFrozen_example :
    IsFrozen dao_params 1001 after_block.keeper
    × (after_block.keeper.votes ≡ late_chain.keeper.votes)
    × (after_block.keeper.voter_power_lots ≡ late_chain.keeper.voter_power_lots)
    × (after_block.registry ≡ late_chain.registry)
    × (after_block.keeper.proposal_seq ≤ late_chain.keeper.proposal_seq + 2)
DaoReach-IsFrozen_example =
    DaoReach-IsFrozen sample_codec sample_decimals dns_registry sample dao_params
      sample_decimals-HasZero refl (omega arith) 1001 late_chain late_run late_chain-IsFrozen
      ((tt, omega arith, omega arith), omega arith, omega arith) (omega arith)
