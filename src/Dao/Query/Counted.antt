-- ===== src/Dao/Query/Counted.antt =====
-- The tally that the query of a closed proposal gives, and the votes that the query of votes gives.
use dnsblockchain.Prelude.{
  ℕ, ◌*◌, ◌≤◌, ◌<◌, ◌^◌, ◌≡◌, ap, sym, ◌∙◌, true, some, length, List, arith,
}
use dnsblockchain.Sdk.{Platform, Context, ok}
use dnsblockchain.Store.{nat_key, lookup, walk_prefix}
use dnsblockchain.Store.Order.{All-lookup}
use dnsblockchain.Dao.Types.{Proposal, Vote, DaoParams}
use dnsblockchain.Dao.External.{Codec, Decimals, TldRegistry}
use dnsblockchain.Dao.Store.{DaoChain}
use dnsblockchain.Dao.EndBlock.{end_blocker}
use dnsblockchain.Dao.Tally.{tally_of}
use dnsblockchain.Dao.Counts.{tally_of-sums, power_for, is_yes, is_no, is_abstain}
use dnsblockchain.Dao.Loop.{is_due, end_blocker_effect}
use dnsblockchain.Dao.Reach.{IsBook}
use dnsblockchain.Dao.Query.{query_tally_result, TallyResult, DaoKeeper}
use dnsblockchain.Dao.Query.Paged.{read_votes, read_votes-all}

-- The sums of votes, as a result of a tally.
abbrev pub counted_votes : List Vote → TallyResult
counted_votes vs = record {
  yes_count = power_for is_yes vs;
  abstain_count = power_for is_abstain vs;
  no_count = power_for is_no vs;
}

abbrev tally_in : Proposal → TallyResult
tally_in q = record {
  yes_count = q.yes_votes;
  abstain_count = q.abstain_votes;
  no_count = q.no_votes;
}

query_tally_result-found :
    (i : ℕ) (q : Proposal) (k : DaoKeeper)
    → lookup i k.proposals ≡ some q
    → query_tally_result (some (record { proposal_id = i })) k ≡ ok (tally_in q)
unfolding query_tally_result
query_tally_result-found i q k e = ground arith

result_eq :
    (q : Proposal) (t : TallyResult)
    → q.yes_votes ≡ t.yes_count
    → q.no_votes ≡ t.no_count
    → q.abstain_votes ≡ t.abstain_count
    → tally_in q ≡ t
result_eq q t y n a = cc

module _ (codec : Codec) (d : Decimals) (g : TldRegistry) (p : Platform) where
  open g use {Registry}
  open p use {Bank}

  -- After the end of a block that closes a proposal, TallyResult gives, for each of the three
  -- options, the sum of the voting powers of the votes that Votes returned before it over enough
  -- pages of any positive limit. The parameters are set, the proposals are in key order under their
  -- ids, and the pages end below 2^63.
  pub query_tally_result-end_blocker :
      (ctx : Context) (params : DaoParams) (s : DaoChain Registry Bank) (i : ℕ) (q : Proposal)
      (default_limit n limit : ℕ)
      → s.keeper.params ≡ some params
      → IsBook s.keeper
      → lookup i s.keeper.proposals ≡ some q
      → is_due ctx.height q ≡ true
      → 0 < limit
      → length (walk_prefix i s.keeper.votes) ≤ n * limit
      → n * limit < 2 ^ 63
      → query_tally_result
          (some (record { proposal_id = i }))
          (end_blocker codec d g p ctx s).1.keeper
        ≡ ok (counted_votes (read_votes default_limit n limit 0 i s.keeper))
  query_tally_result-end_blocker ctx params s i q default_limit n limit set book there due
        some_limit enough small =
      let keyed : q.id ≡ i = All-lookup (λ e. e.1.id ≡ e.0) i q s.keeper.proposals book.1 there in
      let block = (end_blocker_effect codec d g p ctx params s set book.0 book.1).1 i in
      let (q', stored, c) = block.over q there due in
      let sums : tally_of q.id s.keeper ≡ _ =
        ap (λ j. tally_of j s.keeper) keyed ∙ tally_of-sums i s.keeper in
      query_tally_result-found i q' (end_blocker codec d g p ctx s).1.keeper
        (ap (λ j. lookup j (end_blocker codec d g p ctx s).1.keeper.proposals) (sym keyed) ∙ stored)
      ∙ ap ok (
          result_eq q' (counted_votes (walk_prefix i s.keeper.votes))
            (c.yes_counted ∙ ap (λ t. t.yes) sums) (c.no_counted ∙ ap (λ t. t.no) sums)
            (c.abstain_counted ∙ ap (λ t. t.abstained) sums))
      ∙ ap (λ vs. ok (counted_votes vs))
          (sym (read_votes-all default_limit n limit i s.keeper some_limit enough small))
