-- ===== src/Dao/Tests/Opening.antt =====
-- Submissions of proposals at concrete inputs.
use dnsblockchain.Prelude.{◌≡◌, refl, true, some, []}
use dnsblockchain.Prelude.Int.{◌+ℤ◌, ◌-ℤ◌, ◌*ℤ◌}
use dnsblockchain.Go.Text.{codes, split_dots, trim_space, trim_dots, to_lower}
use dnsblockchain.Go.Text.Normal.{normal_name, normal_tld}
use dnsblockchain.Samples.{coins, sample, now}
use dnsblockchain.Sdk.{ok, err, Ensures, ◌>>=◌, duplicate_active_proposal}
use dnsblockchain.Store.{lookup, insert, remove, walk_prefix, nat_key, text_key, pair_key}
use dnsblockchain.Dns.Permitted.{add_permitted_tld, is_tld_permitted, is_tld_globally_reserved}
use dnsblockchain.Dns.Tld.{is_reserved_tld, reserved_tlds}
use dnsblockchain.Dao.Types.{AddTld, MsgSubmitProposal, add_tld}
use dnsblockchain.Dao.Store.{set_proposal, get_params, get_next_proposal_id}
use dnsblockchain.Dao.Power.{calculate_voter_power, lots_power, lot_power, decayed_power}
use dnsblockchain.Dao.Vote.{vote, get_proposal, set_vote, has_voted}
use dnsblockchain.Dao.Tally.{
  tally_of, tally_votes, count_vote, has_quorum, quorum_ratio, passes_threshold, yes_ratio, verdict,
  tallied,
}
use dnsblockchain.Dao.Execute.{execute_proposal, execute_content, execute_add_tld}
use dnsblockchain.Dao.EndBlock.{
  due_proposals, settle, burn_deposit, refund_deposit, process_proposal, process_proposals,
  end_blocker,
}
use dnsblockchain.Dao.Content.{validate_add_tld, matches_tld, matches_tail, validate_content}
use dnsblockchain.Dao.Submit.{
  submit_proposal, required_deposit, pay_deposit, store_proposal, has_duplicate, is_duplicate,
  new_proposal,
}
use dnsblockchain.Dao.Opening.Exact.{Opens, submit_proposal-Opens}
use dnsblockchain.Dao.Agreement.{accepted_tld-permitted}
use dnsblockchain.Dao.Samples.{sample_codec, dns_registry, dao_params}
use dnsblockchain.Dao.Tests.{alice, registry, chain}

program : Unit {0}
unfolding end_blocker process_proposals process_proposal settle burn_deposit refund_deposit
    due_proposals execute_proposal execute_content execute_add_tld tallied verdict passes_threshold
    yes_ratio has_quorum quorum_ratio tally_of tally_votes count_vote vote get_proposal set_vote
    has_voted calculate_voter_power lots_power lot_power decayed_power ◌>>=◌ lookup insert remove
    walk_prefix ◌+ℤ◌ ◌-ℤ◌ ◌*ℤ◌ set_proposal get_params add_permitted_tld is_tld_permitted
    is_tld_globally_reserved is_reserved_tld reserved_tlds split_dots trim_space trim_dots to_lower
    normal_name normal_tld validate_add_tld matches_tld matches_tail submit_proposal
    required_deposit pay_deposit store_proposal has_duplicate is_duplicate new_proposal
    validate_content get_next_proposal_id
program = tt

abbrev star : AddTld
star = record { tld = codes "Star"; description = [] }

star_valid : validate_add_tld star ≡ ok tt
unfolding program
star_valid = refl

star_due :
    required_deposit sample_codec dns_registry sample (add_tld star) dao_params registry
    ≡ ok (coins 9)
unfolding program
star_due = refl

accepted_tld-permitted_example :
    let r = execute_add_tld sample_codec dns_registry sample star chain in
    (r.0 ≡ ok tt) × (is_tld_permitted sample.lower (codes "Star") r.1.registry ≡ true)
accepted_tld-permitted_example =
    accepted_tld-permitted sample_codec sample star dao_params (coins 9) chain star_valid star_due

abbrev ask_star : MsgSubmitProposal
ask_star = record {
  proposer = alice;
  title = codes "t";
  description = [];
  initial_deposit = [];
  content = some (record { type_url = codes "tld"; value = codes "Star" });
}

-- The proposal for "moon" is open already; that for "Star" is new.
submit_proposal-run :
    ((submit_proposal sample_codec dns_registry sample now ask_star chain).0 ≡ ok 8)
    × ((submit_proposal sample_codec dns_registry sample now ask_star chain).1.bank ≡ 51)
    × ((submit_proposal sample_codec dns_registry sample now
          (record ask_star {
            content = some (record { type_url = codes "tld"; value = codes "moon" });
          })
          chain).0
        ≡ err duplicate_active_proposal)
unfolding program
submit_proposal-run = (refl, refl, refl)

submit_proposal-Opens_example :
    Ensures
      (Opens sample_codec dns_registry sample now ask_star chain)
      (λ t. (t.keeper ≡ chain.keeper) × (t.registry ≡ chain.registry))
      (submit_proposal sample_codec dns_registry sample now ask_star chain)
submit_proposal-Opens_example =
    submit_proposal-Opens sample_codec dns_registry sample now ask_star chain
