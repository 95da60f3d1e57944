-- ===== src/App/Tests/Runs.antt =====
-- The theorems on runs of both modules (x/dao/keeper/end_blocker.go,
-- x/dnsblockchain/keeper/msg_server_domain.go) at one run.
use dnsblockchain.Prelude.{◌≡◌, refl, none, some, [], arith, ◌⊎◌, false, inl, inr, true}
use dnsblockchain.Go.Text.{Text, codes}
use dnsblockchain.Prelude.Int.{pos}
use dnsblockchain.Sdk.{ok}
use dnsblockchain.Samples.{sample, ascii}
use dnsblockchain.Store.{nat_key, text_key, lookup}
use dnsblockchain.Dns.Genesis.{GenesisState, default_dns_params}
use dnsblockchain.Dao.{Proposal, AddTld, voting_period}
use dnsblockchain.Dao.Samples.{sample_codec, sample_decimals, dao_params}
use dnsblockchain.Dao.Params.{DaoGenesis, validate_dao_params}
use dnsblockchain.App.Voted.{Voted}
use dnsblockchain.Sdk.Json.{JsonCodec}
use dnsblockchain.Dns.Permitted.{is_tld_permitted}
use dnsblockchain.App.Delivery.{IsWinning, end_blocker-permits}
use dnsblockchain.App.Restart.{Restarts, AppReach-Restarts}
use dnsblockchain.App.Tests.{
  program, alice, new_world, later, cast, ended, last_world, story, cast_params,
}

-- Genesis states of either module as they are.
abbrev Raw : Type 0
Raw = GenesisState ⊎ DaoGenesis

abbrev dns_json : JsonCodec Raw GenesisState
dns_json = record {
  marshal_json = λ g. some (inl g);
  unmarshal_json = elim [ inl g ↦ some g | inr g ↦ none ];
}

abbrev dao_json : JsonCodec Raw DaoGenesis
dao_json = record {
  marshal_json = λ g. some (inr g);
  unmarshal_json = elim [ inl g ↦ none | inr g ↦ some g ];
}

dao_params_valid : validate_dao_params sample dao_params ≡ ok tt
unfolding program
dao_params_valid = refl

last_params : last_world.dao.registry.params ≡ some default_dns_params
unfolding program
last_params = refl

AppReach-Restarts_example :
    Restarts sample_codec sample_decimals sample ascii dns_json dao_json false dao_params last_world
AppReach-Restarts_example =
    AppReach-Restarts sample_codec sample_decimals sample ascii dns_json dao_json false
      default_dns_params dao_params new_world (λ g. (inl g, refl, refl)) (λ g. (inr g, refl, refl))
      refl refl refl story (omega arith) last_params dao_params_valid

abbrev moon_tld : AddTld
moon_tld = record { tld = codes "moon"; description = [] }

abbrev moon_proposal : Proposal
moon_proposal = record {
  id = 0;
  proposer = alice;
  title = codes "t";
  description = [];
  content = record { type_url = codes "tld"; value = codes "moon" };
  status = voting_period;
  submit_block = 100;
  voting_start_block = 100;
  voting_end_block = 150;
  yes_votes = pos 0;
  no_votes = pos 0;
  abstain_votes = pos 0;
  total_voting_power_at_snapshot = pos 29999991;
}

moon_stored : lookup 0 cast.keeper.proposals ≡ some moon_proposal
unfolding program
moon_stored = refl

moon_wins : IsWinning sample_codec sample_decimals sample dao_params moon_tld moon_proposal cast
unfolding program
moon_wins = record { content = refl; valid = refl; free = refl; wins = refl }

end_blocker-permits_example : is_tld_permitted sample.lower (codes "moon") ended.registry ≡ true
end_blocker-permits_example =
    end_blocker-permits sample_codec sample_decimals sample later dao_params moon_tld 0
      moon_proposal cast cast_params moon_stored refl moon_wins
