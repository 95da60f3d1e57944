-- ===== src/App/Tests.antt =====
-- A run of the chain with both modules (x/dao/keeper/msg_server.go, x/dao/keeper/end_blocker.go,
-- x/dnsblockchain/keeper/msg_server_domain.go), and instances of the theorems on runs.
pub mod Export
pub mod Runs
use dnsblockchain.Prelude.{
  ℕ, ◌≡◌, ◌+◌, ◌<◌, refl, none, some, [], ◌∷◌, arith, ◌⊎◌, false, inl, inr, true,
}
use dnsblockchain.Go.Text.{Text, codes, split_dots}
use dnsblockchain.Go.Text.Normal.{normal_tld}
use dnsblockchain.Prelude.Int.{pos}
use dnsblockchain.Sdk.{Context, ok}
use dnsblockchain.Samples.{sample, ascii, now}
use dnsblockchain.Store.{nat_key, text_key}
use dnsblockchain.Dns.Types.{Domain, Keeper, Chain, MsgCreateDomain}
use dnsblockchain.Dns.Msg.{tld_of_parts, create_domain}
use dnsblockchain.Dns.Index.Steps.{Step}
use dnsblockchain.Dns.Genesis.{
  GenesisState, init_genesis, default_dns_genesis, default_dns_params, no_stores, load_domains,
  load_tlds,
}
use dnsblockchain.Dns.Tests.{program as dns_program}
use dnsblockchain.Dao.{
  MsgSubmitProposal, MsgVote, yes_vote, DaoChain, Proposal, AddTld, voting_period,
}
use dnsblockchain.Dao.Submit.{submit_proposal}
use dnsblockchain.Dao.Vote.{vote}
use dnsblockchain.Dao.EndBlock.{end_blocker}
use dnsblockchain.Dao.Reach.{DaoStep, IsBook}
use dnsblockchain.Dao.Samples.{sample_codec, sample_decimals, dns_registry, dao_params}
use dnsblockchain.Dao.Params.{
  DaoGenesis, validate_dao_params, validate_percent, validate_price, validate_reward,
}
use dnsblockchain.Dao.Tests.{program as dao_program}
use dnsblockchain.App.{World, dns_part, with_dns, AppStep, AppReach}
use dnsblockchain.App.Voted.{Voted}
use dnsblockchain.App.Runs.{IsCoherent, AppReach-IsCoherent}
use dnsblockchain.Sdk.Json.{JsonCodec}
use dnsblockchain.Dns.Permitted.{is_tld_permitted}
use dnsblockchain.App.Delivery.{IsWinning, end_blocker-permits}
use dnsblockchain.App.Restart.{Restarts, AppReach-Restarts}
use dnsblockchain.App.Registered.{new_chain-IsCoherent}

-- Everything that the run computes with.
unfoldable program : Unit {0}
unfolding dns_program dao_program init_genesis load_domains load_tlds validate_dao_params
    validate_percent validate_price validate_reward
program = tt

abbrev alice : Text
alice = codes "alice"

-- A new chain: the default genesis state, no proposals, and 30 dns in the bank.
abbrev new_world : World ℕ
new_world = record {
  dao = record {
    keeper = record {
      params = some dao_params;
      proposal_seq = 0;
      proposals = [];
      votes = [];
      active_proposal_queue = [];
      voter_power_lots = [];
    };
    registry = init_genesis sample.lower default_dns_genesis no_stores;
    bank = 30000000;
    events = [];
  };
  dns_events = [];
}

abbrev moon : MsgSubmitProposal
moon = record {
  proposer = alice;
  title = codes "t";
  description = [];
  initial_deposit = [];
  content = some (record { type_url = codes "tld"; value = codes "moon" });
}

abbrev aye : MsgVote
aye = record { proposal_id = 0; voter = alice; option = yes_vote }

abbrev later : Context
later = record { height = 152; time = 1700001000 }

abbrev base : MsgCreateDomain
base = record {
  creator = alice;
  name = codes "base.moon";
  owner = alice;
  ns_records =
      some (record {
        name = codes "ns1.moon";
        ipv4_addresses = codes "45.55.172.134" ∷ [];
        ipv6_addresses = [];
      })
      ∷ [];
}

abbrev proposed : DaoChain Keeper ℕ
proposed = (submit_proposal sample_codec dns_registry sample now moon new_world.dao).1

abbrev cast : DaoChain Keeper ℕ
cast = (vote sample_decimals sample now aye proposed).1

abbrev ended : DaoChain Keeper ℕ
ended = (end_blocker sample_codec sample_decimals dns_registry sample later cast).1

abbrev ended_world : World ℕ
ended_world = record { dao = ended; dns_events = [] }

abbrev last_chain : Chain ℕ
last_chain = (create_domain sample later base (dns_part ended_world)).1

abbrev last_world : World ℕ
last_world = with_dns last_chain ended_world

-- A TLD is proposed, voted for and executed, and a domain is created under it.
abbrev story : AppReach sample_codec sample_decimals sample new_world 4 last_world
story =
    AppReach.one_more
      (AppReach.one_more
        (AppReach.one_more
          (AppReach.one_more AppReach.at_start
            (AppStep.dao_step proposed (DaoStep.submitting now moon refl) refl))
          (AppStep.dao_step cast (DaoStep.voting now aye refl) refl))
        (AppStep.dao_step ended (DaoStep.ending later refl) refl))
      (AppStep.dns_message last_chain (Step.create later base refl) tt refl)

abbrev stored_base : Domain
stored_base = record {
  id = 0;
  creator = alice;
  name = codes "base.moon";
  owner = alice;
  ns_records = base.ns_records;
  expiration = 1731623400;
}

story-run :
    (last_world.dao.registry.permitted_tlds ≡ (codes "moon", tt) ∷ [])
    × (last_world.dao.bank ≡ 10000000)
unfolding program
story-run = (refl, refl)

cast_params : cast.keeper.params ≡ some dao_params
unfolding program
cast_params = refl

cast-IsBook : IsBook cast.keeper
unfolding program
cast-IsBook = ((tt, tt), (refl, tt))
