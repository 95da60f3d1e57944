-- ===== src/Dns/Samples.antt =====
-- A keeper with a permitted TLD, a domain and messages, for the tests of x/dnsblockchain.
use dnsblockchain.Prelude.{ℕ, some, [], ◌∷◌}
use dnsblockchain.Samples.{coins}
use dnsblockchain.Go.Text.{Text, codes}
use dnsblockchain.Store.{lookup}
use dnsblockchain.Dns.Types.{NsRecord, Domain, Keeper, Chain, MsgCreateDomain, MsgDeleteDomain}
use dnsblockchain.Dns.Index.Changes.{IsIndexed}

abbrev pub alice : Text
alice = codes "alice"

abbrev pub bob : Text
bob = codes "bob"

abbrev pub ns : NsRecord
ns = record {
  name = codes "ns1.web3";
  ipv4_addresses = codes "45.55.172.134" ∷ [];
  ipv6_addresses = [];
}

abbrev pub keeper : Keeper
keeper = record {
  params = some (record { domain_creation_fee = coins 20 });
  domain_seq = 0;
  domain = [];
  domain_name = [];
  permitted_tlds = (codes "web3", tt) ∷ [];
}

abbrev pub chain : Chain ℕ
chain = record { keeper = keeper; bank = 50; events = [] }

abbrev pub ask : MsgCreateDomain
ask = record { creator = alice; name = codes "Site.WEB3."; owner = bob; ns_records = some ns ∷ [] }

abbrev pub site : Domain
site = record {
  id = 0;
  creator = alice;
  name = codes "site.web3";
  owner = bob;
  ns_records = some ns ∷ [];
  expiration = 1731622400;
}

abbrev pub with_site : Keeper
with_site = record keeper {
  domain_seq = 1;
  domain = (0, site) ∷ [];
  domain_name = (site.name, 0) ∷ [];
}

abbrev pub full_chain : Chain ℕ
full_chain = record chain { keeper = with_site }

abbrev pub drop_site : MsgDeleteDomain
drop_site = record { creator = bob; id = 0 }

pub keeper-IsIndexed : IsIndexed keeper
unfolding lookup
keeper-IsIndexed = record {
  indexed = λ i d h. cc;
  named = λ n i h. absurd (cc);
  keyed = λ i d h. cc;
  below = λ i d h. cc;
}
