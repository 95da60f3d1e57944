-- ===== src/Dns/Tests/Stores.antt =====
-- The genesis state of x/dnsblockchain at concrete inputs.
use mathlib.Core.Path.{subst}
use dnsblockchain.Prelude.{◌≡◌, refl, false, [], ◌∷◌, arith, ℕ, some}
use dnsblockchain.Samples.{sample, now, ascii, coins}
use dnsblockchain.Sdk.{ok}
use dnsblockchain.Go.Text.{codes, trim_dots, trim_space, to_lower, split_dots}
use dnsblockchain.Go.Text.Normal.{normal_name, normal_tld}
use dnsblockchain.Store.{insert, lookup, text_key, nat_key}
use dnsblockchain.Dns.Permitted.{is_tld_permitted, add_permitted_tld}
use dnsblockchain.Dns.Tld.{is_reserved_tld, extract_tld, reserved_tlds}
use dnsblockchain.Dns.Tests.Names.{stored_site}
use dnsblockchain.Dns.Types.{Chain, Params, Keeper}
use dnsblockchain.Dns.Msg.{create_domain, validate_params}
use dnsblockchain.Dns.Index.Steps.{Step, Reach}
use dnsblockchain.Dns.Samples.{with_site, site, keeper, chain, ask, keeper-IsIndexed}
use dnsblockchain.Dns.Genesis.{
  GenesisState, validate_ids, validate_tlds, load_domains, load_domain, index_domain, load_tlds,
  init_genesis, export_genesis, no_stores, validate_genesis, default_dns_params,
  default_dns_genesis,
}
use dnsblockchain.Dns.Genesis.Restore.{IsSound, IsTidy, exported, init_genesis-export}
use dnsblockchain.Dns.Genesis.Sound.{Reach-IsSound}
use dnsblockchain.Dns.Genesis.Valid.{validate_genesis-export_genesis}

keeper-IsTidy : IsTidy sample.lower keeper
unfolding normal_name normal_tld trim_dots trim_space to_lower split_dots
keeper-IsTidy = record {
  domains_ordered = tt;
  names_ordered = tt;
  tlds_ordered = (tt, tt);
  domains_named = tt;
  tlds_named = (record { normal = refl; not_empty = λ e. cc }, tt);
}

keeper-IsSound : IsSound sample.lower keeper
keeper-IsSound = record { indexed = keeper-IsIndexed; tidy = keeper-IsTidy }

abbrev after_creation : Keeper
after_creation = (create_domain sample now ask chain).1.keeper

abbrev fee : Params
fee = record { domain_creation_fee = coins 20 }

with_site-IsSound : IsSound sample.lower with_site
with_site-IsSound = subst (IsSound sample.lower) stored_site (
    Reach-IsSound sample ascii chain (Reach.next Reach.here (Step.create now ask refl))
      keeper-IsSound (omega arith))

init_genesis-export_example :
    (export_genesis with_site ≡ ok (exported fee with_site))
    × (init_genesis sample.lower (exported fee with_site) no_stores ≡ with_site)
init_genesis-export_example = init_genesis-export sample.lower fee with_site with_site-IsSound refl

fee_valid : validate_params sample fee ≡ ok tt
unfolding validate_params
fee_valid = refl

validate_genesis-export_genesis_example :
    (g : GenesisState) × (export_genesis with_site ≡ ok g) × (validate_genesis sample g ≡ ok tt)
validate_genesis-export_genesis_example =
    validate_genesis-export_genesis sample fee with_site with_site-IsSound refl fee_valid

-- A genesis state that names a domain twice is valid, and the index of names then leads to the last
-- one alone.
abbrev twice : GenesisState
twice = record (exported fee with_site) {
  domain_list = site ∷ record site { id = 1; name = codes "Site.web3" } ∷ [];
  domain_count = 2;
}

twice-run :
    (validate_genesis sample twice ≡ ok tt)
    × ((init_genesis sample.lower twice no_stores).domain_name ≡ (site.name, 1) ∷ [])
unfolding validate_genesis validate_ids validate_tlds validate_params init_genesis load_domains
    load_domain index_domain load_tlds insert normal_name trim_dots to_lower
twice-run = (refl, refl)

-- A permitted TLD with a space around it is stored as it is, and is not permitted.
abbrev spaced : GenesisState
spaced = record (exported fee with_site) { permitted_tlds = codes " moon" ∷ [] }

spaced-run :
    is_tld_permitted sample.lower (codes " moon") (init_genesis sample.lower spaced no_stores)
    ≡ false
unfolding init_genesis load_domains load_domain index_domain load_tlds insert normal_name trim_dots
    to_lower is_tld_permitted normal_tld trim_space lookup
spaced-run = refl

-- A chain from its default genesis state to its first permitted TLD.
abbrev first_chain : Chain ℕ
first_chain = record {
  keeper = init_genesis sample.lower default_dns_genesis no_stores;
  bank = 50;
  events = [];
}

abbrev open_chain : Chain ℕ
open_chain = record first_chain {
  keeper = (add_permitted_tld sample.lower (codes "web3") first_chain.keeper).1;
}

first_step : Reach sample first_chain 1 open_chain
first_step = Reach.next Reach.here (Step.permit (codes "web3") refl)

still_default : open_chain.keeper.params ≡ some default_dns_params
unfolding init_genesis load_domains load_tlds add_permitted_tld is_reserved_tld extract_tld
    reserved_tlds normal_tld trim_space to_lower lookup insert
still_default = refl
