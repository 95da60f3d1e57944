-- ===== src/Dns/Tests/Names.antt =====
-- The registry of names, its query and the stateless checks at concrete inputs.
use mathlib.Core.Path.{subst}
use dnsblockchain.Dns.Index.Handlers.{Reach-IsIndexed}
use dnsblockchain.Prelude.{◌≡◌, ◌≢◌, refl, true, false, none, some, [], ◌∷◌, arith, inr}
use dnsblockchain.Samples.{sample, now, coins}
use dnsblockchain.Go.Net.{parse_ip}
use dnsblockchain.Go.Text.{Text, codes, split_dots, trim_dots, trim_space, to_lower}
use dnsblockchain.Go.Text.Normal.{normal_name, normal_tld}
use dnsblockchain.Go.Time.{add_year}
use dnsblockchain.Sdk.{Context, ok, ◌>>=◌}
use dnsblockchain.Store.{lookup, insert, remove, text_key, nat_key}
use dnsblockchain.Dns.Permitted.{is_tld_permitted}
use dnsblockchain.Dns.Msg.{
  check_ns_record, check_ns_records, get_params, tld_of_parts, next_domain_id, set_domain,
  set_domain_name, charge_fee, check_domain, store_domain, create_domain, get_domain,
  remove_domain_name, remove_domain, is_address, updated_domain, check_creator_update,
  check_owner_update, update_domain, delete_domain,
}
use dnsblockchain.Dns.Index.Changes.{IsIndexed}
use dnsblockchain.Dns.Index.Steps.{Step, Reach}
use dnsblockchain.Dns.Samples.{
  alice, keeper, chain, ask, site, with_site, full_chain, drop_site, keeper-IsIndexed,
}
use dnsblockchain.Dns.Effects.Create.{requested, IsAccepted}
use dnsblockchain.Dns.Effects.Success.{create_domain_succeeds}
use dnsblockchain.Dns.Registry.{names, Registrar}
use dnsblockchain.Dns.Registry.Refines.{Step-Registrar}
use dnsblockchain.Dns.Query.{
  get_domain_by_name, found_id, found_domain, not_registered, list_permitted_tlds,
}
use dnsblockchain.Dns.Query.Names.{
  get_domain_by_name-create_domain, get_domain_by_name-delete_domain,
}
use dnsblockchain.Dns.Basic.{validate_create_domain}
use dnsblockchain.Dns.Basic.Weaker.{validate_create_domain-weaker}

program : Unit {0}
unfolding parse_ip split_dots trim_dots trim_space to_lower normal_name normal_tld add_year ◌>>=◌
    lookup insert remove is_tld_permitted check_ns_record check_ns_records get_params tld_of_parts
    next_domain_id set_domain set_domain_name charge_fee check_domain store_domain create_domain
    get_domain remove_domain_name remove_domain is_address updated_domain check_creator_update
    check_owner_update update_domain delete_domain get_domain_by_name found_id found_domain
program = tt

Step-Registrar_example :
    Registrar alice (names keeper) (names (create_domain sample now ask chain).1.keeper)
Step-Registrar_example =
    Step-Registrar sample chain (create_domain sample now ask chain).1 (Step.create now ask refl)
      keeper-IsIndexed

abbrev shouted : Text
shouted = codes "SITE.web3"

shouted_some : shouted ≢ []
shouted_some e = cc

abbrev next_week : Context
next_week = record { height = 5000; time = 1700604800 }

created_ok : (create_domain sample now ask chain).0 ≡ ok 0
unfolding program
created_ok = refl

same_name : normal_name sample.lower shouted ≡ normal_name sample.lower ask.name
unfolding program
same_name = refl

get_domain_by_name-create_domain_example :
    get_domain_by_name sample.lower next_week
      (some (record { name = shouted }))
      (create_domain sample now ask chain).1.keeper
    ≡ ok (record { domain = requested sample.lower now ask 0; found = true; expired = false })
get_domain_by_name-create_domain_example =
    get_domain_by_name-create_domain sample now next_week ask chain 0 shouted keeper-IsIndexed
      created_ok shouted_some same_name (omega arith)

-- The site once more, as the handler stores it.
pub stored_site : (create_domain sample now ask chain).1.keeper ≡ with_site
unfolding program
stored_site = refl

with_site-IsIndexed : IsIndexed with_site
with_site-IsIndexed =
    subst IsIndexed stored_site
      (Reach-IsIndexed sample chain (Reach.next Reach.here (Step.create now ask refl))
        keeper-IsIndexed (omega arith)).0

dropped_ok : (delete_domain sample drop_site full_chain).0 ≡ ok tt
unfolding program
dropped_ok = refl

there : lookup 0 with_site.domain ≡ some site
unfolding program
there = refl

site_name : normal_name sample.lower shouted ≡ site.name
unfolding program
site_name = refl

get_domain_by_name-delete_domain_example :
    get_domain_by_name sample.lower next_week
      (some (record { name = shouted }))
      (delete_domain sample drop_site full_chain).1.keeper
    ≡ ok not_registered
get_domain_by_name-delete_domain_example =
    get_domain_by_name-delete_domain sample next_week drop_site full_chain site shouted
      with_site-IsIndexed there dropped_ok shouted_some site_name

known : (t : Text) → sample.address t ≢ none → sample.bech32 t ≢ none
known t h = h

validate_create_domain-weaker_example : validate_create_domain sample ask ≡ ok tt
validate_create_domain-weaker_example =
    validate_create_domain-weaker sample known now ask chain 0 created_ok

web3_listed : list_permitted_tlds (some tt) with_site ≡ ok (codes "web3" ∷ [])
unfolding list_permitted_tlds
web3_listed = refl

web3-IsAccepted : IsAccepted sample ask keeper
unfolding program
web3-IsAccepted = record {
  tld = codes "web3";
  two_labels = refl;
  permitted = refl;
  free = refl;
  records = refl;
  some_record = λ e. cc;
}

create_domain_succeeds_example : (create_domain sample now ask chain).0 ≡ ok 0
create_domain_succeeds_example =
    create_domain_succeeds sample now ask chain alice (record { domain_creation_fee = coins 20 }) 30
      refl (λ e. cc) refl (inr (refl, (30, refl, refl))) web3-IsAccepted
