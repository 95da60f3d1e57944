-- ===== src/Dns/Tests.antt =====
-- Runs of the handlers, and the theorems at concrete inputs.
pub mod Names
pub mod Stores
use dnsblockchain.Prelude.{ℕ, ◌≡◌, ◌≢◌, ◌≤◌, ◌||◌, refl, false, none, some, [], ◌∷◌, arith}
use dnsblockchain.Samples.{coins, sample, ascii, now}
use dnsblockchain.Dns.Samples.{
  alice, bob, ns, keeper, chain, ask, site, with_site, full_chain, drop_site, keeper-IsIndexed,
}
use dnsblockchain.Go.Net.{parse_ip}
use dnsblockchain.Go.Text.{Text, codes, split_dots, trim_dots, trim_space, to_lower}
use dnsblockchain.Go.Text.Normal.{normal_name, normal_tld}
use dnsblockchain.Go.Time.{add_year}
use dnsblockchain.Sdk.{
  ok, err, Ensures, ◌>>=◌, invalid_domain_name, tld_not_permitted, duplicate_domain_name,
  unauthorized, bank_error,
}
use dnsblockchain.Store.{has, lookup, insert, remove, text_key, ◌==◌}
use dnsblockchain.Dns.Tld.{reserved_tlds, is_reserved_tld, extract_tld}
use dnsblockchain.Dns.Types.{
  NsRecord, Domain, Keeper, Chain, MsgCreateDomain, MsgUpdateDomain, MsgDeleteDomain,
  MsgHeartbeatDomain, MsgTransferDomain, MsgUpdateParams,
}
use dnsblockchain.Dns.Permitted.{is_tld_permitted, add_permitted_tld}
use dnsblockchain.Dns.Tlds.{IsTld, IsClean, permitting}
use dnsblockchain.Dns.Tlds
use dnsblockchain.Dns.Msg.{
  check_ns_record, check_ns_records, get_params, tld_of_parts, next_domain_id, set_domain,
  set_domain_name, charge_fee, check_domain, store_domain, create_domain, get_domain,
  remove_domain_name, remove_domain, is_address, updated_domain, check_creator_update,
  check_owner_update, update_domain, delete_domain, heartbeat_domain, transfer_domain,
  validate_params, update_params,
}
use dnsblockchain.Dns.Effects.Create.{Created, create_domain_effect}
use dnsblockchain.Dns.Effects.Update.{Updated, update_domain_effect}
use dnsblockchain.Dns.Effects.Others.{
  Deleted, Renewed, Transferred, delete_domain_effect, heartbeat_domain_effect,
  transfer_domain_effect, update_params_effect,
}
use dnsblockchain.Dns.Index.Changes.{IsIndexed}
use dnsblockchain.Dns.Index.Steps.{Step, Reach}
use dnsblockchain.Dns.Index.Handlers.{Reach-IsIndexed}

-- Everything that a run computes with.
unfoldable pub program : Unit {0}
unfolding parse_ip split_dots trim_dots trim_space to_lower normal_name normal_tld add_year ◌>>=◌
    lookup insert remove reserved_tlds is_reserved_tld extract_tld is_tld_permitted
    add_permitted_tld check_ns_record check_ns_records get_params tld_of_parts next_domain_id
    set_domain set_domain_name charge_fee check_domain store_domain create_domain get_domain
    remove_domain_name remove_domain is_address updated_domain check_creator_update
    check_owner_update update_domain delete_domain heartbeat_domain transfer_domain validate_params
    update_params
program = tt

create_domain-run :
    ((create_domain sample now ask chain).0 ≡ ok 0)
    × ((create_domain sample now ask chain).1.keeper ≡ with_site)
    × ((create_domain sample now ask chain).1.bank ≡ 30)
unfolding program
create_domain-run = (refl, refl, refl)

-- The fee is taken before the name is looked at; a second creation of the name fails.
create_domain-refusals :
    ((create_domain sample now (record ask { name = codes "site" }) chain).0
      ≡ err invalid_domain_name)
    × ((create_domain sample now (record ask { name = codes "a.b.web3" }) chain).0
        ≡ err invalid_domain_name)
    × ((create_domain sample now (record ask { name = codes "site.zzz" }) chain).0
        ≡ err tld_not_permitted)
    × ((create_domain sample now ask (record chain { keeper = with_site })).0
        ≡ err duplicate_domain_name)
    × ((create_domain sample now ask (record chain { bank = 3 })).0 ≡ err (bank_error 5))
unfolding program
create_domain-refusals = (refl, refl, refl, refl, refl)

-- The owner may not hand the domain on, and the creator may not delete it.
rights-run :
    ((update_domain sample
        (record { creator = bob; id = 0; owner = alice; ns_records = [] })
        (record chain { keeper = with_site })).0
      ≡ err unauthorized)
    × ((delete_domain sample
          (record { creator = alice; id = 0 })
          (record chain { keeper = with_site })).0
        ≡ err unauthorized)
    × ((delete_domain sample
          (record { creator = bob; id = 0 })
          (record chain { keeper = with_site })).1.keeper
        ≡ record keeper { domain_seq = 1 })
unfolding program
rights-run = (refl, refl, refl)

add_permitted_tld-run :
    ((add_permitted_tld sample.lower (codes " Moon ") keeper).1.permitted_tlds
      ≡ (codes "moon", tt) ∷ (codes "web3", tt) ∷ [])
    × ((add_permitted_tld sample.lower (codes "COM") keeper).1 ≡ keeper)
unfolding program
add_permitted_tld-run = (refl, refl)

extract_tld-run :
    (extract_tld sample.lower (codes "my.example.co.UK") ≡ codes "uk")
    × (extract_tld sample.lower (codes "mydomain") ≡ [])
unfolding program
extract_tld-run = (refl, refl)

two_steps :
    Reach sample chain 2
      (delete_domain sample
        (record { creator = bob; id = 0 })
        (create_domain sample now ask chain).1).1
two_steps = Reach.next (Reach.next Reach.here (Step.create now ask refl)) (Step.delete _ refl)

Reach-IsIndexed_example :
    IsIndexed
      (delete_domain sample
        (record { creator = bob; id = 0 })
        (create_domain sample now ask chain).1).1.keeper
    × ((delete_domain sample
          (record { creator = bob; id = 0 })
          (create_domain sample now ask chain).1).1.keeper.domain_seq
        ≤ 2)
Reach-IsIndexed_example = Reach-IsIndexed sample chain two_steps keeper-IsIndexed (omega arith)

create_domain_effect_example :
    Ensures
      (Created sample now ask chain)
      (λ t. t.keeper ≡ chain.keeper)
      (create_domain sample now ask chain)
create_domain_effect_example = create_domain_effect sample now ask chain

abbrev hand_over : MsgUpdateDomain
hand_over = record { creator = alice; id = 0; owner = alice; ns_records = [] }

update_domain_effect_example :
    Ensures
      (λ _ t. Updated sample hand_over full_chain t)
      (λ t. t ≡ full_chain)
      (update_domain sample hand_over full_chain)
update_domain_effect_example = update_domain_effect sample hand_over full_chain

delete_domain_effect_example :
    Ensures
      (λ _ t. Deleted drop_site full_chain t)
      (λ t. t ≡ full_chain)
      (delete_domain sample drop_site full_chain)
delete_domain_effect_example = delete_domain_effect sample drop_site full_chain

abbrev beat : MsgHeartbeatDomain
beat = record { creator = bob; id = 0 }

heartbeat_domain_effect_example :
    Ensures
      (λ _ t. Renewed now beat full_chain t)
      (λ t. t ≡ full_chain)
      (heartbeat_domain sample now beat full_chain)
heartbeat_domain_effect_example = heartbeat_domain_effect sample now beat full_chain

abbrev give_away : MsgTransferDomain
give_away = record { creator = alice; id = 0; new_owner = bob }

transfer_domain_effect_example :
    Ensures
      (λ _ t. Transferred give_away full_chain t × (sample.address bob ≢ none))
      (λ t. t ≡ full_chain)
      (transfer_domain sample give_away full_chain)
transfer_domain_effect_example = transfer_domain_effect sample give_away full_chain

abbrev new_fee : MsgUpdateParams
new_fee = record { authority = alice; params = record { domain_creation_fee = coins 3 } }

add_permitted_tld_effect_example :
    Ensures
      (λ _ k.
        IsTld sample.lower (normal_tld sample.lower (codes " Moon "))
        × (has (normal_tld sample.lower (codes " Moon ")) keeper.permitted_tlds ≡ false)
        × (k ≡ permitting (normal_tld sample.lower (codes " Moon ")) keeper))
      (λ k. k ≡ keeper)
      (add_permitted_tld sample.lower (codes " Moon ") keeper)
add_permitted_tld_effect_example =
    Tlds.add_permitted_tld_effect sample.lower ascii (codes " Moon ") keeper

web3_IsTld : IsTld sample.lower (codes "web3")
unfolding program
web3_IsTld = record {
  normal = refl;
  not_empty = λ e. cc;
  one_label = refl;
  long = omega arith;
  short = omega arith;
  not_reserved = refl;
}

abbrev bare : Keeper
bare = record keeper { permitted_tlds = [] }

bare-IsClean : IsClean sample.lower bare
unfolding program
bare-IsClean t h = absurd (cc)
