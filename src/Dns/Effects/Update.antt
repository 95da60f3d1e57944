-- ===== src/Dns/Effects/Update.antt =====
-- `UpdateDomain`: who may change what.
use dnsblockchain.Prelude.{true, false, ◌≡◌, ◌≢◌, refl, none, some, ◌⊎◌, arith, [], if◌then◌else◌}
use dnsblockchain.Sdk.{
  Platform, Ensures, succeeds, after_fail_if, after_or_fail, after_lift, after_modify, ok,
}
use dnsblockchain.Store.{nat_key, text_key, ◌==◌, lookup}
use dnsblockchain.Dns.Types.{Domain, Chain, MsgUpdateDomain}
use dnsblockchain.Dns.Msg.{
  asks_owner, set_domain, updated_domain, check_creator_update, check_owner_update,
  check_ns_records, update_domain, is_address,
}
use dnsblockchain.Dns.Index.Changes.{replaced}
use dnsblockchain.Dns.Effects.Rules.{after_get_domain, one_of_two}

-- The new domain: id, creator, name and expiration stay; only the creator changes the owner, to
-- one that has an address, and nobody else may ask for it; the records are the message's, if it has any, and those were checked.
pub record IsUpdate (p : Platform) (msg : MsgUpdateDomain) (old new : Domain) : Type 0 where
  pub same_creator : new.creator ≡ old.creator
  pub same_name : new.name ≡ old.name
  pub same_expiration : new.expiration ≡ old.expiration
  pub owner :
      (new.owner ≡ old.owner)
      ⊎ ((new.owner ≡ msg.owner)
          × (msg.creator ≡ old.creator)
          × (p.address msg.owner ≢ none)
          × (asks_owner p msg old ≡ true))
  pub request : (msg.creator ≡ old.creator) ⊎ (asks_owner p msg old ≡ false)
  pub asked : asks_owner p msg old ≡ true → p.address msg.owner ≢ none
  pub records :
      ((msg.ns_records ≡ []) × (new.ns_records ≡ old.ns_records))
      ⊎ ((new.ns_records ≡ msg.ns_records) × (check_ns_records msg.ns_records ≡ ok tt))

-- The chain after a successful update.
pub record Updated (p : Platform) (msg : MsgUpdateDomain) (s s' : Chain p.Bank) : Type 0 where
  pub old : Domain
  pub new : Domain
  pub found : lookup msg.id s.keeper.domain ≡ some old
  pub rights : (msg.creator ≡ old.creator) ⊎ (msg.creator ≡ old.owner)
  pub change : IsUpdate p msg old new
  pub written : s'.keeper ≡ replaced msg.id new s.keeper
  pub id : new.id ≡ msg.id
  pub not_empty : (new.owner ≢ old.owner) ⊎ (msg.ns_records ≢ [])
  pub bank : s'.bank ≡ s.bank

module _ (p : Platform) where
  open p use {address, Bank}

  updated_domain-IsUpdate :
      (msg : MsgUpdateDomain) (old : Domain)
      → {u : Unit {0}}
      → (if msg.creator == old.creator
          then check_creator_update p msg old
          else check_owner_update p msg old)
        ≡ ok u
      → IsUpdate p msg old (updated_domain p msg old)
  unfolding updated_domain check_creator_update check_owner_update is_address
  updated_domain-IsUpdate msg old h = record {
    same_creator = refl;
    same_name = refl;
    same_expiration = refl;
    owner = ground (arith, text_key.beq_iff msg.creator old.creator);
    request = ground (arith, text_key.beq_iff msg.creator old.creator);
    asked = λ asks. ground (arith, text_key.beq_iff msg.creator old.creator);
    records = ground arith;
  }

  -- UpdateDomain succeeds only for the creator or the owner of a stored domain, and replaces this
  -- domain alone: its id, creator, name and expiration stay, only its creator changes the owner and
  -- only to a text that decodes to an address, a signer who is not the creator has not asked for
  -- another owner, the records are those of the message if it has any, and those are valid; a
  -- success changes the owner or is given records. If it fails, the chain is as it was.
  pub update_domain_effect :
      (msg : MsgUpdateDomain) (s : Chain Bank)
      → Ensures (λ _ s'. Updated p msg s s') (λ s'. s' ≡ s) (update_domain p msg s)
  unfolding update_domain set_domain updated_domain
  update_domain_effect msg s = after_or_fail _ _ _ s refl λ a _.
      after_get_domain _ _ s refl λ old found. after_fail_if _ _ _ s refl λ denied.
        after_lift _ _ s refl λ _ checked. after_fail_if _ _ _ s refl λ changed.
          after_modify _ _ s (
            succeeds _ _ (record {
              old = old;
              new = updated_domain p msg old;
              found = found;
              rights = one_of_two msg.creator old.creator old.owner denied;
              change = updated_domain-IsUpdate msg old checked;
              written = refl;
              id = refl;
              not_empty = ground (arith, text_key.beq_iff msg.owner old.owner);
              bank = refl;
            }))
