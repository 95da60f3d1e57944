-- ===== src/Dns/Effects/Others.antt =====
-- `DeleteDomain`, `HeartbeatDomain`, `TransferDomain` and `UpdateParams`.
use dnsblockchain.Prelude.{◌+◌, ◌*◌, ◌≤◌, ◌≡◌, ◌≢◌, refl, sym, none, some, ◌⊎◌, arith}
use dnsblockchain.Go.Time.{add_year, add_year_bounds, day_seconds}
use dnsblockchain.Sdk.{
  Platform, Address, Context, ok, Ensures, succeeds, after_fail_if, after_or_fail, after_lift,
  after_modify,
}
use dnsblockchain.Store.{nat_key, text_key, lookup}
use dnsblockchain.Dns.Types.{
  Domain, Chain, MsgDeleteDomain, MsgHeartbeatDomain, MsgTransferDomain, MsgUpdateParams,
}
use dnsblockchain.Dns.Msg.{
  set_domain, remove_domain, remove_domain_name, delete_domain, heartbeat_domain, transfer_domain,
  validate_params, update_params,
}
use dnsblockchain.Dns.Index.Changes.{replaced, dropped}
use dnsblockchain.Dns.Effects.Rules.{after_get_domain, one_of_two, same_text}

module _ {B : Type 0} where
  -- The chain after a deletion: the owner's, and of the domain and its name alone.
  pub record Deleted (msg : MsgDeleteDomain) (s s' : Chain B) : Type 0 where
    pub old : Domain
    pub found : lookup msg.id s.keeper.domain ≡ some old
    pub rights : msg.creator ≡ old.owner
    pub written : s'.keeper ≡ dropped msg.id old.name s.keeper
    pub bank : s'.bank ≡ s.bank

  -- The chain after a heartbeat: the domain expires a year after the block.
  pub record Renewed (ctx : Context) (msg : MsgHeartbeatDomain) (s s' : Chain B) : Type 0 where
    pub old : Domain
    pub found : lookup msg.id s.keeper.domain ≡ some old
    pub rights : (msg.creator ≡ old.creator) ⊎ (msg.creator ≡ old.owner)
    pub written :
        s'.keeper ≡ replaced msg.id (record old { expiration = add_year ctx.time }) s.keeper
    pub later : ctx.time + 365 * day_seconds ≤ add_year ctx.time
    pub bank : s'.bank ≡ s.bank

  -- The chain after a transfer: the creator hands over both roles.
  pub record Transferred (msg : MsgTransferDomain) (s s' : Chain B) : Type 0 where
    pub old : Domain
    pub found : lookup msg.id s.keeper.domain ≡ some old
    pub rights : msg.creator ≡ old.creator
    pub written :
        s'.keeper
        ≡ replaced msg.id (record old { creator = msg.new_owner; owner = msg.new_owner }) s.keeper
    pub bank : s'.bank ≡ s.bank

module _ (p : Platform) where
  open p use {address, Bank}

  -- DeleteDomain succeeds only for the owner of a stored domain, removes this domain and the index
  -- entry under its name, and leaves the rest of the stores and the bank alone. If it fails, the
  -- chain is as it was.
  pub delete_domain_effect :
      (msg : MsgDeleteDomain) (s : Chain Bank)
      → Ensures (λ _ s'. Deleted msg s s') (λ s'. s' ≡ s) (delete_domain p msg s)
  unfolding delete_domain remove_domain remove_domain_name
  delete_domain_effect msg s = after_or_fail _ _ _ s refl λ a _.
      after_get_domain _ _ s refl λ old found. after_fail_if _ _ _ s refl λ denied.
        after_modify _ _ s (
          after_modify _ _ _ (
            succeeds _ _ (record {
              old = old;
              found = found;
              rights = same_text msg.creator old.owner denied;
              written = refl;
              bank = refl;
            })))

  -- HeartbeatDomain succeeds only for the creator or the owner of a stored domain, and changes only
  -- its expiration, to a year after the block time, which is at least 365 days later. If it fails,
  -- the chain is as it was.
  pub heartbeat_domain_effect :
      (ctx : Context) (msg : MsgHeartbeatDomain) (s : Chain Bank)
      → Ensures (λ _ s'. Renewed ctx msg s s') (λ s'. s' ≡ s) (heartbeat_domain p ctx msg s)
  unfolding heartbeat_domain set_domain
  heartbeat_domain_effect ctx msg s = after_or_fail _ _ _ s refl λ a _.
      after_get_domain _ _ s refl λ old found. after_fail_if _ _ _ s refl λ denied.
        after_modify _ _ s (
          succeeds _ _ (record {
            old = old;
            found = found;
            rights = one_of_two msg.creator old.creator old.owner denied;
            written = refl;
            later = (add_year_bounds ctx.time).0;
            bank = refl;
          }))

  -- TransferDomain succeeds only for the creator of a stored domain and a new owner that decodes to
  -- an address, and changes only the creator and the owner of this domain, both to the new owner.
  -- If it fails, the chain is as it was.
  pub transfer_domain_effect :
      (msg : MsgTransferDomain) (s : Chain Bank)
      → Ensures
          (λ _ s'. Transferred msg s s' × (address msg.new_owner ≢ none))
          (λ s'. s' ≡ s)
          (transfer_domain p msg s)
  unfolding transfer_domain set_domain
  transfer_domain_effect msg s = after_or_fail _ _ _ s refl λ a _.
      after_or_fail _ _ _ s refl λ a' valid. after_get_domain _ _ s refl λ old found.
        after_fail_if _ _ _ s refl λ denied. after_modify _ _ s (
          succeeds _ _ (
            record {
              old = old;
              found = found;
              rights = sym (same_text old.creator msg.creator denied);
              written = refl;
              bank = refl;
            },
            ground arith,
          ))

  -- UpdateParams succeeds only for the authority and for parameters that validate, and changes only
  -- the parameters. If it fails, the chain is as it was.
  pub update_params_effect :
      (authority : Address) (msg : MsgUpdateParams) (s : Chain Bank)
      → Ensures
          (λ _ s'.
            (address msg.authority ≡ some authority)
            × (validate_params p msg.params ≡ ok tt)
            × (s' ≡ record s { keeper = record s.keeper { params = some msg.params } }))
          (λ s'. s' ≡ s)
          (update_params p authority msg s)
  unfolding update_params
  update_params_effect authority msg s = after_or_fail _ _ _ s refl λ signer known.
      after_fail_if _ _ _ s refl λ same.
        after_lift _ _ s refl
          λ _ valid. succeeds _ _ (ground (arith, same_text authority signer same), valid, refl)
