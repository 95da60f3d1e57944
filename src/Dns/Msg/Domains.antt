-- ===== src/Dns/Msg/Domains.antt =====
-- The handlers that change or delete a domain, and `UpdateParams`.
use dnsblockchain.Prelude.{ℕ, Bool, none, some, not, ◌&&◌, ◌||◌, [], ◌∷◌, if◌then◌else◌}
use dnsblockchain.Go.Text.{Text, is_empty}
use dnsblockchain.Go.Time.{add_year}
use dnsblockchain.Sdk.{
  Platform, Address, Context, Handler, Result, ok, err, ◌>>=◌, ◌>>◌, lift, or_fail, fail_if, modify,
  check, and_then, invalid_address, key_not_found, unauthorized, invalid_request, invalid_signer,
  invalid_coins,
}
use dnsblockchain.Store.{nat_key, text_key, ◌==◌, lookup, remove}
use dnsblockchain.Dns.Types.{
  Domain, Params, Chain, Event, MsgUpdateDomain, MsgDeleteDomain, MsgHeartbeatDomain,
  MsgTransferDomain, MsgUpdateParams,
}
use dnsblockchain.Dns.Msg.Checks.{is_nil, check_ns_records}
use dnsblockchain.Dns.Msg.Create.{emit, set_domain}

-- `Domain.Get`, with the error that every handler makes of `ErrNotFound`.
unfoldable pub get_domain : {B : Type 0} → ℕ → Handler (Chain B) Domain
get_domain id s = or_fail (lookup id s.keeper.domain) key_not_found s

-- `DomainName.Remove` and `Domain.Remove`.
unfoldable pub remove_domain_name : {B : Type 0} → Text → Handler (Chain B) (Unit {0})
remove_domain_name n =
    modify
      (λ s. record s { keeper = record s.keeper { domain_name = remove n s.keeper.domain_name } })

unfoldable pub remove_domain : {B : Type 0} → ℕ → Handler (Chain B) (Unit {0})
remove_domain i =
    modify (λ s. record s { keeper = record s.keeper { domain = remove i s.keeper.domain } })

module _ (p : Platform) where
  open p use {address, coins_valid, coins_negative, Bank}

  -- `msg.Owner != "" && msg.Owner != val.Owner`.
  abbrev pub asks_owner : MsgUpdateDomain → Domain → Bool
  asks_owner msg val = not (is_empty msg.owner) && not (msg.owner == val.owner)

  -- The domain after an update by its creator, who may change the owner, or by its owner, who
  -- may not.
  unfoldable pub updated_domain : MsgUpdateDomain → Domain → Domain
  updated_domain msg val = record val {
    id = msg.id;
    owner = if msg.creator == val.creator && asks_owner msg val then msg.owner else val.owner;
    ns_records = if is_nil msg.ns_records then val.ns_records else msg.ns_records;
  }

  unfoldable pub is_address : Text → Result (Unit {0})
  is_address t = elim (address t) [ none ↦ err invalid_address | some _ ↦ ok tt ]

  -- The checks of the creator's branch and of the owner's branch.
  unfoldable pub check_creator_update : MsgUpdateDomain → Domain → Result (Unit {0})
  unfolding is_address
  check_creator_update msg val =
      and_then (if asks_owner msg val then is_address msg.owner else ok tt)
        (check_ns_records msg.ns_records)

  unfoldable pub check_owner_update : MsgUpdateDomain → Domain → Result (Unit {0})
  check_owner_update msg val =
      and_then (check (not (asks_owner msg val)) unauthorized) (check_ns_records msg.ns_records)

  unfoldable pub update_domain : MsgUpdateDomain → Handler (Chain Bank) (Unit {0})
  update_domain msg = do
    or_fail (address msg.creator) invalid_address
    val ← get_domain msg.id
    let is_creator = msg.creator == val.creator
    let is_owner = msg.creator == val.owner
    fail_if (not is_creator && not is_owner) unauthorized
    lift (if is_creator then check_creator_update msg val else check_owner_update msg val)
    fail_if (not (is_creator && asks_owner msg val || not (is_nil msg.ns_records))) invalid_request
    set_domain msg.id (updated_domain msg val)
    emit (Event.update_domain msg.id msg.creator ∷ [])

  unfoldable pub delete_domain : MsgDeleteDomain → Handler (Chain Bank) (Unit {0})
  delete_domain msg = do
    or_fail (address msg.creator) invalid_address
    val ← get_domain msg.id
    fail_if (not (msg.creator == val.owner)) unauthorized
    remove_domain_name val.name
    remove_domain msg.id
    emit (Event.delete_domain msg.id val.name msg.creator ∷ [])

  unfoldable pub heartbeat_domain : Context → MsgHeartbeatDomain → Handler (Chain Bank) (Unit {0})
  heartbeat_domain ctx msg = do
    or_fail (address msg.creator) invalid_address
    val ← get_domain msg.id
    fail_if (not (msg.creator == val.creator) && not (msg.creator == val.owner)) unauthorized
    let expiration = add_year ctx.time
    set_domain msg.id (record val { expiration = expiration })
    emit (Event.heartbeat_domain msg.id val.name msg.creator expiration ∷ [])

  unfoldable pub transfer_domain : MsgTransferDomain → Handler (Chain Bank) (Unit {0})
  transfer_domain msg = do
    or_fail (address msg.creator) invalid_address
    or_fail (address msg.new_owner) invalid_address
    val ← get_domain msg.id
    fail_if (not (val.creator == msg.creator)) unauthorized
    set_domain msg.id (record val { creator = msg.new_owner; owner = msg.new_owner })
    emit (
        Event.transfer_domain msg.id val.name val.owner msg.new_owner val.creator msg.new_owner
          msg.creator
        ∷ [])

  -- `Params.Validate`.
  unfoldable pub validate_params : Params → Result (Unit {0})
  validate_params ps =
      and_then (check (coins_valid ps.domain_creation_fee) invalid_coins)
        (check (not (coins_negative ps.domain_creation_fee)) invalid_coins)

  -- `UpdateParams`, with the module's authority.
  unfoldable pub update_params : Address → MsgUpdateParams → Handler (Chain Bank) (Unit {0})
  update_params authority msg = do
    signer ← or_fail (address msg.authority) invalid_address
    fail_if (not (authority == signer)) invalid_signer
    lift (validate_params msg.params)
    modify (λ s. record s { keeper = record s.keeper { params = some msg.params } })
