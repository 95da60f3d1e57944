-- ===== src/Dns/Msg/Create.antt =====
-- `CreateDomain`, in the order of the source: addresses, fee, name, TLD, records, and the writes.
use dnsblockchain.Prelude.{ℕ, not, Option, none, some, List, [], ◌∷◌, ◌++◌, if◌then◌else◌}
use dnsblockchain.Go.Text.{Text, codes, split_dots, is_empty}
use dnsblockchain.Go.Text.Normal.{normal_name}
use dnsblockchain.Go.Time.{add_year}
use dnsblockchain.Go.Word.{add64}
use dnsblockchain.Sdk.{
  Platform, Address, Coins, Context, Handler, Result, ok, ◌>>=◌, ◌>>◌, pure, gets, lift, or_fail,
  fail_if, modify, when, invalid_address, invalid_domain_name, tld_not_permitted,
  duplicate_domain_name, invalid_request,
}
use dnsblockchain.Store.{nat_key, text_key, insert, has}
use dnsblockchain.Dns.Permitted.{is_tld_permitted}
use dnsblockchain.Dns.Types.{Domain, Chain, Event, MsgCreateDomain}
use dnsblockchain.Dns.Msg.Checks.{is_nil, check_ns_records, get_params}

-- `types.ModuleName`.
abbrev pub module_name : Text
module_name = codes "dnsblockchain"

abbrev pub emit : {B : Type 0} → List Event → Handler (Chain B) (Unit {0})
emit es = modify (λ s. record s { events = s.events ++ es })

-- A call of the bank module.
abbrev pub on_bank : {B : Type 0} → (B → Result (Unit {0}) × B) → Handler (Chain B) (Unit {0})
on_bank call s = let (r, b) = call s.bank in (r, record s { bank = b })

-- The TLD of a name in `label.tld` format.
unfoldable pub tld_of_parts : List Text → Option Text
tld_of_parts [] = none
tld_of_parts (l ∷ []) = none
tld_of_parts (l ∷ t ∷ []) = if is_empty t then none else some t
tld_of_parts (l ∷ t ∷ u ∷ ps) = none

-- `DomainSeq.Next`: the number, and the next one is stored.
unfoldable pub next_domain_id : {B : Type 0} → Handler (Chain B) ℕ
next_domain_id s = (
  ok s.keeper.domain_seq,
  record s { keeper = record s.keeper { domain_seq = add64 s.keeper.domain_seq 1 } },
)

-- `Domain.Set` and `DomainName.Set`.
unfoldable pub set_domain : {B : Type 0} → ℕ → Domain → Handler (Chain B) (Unit {0})
set_domain i d =
    modify (λ s. record s { keeper = record s.keeper { domain = insert i d s.keeper.domain } })

unfoldable pub set_domain_name : {B : Type 0} → Text → ℕ → Handler (Chain B) (Unit {0})
set_domain_name n i =
    modify
      (λ s. record s { keeper = record s.keeper { domain_name = insert n i s.keeper.domain_name } })

module _ (p : Platform) where
  open p use {lower, address, coins_zero, Bank, send_to_module, burn_coins}

  -- The fee goes from the creator to the module, which burns it.
  unfoldable pub charge_fee : Address → Text → Coins → Handler (Chain Bank) (Unit {0})
  charge_fee addr creator fee = when (not (coins_zero fee)) (do
    on_bank (send_to_module addr module_name fee)
    on_bank (burn_coins module_name fee)
    emit (Event.fee_collected creator fee ∷ Event.fee_burned module_name fee ∷ []))

  -- What the domain must satisfy, after the fee is paid.
  unfoldable pub check_domain : MsgCreateDomain → Handler (Chain Bank) (Unit {0})
  check_domain msg = do
    let name = normal_name lower msg.name
    tld ← or_fail (tld_of_parts (split_dots name)) invalid_domain_name
    fail_if (not (is_tld_permitted lower tld (← gets (λ s. s.keeper)))) tld_not_permitted
    fail_if (has name (← gets (λ s. s.keeper.domain_name))) duplicate_domain_name
    fail_if (is_nil msg.ns_records) invalid_request
    lift (check_ns_records msg.ns_records)

  -- The writes: the next id, the domain, its name.
  unfoldable pub store_domain : Context → MsgCreateDomain → Handler (Chain Bank) ℕ
  store_domain ctx msg = do
    id ← next_domain_id
    let name = normal_name lower msg.name
    set_domain id (record {
      id = id;
      creator = msg.creator;
      name = name;
      owner = msg.owner;
      ns_records = msg.ns_records;
      expiration = add_year ctx.time;
    })
    set_domain_name name id
    emit (Event.create_domain id name msg.owner msg.creator ∷ [])
    pure id

  unfoldable pub create_domain : Context → MsgCreateDomain → Handler (Chain Bank) ℕ
  create_domain ctx msg = do
    creator ← or_fail (address msg.creator) invalid_address
    or_fail (address msg.owner) invalid_address
    params ← get_params
    charge_fee creator msg.creator params.domain_creation_fee
    check_domain msg
    store_domain ctx msg
