-- ===== src/Dns/Types.antt =====
-- The data of x/dnsblockchain: proto/dnsblockchain/dnsblockchain/v1, as generated in
-- x/dnsblockchain/types, and the stores of its keeper.
use dnsblockchain.Prelude.{ℕ, Option, List}
use dnsblockchain.Go.Text.{Text}
use dnsblockchain.Sdk.{Coins}
use dnsblockchain.Store.{Map, KeySet}

pub record NsRecord : Type 0 where
  pub name : Text
  pub ipv4_addresses : List Text
  pub ipv6_addresses : List Text

-- A list of pointers: an entry may be nil.
abbrev pub NsRecords : Type 0
NsRecords = List (Option NsRecord)

pub record Domain : Type 0 where
  pub id : ℕ
  pub creator : Text
  pub name : Text
  pub owner : Text
  pub ns_records : NsRecords
  pub expiration : ℕ

pub record Params : Type 0 where
  pub domain_creation_fee : Coins

-- The stores of the keeper.
pub record Keeper : Type 0 where
  pub params : Option Params
  pub domain_seq : ℕ
  pub domain : Map ℕ Domain
  pub domain_name : Map Text ℕ
  pub permitted_tlds : KeySet Text

-- The events that the handlers emit, with their attributes.
pub data Event : Type 0 where
  fee_collected : Text → Coins → Event
  fee_burned : Text → Coins → Event
  create_domain : ℕ → Text → Text → Text → Event
  update_domain : ℕ → Text → Event
  delete_domain : ℕ → Text → Text → Event
  heartbeat_domain : ℕ → Text → Text → ℕ → Event
  transfer_domain : ℕ → Text → Text → Text → Text → Text → Text → Event

-- What a handler changes: the module's stores, the bank's store, and the events of the block.
pub record Chain (Bank : Type 0) : Type 0 where
  pub keeper : Keeper
  pub bank : Bank
  pub events : List Event

pub record MsgCreateDomain : Type 0 where
  pub creator : Text
  pub name : Text
  pub owner : Text
  pub ns_records : NsRecords

pub record MsgUpdateDomain : Type 0 where
  pub creator : Text
  pub id : ℕ
  pub owner : Text
  pub ns_records : NsRecords

pub record MsgDeleteDomain : Type 0 where
  pub creator : Text
  pub id : ℕ

pub record MsgHeartbeatDomain : Type 0 where
  pub creator : Text
  pub id : ℕ

pub record MsgTransferDomain : Type 0 where
  pub creator : Text
  pub id : ℕ
  pub new_owner : Text

pub record MsgUpdateParams : Type 0 where
  pub authority : Text
  pub params : Params
