-- ===== src/App.antt =====
-- The chain with both modules: x/dnsblockchain is the registry of x/dao (app/app_config.go,
-- x/dao/types/expected_keepers.go).
pub mod Execution
pub mod Voted
pub mod Block
pub mod Housed
pub mod Steps
pub mod Runs
pub mod Registered
pub mod Delivery
pub mod Restart
pub mod Export
pub mod Tests
use dnsblockchain.Prelude.{ℕ, zero, suc, ◌≡◌, List}
use dnsblockchain.Sdk.{Platform}
use dnsblockchain.Dns.Types.{Keeper, Chain, Event}
use dnsblockchain.Dns.Index.Steps.{
  Step, create, update, delete, heartbeat, transfer, params, permit,
}
use dnsblockchain.Dao.{Codec, Decimals, DaoChain}
use dnsblockchain.Dao.Reach.{DaoStep}
use dnsblockchain.Dao.Agreement.{keeper_registry}

-- The stores and the events of both modules, and the store of the bank.
pub record World (Bank : Type 0) : Type 0 where
  pub dao : DaoChain Keeper Bank
  pub dns_events : List Event

module _ {B : Type 0} where
  -- The part that the handlers of x/dnsblockchain work on.
  abbrev pub dns_part : World B → Chain B
  dns_part w = record { keeper = w.dao.registry; bank = w.dao.bank; events = w.dns_events }

  abbrev pub with_dns : Chain B → World B → World B
  with_dns c w = record {
    dao = record w.dao { registry = c.keeper; bank = c.bank };
    dns_events = c.events;
  }

-- A call of x/dnsblockchain that a transaction can make: every one but `AddPermittedTLD`, which has
-- no message.
abbrev pub IsMessage : {p : Platform} {s t : Chain p.Bank} → Step p s t → Type 0
IsMessage (permit tld e) = ⊥
IsMessage _ = Unit

module _ (codec : Codec) (d : Decimals) (p : Platform) where
  open p use {lower, Bank}

  -- A message to one of the modules, or the end of a block.
  pub data AppStep (w w' : World Bank) : Type 0 where
    dns_message :
        (c : Chain Bank) (st : Step p (dns_part w) c)
        → IsMessage st
        → w' ≡ with_dns c w
        → AppStep w w'
    dao_step :
        (t : DaoChain Keeper Bank)
        → DaoStep codec d (keeper_registry lower) p w.dao t
        → w' ≡ record w { dao = t }
        → AppStep w w'

  pub data AppReach (w : World Bank) : ℕ → World Bank → Type 0 where
    at_start : AppReach w zero w
    one_more : {n : ℕ} {v u : World Bank} → AppReach w n v → AppStep v u → AppReach w (suc n) u
