-- ===== src/Dns/Genesis.antt =====
-- The genesis state of x/dnsblockchain: its validation (x/dnsblockchain/types/genesis.go), and its
-- import and export (x/dnsblockchain/keeper/genesis.go).
pub mod Loading
pub mod Restore
pub mod Sound
pub mod Valid
pub mod New
use dnsblockchain.Prelude.{
  ℕ, Bool, true, false, not, ◌&&◌, none, some, List, [], ◌∷◌, map, any, leb, if◌then◌else◌,
}
use dnsblockchain.Prelude.Int.{pos}
use dnsblockchain.Go.Text.{Text, codes, is_empty}
use dnsblockchain.Go.Text.Normal.{normal_name}
use dnsblockchain.Sdk.{Platform, Result, ok, err, check, and_then, plain, store_not_found}
use dnsblockchain.Store.{Map, KeySet, nat_key, text_key, ◌==◌, insert}
use dnsblockchain.Dns.Types.{Domain, Params, Keeper}
use dnsblockchain.Dns.Msg.{validate_params}

pub record GenesisState : Type 0 where
  pub params : Params
  pub domain_list : List Domain
  pub domain_count : ℕ
  pub permitted_tlds : List Text

-- `DefaultParams`: 20 dns, in units of 10^-6; and `DefaultGenesis`.
abbrev pub default_dns_params : Params
default_dns_params = record {
  domain_creation_fee = record { denom = codes "udns"; amount = pos 20000000 } ∷ [];
}

abbrev pub default_dns_genesis : GenesisState
default_dns_genesis = record {
  params = default_dns_params;
  domain_list = [];
  domain_count = 0;
  permitted_tlds = [];
}

-- The loop over the domains: no id twice, and every id below the count.
unfoldable pub validate_ids : ℕ → List ℕ → List Domain → Result (Unit {0})
validate_ids count seen [] = ok tt
validate_ids count seen (elem ∷ ds) =
    and_then (check (not (any (λ i. elem.id == i) seen)) plain)
      (and_then (check (not (leb count elem.id)) plain) (validate_ids count (elem.id ∷ seen) ds))

-- The loop over the TLDs: none twice.
unfoldable pub validate_tlds : List Text → List Text → Result (Unit {0})
validate_tlds seen [] = ok tt
validate_tlds seen (tld ∷ ts) =
    and_then (check (not (any (λ t. tld == t) seen)) plain) (validate_tlds (tld ∷ seen) ts)

module _ (p : Platform) where
  -- `GenesisState.Validate`.
  unfoldable pub validate_genesis : GenesisState → Result (Unit {0})
  validate_genesis g =
      and_then (validate_ids g.domain_count [] g.domain_list)
        (and_then (validate_tlds [] g.permitted_tlds) (validate_params p g.params))

module _ (lower : ℕ → ℕ) where
  -- The index entry of a domain, under its normalised name, unless this is empty.
  unfoldable pub index_domain : Domain → Map Text ℕ → Map Text ℕ
  index_domain elem m =
      let name = normal_name lower elem.name in
      if is_empty name && not (is_empty elem.name)
      then m
      else if not (is_empty name)
      then insert name elem.id m
      else m

  -- The body of the loop over the domains.
  unfoldable pub load_domain : Domain → Keeper → Keeper
  load_domain elem k = record k {
    domain = insert elem.id elem k.domain;
    domain_name = index_domain elem k.domain_name;
  }

  unfoldable pub load_domains : List Domain → Keeper → Keeper
  load_domains [] k = k
  load_domains (elem ∷ ds) k = load_domains ds (load_domain elem k)

  -- The loop over the TLDs.
  unfoldable pub load_tlds : List Text → KeySet Text → KeySet Text
  load_tlds [] m = m
  load_tlds (elem ∷ ts) m =
      let tld = normal_name lower elem in
      load_tlds ts (if not (is_empty tld) then insert tld tt m else m)

  unfoldable pub init_genesis : GenesisState → Keeper → Keeper
  init_genesis g k =
      let loaded = load_domains g.domain_list k in
      record loaded {
        domain_seq = g.domain_count;
        permitted_tlds = load_tlds g.permitted_tlds loaded.permitted_tlds;
        params = some g.params;
      }

-- The walks over the stores, in key order.
abbrev pub values : {K V : Type 0} → Map K V → List V
values m = map (λ e. e.1) m

abbrev pub keys : {K V : Type 0} → Map K V → List K
keys m = map (λ e. e.0) m

unfoldable pub export_genesis : Keeper → Result GenesisState
export_genesis k = elim k.params [
  | none ↦ err store_not_found
  | some params ↦ ok (record {
    params = params;
    domain_list = values k.domain;
    domain_count = k.domain_seq;
    permitted_tlds = keys k.permitted_tlds;
  })
]

-- The stores of a new chain.
abbrev pub no_stores : Keeper
no_stores = record {
  params = none;
  domain_seq = 0;
  domain = [];
  domain_name = [];
  permitted_tlds = [];
}
