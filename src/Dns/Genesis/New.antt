-- ===== src/Dns/Genesis/New.antt =====
-- A chain that starts from the default genesis state (x/dnsblockchain/types/genesis.go).
use mathlib.Core.Path.{subst}
use dnsblockchain.Prelude.{ℕ, ◌<◌, ◌≡◌, refl, sym, ap, some, arith}
use dnsblockchain.Go.Text.{IsLowering}
use dnsblockchain.Go.Word.{u64_mod}
use dnsblockchain.Sdk.{Platform, ok}
use dnsblockchain.Store.{nat_key, text_key, lookup}
use dnsblockchain.Dns.Types.{Params, Keeper, Chain}
use dnsblockchain.Dns.Index.Changes.{IsIndexed}
use dnsblockchain.Dns.Index.Steps.{Reach}
use dnsblockchain.Dns.Genesis.{
  init_genesis, export_genesis, default_dns_genesis, default_dns_params, no_stores, load_domains,
  load_tlds,
}
use dnsblockchain.Dns.Genesis.Restore.{IsSound, exported, init_genesis-export}
use dnsblockchain.Dns.Genesis.Sound.{Reach-IsSound}

-- The stores that the default genesis state leads to.
abbrev pub new_stores : Keeper
new_stores = record no_stores { params = some default_dns_params }

pub init_genesis-default :
    (lower : ℕ → ℕ) → init_genesis lower default_dns_genesis no_stores ≡ new_stores
unfolding init_genesis load_domains load_tlds
init_genesis-default lower = refl

new_stores-IsIndexed : IsIndexed new_stores
unfolding lookup
new_stores-IsIndexed = record {
  indexed = λ i d h. absurd (cc h);
  named = λ n i h. absurd (cc h);
  keyed = λ i d h. absurd (cc h);
  below = λ i d h. absurd (cc h);
}

pub new_stores-IsSound : (lower : ℕ → ℕ) → IsSound lower new_stores
new_stores-IsSound lower = record {
  indexed = new_stores-IsIndexed;
  tidy = record {
    domains_ordered = tt;
    names_ordered = tt;
    tlds_ordered = tt;
    domains_named = tt;
    tlds_named = tt;
  };
}

module _ (p : Platform) (l : IsLowering p.lower) where
  open p use {lower, Bank}

  -- On a chain whose stores InitGenesis made of the default genesis state, after every sequence of
  -- fewer than 2^64 messages and calls of AddPermittedTLD, successful or not, ExportGenesis gives a
  -- genesis state from which InitGenesis rebuilds the stores on a new chain. The case mapping keeps
  -- dots and spaces apart from letters and is idempotent.
  pub init_genesis-restarts :
      (s : Chain Bank) {n : ℕ} {t : Chain Bank} (params : Params)
      → s.keeper ≡ init_genesis lower default_dns_genesis no_stores
      → Reach p s n t
      → n < u64_mod
      → t.keeper.params ≡ some params
      → (export_genesis t.keeper ≡ ok (exported params t.keeper))
        × (init_genesis lower (exported params t.keeper) no_stores ≡ t.keeper)
  init_genesis-restarts s {n} {t} params first r room set =
      let fresh : s.keeper ≡ new_stores = cc (first, init_genesis-default lower) in
      init_genesis-export lower params t.keeper
        (Reach-IsSound p l s r (subst (IsSound lower) (sym fresh) (new_stores-IsSound lower))
          (omega (arith, ap (λ k. k.domain_seq) fresh, room)))
        set
