-- ===== src/Dns/Genesis/Restore.antt =====
-- Export and import of the stores of x/dnsblockchain (x/dnsblockchain/keeper/genesis.go).
use dnsblockchain.Prelude.{ℕ, ◌≡◌, refl, sym, ap, ◌∙◌, none, some, Option, [], ◌∷◌, inl, inr}
use dnsblockchain.Go.Text.{Text}
use dnsblockchain.Store.{nat_key, text_key, lookup, insert}
use dnsblockchain.Store.Copy.{put_all_self}
use dnsblockchain.Store.Order.{IsOrdered, insert-IsOrdered, IsOrdered-ext}
use dnsblockchain.Dns.Types.{Domain, Params, Keeper}
use dnsblockchain.Dns.Index.Changes.{IsIndexed}
use dnsblockchain.Dns.Genesis.{
  GenesisState, values, keys, init_genesis, export_genesis, no_stores, ok, Map, load_tlds,
}
use dnsblockchain.Dns.Genesis.Loading.{
  IsNamed, IsNames, index_all, load_domains-put_all, load_tlds-put_all, index_all_sound,
  index_all_complete,
}

-- The stores as the module keeps them: in key order, with every name and TLD in normal form.
pub record IsTidy (lower : ℕ → ℕ) (k : Keeper) : Type 0 where
  pub domains_ordered : IsOrdered k.domain
  pub names_ordered : IsOrdered k.domain_name
  pub tlds_ordered : IsOrdered k.permitted_tlds
  pub domains_named : IsNamed lower k.domain
  pub tlds_named : IsNames lower k.permitted_tlds

-- And with the index in step.
pub record IsSound (lower : ℕ → ℕ) (k : Keeper) : Type 0 where
  pub indexed : IsIndexed k
  pub tidy : IsTidy lower k

index_all-IsOrdered :
    (m : Map ℕ Domain) (acc : Map Text ℕ) → IsOrdered acc → IsOrdered (index_all m acc)
unfolding index_all
index_all-IsOrdered [] acc o = o
index_all-IsOrdered ((j, d) ∷ m) acc o =
    index_all-IsOrdered m (insert d.name j acc) (insert-IsOrdered d.name j acc o)

-- The index that is built from the domains of a keeper in which both are in step is its own.
rebuilt :
    (k : Keeper) (n : Text)
    → IsIndexed k
    → IsOrdered k.domain
    → lookup n (index_all k.domain []) ≡ lookup n k.domain_name
unfolding lookup
rebuilt k n v o = by_cases (lookup n k.domain_name) refl (lookup n (index_all k.domain [])) refl
  where
    by_cases :
        (there : Option ℕ)
        → lookup n k.domain_name ≡ there
        → (built : Option ℕ) → lookup n (index_all k.domain []) ≡ built
        → lookup n (index_all k.domain []) ≡ lookup n k.domain_name
    by_cases (some i) e built f =
        let (d, found, bears) = v.named n i e in
        index_all_complete k.domain [] k.domain_name n i v.indexed o e (inr (d, found, bears))
        ∙ sym e
    by_cases none e none f = f ∙ sym e
    by_cases none e (some i) f = elim (index_all_sound k.domain [] n i o f) [
      | inl early ↦ absurd (cc early)
      | inr (d, found, bears) ↦ absurd (cc (e, v.indexed i d found, bears))
    ]

rebuilt_index :
    (lower : ℕ → ℕ) (k : Keeper) → IsSound lower k → index_all k.domain [] ≡ k.domain_name
rebuilt_index lower k v =
    IsOrdered-ext (index_all k.domain []) k.domain_name (index_all-IsOrdered k.domain [] tt)
      v.tidy.names_ordered (λ n. rebuilt k n v.indexed v.tidy.domains_ordered)

-- What `ExportGenesis` gives of a keeper with these parameters.
abbrev pub exported : Params → Keeper → GenesisState
exported params k = record {
  params = params;
  domain_list = values k.domain;
  domain_count = k.domain_seq;
  permitted_tlds = keys k.permitted_tlds;
}

pub export_genesis-found :
    (params : Params) (k : Keeper)
    → k.params ≡ some params
    → export_genesis k ≡ ok (exported params k)
unfolding export_genesis
export_genesis-found params k e = rw e refl

keeper_eq :
    (a b : Keeper)
    → a.params ≡ b.params
    → a.domain_seq ≡ b.domain_seq
    → a.domain ≡ b.domain
    → a.domain_name ≡ b.domain_name
    → a.permitted_tlds ≡ b.permitted_tlds
    → a ≡ b
keeper_eq a b e f g h i = cc

-- Of stores whose index and domains agree, that are in key order, whose names and TLDs are in
-- normal form and not empty, and whose parameters are set, ExportGenesis gives a genesis state from
-- which InitGenesis rebuilds these stores on a new chain, the name index included, which is not
-- exported.
pub init_genesis-export :
    (lower : ℕ → ℕ) (params : Params) (k : Keeper)
    → IsSound lower k
    → k.params ≡ some params
    → (export_genesis k ≡ ok (exported params k))
      × (init_genesis lower (exported params k) no_stores ≡ k)
unfolding init_genesis
init_genesis-export lower params k v e =
    let (stored, indexed, tlds) =
      load_domains-put_all lower k.domain no_stores v.tidy.domains_named in
    (
      export_genesis-found params k e,
      keeper_eq _ k (sym e) refl (stored ∙ put_all_self k.domain v.tidy.domains_ordered)
          (indexed ∙ rebuilt_index lower k v)
          (ap (load_tlds lower (keys k.permitted_tlds)) tlds
            ∙ load_tlds-put_all lower k.permitted_tlds [] v.tidy.tlds_named
            ∙ put_all_self k.permitted_tlds v.tidy.tlds_ordered),
    )
