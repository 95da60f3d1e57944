-- ===== src/Dns/Genesis/Valid.antt =====
-- `GenesisState.Validate` (x/dnsblockchain/types/genesis.go) on what `ExportGenesis`
-- (x/dnsblockchain/keeper/genesis.go) gives.
use dnsblockchain.Prelude.{ℕ, ◌≡◌, ◌<◌, refl, false, not, some, List, [], ◌∷◌, arith, All, any, leb}
use dnsblockchain.Go.Text.{Text}
use dnsblockchain.Sdk.{Platform, ok, check, and_then}
use dnsblockchain.Store.{Map, KeySet, nat_key, text_key, ◌==◌}
use dnsblockchain.Store.Order.{Above, IsOrdered, All-of_lookup}
use dnsblockchain.Dns.Types.{Domain, Params, Keeper}
use dnsblockchain.Dns.Msg.{validate_params}
use dnsblockchain.Dns.Genesis.{
  GenesisState, export_genesis, values, keys, validate_ids, validate_tlds, validate_genesis, plain,
}
use dnsblockchain.Dns.Genesis.Restore.{IsSound, exported, export_genesis-found}

-- No key of the store was seen.
abbrev NewIds : List ℕ → Map ℕ Domain → Type 0
NewIds seen = All (λ e. any (λ i. e.0 == i) seen ≡ false)

abbrev NewTlds : List Text → KeySet Text → Type 0
NewTlds seen = All (λ e. any (λ t. e.0 == t) seen ≡ false)

NewIds-cons :
    (j : ℕ) (seen : List ℕ) (m : Map ℕ Domain)
    → All (Above j) m
    → NewIds seen m
    → NewIds (j ∷ seen) m
NewIds-cons j seen [] a h = tt
NewIds-cons j seen ((i, d) ∷ m) a h = (ground (arith, a.0, h.0), NewIds-cons j seen m a.1 h.1)

NewTlds-cons :
    (j : Text) (seen : List Text) (m : KeySet Text)
    → All (Above j) m
    → NewTlds seen m
    → NewTlds (j ∷ seen) m
NewTlds-cons j seen [] a h = tt
NewTlds-cons j seen ((i, d) ∷ m) a h = (
  ground (arith, a.0, h.0, text_key.beq_iff i j, text_key.lt_irrefl j),
  NewTlds-cons j seen m a.1 h.1,
)

-- One round of the loop.
id_step :
    (count id j : ℕ) (seen : List ℕ) (ds : List Domain)
    → id ≡ j
    → any (λ i. j == i) seen ≡ false
    → j < count
    → validate_ids count (j ∷ seen) ds ≡ ok tt
    → and_then
        (check (not (any (λ i. id == i) seen)) plain)
        (and_then (check (not (leb count id)) plain) (validate_ids count (id ∷ seen) ds))
      ≡ ok tt
id_step count id j seen ds e new b rest =
    let under : leb count j ≡ false = ground arith in rw (e, new, under, rest) refl

validate_ids-ordered :
    (count : ℕ) (seen : List ℕ) (m : Map ℕ Domain)
    → IsOrdered m
    → All (λ e. e.1.id ≡ e.0) m
    → All (λ e. e.0 < count) m
    → NewIds seen m
    → validate_ids count seen (values m) ≡ ok tt
unfolding validate_ids
validate_ids-ordered count seen [] o k b n = refl
validate_ids-ordered count seen ((j, d) ∷ m) o k b n =
    let rest = validate_ids-ordered count (j ∷ seen) m o.1 k.1 b.1 (NewIds-cons j seen m o.0 n.1) in
    id_step count d.id j seen (values m) k.0 n.0 b.0 rest

validate_tlds-ordered :
    (seen : List Text) (m : KeySet Text)
    → IsOrdered m
    → NewTlds seen m
    → validate_tlds seen (keys m) ≡ ok tt
unfolding validate_tlds
validate_tlds-ordered seen [] o n = refl
validate_tlds-ordered seen ((t, u) ∷ m) o n =
    rw (n.0) (validate_tlds-ordered (t ∷ seen) m o.1 (NewTlds-cons t seen m o.0 n.1))

nothing_seen : {V : Type 0} {A : Type 0} (m : Map A V) → All (λ _. false ≡ false) m
nothing_seen [] = tt
nothing_seen (e ∷ m) = (refl, nothing_seen m)

-- For stores whose index and domains agree, that are in key order, whose names and TLDs are in
-- normal form and not empty, and whose parameters are set and validate, ExportGenesis succeeds and
-- the genesis state that it gives passes Validate.
pub validate_genesis-export_genesis :
    (p : Platform) (params : Params) (k : Keeper)
    → IsSound p.lower k
    → k.params ≡ some params
    → validate_params p params ≡ ok tt
    → (g : GenesisState) × (export_genesis k ≡ ok g) × (validate_genesis p g ≡ ok tt)
unfolding validate_genesis
validate_genesis-export_genesis p params k v set h =
    let ids =
      validate_ids-ordered k.domain_seq [] k.domain v.tidy.domains_ordered
        (All-of_lookup _ k.domain v.tidy.domains_ordered v.indexed.keyed)
        (All-of_lookup _ k.domain v.tidy.domains_ordered v.indexed.below) (nothing_seen k.domain) in
    let tlds =
      validate_tlds-ordered [] k.permitted_tlds v.tidy.tlds_ordered
        (nothing_seen k.permitted_tlds) in
    (exported params k, export_genesis-found params k set, rw (ids, tlds, h) refl)
