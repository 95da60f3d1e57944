-- ===== src/Dns/Registry.antt =====
-- x/dnsblockchain as a registry of names: a name has a domain or none, and a message of a signer
-- registers, revises or releases one name (x/dnsblockchain/keeper/msg_server_domain.go).
pub mod Refines
use mathlib.Core.Path.{subst}
use dnsblockchain.Prelude.{
  ℕ, ◌+◌, ◌<◌, ◌≡◌, ◌≢◌, refl, sym, ap, ◌∙◌, Bool, true, false, Option, none, some, [], ◌⊎◌, inl,
  inr, arith, Bool-cases, if◌then◌else◌,
}
use dnsblockchain.Go.Text.{Text}
use dnsblockchain.Sdk.{Platform, either_way}
use dnsblockchain.Store.{
  nat_key, text_key, ◌==◌, lookup, insert, lookup-insert, lookup-remove, beq_refl,
  lookup-remove_here, lookup-insert_here, lookup-insert_away, lookup-remove_away,
}
use dnsblockchain.Dns.Types.{
  Domain, Keeper, Chain, MsgCreateDomain, MsgUpdateDomain, MsgDeleteDomain, MsgHeartbeatDomain,
  MsgTransferDomain, MsgUpdateParams,
}
use dnsblockchain.Dns.Index.Changes.{IsIndexed, added, replaced, dropped}

abbrev pub Names : Type 0
Names = Text → Option Domain

abbrev pub domain_at : Keeper → Option ℕ → Option Domain
domain_at k none = none
domain_at k (some i) = lookup i k.domain

-- The registry that the stores hold: the name index, followed by the domains.
abbrev pub names : Keeper → Names
names k n = domain_at k (lookup n k.domain_name)

-- The registry changed at one name.
abbrev pub Set : Names → Names → Text → Option Domain → Type 0
Set r r' name o = (n : Text) → r' n ≡ (if n == name then o else r n)

-- Who may make another domain of one.
abbrev pub Rights : Text → Domain → Domain → Type 0
Rights signer old new =
    (signer ≡ old.creator)
    ⊎ (signer ≡ old.owner) × (new.creator ≡ old.creator) × (new.owner ≡ old.owner)

-- What a signer can do to the registry.
pub data Registrar (signer : Text) (r r' : Names) : Type 0 where
  stays : ((n : Text) → r' n ≡ r n) → Registrar signer r r'
  registers :
      (d : Domain)
      → d.creator ≡ signer
      → r d.name ≡ none
      → Set r r' d.name (some d)
      → Registrar signer r r'
  revises :
      (old new : Domain)
      → r old.name ≡ some old
      → new.name ≡ old.name
      → Rights signer old new
      → Set r r' old.name (some new)
      → Registrar signer r r'
  releases :
      (old : Domain)
      → r old.name ≡ some old
      → signer ≡ old.owner
      → Set r r' old.name none
      → Registrar signer r r'

pub names-indexed :
    (k : Keeper) (i : ℕ) (d : Domain)
    → IsIndexed k
    → lookup i k.domain ≡ some d
    → names k d.name ≡ some d
names-indexed k i d v found = ap (domain_at k) (v.indexed i d found) ∙ found

pub names-free : (k : Keeper) (n : Text) → lookup n k.domain_name ≡ none → names k n ≡ none
names-free k n e = ap (domain_at k) e

-- Away from the entries that change, the registry is the same.
pub domain_at-same :
    (k k' : Keeper) (o : Option ℕ)
    → ((i : ℕ) → o ≡ some i → lookup i k'.domain ≡ lookup i k.domain)
    → domain_at k' o ≡ domain_at k o
domain_at-same k k' none h = refl
domain_at-same k k' (some i) h = h i refl

pub names-added :
    (d : Domain) (k : Keeper) → IsIndexed k → Set (names k) (names (added d k)) d.name (some d)
names-added d k v n = elim (Bool-cases (n == d.name)) [
  | inl e ↦ rw e (
      ap (domain_at (added d k)) (lookup-insert_here n d.name k.domain_seq k.domain_name e)
      ∙ lookup-insert_here k.domain_seq k.domain_seq d k.domain (beq_refl k.domain_seq))
  | inr e ↦ rw e (
      ap (domain_at (added d k)) (lookup-insert_away n d.name k.domain_seq k.domain_name e)
      ∙ domain_at-same k (added d k) (lookup n k.domain_name) λ i h.
        let (x, found, bears) = v.named n i h in
        ground (arith, lookup-insert i k.domain_seq d k.domain, v.below i x found))
]

pub names-replaced :
    (i : ℕ) (old d : Domain) (k : Keeper)
    → IsIndexed k
    → lookup i k.domain ≡ some old
    → Set (names k) (names (replaced i d k)) old.name (some d)
names-replaced i old d k v found n = elim (Bool-cases (n == old.name)) [
  | inl e ↦ rw e (
      ap (domain_at (replaced i d k)) (
        ap (λ (x : Text). lookup x k.domain_name) ((text_key.beq_iff n old.name).0 e)
        ∙ v.indexed i old found)
      ∙ lookup-insert_here i i d k.domain (beq_refl i))
  | inr e ↦ rw e (
      domain_at-same k (replaced i d k) (lookup n k.domain_name) λ j h.
        let (x, there, bears) = v.named n j h in
        ground
          (arith, lookup-insert j i d k.domain, nat_key.beq_iff j i, text_key.beq_iff n old.name))
]

pub names-dropped :
    (i : ℕ) (old : Domain) (k : Keeper)
    → IsIndexed k
    → lookup i k.domain ≡ some old
    → Set (names k) (names (dropped i old.name k)) old.name none
names-dropped i old k v found n = elim (Bool-cases (n == old.name)) [
  | inl e ↦
      rw e (ap (domain_at (dropped i old.name k)) (lookup-remove_here n old.name k.domain_name e))
  | inr e ↦ rw e (
      ap (domain_at (dropped i old.name k)) (lookup-remove_away n old.name k.domain_name e)
      ∙ domain_at-same k (dropped i old.name k) (lookup n k.domain_name) λ j h.
        let (x, there, bears) = v.named n j h in
        ground
          (arith, lookup-remove j i k.domain, nat_key.beq_iff j i, text_key.beq_iff n old.name))
]
