-- ===== src/Dns/Index/Changes.antt =====
-- The invariant of the two tables, and the three ways in which the handlers change them.
use dnsblockchain.Prelude.{ℕ, ◌+◌, ◌<◌, ◌≡◌, sym, none, some, arith, Bool-cases, inl, inr}
use dnsblockchain.Go.Text.{Text}
use dnsblockchain.Go.Word.{add64, u64_mod}
use dnsblockchain.Store.{
  nat_key, text_key, ◌==◌, lookup, insert, remove, lookup-insert, lookup-remove,
}
use dnsblockchain.Dns.Types.{Domain, Keeper}

-- Every domain is found by its name and under its own id, every name leads to the domain that
-- bears it, and the sequence is above every id.
pub record IsIndexed (k : Keeper) : Type 0 where
  pub indexed :
      (i : ℕ) (d : Domain) → lookup i k.domain ≡ some d → lookup d.name k.domain_name ≡ some i
  pub named :
      (n : Text) (i : ℕ)
      → lookup n k.domain_name ≡ some i
      → (d : Domain) × (lookup i k.domain ≡ some d) × (d.name ≡ n)
  pub keyed : (i : ℕ) (d : Domain) → lookup i k.domain ≡ some d → d.id ≡ i
  pub below : (i : ℕ) (d : Domain) → lookup i k.domain ≡ some d → i < k.domain_seq

-- A new domain under the next id.
abbrev pub added : Domain → Keeper → Keeper
added d k = record k {
  domain_seq = add64 k.domain_seq 1;
  domain = insert k.domain_seq d k.domain;
  domain_name = insert d.name k.domain_seq k.domain_name;
}

-- Another domain under an id.
abbrev pub replaced : ℕ → Domain → Keeper → Keeper
replaced i d k = record k { domain = insert i d k.domain }

-- A domain taken out, and its name.
abbrev pub dropped : ℕ → Text → Keeper → Keeper
dropped i n k = record k { domain = remove i k.domain; domain_name = remove n k.domain_name }

-- The lookups of the invariant, at a key that is written or at another.
added-named :
    (d : Domain) (k : Keeper)
    → IsIndexed k
    → (n : Text) (i : ℕ) → lookup n (added d k).domain_name ≡ some i
    → (x : Domain) × (lookup i (added d k).domain ≡ some x) × (x.name ≡ n)
added-named d k v n i h = elim (Bool-cases (n == d.name)) [
  | inl e ↦ (
    d,
    ground (
      arith,
      lookup-insert n d.name k.domain_seq k.domain_name,
      lookup-insert i k.domain_seq d k.domain,
    ),
    sym ((text_key.beq_iff n d.name).0 e),
  )
  | inr e ↦
      let (x, found, same) =
        v.named n i (ground (arith, lookup-insert n d.name k.domain_seq k.domain_name)) in
      (x, ground (arith, lookup-insert i k.domain_seq d k.domain, v.below i x found), same)
]

pub added-IsIndexed :
    (d : Domain) (k : Keeper)
    → IsIndexed k
    → d.id ≡ k.domain_seq
    → lookup d.name k.domain_name ≡ none
    → k.domain_seq + 1 < u64_mod
    → IsIndexed (added d k)
added-IsIndexed d k v e free room = record {
  indexed = λ i x h. ground (
    arith,
    lookup-insert i k.domain_seq d k.domain,
    lookup-insert x.name d.name k.domain_seq k.domain_name,
    text_key.beq_iff x.name d.name,
    v.indexed i x,
  );
  named = added-named d k v;
  keyed = λ i x h. ground (arith, lookup-insert i k.domain_seq d k.domain, v.keyed i x);
  below = λ i x h. ground (arith, lookup-insert i k.domain_seq d k.domain, v.below i x);
}

replaced-named :
    (i : ℕ) (d : Domain) {old : Domain} (k : Keeper)
    → IsIndexed k
    → lookup i k.domain ≡ some old
    → d.name ≡ old.name
    → (n : Text) (j : ℕ) → lookup n k.domain_name ≡ some j
    → (x : Domain) × (lookup j (replaced i d k).domain ≡ some x) × (x.name ≡ n)
replaced-named i d k v found same n j h =
    let (x, there, bears) = v.named n j h in
    elim (Bool-cases (j == i)) [
      | inl e ↦ (d, ground (arith, lookup-insert j i d k.domain), ground arith)
      | inr e ↦ (x, ground (arith, lookup-insert j i d k.domain), bears)
    ]

pub replaced-IsIndexed :
    (i : ℕ) (d : Domain) {old : Domain} (k : Keeper)
    → IsIndexed k
    → lookup i k.domain ≡ some old
    → d.id ≡ i
    → d.name ≡ old.name
    → IsIndexed (replaced i d k)
replaced-IsIndexed i d {old} k v found e same = record {
  indexed =
      λ j x h. ground (arith, lookup-insert j i d k.domain, v.indexed j x, v.indexed i old found);
  named = replaced-named i d k v found same;
  keyed = λ j x h. ground (arith, lookup-insert j i d k.domain, v.keyed j x);
  below = λ j x h. ground (arith, lookup-insert j i d k.domain, v.below j x, v.below i old found);
}

dropped-named :
    (i : ℕ) {old : Domain} (k : Keeper)
    → IsIndexed k
    → lookup i k.domain ≡ some old
    → (n : Text) (j : ℕ) → lookup n (dropped i old.name k).domain_name ≡ some j
    → (x : Domain) × (lookup j (dropped i old.name k).domain ≡ some x) × (x.name ≡ n)
dropped-named i {old} k v found n j h =
    let (x, there, bears) = v.named n j (ground (arith, lookup-remove n old.name k.domain_name)) in
    (
      x,
      ground (
        arith,
        lookup-remove j i k.domain,
        lookup-remove n old.name k.domain_name,
        text_key.beq_iff n old.name,
      ),
      bears,
    )

pub dropped-IsIndexed :
    (i : ℕ) {old : Domain} (k : Keeper)
    → IsIndexed k
    → lookup i k.domain ≡ some old
    → IsIndexed (dropped i old.name k)
dropped-IsIndexed i {old} k v found = record {
  indexed = λ j x h. ground (
    arith,
    lookup-remove j i k.domain,
    lookup-remove x.name old.name k.domain_name,
    text_key.beq_iff x.name old.name,
    v.indexed j x,
    v.indexed i old found,
  );
  named = dropped-named i k v found;
  keyed = λ j x h. ground (arith, lookup-remove j i k.domain, v.keyed j x);
  below = λ j x h. ground (arith, lookup-remove j i k.domain, v.below j x);
}
