-- ===== src/Dns/Genesis/Loading.antt =====
-- The loops of `InitGenesis` (x/dnsblockchain/keeper/genesis.go) over the values of an ordered store.
use dnsblockchain.Prelude.{
  ℕ, ◌≡◌, ◌≢◌, refl, sym, ap, ◌∙◌, not, some, [], ◌∷◌, ◌⊎◌, inl, inr, arith, All, Bool-cases,
  if◌then◌else◌,
}
use dnsblockchain.Go.Text.{Text, is_empty}
use dnsblockchain.Go.Text.Normal.{normal_name}
use dnsblockchain.Store.{Map, KeySet, nat_key, text_key, ◌==◌, lookup, insert, lookup-insert}
use dnsblockchain.Store.Order.{IsOrdered, lookup-cons_tail, lookup_head, lookup-cons_cases}
use dnsblockchain.Store.Copy.{put_all}
use dnsblockchain.Dns.Types.{Domain, Keeper}
use dnsblockchain.Dns.Genesis.{values, keys, index_domain, load_domain, load_domains, load_tlds}

-- A name as the module stores it.
pub record IsName (lower : ℕ → ℕ) (n : Text) : Type 0 where
  pub normal : normal_name lower n ≡ n
  pub not_empty : n ≢ []

-- Every domain of a store has such a name, and stands under its own id.
abbrev pub IsNamed : (ℕ → ℕ) → Map ℕ Domain → Type 0
IsNamed lower = All (λ e. IsName lower e.1.name × (e.1.id ≡ e.0))

-- Every key is such a name.
abbrev pub IsNames : (ℕ → ℕ) → KeySet Text → Type 0
IsNames lower = All (λ e. IsName lower e.0)

-- The names of a store of domains, written to an index.
unfoldable pub index_all : Map ℕ Domain → Map Text ℕ → Map Text ℕ
index_all [] acc = acc
index_all ((j, d) ∷ m) acc = index_all m (insert d.name j acc)

module _ (lower : ℕ → ℕ) where
  index_domain-IsName :
      (d : Domain) (acc : Map Text ℕ)
      → IsName lower d.name
      → index_domain lower d acc ≡ insert d.name d.id acc
  unfolding index_domain
  index_domain-IsName d acc h = ground (arith, h.normal, h.not_empty)

  pub load_domains-put_all :
      (m : Map ℕ Domain) (k : Keeper)
      → IsNamed lower m
      → ((load_domains lower (values m) k).domain ≡ put_all m k.domain)
        × ((load_domains lower (values m) k).domain_name ≡ index_all m k.domain_name)
        × ((load_domains lower (values m) k).permitted_tlds ≡ k.permitted_tlds)
  unfolding load_domains load_domain put_all index_all
  load_domains-put_all [] k h = (refl, refl, refl)
  load_domains-put_all ((j, d) ∷ m) k h =
      let (stored, indexed, tlds) = load_domains-put_all m (load_domain lower d k) h.1 in
      (
        stored ∙ ap (λ (i : ℕ). put_all m (insert i d k.domain)) h.0.1,
        indexed
            ∙ ap (index_all m) (
                index_domain-IsName d k.domain_name h.0.0
                ∙ ap (λ (i : ℕ). insert d.name i k.domain_name) h.0.1),
        tlds,
      )

  kept_tld :
      (t : Text) (acc : KeySet Text)
      → IsName lower t
      → (if not (is_empty (normal_name lower t)) then insert (normal_name lower t) tt acc else acc)
        ≡ insert t tt acc
  kept_tld t acc h = ground (arith, h.normal, h.not_empty)

  pub load_tlds-put_all :
      (m acc : KeySet Text) → IsNames lower m → load_tlds lower (keys m) acc ≡ put_all m acc
  unfolding load_tlds put_all
  load_tlds-put_all [] acc h = refl
  load_tlds-put_all ((t, u) ∷ m) acc h =
      ap (load_tlds lower (keys m)) (kept_tld t acc h.0) ∙ load_tlds-put_all m (insert t tt acc) h.1

-- What the index that is built says, and that it says all that it must: `target` is a reading of the
-- names under which the domains are known.
pub index_all_sound :
    (m : Map ℕ Domain) (acc : Map Text ℕ) (n : Text) (i : ℕ)
    → IsOrdered m
    → lookup n (index_all m acc) ≡ some i
    → (lookup n acc ≡ some i) ⊎ ((d : Domain) × (lookup i m ≡ some d) × (d.name ≡ n))
unfolding index_all lookup
index_all_sound [] acc n i o h = inl h
index_all_sound ((j, w) ∷ m) acc n i o h =
    elim (index_all_sound m (insert w.name j acc) n i o.1 h) [
      | inl before ↦ elim (Bool-cases (n == w.name)) [
        | inl e ↦ inr (
          w,
          ground (arith, lookup-insert n w.name j acc, lookup_head j w m),
          sym ((text_key.beq_iff n w.name).0 e),
        )
        | inr e ↦ inl (ground (arith, lookup-insert n w.name j acc))
      ]
      | inr (d, found, bears) ↦ inr (d, lookup-cons_tail i j d w m o.0 found, bears)
    ]

written :
    (n : Text) (i j : ℕ) (w : Domain) (m : Map ℕ Domain) (acc target : Map Text ℕ)
    → lookup w.name target ≡ some j
    → lookup n target ≡ some i
    → (lookup n acc ≡ some i) ⊎ ((d : Domain) × (lookup i ((j, w) ∷ m) ≡ some d) × (d.name ≡ n))
    → (lookup n (insert w.name j acc) ≡ some i)
      ⊎ ((d : Domain) × (lookup i m ≡ some d) × (d.name ≡ n))
written n i j w m acc target known t (inl h) =
    inl (ground (arith, lookup-insert n w.name j acc, text_key.beq_iff n w.name))
written n i j w m acc target known t (inr (d, found, bears)) =
    elim (lookup-cons_cases i j d w m found) [
      | inl (i≡j, w≡d) ↦
          inl (ground (arith, lookup-insert n w.name j acc, text_key.beq_iff n w.name))
      | inr (other, there) ↦ inr (d, there, bears)
    ]

pub index_all_complete :
    (m : Map ℕ Domain) (acc target : Map Text ℕ) (n : Text) (i : ℕ)
    → ((j : ℕ) (d : Domain) → lookup j m ≡ some d → lookup d.name target ≡ some j)
    → IsOrdered m
    → lookup n target ≡ some i
    → (lookup n acc ≡ some i) ⊎ ((d : Domain) × (lookup i m ≡ some d) × (d.name ≡ n))
    → lookup n (index_all m acc) ≡ some i
unfolding index_all lookup
index_all_complete [] acc target n i known o t (inl h) = h
index_all_complete [] acc target n i known o t (inr (d, h, e)) = absurd (cc h)
index_all_complete ((j, w) ∷ m) acc target n i known o t h =
    index_all_complete m (insert w.name j acc) target n i
      (λ k d e. known k d (lookup-cons_tail k j d w m o.0 e)) o.1 t
      (written n i j w m acc target (known j w (lookup_head j w m)) t h)
