-- ===== src/Dns/Registry/Refines.antt =====
-- The calls on the stores of x/dnsblockchain as steps of the registry of names.
use mathlib.Core.Path.{subst}
use dnsblockchain.Prelude.{ℕ, ◌≡◌, refl, sym, ap, ◌∙◌, some, [], ◌⊎◌, inl, inr}
use dnsblockchain.Go.Text.{Text}
use dnsblockchain.Sdk.{Platform, either_way}
use dnsblockchain.Store.{Map, nat_key, text_key, lookup}
use dnsblockchain.Dns.Types.{Domain, Keeper, Chain}
use dnsblockchain.Go.Time.{add_year}
use dnsblockchain.Go.Text.Normal.{normal_tld}
use dnsblockchain.Dns.Tlds.{permitting}
use dnsblockchain.Dns.Permitted.{add_permitted_tld}
use dnsblockchain.Dns.Index.Changes.{IsIndexed}
use dnsblockchain.Dns.Index.Steps.{
  Step, create, update, delete, heartbeat, transfer, params, permit, add_normal_tld-cases,
}
use dnsblockchain.Dns.Effects.Create.{requested, create_domain_effect}
use dnsblockchain.Dns.Effects.Update.{update_domain_effect}
use dnsblockchain.Dns.Effects.Others.{
  delete_domain_effect, heartbeat_domain_effect, transfer_domain_effect, update_params_effect,
}
use dnsblockchain.Dns.Registry.{
  domain_at, domain_at-same, names, Rights, Registrar, stays, registers, revises, releases,
  names-indexed, names-free, names-added, names-replaced, names-dropped,
}

module _ (p : Platform) where
  open p use {lower, Bank}

  -- Who signed the message; no one signs a call of `AddPermittedTLD`.
  abbrev pub signer_of : {s t : Chain Bank} → Step p s t → Text
  signer_of (create ctx msg e) = msg.creator
  signer_of (update msg e) = msg.creator
  signer_of (delete msg e) = msg.creator
  signer_of (heartbeat ctx msg e) = msg.creator
  signer_of (transfer msg e) = msg.creator
  signer_of (params authority msg e) = msg.authority
  signer_of (permit tld e) = []

  update-Rights :
      (signer : Text) (old new : Domain)
      → (signer ≡ old.creator) ⊎ (signer ≡ old.owner)
      → new.creator ≡ old.creator
      → (new.owner ≡ old.owner) ⊎ (signer ≡ old.creator)
      → Rights signer old new
  update-Rights signer old new (inl e) c o = inl e
  update-Rights signer old new (inr e) c (inl o) = inr (e, c, o)
  update-Rights signer old new (inr e) c (inr f) = inl f

  other_stores :
      (k k' : Keeper)
      → k'.domain ≡ k.domain
      → k'.domain_name ≡ k.domain_name
      → (n : Text) → names k' n ≡ names k n
  other_stores k k' e f n =
      ap (λ (m : Map Text ℕ). domain_at k' (lookup n m)) f
      ∙ domain_at-same k k' (lookup n k.domain_name)
          (λ i h. ap (λ (m : Map ℕ Domain). lookup i m) e)

  module _ (s : Chain Bank) (v : IsIndexed s.keeper) (signer : Text) where
    abbrev By : Keeper → Type 0
    By k = Registrar signer (names s.keeper) (names k)

    untouched : By s.keeper
    untouched = stays (λ n. refl)

    same_keeper : (k : Keeper) → k ≡ s.keeper → By k
    same_keeper k e = subst By (sym e) untouched

  -- Seen through the name index as a map from names to domains, a message to x/dnsblockchain,
  -- successful or not, does one of four things: it leaves the map as it was; it gives a free name
  -- to a domain that the signer created; it replaces the domain of one name by another of this
  -- name, where the signer is its creator, or its owner and the creator and the owner stay; or it
  -- frees one name whose domain the signer owns. A call of AddPermittedTLD leaves the map as it
  -- was. The name index and the domains agree before.
  pub Step-Registrar :
      (s t : Chain Bank) (st : Step p s t)
      → IsIndexed s.keeper
      → Registrar (signer_of st) (names s.keeper) (names t.keeper)
  unfolding add_permitted_tld
  Step-Registrar s t (create ctx msg e) v =
      subst (λ x. By s v msg.creator x.keeper) (sym e)
        (either_way (λ x. By s v msg.creator x.keeper) (create_domain_effect p ctx msg s)
          (λ id u c. subst (By s v msg.creator) (sym c.written) (
            registers (requested lower ctx msg id) refl (names-free s.keeper _ c.accepted.free)
              (names-added (requested lower ctx msg id) s.keeper v)))
          (λ u same. same_keeper s v msg.creator u.keeper same))
  Step-Registrar s t (update msg e) v =
      subst (λ x. By s v msg.creator x.keeper) (sym e)
        (either_way (λ x. By s v msg.creator x.keeper) (update_domain_effect p msg s)
          (λ _ u c. subst (By s v msg.creator) (sym c.written) (
            revises c.old c.new (names-indexed s.keeper msg.id c.old v c.found) c.change.same_name
              (update-Rights msg.creator c.old c.new c.rights c.change.same_creator
                (elim c.change.owner [ inl o ↦ inl o | inr x ↦ inr x.1 ]))
              (names-replaced msg.id c.old c.new s.keeper v c.found)))
          (λ u same. same_keeper s v msg.creator u.keeper (ap (λ x. x.keeper) same)))
  Step-Registrar s t (delete msg e) v =
      subst (λ x. By s v msg.creator x.keeper) (sym e)
        (either_way (λ x. By s v msg.creator x.keeper) (delete_domain_effect p msg s)
          (λ _ u c. subst (By s v msg.creator) (sym c.written) (
            releases c.old (names-indexed s.keeper msg.id c.old v c.found) c.rights
              (names-dropped msg.id c.old s.keeper v c.found)))
          (λ u same. same_keeper s v msg.creator u.keeper (ap (λ x. x.keeper) same)))
  Step-Registrar s t (heartbeat ctx msg e) v =
      subst (λ x. By s v msg.creator x.keeper) (sym e)
        (either_way (λ x. By s v msg.creator x.keeper) (heartbeat_domain_effect p ctx msg s)
          (λ _ u c. subst (By s v msg.creator) (sym c.written) (
            revises c.old (record c.old { expiration = add_year ctx.time })
              (names-indexed s.keeper msg.id c.old v c.found) refl
              (update-Rights msg.creator c.old (record c.old { expiration = add_year ctx.time })
                c.rights refl (inl refl))
              (names-replaced msg.id c.old (record c.old { expiration = add_year ctx.time })
                s.keeper v c.found)))
          (λ u same. same_keeper s v msg.creator u.keeper (ap (λ x. x.keeper) same)))
  Step-Registrar s t (transfer msg e) v =
      subst (λ x. By s v msg.creator x.keeper) (sym e)
        (either_way (λ x. By s v msg.creator x.keeper) (transfer_domain_effect p msg s)
          (λ _ u c. subst (By s v msg.creator) (sym c.0.written) (
            revises c.0.old _ (names-indexed s.keeper msg.id c.0.old v c.0.found) refl
              (inl c.0.rights) (names-replaced msg.id c.0.old _ s.keeper v c.0.found)))
          (λ u same. same_keeper s v msg.creator u.keeper (ap (λ x. x.keeper) same)))
  Step-Registrar s t (params authority msg e) v =
      subst (λ x. By s v msg.authority x.keeper) (sym e)
        (either_way (λ x. By s v msg.authority x.keeper) (update_params_effect p authority msg s)
          (λ _ u c.
            subst (λ x. By s v msg.authority x.keeper) (sym c.2)
              (stays
                (other_stores s.keeper (record s.keeper { params = some msg.params }) refl refl)))
          (λ u same. same_keeper s v msg.authority u.keeper (ap (λ x. x.keeper) same)))
  Step-Registrar s t (permit tld e) v =
      subst (λ x. By s v [] x.keeper) (sym e)
        (either_way (By s v []) (add_normal_tld-cases lower _ s.keeper)
          (λ _ k c.
            subst (By s v []) (sym c.2) (
              stays (other_stores s.keeper (permitting (normal_tld lower tld) s.keeper) refl refl)))
          (λ k same. same_keeper s v [] k same))
