-- ===== src/Dns/Index/Steps.antt =====
-- The calls that reach the stores of x/dnsblockchain: its messages
-- (x/dnsblockchain/keeper/msg_server_domain.go, x/dnsblockchain/keeper/msg_update_params.go) and
-- `AddPermittedTLD` (x/dnsblockchain/keeper/keeper.go), and what each can make of the stores.
use mathlib.Core.Path.{subst}
use dnsblockchain.Prelude.{
  ℕ, zero, suc, ◌≡◌, ◌≢◌, refl, sym, ap, false, none, some, [], ◌∷◌, arith, ◌||◌, ltb, true,
}
use dnsblockchain.Go.Text.{Text, is_empty, has_dot, byte_len, split_dots}
use dnsblockchain.Go.Text.Normal.{normal_name, normal_tld}
use dnsblockchain.Sdk.{Platform, Address, Context, Ensures, succeeds, after_test, either_way, ok}
use dnsblockchain.Store.{nat_key, text_key, lookup, has}
use dnsblockchain.Dns.Types.{
  Domain, Params, Keeper, Chain, MsgCreateDomain, MsgUpdateDomain, MsgDeleteDomain,
  MsgHeartbeatDomain, MsgTransferDomain, MsgUpdateParams,
}
use dnsblockchain.Dns.Tld.{is_reserved_tld}
use dnsblockchain.Dns.Permitted.{
  is_tld_globally_reserved, is_tld_permitted, add_normal_tld, add_permitted_tld,
}
use dnsblockchain.Dns.Tlds.{permitting}
use dnsblockchain.Dns.Msg.{
  tld_of_parts, create_domain, update_domain, delete_domain, heartbeat_domain, transfer_domain,
  validate_params, update_params,
}
use dnsblockchain.Dns.Index.Changes.{IsIndexed, added, replaced, dropped}
use dnsblockchain.Dns.Effects.Create.{requested, create_domain_effect}
use dnsblockchain.Dns.Effects.Update.{update_domain_effect}
use dnsblockchain.Dns.Effects.Others.{
  delete_domain_effect, heartbeat_domain_effect, transfer_domain_effect, update_params_effect,
}

-- The ways in which the stores change.
pub data Change (p : Platform) (k k' : Keeper) : Type 0 where
  unchanged : k' ≡ k → Change p k k'
  adding :
      (name : Text) (d : Domain)
      → d.name ≡ normal_name p.lower name
      → d.name ≢ []
      → (tld : Text) → tld_of_parts (split_dots d.name) ≡ some tld
      → is_tld_permitted p.lower tld k ≡ true
      → lookup d.name k.domain_name ≡ none
      → d.id ≡ k.domain_seq
      → k' ≡ added d k
      → Change p k k'
  replacing :
      (i : ℕ) (old d : Domain)
      → lookup i k.domain ≡ some old
      → d.id ≡ i
      → d.name ≡ old.name
      → k' ≡ replaced i d k
      → Change p k k'
  dropping :
      (i : ℕ) (old : Domain)
      → lookup i k.domain ≡ some old
      → k' ≡ dropped i old.name k
      → Change p k k'
  permitting_tld :
      (tld t : Text)
      → t ≡ normal_tld p.lower tld
      → t ≢ []
      → has_dot t ≡ false
      → k' ≡ permitting t k
      → Change p k k'
  setting :
      (ps : Params)
      → validate_params p ps ≡ ok tt
      → k' ≡ record k { params = some ps }
      → Change p k k'

-- A name of two labels is not empty.
two_labels-full : (n t : Text) → tld_of_parts (split_dots n) ≡ some t → n ≢ []
unfolding tld_of_parts split_dots
two_labels-full [] t h e = cc h
two_labels-full (c ∷ n) t h e = cc e

pub add_normal_tld-cases :
    (lower : ℕ → ℕ) (t : Text) (k : Keeper)
    → Ensures
        (λ _ k'. (t ≢ []) × (has_dot t ≡ false) × (k' ≡ permitting t k))
        (λ k'. k' ≡ k)
        (add_normal_tld lower t k)
unfolding add_normal_tld is_tld_globally_reserved
add_normal_tld-cases lower t k = after_test (is_reserved_tld lower t) _ k refl λ free.
    after_test (is_empty t) _ k refl λ full. after_test (has_dot t) _ k refl λ one.
      after_test (ltb 63 (byte_len t) || ltb (byte_len t) 2) _ k refl λ size.
        after_test (has t k.permitted_tlds) _ k refl λ new. succeeds _ _ (ground arith, one, refl)

module _ (p : Platform) where
  open p use {lower, Bank}

  -- One call, in a block.
  pub data Step (s s' : Chain Bank) : Type 0 where
    create :
        (ctx : Context) (msg : MsgCreateDomain) → s' ≡ (create_domain p ctx msg s).1 → Step s s'
    update : (msg : MsgUpdateDomain) → s' ≡ (update_domain p msg s).1 → Step s s'
    delete : (msg : MsgDeleteDomain) → s' ≡ (delete_domain p msg s).1 → Step s s'
    heartbeat :
        (ctx : Context) (msg : MsgHeartbeatDomain)
        → s' ≡ (heartbeat_domain p ctx msg s).1
        → Step s s'
    transfer : (msg : MsgTransferDomain) → s' ≡ (transfer_domain p msg s).1 → Step s s'
    params :
        (authority : Address) (msg : MsgUpdateParams)
        → s' ≡ (update_params p authority msg s).1
        → Step s s'
    permit :
        (tld : Text)
        → s' ≡ record s { keeper = (add_permitted_tld lower tld s.keeper).1 }
        → Step s s'

  pub data Reach (s : Chain Bank) : ℕ → Chain Bank → Type 0 where
    here : Reach s zero s
    next : {n : ℕ} {t u : Chain Bank} → Reach s n t → Step t u → Reach s (suc n) u

  module _ (s : Chain Bank) (v : IsIndexed s.keeper) where
    abbrev Fine : Chain Bank → Type 0
    Fine t = Change p s.keeper t.keeper

    same_chain : (t : Chain Bank) → t ≡ s → Fine t
    same_chain t e = unchanged (ap (λ x. x.keeper) e)

    pub Step-Change : (t : Chain Bank) → Step s t → Fine t
    unfolding add_permitted_tld
    Step-Change t (create ctx msg e) = subst Fine (sym e) (
        either_way Fine (create_domain_effect p ctx msg s)
          (λ id u c.
            adding msg.name (requested lower ctx msg id) refl
              (two_labels-full _ c.accepted.tld c.accepted.two_labels) c.accepted.tld
              c.accepted.two_labels c.accepted.permitted c.accepted.free c.next_id c.written)
          (λ u same. unchanged same))
    Step-Change t (update msg e) = subst Fine (sym e) (
        either_way Fine (update_domain_effect p msg s)
          (λ _ u c. replacing msg.id c.old c.new c.found c.id c.change.same_name c.written)
          same_chain)
    Step-Change t (delete msg e) = subst Fine (sym e) (
        either_way Fine (delete_domain_effect p msg s)
          (λ _ u c. dropping msg.id c.old c.found c.written) same_chain)
    Step-Change t (heartbeat ctx msg e) = subst Fine (sym e) (
        either_way Fine (heartbeat_domain_effect p ctx msg s)
          (λ _ u c. replacing msg.id c.old _ c.found (v.keyed msg.id c.old c.found) refl c.written)
          same_chain)
    Step-Change t (transfer msg e) = subst Fine (sym e) (
        either_way Fine (transfer_domain_effect p msg s)
          (λ _ u c.
            replacing msg.id c.0.old _ c.0.found (v.keyed msg.id c.0.old c.0.found) refl
              c.0.written)
          same_chain)
    Step-Change t (params authority msg e) = subst Fine (sym e) (
        either_way Fine (update_params_effect p authority msg s)
          (λ _ u c. setting msg.params c.1 (ap (λ x. x.keeper) c.2)) same_chain)
    Step-Change t (permit tld e) = subst Fine (sym e) (
        either_way (Change p s.keeper) (add_normal_tld-cases lower (normal_tld lower tld) s.keeper)
          (λ _ k c. permitting_tld tld (normal_tld lower tld) refl c.0 c.1 c.2)
          (λ k same. unchanged same))
