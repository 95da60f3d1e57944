-- ===== src/App/Housed.antt =====
-- The domains of x/dnsblockchain lie under permitted TLDs, whatever a message
-- (x/dnsblockchain/keeper/msg_server_domain.go) or an execution of x/dao
-- (x/dao/keeper/end_blocker.go) does.
use mathlib.Core.Path.{subst}
use dnsblockchain.Prelude.{
  ℕ, ◌≡◌, ◌≢◌, refl, sym, ap, ◌∙◌, true, false, some, [], arith, Bool-cases, inl, inr,
}
use dnsblockchain.Go.Text.{Text, has_dot, split_dots, IsLowering}
use dnsblockchain.Go.Text.Normal.{normal_tld}
use dnsblockchain.Sdk.{Platform, either_way}
use dnsblockchain.Store.{nat_key, text_key, lookup, lookup-insert, lookup-remove}
use dnsblockchain.Dns.Types.{Domain, Keeper, Chain}
use dnsblockchain.Dns.Permitted.{is_tld_permitted}
use dnsblockchain.Dns.Tlds.{permitting}
use dnsblockchain.Dns.Msg.{tld_of_parts}
use dnsblockchain.Dns.Index.Handlers.{other_stores}
use dnsblockchain.Dns.Index.Steps.{
  Change, unchanged, adding, replacing, dropping, permitting_tld, setting, Step, create, update,
  delete, heartbeat, transfer, params, permit,
}
use dnsblockchain.Dns.Effects.Create.{create_domain_effect}
use dnsblockchain.Dns.Effects.Update.{update_domain_effect}
use dnsblockchain.Dns.Effects.Others.{
  delete_domain_effect, heartbeat_domain_effect, transfer_domain_effect, update_params_effect,
}
use dnsblockchain.Dns.Genesis.Restore.{IsSound}
use dnsblockchain.Dns.Genesis.Sound.{Change-IsTidy}
use dnsblockchain.App.{IsMessage}
use dnsblockchain.App.Block.{Permits, none_new, one_new}

-- The domain's name has two labels, the second of which is permitted.
abbrev pub HasHouse : (ℕ → ℕ) → Keeper → Domain → Type 0
HasHouse lower k d =
    (tld : Text) × (tld_of_parts (split_dots d.name) ≡ some tld)
    × (is_tld_permitted lower tld k ≡ true)

abbrev pub IsHoused : (ℕ → ℕ) → Keeper → Type 0
IsHoused lower k = (i : ℕ) (d : Domain) → lookup i k.domain ≡ some d → HasHouse lower k d

pub is_tld_permitted-insert :
    (lower : ℕ → ℕ) (t u : Text) (k : Keeper)
    → is_tld_permitted lower u k ≡ true
    → is_tld_permitted lower u (permitting t k) ≡ true
unfolding is_tld_permitted
is_tld_permitted-insert lower t u k h =
    ground (arith, lookup-insert (normal_tld lower u) t tt k.permitted_tlds, text_key.beq_iff u t)

is_tld_permitted-same :
    (lower : ℕ → ℕ) (u : Text) (k k' : Keeper)
    → k'.permitted_tlds ≡ k.permitted_tlds
    → is_tld_permitted lower u k' ≡ is_tld_permitted lower u k
unfolding is_tld_permitted
is_tld_permitted-same lower u k k' e = rw e refl

-- Stores with the same domains where what was permitted still is.
permitting-IsHoused :
    (lower : ℕ → ℕ) (t : Text) (k : Keeper) → IsHoused lower k → IsHoused lower (permitting t k)
permitting-IsHoused lower t k v i d there =
    let (tld, two, ok_tld) = v i d there in (tld, two, is_tld_permitted-insert lower t tld k ok_tld)

module _ (p : Platform) where
  open p use {lower, Bank}

  -- A house in stores with the same TLDs.
  moved :
      (k k' : Keeper) (d : Domain)
      → k'.permitted_tlds ≡ k.permitted_tlds
      → HasHouse lower k d
      → HasHouse lower k' d
  moved k k' d e (tld, two, good) = (tld, two, is_tld_permitted-same lower tld k k' e ∙ good)

  renamed : (k : Keeper) (d e : Domain) → d.name ≡ e.name → HasHouse lower k e → HasHouse lower k d
  renamed k d e same (tld, two, good) =
      (tld, ap (λ n. tld_of_parts (split_dots n)) same ∙ two, good)

  pub Change-IsHoused : (k k' : Keeper) → IsHoused lower k → Change p k k' → IsHoused lower k'
  Change-IsHoused k k' v (unchanged e) = subst (IsHoused lower) (sym e) v
  Change-IsHoused k k' v (adding name d e full tld two permitted free next_id s) =
      subst (IsHoused lower) (sym s) λ i w there. elim (Bool-cases (nat_key.beq i k.domain_seq)) [
        | inl same ↦ moved k _ w refl (
            renamed k w d (ground (arith, lookup-insert i k.domain_seq d k.domain))
              (tld, two, permitted))
        | inr other ↦
            moved k _ w refl (v i w (ground (arith, lookup-insert i k.domain_seq d k.domain)))
      ]
  Change-IsHoused k k' v (replacing i old d found e same s) =
      subst (IsHoused lower) (sym s) λ j w there. elim (Bool-cases (nat_key.beq j i)) [
        | inl here ↦
            moved k _ w refl
              (renamed k w old (ground (arith, lookup-insert j i d k.domain)) (v i old found))
        | inr other ↦ moved k _ w refl (v j w (ground (arith, lookup-insert j i d k.domain)))
      ]
  Change-IsHoused k k' v (dropping i old found s) =
      subst (IsHoused lower) (sym s)
        λ j w there. moved k _ w refl (v j w (ground (arith, lookup-remove j i k.domain)))
  Change-IsHoused k k' v (permitting_tld tld t e full one s) =
      subst (IsHoused lower) (sym s) (permitting-IsHoused lower t k v)
  Change-IsHoused k k' v (setting ps valid s) =
      subst (IsHoused lower) (sym s) λ i d there. moved k _ d refl (v i d there)

  pub Permits-IsHoused : (k k' : Keeper) → IsHoused lower k → Permits lower k k' → IsHoused lower k'
  Permits-IsHoused k k' v (none_new _ _ e) = subst (IsHoused lower) (sym e) v
  Permits-IsHoused k k' v (one_new _ _ tld full one r) =
      Permits-IsHoused _ k' (permitting-IsHoused lower (normal_tld lower tld) k v) r

  -- The TLDs stay as they are.
  abbrev pub SameTlds : Chain Bank → Chain Bank → Type 0
  SameTlds s t = t.keeper.permitted_tlds ≡ s.keeper.permitted_tlds

  by_keeper :
      (s t : Chain Bank) (k : Keeper)
      → t.keeper ≡ k
      → k.permitted_tlds ≡ s.keeper.permitted_tlds
      → SameTlds s t
  by_keeper s t k e same = ap (λ x. x.permitted_tlds) e ∙ same

  by_chain : (s t : Chain Bank) → t ≡ s → SameTlds s t
  by_chain s t e = ap (λ x. x.keeper.permitted_tlds) e

  -- No message adds a TLD.
  pub Step-SameTlds : (s t : Chain Bank) (st : Step p s t) → IsMessage st → SameTlds s t
  Step-SameTlds s t (create ctx msg e) m = subst (SameTlds s) (sym e) (
      either_way (SameTlds s) (create_domain_effect p ctx msg s)
        (λ id u c. by_keeper s u _ c.written refl) (λ u same. by_keeper s u _ same refl))
  Step-SameTlds s t (update msg e) m = subst (SameTlds s) (sym e) (
      either_way (SameTlds s) (update_domain_effect p msg s)
        (λ _ u c. by_keeper s u _ c.written refl) (by_chain s))
  Step-SameTlds s t (delete msg e) m = subst (SameTlds s) (sym e) (
      either_way (SameTlds s) (delete_domain_effect p msg s)
        (λ _ u c. by_keeper s u _ c.written refl) (by_chain s))
  Step-SameTlds s t (heartbeat ctx msg e) m = subst (SameTlds s) (sym e) (
      either_way (SameTlds s) (heartbeat_domain_effect p ctx msg s)
        (λ _ u c. by_keeper s u _ c.written refl) (by_chain s))
  Step-SameTlds s t (transfer msg e) m = subst (SameTlds s) (sym e) (
      either_way (SameTlds s) (transfer_domain_effect p msg s)
        (λ _ u c. by_keeper s u _ c.0.written refl) (by_chain s))
  Step-SameTlds s t (params authority msg e) m = subst (SameTlds s) (sym e) (
      either_way (SameTlds s) (update_params_effect p authority msg s)
        (λ _ u c. ap (λ x. x.keeper.permitted_tlds) c.2) (by_chain s))
  Step-SameTlds s t (permit tld e) m = absurd m

module _ (p : Platform) (l : IsLowering p.lower) where
  open p use {lower, Bank}

  permitting-IsSound :
      (tld : Text) (k : Keeper)
      → normal_tld lower tld ≢ []
      → has_dot (normal_tld lower tld) ≡ false
      → IsSound lower k
      → IsSound lower (permitting (normal_tld lower tld) k)
  permitting-IsSound tld k full one v = record {
    indexed = other_stores k _ _ v.indexed;
    tidy =
        Change-IsTidy p l k (permitting (normal_tld lower tld) k) v.tidy
          (permitting_tld tld (normal_tld lower tld) refl full one refl);
  }

  pub Permits-IsSound : (k k' : Keeper) → IsSound lower k → Permits lower k k' → IsSound lower k'
  Permits-IsSound k k' v (none_new _ _ e) = subst (IsSound lower) (sym e) v
  Permits-IsSound k k' v (one_new _ _ tld full one r) =
      Permits-IsSound _ k' (permitting-IsSound tld k full one v) r

-- Executions leave the sequence of domain ids as it is.
pub Permits-seq :
    (lower : ℕ → ℕ) (k k' : Keeper) → Permits lower k k' → k'.domain_seq ≡ k.domain_seq
Permits-seq lower k k' (none_new _ _ e) = ap (λ x. x.domain_seq) e
Permits-seq lower k k' (one_new _ _ tld full one r) = Permits-seq lower _ k' r
