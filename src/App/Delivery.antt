-- ===== src/App/Delivery.antt =====
-- A TLD that is voted for becomes permitted (x/dao/keeper/end_blocker.go,
-- x/dnsblockchain/keeper/keeper.go).
use mathlib.Core.Path.{subst}
use dnsblockchain.Prelude.{
  ℕ, ◌≡◌, refl, sym, ap, ◌∙◌, true, false, some, List, [], ◌∷◌, ◌⊎◌, inl, inr, Bool-cases,
}
use dnsblockchain.Go.Text.{Text}
use dnsblockchain.Go.Text.Normal.{normal_name, normal_tld}
use dnsblockchain.Sdk.{Platform, Context, Coins, Result, ok, err, ◌>>=◌}
use dnsblockchain.Store.{Map, nat_key, text_key, lookup}
use dnsblockchain.Dns.Types.{Keeper}
use dnsblockchain.Dns.Tld.{is_reserved_tld}
use dnsblockchain.Dns.Permitted.{is_tld_permitted, is_tld_globally_reserved}
use dnsblockchain.Dao.{
  AddTld, add_tld, Proposal, DaoParams, ProposalStatus, passed, Codec, Decimals, unpacked, DaoChain,
  set_proposal,
}
use dnsblockchain.Dao.Content.{validate_add_tld}
use dnsblockchain.Dao.Submit.{required_deposit}
use dnsblockchain.Dao.Tally.{tally_of, tallied, verdict}
use dnsblockchain.Dao.Execute.{execute_content, execute_proposal}
use dnsblockchain.Dao.EndBlock.{
  due_proposals, settle, deposit_of, checked_status, after_execution, process_proposal,
  process_proposals, end_blocker,
}
use dnsblockchain.Dao.Closing.{process_proposal_effect}
use dnsblockchain.Dao.Loop.{is_due, due_proposals-cons, tally_of-votes, lookup-nil, lookup-cons}
use dnsblockchain.Dao.Frame.{get_params-found}
use dnsblockchain.Dao.Agreement.{keeper_registry, accepted_tld-permitted, same_tld}
use dnsblockchain.App.Execution.{
  Grants, no_grant, grant, process_proposal-Grants, refund_deposit-SameRegistry,
}
use dnsblockchain.App.Block.{Permits, none_new, one_new, process_proposals-Permits}
use dnsblockchain.App.Housed.{is_tld_permitted-insert}

-- The proposal is in the list.
abbrev IsListed : Proposal → List Proposal → Type 0
IsListed q [] = ⊥
IsListed q (r ∷ rs) = (r ≡ q) ⊎ IsListed q rs

due-IsListed :
    (h i : ℕ) (m : Map ℕ Proposal) (q : Proposal)
    → lookup i m ≡ some q
    → is_due h q ≡ true
    → IsListed q (due_proposals h m)
unfolding due_proposals
due-IsListed h i [] q e y = absurd (lookup-nil i q e)
due-IsListed h i ((j, w) ∷ m) q e y =
    rw (due_proposals-cons h j w m) (elim (lookup-cons i j w q m e) [
      | inl (i≡j, w≡q) ↦ rw (ap (is_due h) w≡q ∙ y) (inl w≡q)
      | inr (i≢j, there) ↦
          let rest = due-IsListed h i m q there y in
          elim (Bool-cases (is_due h w)) [ inl due ↦ rw due (inr rest) | inr late ↦ rw late rest ]
    ])

Permits-permitted :
    (lower : ℕ → ℕ) (t : Text) (k k' : Keeper)
    → Permits lower k k'
    → is_tld_permitted lower t k ≡ true
    → is_tld_permitted lower t k' ≡ true
Permits-permitted lower t k k' (none_new _ _ e) h =
    subst (λ x. is_tld_permitted lower t x ≡ true) (sym e) h
Permits-permitted lower t k k' (one_new _ _ tld full one r) h =
    Permits-permitted lower t _ k' r (is_tld_permitted-insert lower (normal_tld lower tld) t k h)

module _ (codec : Codec) (d : Decimals) (p : Platform) where
  open codec use {unpack_any}
  open p use {lower, Bank}

  abbrev World : Type 0
  World = DaoChain Keeper Bank

  Grants-permitted :
      (q : Proposal) (was st : ProposalStatus) (t : Text) (k k' : Keeper)
      → Grants codec lower q was st k k'
      → is_tld_permitted lower t k ≡ true
      → is_tld_permitted lower t k' ≡ true
  Grants-permitted q was st t k k' (no_grant e) h =
      subst (λ x. is_tld_permitted lower t x ≡ true) (sym e) h
  Grants-permitted q was st t k k' (grant c e before x full one w) h =
      subst (λ x. is_tld_permitted lower t x ≡ true) (sym w)
        (is_tld_permitted-insert lower (normal_tld lower c.tld) t k h)

  -- A proposal for a TLD that the checks let through and that the tally lets pass.
  pub record IsWinning (params : DaoParams) (c : AddTld) (q : Proposal) (s : World) : Type 0 where
    pub content : unpack_any q.content ≡ unpacked (add_tld c)
    pub valid : validate_add_tld c ≡ ok tt
    pub free : is_reserved_tld lower (normal_name lower c.tld) ≡ false
    pub wins : verdict d params q.total_voting_power_at_snapshot (tally_of q.id s.keeper) ≡ passed

  due_deposit :
      (c : AddTld) (params : DaoParams) (k : Keeper)
      → is_reserved_tld lower (normal_name lower c.tld) ≡ false
      → is_tld_permitted lower (normal_name lower c.tld) k ≡ false
      → required_deposit codec (keeper_registry lower) p (add_tld c) params k
        ≡ ok params.add_tld_proposal_cost
  unfolding required_deposit is_tld_globally_reserved
  due_deposit c params k e f = rw (e, f) refl

  after_execution-permitted :
      (q : Proposal) (deposit : Coins) (t : Text) (r : Result (Unit {0}) × World)
      → r.0 ≡ ok tt
      → is_tld_permitted lower t r.1.registry ≡ true
      → is_tld_permitted lower t
          (after_execution codec d (keeper_registry lower) p q deposit r).1.registry
        ≡ true
  after_execution-permitted q deposit t (ok u, s) e h =
      subst (λ x. is_tld_permitted lower t x ≡ true)
        (sym (refund_deposit-SameRegistry codec d (keeper_registry lower) p q.proposer deposit s)) h
  after_execution-permitted q deposit t (err x, s) e h = absurd (cc e)

  execute-permitted :
      (ctx : Context) (params : DaoParams) (c : AddTld) (q : Proposal) (s : World)
      → IsWinning params c q s
      → is_tld_permitted lower (normal_name lower c.tld) s.registry ≡ false
      → let r = execute_proposal codec (keeper_registry lower) p ctx q s in
        (r.0 ≡ ok tt) × (is_tld_permitted lower c.tld r.1.registry ≡ true)
  unfolding execute_proposal execute_content
  execute-permitted ctx params c q s win new = rw win.content (
      accepted_tld-permitted codec p c params params.add_tld_proposal_cost s win.valid
        (due_deposit c params s.registry win.free new))

  settled-permitted :
      (ctx : Context) (params : DaoParams) (c : AddTld) (q : Proposal) (s : World)
      → IsWinning params c q s
      → is_tld_permitted lower (normal_name lower c.tld) s.registry ≡ false
      → is_tld_permitted lower c.tld
          (process_proposal codec d (keeper_registry lower) p ctx params q s).registry
        ≡ true
  unfolding process_proposal set_proposal tallied settle execute_proposal
  settled-permitted ctx params c q s win new =
      let counted = tallied d params q (tally_of q.id s.keeper) in
      let deposit = deposit_of params (unpack_any q.content) in
      let done = execute-permitted ctx params c q s win new in
      let won : checked_status (unpack_any q.content) counted.status ≡ passed =
        ap (λ u. checked_status u counted.status) win.content ∙ win.wins in
      subst
        (λ st.
          is_tld_permitted lower c.tld
            (settle codec d (keeper_registry lower) p ctx counted deposit st s).1.registry
          ≡ true)
        (sym won)
        (after_execution-permitted counted deposit c.tld
          (execute_proposal codec (keeper_registry lower) p ctx q s) done.0 done.1)

  process_proposal-permitted :
      (ctx : Context) (params : DaoParams) (c : AddTld) (q : Proposal) (s : World)
      → IsWinning params c q s
      → is_tld_permitted lower c.tld
          (process_proposal codec d (keeper_registry lower) p ctx params q s).registry
        ≡ true
  process_proposal-permitted ctx params c q s win =
      elim (Bool-cases (is_tld_permitted lower (normal_name lower c.tld) s.registry)) [
        | inl old ↦
            Grants-permitted q _ _ c.tld s.registry _
              (process_proposal-Grants codec d p ctx params q s)
              (sym (same_tld lower c s.registry win.valid) ∙ old)
        | inr new ↦ settled-permitted ctx params c q s win new
      ]

  process_proposals-permitted :
      (ctx : Context) (params : DaoParams) (c : AddTld) (q : Proposal) (qs : List Proposal)
      (s : World)
      → IsListed q qs
      → IsWinning params c q s
      → is_tld_permitted lower c.tld
          (process_proposals codec d (keeper_registry lower) p ctx params qs s).registry
        ≡ true
  unfolding process_proposals
  process_proposals-permitted ctx params c q [] s listed win = absurd listed
  process_proposals-permitted ctx params c q (r ∷ rs) s (inl r≡q) win =
      let mid = process_proposal codec d (keeper_registry lower) p ctx params r s in
      Permits-permitted lower c.tld mid.registry _
        (process_proposals-Permits codec d p ctx params rs mid)
        (process_proposal-permitted ctx params c r s
          (subst (λ x. IsWinning params c x s) (sym r≡q) win))
  process_proposals-permitted ctx params c q (r ∷ rs) s (inr later) win =
      let mid = process_proposal codec d (keeper_registry lower) p ctx params r s in
      let same =
        tally_of-votes q.id mid.keeper s.keeper
          (process_proposal_effect codec d (keeper_registry lower) p ctx params r s).1 in
      process_proposals-permitted ctx params c q rs mid later (record {
        content = win.content;
        valid = win.valid;
        free = win.free;
        wins = ap (verdict d params q.total_voting_power_at_snapshot) same ∙ win.wins;
      })

  -- When the parameters of x/dao are set and a proposal is stored whose voting period is over,
  -- whose content unpacks to one that adds a TLD and validates, whose TLD is not reserved, and
  -- which the tally of the stored votes lets pass, then IsTLDPermitted of x/dnsblockchain says yes
  -- for this TLD after the end of the block, whatever other proposals are settled before and after
  -- it, another one for the same TLD included, and whether the calls of the bank succeed or fail.
  pub end_blocker-permits :
      (ctx : Context) (params : DaoParams) (c : AddTld) (i : ℕ) (q : Proposal) (s : World)
      → s.keeper.params ≡ some params
      → lookup i s.keeper.proposals ≡ some q
      → is_due ctx.height q ≡ true
      → IsWinning params c q s
      → is_tld_permitted lower c.tld
          (end_blocker codec d (keeper_registry lower) p ctx s).1.registry
        ≡ true
  unfolding end_blocker ◌>>=◌
  end_blocker-permits ctx params c i q s e there due win =
      subst (λ r. is_tld_permitted lower c.tld r.1.registry ≡ true)
        (sym (get_params-found _ s params e))
        (process_proposals-permitted ctx params c q (due_proposals ctx.height s.keeper.proposals) s
          (due-IsListed ctx.height i s.keeper.proposals q there due) win)
