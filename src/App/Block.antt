-- ===== src/App/Block.antt =====
-- What the end of a block of x/dao (x/dao/keeper/end_blocker.go) does to the permitted TLDs of
-- x/dnsblockchain (x/dnsblockchain/keeper/keeper.go).
use mathlib.Core.Path.{subst}
use dnsblockchain.Prelude.{
  ℕ, ◌≡◌, ◌≢◌, refl, sym, ◌∙◌, ap, true, false, [], ◌∷◌, List, arith, some, ◌⊎◌, inl, inr,
  Bool-cases, All,
}
use dnsblockchain.Go.Text.{Text, has_dot}
use dnsblockchain.Go.Text.Normal.{normal_tld}
use dnsblockchain.Sdk.{Platform, Context, ◌>>=◌}
use dnsblockchain.Store.{Map, nat_key, text_key, lookup, has, lookup-insert, beq_refl}
use dnsblockchain.Store.Order.{IsOrdered, Above}
use dnsblockchain.Dns.Types.{Keeper}
use dnsblockchain.Dns.Tlds.{permitting}
use dnsblockchain.Dao.{
  Proposal, DaoParams, DaoKeeper, Codec, Decimals, DaoChain, ProposalStatus, passed,
}
use dnsblockchain.Dao.EndBlock.{due_proposals, process_proposal, process_proposals, end_blocker}
use dnsblockchain.Dao.Tally.{Tally, tally_of, tallied, verdict}
use dnsblockchain.Dao.Closing.{NotIn, IsKeyed, closed, closed-ClosedBy, process_proposal_effect}
use dnsblockchain.Dao.Loop.{
  is_due, due_proposals-Above, due_proposals-cons, process_proposals-NotIn,
}
use dnsblockchain.Dao.Frame.{get_params-found}
use dnsblockchain.Dao.Reach.{IsBook}
use dnsblockchain.Dao.Agreement.{keeper_registry}
use dnsblockchain.App.Voted.{Wins, Voted, tally_of-voted}
use dnsblockchain.App.Execution.{Grants, no_grant, grant, process_proposal-Grants}

-- The stores differ by TLDs that became permitted.
pub data Permits (lower : ℕ → ℕ) : Keeper → Keeper → Type 0 where
  none_new : (k k' : Keeper) → k' ≡ k → Permits lower k k'
  one_new :
      (k k' : Keeper) (tld : Text)
      → normal_tld lower tld ≢ []
      → has_dot (normal_tld lower tld) ≡ false
      → Permits lower (permitting (normal_tld lower tld) k) k'
      → Permits lower k k'

-- The proposals of the list have different ids.
abbrev Apart : List Proposal → Type 0
Apart [] = Unit
Apart (q ∷ qs) = NotIn q.id qs × Apart qs

due_proposals-Apart :
    (h : ℕ) (m : Map ℕ Proposal) → IsOrdered m → IsKeyed m → Apart (due_proposals h m)
unfolding due_proposals
due_proposals-Apart h [] o k = tt
due_proposals-Apart h ((j, w) ∷ m) o k = elim (Bool-cases (is_due h w)) [
  | inl due ↦ rw (due_proposals-cons h j w m) (
      rw due (
        due_proposals-Above h w.id m (subst (λ x. All (Above x) m) (sym k.0) o.0) k.1,
        due_proposals-Apart h m o.1 k.1,
      ))
  | inr late ↦ rw (due_proposals-cons h j w m) (rw late (due_proposals-Apart h m o.1 k.1))
]

-- A TLD permitted after another became so was permitted before, or is the other.
has-permitting :
    (t u : Text) (k : Keeper)
    → has u (permitting t k).permitted_tlds ≡ true
    → (has u k.permitted_tlds ≡ true) ⊎ (u ≡ t)
has-permitting t u k h = ground (arith, lookup-insert u t tt k.permitted_tlds, text_key.beq_iff u t)

module _ (codec : Codec) (d : Decimals) (p : Platform) where
  open p use {lower, Bank}

  abbrev World : Type 0
  World = DaoChain Keeper Bank

  -- A TLD that is permitted at the end was permitted at the start, or a proposal for it is executed.
  abbrev pub Grows : DaoParams → World → World → Type 0
  Grows params s t =
      (u : Text)
      → has u t.registry.permitted_tlds ≡ true
      → (has u s.registry.permitted_tlds ≡ true) ⊎ Voted codec d params lower t.keeper u

  -- A proposal that the tally lets pass is stored with counts that win.
  closed-Wins :
      (ctx : Context) (params : DaoParams) (q : Proposal) (s : World)
      → verdict d params q.total_voting_power_at_snapshot (tally_of q.id s.keeper) ≡ passed
      → Wins d params (closed codec d (keeper_registry lower) p ctx params q s)
  unfolding tallied
  closed-Wins ctx params q s e =
      subst (λ (t : Tally). verdict d params q.total_voting_power_at_snapshot t ≡ passed)
        (tally_of-voted q.id s.keeper) e

  -- One proposal of the block, whose record stays until the end of the block.
  Grants-back :
      (params : DaoParams) (was : ProposalStatus) (q q' : Proposal) (k k' : Keeper) (t : DaoKeeper)
      (u : Text)
      → Grants codec lower q was q'.status k k'
      → (was ≡ passed → Wins d params q')
      → q'.content ≡ q.content
      → lookup q.id t.proposals ≡ some q'
      → has u k'.permitted_tlds ≡ true
      → (has u k.permitted_tlds ≡ true) ⊎ Voted codec d params lower t u
  Grants-back params was q q' k k' t u (no_grant e) win same there h =
      inl (subst (λ x. has u x.permitted_tlds ≡ true) e h)
  Grants-back params was q q' k k' t u (grant c e before x full one w) win same there h =
      elim (has-permitting (normal_tld lower c.tld) u k
        (subst (λ x. has u x.permitted_tlds ≡ true) w h)) [
          | inl old ↦ inl old
          | inr new ↦ inr (record {
            id = q.id;
            proposal = q';
            stored = there;
            was_executed = x;
            wins = win before;
            proposes = (c, ap codec.unpack_any same ∙ e, new);
          })
        ]

  process_proposals-Grows :
      (ctx : Context) (params : DaoParams) (qs : List Proposal) (s : World)
      → Apart qs
      → Grows params s (process_proposals codec d (keeper_registry lower) p ctx params qs s)
  unfolding process_proposals
  process_proposals-Grows ctx params [] s a u h = inl h
  process_proposals-Grows ctx params (q ∷ qs) s a u h =
      let g = keeper_registry lower in
      let mid = process_proposal codec d g p ctx params q s in
      let new = closed codec d g p ctx params q s in
      elim (process_proposals-Grows ctx params qs mid a.1 u h) [
        | inr voted ↦ inr voted
        | inl early ↦
            Grants-back params _ q new s.registry mid.registry _ u
              (process_proposal-Grants codec d p ctx params q s) (closed-Wins ctx params q s)
              (ap (λ x. x.content) (closed-ClosedBy codec d g p ctx params q s).same_proposal)
              (process_proposals-NotIn codec d g p ctx params q.id qs mid a.0
                ∙ ap (lookup q.id) (process_proposal_effect codec d g p ctx params q s).0
                ∙ lookup-insert q.id q.id new s.keeper.proposals
                ∙ rw (beq_refl q.id) refl)
              early
      ]

  Grants-Permits :
      (q : Proposal) (was st : ProposalStatus) (k k' k'' : Keeper)
      → Grants codec lower q was st k k'
      → Permits lower k' k''
      → Permits lower k k''
  Grants-Permits q was st k k' k'' (no_grant e) r = subst (λ x. Permits lower x k'') e r
  Grants-Permits q was st k k' k'' (grant c e before x full one w) r =
      one_new k k'' c.tld full one (subst (λ x. Permits lower x k'') w r)

  pub process_proposals-Permits :
      (ctx : Context) (params : DaoParams) (qs : List Proposal) (s : World)
      → Permits lower s.registry
          (process_proposals codec d (keeper_registry lower) p ctx params qs s).registry
  unfolding process_proposals
  process_proposals-Permits ctx params [] s = none_new s.registry s.registry refl
  process_proposals-Permits ctx params (q ∷ qs) s =
      let mid = process_proposal codec d (keeper_registry lower) p ctx params q s in
      Grants-Permits q _ _ s.registry mid.registry _
        (process_proposal-Grants codec d p ctx params q s)
        (process_proposals-Permits ctx params qs mid)

  -- What the end of a block does to the TLDs.
  pub record Granting (params : DaoParams) (s t : World) : Type 0 where
    pub permits : Permits lower s.registry t.registry
    pub grows : Grows params s t

  pub same_registry :
      (params : DaoParams) (s t : World) → t.registry ≡ s.registry → Granting params s t
  same_registry params s t e = record {
    permits = none_new s.registry t.registry e;
    grows = λ u h. inl (subst (λ x. has u x.permitted_tlds ≡ true) e h);
  }

  -- When the parameters of x/dao are set and its proposals are stored in key order under their ids,
  -- then a TLD that is permitted after the end of a block was permitted before it, or a proposal
  -- that adds this TLD is stored as executed, with counts that meet the quorum and the threshold of
  -- the parameters; and the stores of x/dnsblockchain change by nothing but TLDs that become
  -- permitted, each normalised, not empty and without a dot.
  pub end_blocker-Granting :
      (ctx : Context) (params : DaoParams) (s : World)
      → s.keeper.params ≡ some params
      → IsBook s.keeper
      → Granting params s (end_blocker codec d (keeper_registry lower) p ctx s).1
  unfolding end_blocker ◌>>=◌
  end_blocker-Granting ctx params s e book =
      let due = due_proposals ctx.height s.keeper.proposals in
      subst (λ r. Granting params s r.1) (sym (get_params-found _ s params e))
        (record {
          permits = process_proposals-Permits ctx params due s;
          grows =
              process_proposals-Grows ctx params due s
                (due_proposals-Apart ctx.height s.keeper.proposals book.0 book.1);
        })
