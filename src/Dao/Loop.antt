-- ===== src/Dao/Loop.antt =====
-- The loop of `EndBlocker` over the proposals that are due.
use mathlib.Core.Path.{subst}
use dnsblockchain.Prelude.{
  ℕ, ◌≡◌, ◌≢◌, refl, sym, ap, ◌∙◌, Bool, true, false, ◌&&◌, none, some, List, [], ◌∷◌, ◌⊎◌, inl,
  inr, arith, ltb, if◌then◌else◌, All, Bool-cases,
}
use dnsblockchain.Sdk.{Platform, Context, ok, ◌>>=◌}
use dnsblockchain.Store.{Map, nat_key, beq_refl, lookup, lookup-insert}
use dnsblockchain.Store.Order.{Above, IsOrdered}
use dnsblockchain.Dao.Types.{Proposal, DaoParams, DaoKeeper, is_voting}
use dnsblockchain.Dao.External.{Codec, Decimals, TldRegistry}
use dnsblockchain.Dao.Store.{DaoChain}
use dnsblockchain.Dao.Tally.{tally_of}
use dnsblockchain.Dao.EndBlock.{due_proposals, process_proposal, process_proposals, end_blocker}
use dnsblockchain.Dao.Frame.{get_params-found}
use dnsblockchain.Dao.Closing.{
  NotIn, IsKeyed, ClosedBy, closed, closed-ClosedBy, process_proposal_effect,
}

-- The proposal is in its voting period, and this has ended.
abbrev pub is_due : ℕ → Proposal → Bool
is_due height q = is_voting q.status && ltb q.voting_end_block height

pub due_proposals-Above :
    (h i : ℕ) (m : Map ℕ Proposal) → All (Above i) m → IsKeyed m → NotIn i (due_proposals h m)
unfolding due_proposals
due_proposals-Above h i [] a k = tt
due_proposals-Above h i ((j, w) ∷ m) a k = ground (arith, due_proposals-Above h i m a.1 k.1)

due_proposals-none :
    (h i : ℕ) (m : Map ℕ Proposal) → lookup i m ≡ none → IsKeyed m → NotIn i (due_proposals h m)
unfolding due_proposals lookup
due_proposals-none h i [] e k = tt
due_proposals-none h i ((j, w) ∷ m) e k =
    ground (arith, due_proposals-none h i m, k.0, k.1, nat_key.beq_iff i j)

due_proposals-not_due :
    (h i : ℕ) (m : Map ℕ Proposal) (q : Proposal)
    → lookup i m ≡ some q
    → is_due h q ≡ false
    → IsOrdered m
    → IsKeyed m
    → NotIn i (due_proposals h m)
unfolding due_proposals lookup
due_proposals-not_due h i [] q e n o k = tt
due_proposals-not_due h i ((j, w) ∷ m) q e n o k = ground (
  arith,
  due_proposals-not_due h i m q,
  due_proposals-Above h i m,
  k.0,
  k.1,
  o.0,
  o.1,
  nat_key.beq_iff i j,
)

pub due_proposals-cons :
    (h j : ℕ) (w : Proposal) (m : Map ℕ Proposal)
    → due_proposals h ((j, w) ∷ m)
      ≡ (if is_due h w then w ∷ due_proposals h m else due_proposals h m)
unfolding due_proposals
due_proposals-cons h j w m = refl

pub tally_of-votes : (i : ℕ) (k k' : DaoKeeper) → k.votes ≡ k'.votes → tally_of i k ≡ tally_of i k'
unfolding tally_of
tally_of-votes i k k' e = rw e refl

pub lookup-nil : (i : ℕ) (q : Proposal) → ¬ (lookup i [] ≡ some q)
unfolding lookup
lookup-nil i q e = ground arith

pub lookup-cons :
    (i j : ℕ) (w q : Proposal) (m : Map ℕ Proposal)
    → lookup i ((j, w) ∷ m) ≡ some q
    → (i ≡ j) × (w ≡ q) ⊎ (i ≢ j) × (lookup i m ≡ some q)
unfolding lookup
lookup-cons i j w q m e = ground (arith, nat_key.beq_iff i j)

module _ (codec : Codec) (d : Decimals) (g : TldRegistry) (p : Platform) where
  open g use {Registry}
  open p use {Bank}

  pub process_proposals-NotIn :
      (ctx : Context) (params : DaoParams) (i : ℕ) (qs : List Proposal) (s : DaoChain Registry Bank)
      → NotIn i qs
      → lookup i (process_proposals codec d g p ctx params qs s).keeper.proposals
        ≡ lookup i s.keeper.proposals
  unfolding process_proposals
  process_proposals-NotIn ctx params i [] s n = refl
  process_proposals-NotIn ctx params i (q ∷ qs) s n =
      let next = process_proposal codec d g p ctx params q s in
      let effect = process_proposal_effect codec d g p ctx params q s in
      process_proposals-NotIn ctx params i qs next n.1
      ∙ ap (lookup i) effect.0
      ∙ ground (
        arith,
        lookup-insert i q.id (closed codec d g p ctx params q s) s.keeper.proposals,
        nat_key.beq_iff i q.id,
        n.0,
      )

  -- The proposal `q` is closed by the votes of `s` and stored in `t`.
  abbrev pub ClosedIn : DaoChain Registry Bank → DaoChain Registry Bank → Proposal → Type 0
  ClosedIn s t q =
      (q' : Proposal) × (lookup q.id t.keeper.proposals ≡ some q')
      × ClosedBy codec d g p (tally_of q.id s.keeper) q q'

  process_proposals-head :
      (ctx : Context) (params : DaoParams) (q : Proposal) (qs : List Proposal)
      (s : DaoChain Registry Bank)
      → NotIn q.id qs
      → ClosedIn s (process_proposals codec d g p ctx params (q ∷ qs) s) q
  unfolding process_proposals
  process_proposals-head ctx params q qs s n =
      let new = closed codec d g p ctx params q s in
      (
        new,
        process_proposals-NotIn ctx params q.id qs (process_proposal codec d g p ctx params q s) n
            ∙ ap (lookup q.id) (process_proposal_effect codec d g p ctx params q s).0
            ∙ lookup-insert q.id q.id new s.keeper.proposals
            ∙ rw (beq_refl q.id) refl,
        closed-ClosedBy codec d g p ctx params q s,
      )

  process_proposals-ClosedIn :
      (ctx : Context) (params : DaoParams) (i : ℕ) (m : Map ℕ Proposal) (q : Proposal)
      (s : DaoChain Registry Bank)
      → lookup i m ≡ some q
      → is_due ctx.height q ≡ true
      → IsOrdered m
      → IsKeyed m
      → ClosedIn s (process_proposals codec d g p ctx params (due_proposals ctx.height m) s) q
  unfolding process_proposals
  process_proposals-ClosedIn ctx params i [] q s e y o k = absurd (lookup-nil i q e)
  process_proposals-ClosedIn ctx params i ((j, w) ∷ m) q s e y o k =
      elim (lookup-cons i j w q m e) [
        | inl (i≡j, w≡q) ↦
            subst
              (λ x.
                ClosedIn s
                  (process_proposals codec d g p ctx params (due_proposals ctx.height ((j, w) ∷ m))
                    s)
                  x)
              w≡q
              (rw (due_proposals-cons ctx.height j w m) (
                rw (ap (is_due ctx.height) w≡q ∙ y) (
                  process_proposals-head ctx params w (due_proposals ctx.height m) s (
                    due_proposals-Above ctx.height w.id m
                      (subst (λ x. All (Above x) m) (sym k.0) o.0) k.1))))
        | inr (i≢j, there) ↦
            rw (due_proposals-cons ctx.height j w m) (elim (Bool-cases (is_due ctx.height w)) [
              | inl due ↦ rw due (
                  subst
                    (λ v.
                      (q' : Proposal) × (lookup q.id
                          (process_proposals codec d g p ctx params (w ∷ due_proposals ctx.height m)
                            s).keeper.proposals
                        ≡ some q')
                      × ClosedBy codec d g p v q q')
                    (tally_of-votes q.id (process_proposal codec d g p ctx params w s).keeper
                      s.keeper (process_proposal_effect codec d g p ctx params w s).1)
                    (process_proposals-ClosedIn ctx params i m q
                      (process_proposal codec d g p ctx params w s) there y o.1 k.1))
              | inr late ↦ rw late (process_proposals-ClosedIn ctx params i m q s there y o.1 k.1)
            ])
      ]

  -- What a block does to the proposal under an id.
  pub record Block (height : ℕ) (s t : DaoChain Registry Bank) (i : ℕ) : Type 0 where
    pub absent : lookup i s.keeper.proposals ≡ none → lookup i t.keeper.proposals ≡ none
    pub open_still :
        (q : Proposal)
        → lookup i s.keeper.proposals ≡ some q
        → is_due height q ≡ false
        → lookup i t.keeper.proposals ≡ some q
    pub over :
        (q : Proposal)
        → lookup i s.keeper.proposals ≡ some q
        → is_due height q ≡ true
        → ClosedIn s t q

  pub process_proposals-Block :
      (ctx : Context) (params : DaoParams) (s : DaoChain Registry Bank)
      → IsOrdered s.keeper.proposals
      → IsKeyed s.keeper.proposals
      → (i : ℕ)
      → Block ctx.height s
          (process_proposals codec d g p ctx params (due_proposals ctx.height s.keeper.proposals) s)
          i
  process_proposals-Block ctx params s o k i =
      let due = due_proposals ctx.height s.keeper.proposals in
      record {
        absent = λ e.
            process_proposals-NotIn ctx params i due s
              (due_proposals-none ctx.height i s.keeper.proposals e k)
            ∙ e;
        open_still = λ q e n.
            process_proposals-NotIn ctx params i due s
              (due_proposals-not_due ctx.height i s.keeper.proposals q e n o k)
            ∙ e;
        over = λ q e y. process_proposals-ClosedIn ctx params i s.keeper.proposals q s e y o k;
      }

  -- When the parameters are set and the proposals are stored in key order under their ids, the end
  -- of a block returns without error, and for every id: no proposal appears where there was none, a
  -- proposal that is not in its voting period or whose voting period is not over is as it was, and
  -- one that is in its voting period after its end is closed by the votes that stood before: its
  -- status is executed, rejected or failed, its three counts are those of the tally, and the rest
  -- of it is as it was.
  pub end_blocker_effect :
      (ctx : Context) (params : DaoParams) (s : DaoChain Registry Bank)
      → s.keeper.params ≡ some params
      → IsOrdered s.keeper.proposals
      → IsKeyed s.keeper.proposals
      → ((end_blocker codec d g p ctx s).0 ≡ ok tt)
        × ((i : ℕ) → Block ctx.height s (end_blocker codec d g p ctx s).1 i)
  unfolding end_blocker ◌>>=◌
  end_blocker_effect ctx params s e o k =
      subst (λ r. (r.0 ≡ ok tt) × ((i : ℕ) → Block ctx.height s r.1 i))
        (sym (get_params-found _ s params e)) (refl, process_proposals-Block ctx params s o k)
