-- ===== src/Dao/Reach.antt =====
-- The runs of x/dao: messages (x/dao/keeper/msg_server.go) and ends of blocks
-- (x/dao/keeper/end_blocker.go) in any order.
use mathlib.Core.Path.{subst}
use dnsblockchain.Prelude.{ℕ, ◌≡◌, refl, sym, List, [], ◌∷◌}
use dnsblockchain.Sdk.{Platform, Context, Ensures, succeeds, after_gets, either_way}
use dnsblockchain.Store.{Map, nat_key, insert}
use dnsblockchain.Store.Order.{IsOrdered, insert-IsOrdered, All-insert}
use dnsblockchain.Dao.Types.{Proposal, DaoParams, DaoKeeper, MsgSubmitProposal, MsgVote}
use dnsblockchain.Dao.External.{Codec, Decimals, TldRegistry}
use dnsblockchain.Dao.Store.{DaoChain}
use dnsblockchain.Dao.Submit.{submit_proposal, new_proposal}
use dnsblockchain.Dao.Vote.{vote}
use dnsblockchain.Dao.Tally.{tallied}
use dnsblockchain.Dao.EndBlock.{due_proposals, process_proposal, process_proposals, end_blocker}
use dnsblockchain.Dao.Ballot.{vote_effect}
use dnsblockchain.Dao.Opening.{submit_proposal_effect}
use dnsblockchain.Dao.Closing.{IsKeyed, closed, process_proposal_effect}
use dnsblockchain.Dao.Frame.{after_get_params}

-- The proposals of a keeper are in key order and stand under their ids.
abbrev pub IsBook : DaoKeeper → Type 0
IsBook k = IsOrdered k.proposals × IsKeyed k.proposals

insert-IsBook :
    (q : Proposal) (m : Map ℕ Proposal)
    → IsOrdered m × IsKeyed m
    → IsOrdered (insert q.id q m) × IsKeyed (insert q.id q m)
insert-IsBook q m b =
    (insert-IsOrdered q.id q m b.0, All-insert (λ e. e.1.id ≡ e.0) q.id q m refl b.1)

module _ (codec : Codec) (d : Decimals) (g : TldRegistry) (p : Platform) where
  open g use {Registry}
  open p use {Bank}

  -- A message, or the end of a block, whether it succeeds or not.
  pub data DaoStep (s s' : DaoChain Registry Bank) : Type 0 where
    submitting :
        (ctx : Context) (msg : MsgSubmitProposal)
        → s' ≡ (submit_proposal codec g p ctx msg s).1
        → DaoStep s s'
    voting : (ctx : Context) (msg : MsgVote) → s' ≡ (vote d p ctx msg s).1 → DaoStep s s'
    ending : (ctx : Context) → s' ≡ (end_blocker codec d g p ctx s).1 → DaoStep s s'

  pub data DaoReach (s : DaoChain Registry Bank) : DaoChain Registry Bank → Type 0 where
    start : DaoReach s s
    then_step : {t u : DaoChain Registry Bank} → DaoReach s t → DaoStep t u → DaoReach s u

  process_proposal-IsBook :
      (ctx : Context) (params : DaoParams) (q : Proposal) (s : DaoChain Registry Bank)
      → IsBook s.keeper
      → IsBook (process_proposal codec d g p ctx params q s).keeper
  unfolding tallied
  process_proposal-IsBook ctx params q s b =
      subst (λ m. IsOrdered m × IsKeyed m)
        (sym (process_proposal_effect codec d g p ctx params q s).0)
        (insert-IsBook (closed codec d g p ctx params q s) s.keeper.proposals b)

  process_proposals-IsBook :
      (ctx : Context) (params : DaoParams) (qs : List Proposal) (s : DaoChain Registry Bank)
      → IsBook s.keeper
      → IsBook (process_proposals codec d g p ctx params qs s).keeper
  unfolding process_proposals
  process_proposals-IsBook ctx params [] s b = b
  process_proposals-IsBook ctx params (q ∷ qs) s b =
      process_proposals-IsBook ctx params qs (process_proposal codec d g p ctx params q s)
        (process_proposal-IsBook ctx params q s b)

  end_blocker-IsBook :
      (ctx : Context) (s : DaoChain Registry Bank)
      → IsBook s.keeper
      → Ensures (λ _ t. IsBook t.keeper) (λ t. IsBook t.keeper) (end_blocker codec d g p ctx s)
  unfolding end_blocker
  end_blocker-IsBook ctx s b = after_get_params _ s b λ params _. after_gets _ _ s (
      succeeds _ _
        (process_proposals-IsBook ctx params (due_proposals ctx.height s.keeper.proposals) s b))

  pub DaoStep-IsBook :
      (s t : DaoChain Registry Bank) → IsBook s.keeper → DaoStep s t → IsBook t.keeper
  unfolding new_proposal
  DaoStep-IsBook s t b (submitting ctx msg e) =
      subst (λ x. IsBook x.keeper) (sym e)
        (either_way (λ x. IsBook x.keeper) (submit_proposal_effect codec g p ctx msg s)
          (λ id u c. subst IsBook (sym c.written) (
            insert-IsBook (new_proposal codec g p ctx msg c.packed c.params id u.bank)
              s.keeper.proposals b))
          (λ u same. subst IsBook (sym same.0) b))
  DaoStep-IsBook s t b (voting ctx msg e) =
      subst (λ x. IsBook x.keeper) (sym e)
        (either_way (λ x. IsBook x.keeper) (vote_effect d p ctx msg s)
          (λ _ u c. subst IsBook (sym c.written) b)
          (λ u same. subst (λ x. IsBook x.keeper) (sym same) b))
  DaoStep-IsBook s t b (ending ctx e) =
      subst (λ x. IsBook x.keeper) (sym e)
        (either_way (λ x. IsBook x.keeper) (end_blocker-IsBook ctx s b) (λ _ u h. h) (λ u h. h))

  -- From proposals in key order, each stored under its own id, every sequence of submissions, votes
  -- and ends of blocks, successful or not, leads to proposals in key order, each stored under its
  -- own id.
  pub DaoReach-IsBook :
      (s : DaoChain Registry Bank) {t : DaoChain Registry Bank}
      → DaoReach s t
      → IsBook s.keeper
      → IsBook t.keeper
  DaoReach-IsBook s start b = b
  DaoReach-IsBook s (then_step {t} {u} r st) b = DaoStep-IsBook t u (DaoReach-IsBook s r b) st
