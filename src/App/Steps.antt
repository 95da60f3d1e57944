-- ===== src/App/Steps.antt =====
-- What a message to x/dao (x/dao/keeper/msg_server.go) and the end of a block
-- (x/dao/keeper/end_blocker.go) leave of the parameters of x/dao, and do to the stores of
-- x/dnsblockchain.
use mathlib.Core.Path.{subst}
use dnsblockchain.Prelude.{◌≡◌, refl, sym, ap, ◌∙◌, List, [], ◌∷◌, some}
use dnsblockchain.Sdk.{Platform, Context, Ensures, succeeds, either_way, after_gets}
use dnsblockchain.Dns.Types.{Keeper}
use dnsblockchain.Dao.{Proposal, DaoParams, Codec, Decimals, TldRegistry, DaoChain, set_proposal}
use dnsblockchain.Dao.EndBlock.{due_proposals, process_proposal, process_proposals, end_blocker}
use dnsblockchain.Dao.Frame.{settle-Keeps, after_get_params}
use dnsblockchain.Dao.Reach.{IsBook, DaoStep, submitting, voting, ending}
use dnsblockchain.Dao.Opening.{submit_proposal_effect}
use dnsblockchain.Dao.Ballot.{vote_effect}
use dnsblockchain.Dao.Agreement.{keeper_registry}
use dnsblockchain.App.Block.{Granting, same_registry, end_blocker-Granting}

module _ (codec : Codec) (d : Decimals) (g : TldRegistry) (p : Platform) where
  open g use {Registry}
  open p use {Bank}

  abbrev SameParams : DaoChain Registry Bank → DaoChain Registry Bank → Type 0
  SameParams s t = t.keeper.params ≡ s.keeper.params

  process_proposals-SameParams :
      (ctx : Context) (params : DaoParams) (qs : List Proposal) (s : DaoChain Registry Bank)
      → SameParams s (process_proposals codec d g p ctx params qs s)
  unfolding process_proposals process_proposal set_proposal
  process_proposals-SameParams ctx params [] s = refl
  process_proposals-SameParams ctx params (q ∷ qs) s =
      process_proposals-SameParams ctx params qs (process_proposal codec d g p ctx params q s)
      ∙ (settle-Keeps codec d g p ctx _ _ _ s).params

  end_blocker-SameParams :
      (ctx : Context) (s : DaoChain Registry Bank)
      → Ensures (λ _ t. SameParams s t) (SameParams s) (end_blocker codec d g p ctx s)
  unfolding end_blocker
  end_blocker-SameParams ctx s = after_get_params _ s refl λ params _. after_gets _ _ s (
      succeeds _ _
        (process_proposals-SameParams ctx params (due_proposals ctx.height s.keeper.proposals) s))

  -- No step of x/dao changes its parameters.
  pub DaoStep-SameParams : (s t : DaoChain Registry Bank) → DaoStep codec d g p s t → SameParams s t
  DaoStep-SameParams s t (submitting ctx msg e) = subst (SameParams s) (sym e) (
      either_way (SameParams s) (submit_proposal_effect codec g p ctx msg s)
        (λ id u c. ap (λ k. k.params) c.written) (λ u same. ap (λ k. k.params) same.0))
  DaoStep-SameParams s t (voting ctx msg e) = subst (SameParams s) (sym e) (
      either_way (SameParams s) (vote_effect d p ctx msg s) (λ _ u c. ap (λ k. k.params) c.written)
        (λ u same. ap (λ x. x.keeper.params) same))
  DaoStep-SameParams s t (ending ctx e) =
      subst (SameParams s) (sym e)
        (either_way (SameParams s) (end_blocker-SameParams ctx s) (λ _ u h. h) (λ u h. h))

module _ (codec : Codec) (d : Decimals) (p : Platform) where
  open p use {lower, Bank}

  -- The TLDs grow by those of executed proposals alone.
  pub DaoStep-Granting :
      (params : DaoParams) (s t : DaoChain Keeper Bank)
      → s.keeper.params ≡ some params
      → IsBook s.keeper
      → DaoStep codec d (keeper_registry lower) p s t
      → Granting codec d p params s t
  DaoStep-Granting params s t set book (submitting ctx msg e) =
      subst (Granting codec d p params s) (sym e) (
        either_way (Granting codec d p params s)
          (submit_proposal_effect codec (keeper_registry lower) p ctx msg s)
          (λ id u c. same_registry codec d p params s u c.registry)
          (λ u same. same_registry codec d p params s u same.1))
  DaoStep-Granting params s t set book (voting ctx msg e) =
      subst (Granting codec d p params s) (sym e) (
        either_way (Granting codec d p params s) (vote_effect d p ctx msg s)
          (λ _ u c. same_registry codec d p params s u c.registry)
          (λ u same. same_registry codec d p params s u (ap (λ x. x.registry) same)))
  DaoStep-Granting params s t set book (ending ctx e) =
      subst (Granting codec d p params s) (sym e)
        (end_blocker-Granting codec d p ctx params s set book)
