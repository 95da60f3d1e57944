-- ===== src/Dao/History/Steps.antt =====
-- The steps of x/dao as moves of the proposals.
use mathlib.Core.Path.{subst}
use dnsblockchain.Prelude.{
  ℕ, ◌+◌, ◌<◌, ◌≤◌, ◌≡◌, refl, sym, ap, ◌∙◌, Option, none, some, inl, inr, arith, Bool-cases,
}
use dnsblockchain.Go.Word.{u64_mod}
use dnsblockchain.Sdk.{Platform, Context, Ensures, either_way, succeeds, after_gets}
use dnsblockchain.Store.{nat_key, lookup}
use dnsblockchain.Store.Order.{All-lookup}
use dnsblockchain.Dao.Types.{Proposal, DaoKeeper}
use dnsblockchain.Dao.External.{Codec, Decimals, TldRegistry}
use dnsblockchain.Dao.Store.{DaoChain}
use dnsblockchain.Dao.Submit.{new_proposal}
use dnsblockchain.Dao.EndBlock.{end_blocker, due_proposals, process_proposals}
use dnsblockchain.Dao.Opening.{submit_proposal_effect, opened}
use dnsblockchain.Dao.Ballot.{vote_effect}
use dnsblockchain.Dao.Frame.{after_get_params}
use dnsblockchain.Dao.Loop.{is_due, Block, process_proposals-Block}
use dnsblockchain.Dao.Reach.{IsBook, DaoStep, submitting, voting, ending}
use dnsblockchain.Dao.History.{
  Moves, stays, closes, IsBelow, voting_of, opened-Moves, opened-IsBelow, process_proposals-seq,
  voting_period,
}

-- What a step does to the proposals and to the sequence.
pub record Moved (k k' : DaoKeeper) : Type 0 where
  pub moves : (i : ℕ) → Moves (lookup i k.proposals) (lookup i k'.proposals)
  pub ids : IsBelow k'
  pub room : k'.proposal_seq ≤ k.proposal_seq + 1

unmoved :
    (k k' : DaoKeeper)
    → IsBelow k
    → k'.proposals ≡ k.proposals
    → k'.proposal_seq ≡ k.proposal_seq
    → Moved k k'
unmoved k k' b e f = record {
  moves = λ i. stays (ap (lookup i) e);
  ids = λ i q there. ground (arith, b i q (ap (lookup i) (sym e) ∙ there));
  room = omega (arith, f);
}

opened-Moved :
    (q : Proposal) (k : DaoKeeper)
    → IsBelow k
    → q.status ≡ voting_period
    → k.proposal_seq + 1 < u64_mod
    → Moved k (opened k.proposal_seq q k)
opened-Moved q k b open_now room = record {
  moves = λ i. opened-Moves q k i b open_now;
  ids = opened-IsBelow q k b room;
  room = omega arith;
}

module _ (codec : Codec) (d : Decimals) (g : TldRegistry) (p : Platform) where
  open g use {Registry}
  open p use {Bank}

  Block-Moves :
      (height : ℕ) (s t : DaoChain Registry Bank) (i : ℕ)
      → IsBook s.keeper
      → Block codec d g p height s t i
      → Moves (lookup i s.keeper.proposals) (lookup i t.keeper.proposals)
  Block-Moves height s t i book b = at (lookup i s.keeper.proposals) refl
    where
      at :
          (o : Option Proposal)
          → lookup i s.keeper.proposals ≡ o
          → Moves (lookup i s.keeper.proposals) (lookup i t.keeper.proposals)
      at none e = stays (b.absent e ∙ sym e)
      at (some q) e = elim (Bool-cases (is_due height q)) [
        | inr late ↦ stays (b.open_still q e late ∙ sym e)
        | inl due ↦
            let (q', stored, c) = b.over q e due in
            closes q q' e
              (ap (λ j. lookup j t.keeper.proposals)
                  (sym (All-lookup (λ x. x.1.id ≡ x.0) i q s.keeper.proposals book.1 e))
                ∙ stored)
              (voting_of q.status (ground arith)) c.is_final c.same_proposal
      ]

  -- Under an id that a move fills there was one before, unless it is opened.
  Moves-IsBelow :
      (s t : DaoChain Registry Bank)
      → IsBelow s.keeper
      → t.keeper.proposal_seq ≡ s.keeper.proposal_seq
      → ((i : ℕ) → lookup i s.keeper.proposals ≡ none → lookup i t.keeper.proposals ≡ none)
      → IsBelow t.keeper
  Moves-IsBelow s t b same absent i q there = at (lookup i s.keeper.proposals) refl
    where
      at : (o : Option Proposal) → lookup i s.keeper.proposals ≡ o → i < t.keeper.proposal_seq
      at none e = absurd (cc (absent i e, there))
      at (some r) e = omega (arith, b i r e, same)

  blocked :
      (ctx : Context) (s : DaoChain Registry Bank)
      → IsBook s.keeper
      → IsBelow s.keeper
      → Ensures
          (λ _ t. Moved s.keeper t.keeper)
          (λ t. Moved s.keeper t.keeper)
          (end_blocker codec d g p ctx s)
  unfolding end_blocker
  blocked ctx s book b = after_get_params _ s (unmoved s.keeper s.keeper b refl refl) λ params _.
      after_gets _ _ s (
        let t =
          process_proposals codec d g p ctx params (due_proposals ctx.height s.keeper.proposals)
            s in
        let block = process_proposals-Block codec d g p ctx params s book.0 book.1 in
        let same =
          process_proposals-seq codec d g p ctx params (due_proposals ctx.height s.keeper.proposals)
            s in
        succeeds _ _ (record {
          moves = λ i. Block-Moves ctx.height s t i book (block i);
          ids = Moves-IsBelow s t b same (λ i e. (block i).absent e);
          room = omega (arith, same);
        }))

  pub DaoStep-Moved :
      (s t : DaoChain Registry Bank)
      → IsBook s.keeper
      → IsBelow s.keeper
      → s.keeper.proposal_seq + 1 < u64_mod
      → DaoStep codec d g p s t
      → Moved s.keeper t.keeper
  unfolding new_proposal
  DaoStep-Moved s t book b room (submitting ctx msg e) =
      subst (λ x. Moved s.keeper x.keeper) (sym e)
        (either_way (λ x. Moved s.keeper x.keeper) (submit_proposal_effect codec g p ctx msg s)
          (λ id u c.
            let q = new_proposal codec g p ctx msg c.packed c.params id u.bank in
            subst (Moved s.keeper) (sym (c.written ∙ ap (λ j. opened j q s.keeper) c.next_id))
              (opened-Moved q s.keeper b refl room))
          (λ u same. subst (Moved s.keeper) (sym same.0) (unmoved s.keeper s.keeper b refl refl)))
  DaoStep-Moved s t book b room (voting ctx msg e) =
      subst (λ x. Moved s.keeper x.keeper) (sym e)
        (either_way (λ x. Moved s.keeper x.keeper) (vote_effect d p ctx msg s)
          (λ _ u c. subst (Moved s.keeper) (sym c.written) (unmoved s.keeper _ b refl refl))
          (λ u same.
            subst (λ x. Moved s.keeper x.keeper) (sym same)
              (unmoved s.keeper s.keeper b refl refl)))
  DaoStep-Moved s t book b room (ending ctx e) =
      subst (λ x. Moved s.keeper x.keeper) (sym e)
        (either_way (λ x. Moved s.keeper x.keeper) (blocked ctx s book b) (λ _ u h. h) (λ u h. h))
