-- ===== src/Dao/Distinct/Runs.antt =====
-- No two open proposals have the same content, along every run of x/dao.
use mathlib.Core.Path.{subst}
use dnsblockchain.Prelude.{
  ℕ, ◌≡◌, refl, sym, ap, ◌∙◌, true, Option, none, some, inl, inr, Bool-cases,
}
use dnsblockchain.Sdk.{Platform, Context, Ensures, either_way, succeeds, after_gets}
use dnsblockchain.Store.{nat_key, text_key, lookup}
use dnsblockchain.Store.Order.{All-lookup}
use dnsblockchain.Dao.Types.{Proposal, is_voting, MsgSubmitProposal}
use dnsblockchain.Dao.External.{Codec, Decimals, TldRegistry}
use dnsblockchain.Dao.Store.{DaoChain}
use dnsblockchain.Dao.Submit.{new_proposal, is_duplicate, has_duplicate}
use dnsblockchain.Dao.EndBlock.{end_blocker, due_proposals, process_proposals}
use dnsblockchain.Dao.Opening.{submit_proposal_effect, Submitted}
use dnsblockchain.Dao.Ballot.{vote_effect}
use dnsblockchain.Dao.Frame.{after_get_params}
use dnsblockchain.Dao.Loop.{is_due, Block, process_proposals-Block}
use dnsblockchain.Dao.Reach.{
  IsBook, DaoStep, submitting, voting, ending, DaoReach, start, then_step, DaoReach-IsBook,
}
use dnsblockchain.Dao.Distinct.{any-lookup, final_closed, IsDistinct, checked, opened-IsDistinct}

module _ (codec : Codec) (d : Decimals) (g : TldRegistry) (p : Platform) where
  open g use {Registry}
  open p use {Bank}

  -- What is open after a block was there before it.
  still_open :
      (height : ℕ) (s t : DaoChain Registry Bank) (i : ℕ) (q : Proposal)
      → IsBook s.keeper
      → Block codec d g p height s t i
      → lookup i t.keeper.proposals ≡ some q
      → is_voting q.status ≡ true
      → lookup i s.keeper.proposals ≡ some q
  still_open height s t i q book b now open_now = at (lookup i s.keeper.proposals) refl
    where
      at :
          (o : Option Proposal)
          → lookup i s.keeper.proposals ≡ o
          → lookup i s.keeper.proposals ≡ some q
      at none e = absurd (cc (b.absent e, now))
      at (some r) e = elim (Bool-cases (is_due height r)) [
        | inr late ↦ e ∙ sym (b.open_still r e late) ∙ now
        | inl due ↦
            let (r', stored, c) = b.over r e due in
            let id : r.id ≡ i = All-lookup (λ x. x.1.id ≡ x.0) i r s.keeper.proposals book.1 e in
            let same : r' ≡ q = cc (stored, ap (λ j. lookup j t.keeper.proposals) id, now) in
            absurd (cc (open_now, final_closed r' c.is_final, same))
      ]

  blocks-IsDistinct :
      (height : ℕ) (s t : DaoChain Registry Bank)
      → IsBook s.keeper
      → ((i : ℕ) → Block codec d g p height s t i)
      → IsDistinct codec g p s.keeper
      → IsDistinct codec g p t.keeper
  blocks-IsDistinct height s t book b distinct i j q r i≢j at_i at_j twins =
      distinct i j q r i≢j (still_open height s t i q book (b i) at_i twins.first_open)
        (still_open height s t j r book (b j) at_j twins.second_open) twins

  end_blocker-IsDistinct :
      (ctx : Context) (s : DaoChain Registry Bank)
      → IsBook s.keeper
      → IsDistinct codec g p s.keeper
      → Ensures
          (λ _ t. IsDistinct codec g p t.keeper)
          (λ t. IsDistinct codec g p t.keeper)
          (end_blocker codec d g p ctx s)
  unfolding end_blocker
  end_blocker-IsDistinct ctx s book distinct = after_get_params _ s distinct λ params _.
      after_gets _ _ s (
        succeeds _ _ (
          blocks-IsDistinct ctx.height s
            (process_proposals codec d g p ctx params (due_proposals ctx.height s.keeper.proposals)
              s)
            book (process_proposals-Block codec d g p ctx params s book.0 book.1) distinct))

  Submitted-IsDistinct :
      (ctx : Context) (msg : MsgSubmitProposal) (s u : DaoChain Registry Bank) (id : ℕ)
      → IsDistinct codec g p s.keeper
      → Submitted codec g p ctx msg s id u
      → IsDistinct codec g p u.keeper
  unfolding has_duplicate new_proposal
  Submitted-IsDistinct ctx msg s u id distinct c =
      let q = new_proposal codec g p ctx msg c.packed c.params id u.bank in
      subst (IsDistinct codec g p) (sym c.written) (
        opened-IsDistinct codec g p q id s.keeper distinct λ i r there.
          checked codec g p c.packed c.content q r refl c.unpacked_content (
            any-lookup (λ e. is_duplicate codec g p c.packed c.content e.1) i r s.keeper.proposals
              c.unique there))

  DaoStep-IsDistinct :
      (s t : DaoChain Registry Bank)
      → IsBook s.keeper
      → IsDistinct codec g p s.keeper
      → DaoStep codec d g p s t
      → IsDistinct codec g p t.keeper
  DaoStep-IsDistinct s t book v (submitting ctx msg e) =
      subst (λ x. IsDistinct codec g p x.keeper) (sym e)
        (either_way (λ x. IsDistinct codec g p x.keeper)
          (submit_proposal_effect codec g p ctx msg s)
          (λ id u c. Submitted-IsDistinct ctx msg s u id v c)
          (λ u same. subst (IsDistinct codec g p) (sym same.0) v))
  DaoStep-IsDistinct s t book v (voting ctx msg e) =
      subst (λ x. IsDistinct codec g p x.keeper) (sym e)
        (either_way (λ x. IsDistinct codec g p x.keeper) (vote_effect d p ctx msg s)
          (λ _ u c. subst (IsDistinct codec g p) (sym c.written) v)
          (λ u same. subst (λ x. IsDistinct codec g p x.keeper) (sym same) v))
  DaoStep-IsDistinct s t book v (ending ctx e) =
      subst (λ x. IsDistinct codec g p x.keeper) (sym e)
        (either_way (λ x. IsDistinct codec g p x.keeper) (end_blocker-IsDistinct ctx s book v)
          (λ _ u h. h) (λ u h. h))

  -- Where no two proposals in their voting period, stored under different ids, have the same type
  -- and unpack to contents with the same bytes, this still holds after every sequence of
  -- submissions, votes and ends of blocks, successful or not. At the start the proposals are in key
  -- order, each stored under its own id.
  pub DaoReach-IsDistinct :
      (s : DaoChain Registry Bank) {t : DaoChain Registry Bank}
      → DaoReach codec d g p s t
      → IsBook s.keeper
      → IsDistinct codec g p s.keeper
      → IsDistinct codec g p t.keeper
  DaoReach-IsDistinct s start book v = v
  DaoReach-IsDistinct s (then_step {t} {u} r st) book v =
      DaoStep-IsDistinct t u (DaoReach-IsBook codec d g p s r book) (DaoReach-IsDistinct s r book v)
        st
