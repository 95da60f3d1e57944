-- ===== src/Dao/History/Lasting.antt =====
-- What lasts of a proposal over a run of x/dao.
use dnsblockchain.Dao.History.Steps.{DaoStep-Moved}
use mathlib.Core.Path.{subst}
use dnsblockchain.Prelude.{
  ℕ, suc, ◌+◌, ◌<◌, ◌≤◌, ◌≡◌, refl, sym, ◌∙◌, Option, some, inl, inr, arith, ◌⊎◌,
}
use dnsblockchain.Go.Word.{u64_mod}
use dnsblockchain.Sdk.{Platform}
use dnsblockchain.Store.{nat_key, lookup}
use dnsblockchain.Dao.Types.{Proposal}
use dnsblockchain.Dao.External.{Codec, Decimals, TldRegistry}
use dnsblockchain.Dao.Store.{DaoChain}
use dnsblockchain.Dao.Closing.{IsFinal}
use dnsblockchain.Dao.Reach.{IsBook, DaoReach, start, then_step, DaoReach-IsBook}
use dnsblockchain.Dao.History.{Moves, stays, opens, closes, IsBelow, ProposalStatus, voting_period}

-- The proposal is as it was, or its voting period has ended, once, with a final status, and the
-- counts are those of its tally.
abbrev pub Lasts : Proposal → Proposal → Type 0
Lasts q q' =
    (q' ≡ q)
    ⊎ (q.status ≡ voting_period)
      × IsFinal q'.status
      × (record q' {
        status = q.status;
        yes_votes = q.yes_votes;
        no_votes = q.no_votes;
        abstain_votes = q.abstain_votes;
      }
          ≡ q)

not_final : (st : ProposalStatus) → st ≡ voting_period → IsFinal st → ⊥
not_final st e h = subst IsFinal e h

Lasts-trans : (q r t : Proposal) → Lasts q r → Lasts r t → Lasts q t
Lasts-trans q r t (inl e) l = subst (λ x. Lasts x t) e l
Lasts-trans q r t (inr m) (inl e) = subst (Lasts q) (sym e) (inr m)
Lasts-trans q r t (inr m) (inr n) = absurd (not_final r.status n.0 m.1)

Moves-Lasts :
    (o o' : Option Proposal) (q : Proposal)
    → Moves o o'
    → o ≡ some q
    → (q' : Proposal) × (o' ≡ some q') × Lasts q q'
Moves-Lasts o o' q (stays e) there = (q, e ∙ there, inl refl)
Moves-Lasts o o' q (opens r e f v) there = absurd (cc (e, there))
Moves-Lasts o o' q (closes r r' e f v final same) there =
    let w : r ≡ q = cc (e, there) in (r', f, subst (λ x. Lasts x r') w (inr (v, final, same)))

module _ (codec : Codec) (d : Decimals) (g : TldRegistry) (p : Platform) where
  open g use {Registry}
  open p use {Bank}

  -- The steps of a run.
  abbrev pub steps : {s t : DaoChain Registry Bank} → DaoReach codec d g p s t → ℕ
  steps start = 0
  steps (then_step r st) = suc (steps r)

  DaoReach-IsBelow :
      (s : DaoChain Registry Bank) {t : DaoChain Registry Bank} (r : DaoReach codec d g p s t)
      → IsBook s.keeper
      → IsBelow s.keeper
      → s.keeper.proposal_seq + steps r < u64_mod
      → IsBelow t.keeper × (t.keeper.proposal_seq ≤ s.keeper.proposal_seq + steps r)
  DaoReach-IsBelow s start book b room = (b, omega arith)
  DaoReach-IsBelow s (then_step {t} {u} r st) book b room =
      let (below, little) = DaoReach-IsBelow s r book b (omega arith) in
      let m =
        DaoStep-Moved codec d g p t u (DaoReach-IsBook codec d g p s r book) below
          (omega (arith, little)) st in
      (m.ids, omega (arith, little, m.room))

  -- Over every sequence of submissions, votes and ends of blocks, successful or not, that does not
  -- exhaust the 64 bits of the sequence of ids, a stored proposal either stays as it is, or was in
  -- its voting period and has a final status at the end, with everything but its status and its
  -- three counts as it was. At the start the proposals are in key order, each stored under its own
  -- id, and the ids lie below the sequence.
  pub proposal-Lasts :
      (s : DaoChain Registry Bank) {t : DaoChain Registry Bank} (r : DaoReach codec d g p s t)
      (i : ℕ) (q : Proposal)
      → IsBook s.keeper
      → IsBelow s.keeper
      → s.keeper.proposal_seq + steps r < u64_mod
      → lookup i s.keeper.proposals ≡ some q
      → (q' : Proposal) × (lookup i t.keeper.proposals ≡ some q') × Lasts q q'
  proposal-Lasts s start i q book b room there = (q, there, inl refl)
  proposal-Lasts s (then_step {t} {u} r st) i q book b room there =
      let (below, little) = DaoReach-IsBelow s r book b (omega arith) in
      let (q', now, lasts) = proposal-Lasts s r i q book b (omega arith) there in
      let m =
        DaoStep-Moved codec d g p t u (DaoReach-IsBook codec d g p s r book) below
          (omega (arith, little)) st in
      let (q'', later, more) =
        Moves-Lasts (lookup i t.keeper.proposals) (lookup i u.keeper.proposals) q' (m.moves i)
          now in
      (q'', later, Lasts-trans q q' q'' lasts more)
