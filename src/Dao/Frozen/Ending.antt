-- ===== src/Dao/Frozen/Ending.antt =====
-- The end of a block of a frozen DAO (x/dao/keeper/end_blocker.go): no proposal passes.
use mathlib.Core.Path.{subst}
use dnsblockchain.Prelude.{
  ℕ, ◌≡◌, refl, sym, ap, ◌∙◌, true, false, List, [], ◌∷◌, ◌⊎◌, inl, inr, arith, All, Bool-cases,
  some,
}
use dnsblockchain.Prelude.Int.{is_positive}
use dnsblockchain.Sdk.{Platform, Address, Coins, Context, ◌>>=◌}
use dnsblockchain.Store.{Map, nat_key, walk_prefix}
use dnsblockchain.Store.Order.{All-insert}
use dnsblockchain.Dao.Types.{
  Proposal, Vote, DaoParams, DaoKeeper, ProposalStatus, rejected, failed, is_voting, voting_period,
}
use dnsblockchain.Dao.External.{Codec, Decimals, Unpacked, broken, empty, unpacked, TldRegistry}
use dnsblockchain.Dao.Store.{DaoChain, set_proposal}
use dnsblockchain.Dao.Tally.{tally_of, tallied, verdict}
use dnsblockchain.Dao.EndBlock.{
  due_proposals, deposit_of, checked_status, burn_deposit, settle, process_proposal,
  process_proposals, end_blocker,
}
use dnsblockchain.Dao.Closing.{IsFinal, closed, closed-ClosedBy, process_proposal_effect}
use dnsblockchain.Dao.Frame.{burn_deposit-Keeps, get_params-found}
use dnsblockchain.Dao.Loop.{is_due, due_proposals-cons}
use dnsblockchain.Dao.Frozen.{HasZero, quiet_verdict, tally_of-quiet}

-- An open proposal has no vote.
abbrev pub IsQuiet : DaoKeeper → Proposal → Type 0
IsQuiet k q = is_voting q.status ≡ true → walk_prefix q.id k.votes ≡ []

due-quiet :
    (k : DaoKeeper) (h : ℕ) (m : Map ℕ Proposal)
    → All (λ e. IsQuiet k e.1) m
    → All (λ q. walk_prefix q.id k.votes ≡ []) (due_proposals h m)
unfolding due_proposals
due-quiet k h [] a = tt
due-quiet k h ((j, w) ∷ m) a = elim (Bool-cases (is_due h w)) [
  | inl due ↦
      rw (due_proposals-cons h j w m) (rw due (a.0 (ground (arith, due)), due-quiet k h m a.1))
  | inr late ↦ rw (due_proposals-cons h j w m) (rw late (due-quiet k h m a.1))
]

-- A proposal that is rejected or fails stays so, whether its content is found or not.
checked_status-refused :
    (c : Unpacked) (st : ProposalStatus)
    → (st ≡ rejected) ⊎ (st ≡ failed)
    → (checked_status c st ≡ rejected) ⊎ (checked_status c st ≡ failed)
checked_status-refused broken st (inl e) = inl (ap (checked_status broken) e)
checked_status-refused broken st (inr e) = inr (ap (checked_status broken) e)
checked_status-refused empty st h = h
checked_status-refused (unpacked c) st h = h

module _ (codec : Codec) (d : Decimals) (g : TldRegistry) (p : Platform) where
  open codec use {unpack_any}
  open g use {Registry}
  open p use {Bank}

  -- The two chains have the same stores, but for the proposals.
  pub record SameButProposals (s t : DaoChain Registry Bank) : Type 0 where
    pub params : t.keeper.params ≡ s.keeper.params
    pub seq : t.keeper.proposal_seq ≡ s.keeper.proposal_seq
    pub votes : t.keeper.votes ≡ s.keeper.votes
    pub lots : t.keeper.voter_power_lots ≡ s.keeper.voter_power_lots
    pub registry : t.registry ≡ s.registry

  burn_deposit-registry :
      (deposit : Coins) (s : DaoChain Registry Bank)
      → (burn_deposit codec d g p deposit s).registry ≡ s.registry
  unfolding burn_deposit
  burn_deposit-registry deposit s = ground arith

  -- A settlement of a proposal that did not pass leaves the stores alone.
  settle-refused :
      (ctx : Context) (q : Proposal) (deposit : Coins) (st : ProposalStatus)
      (s : DaoChain Registry Bank)
      → (st ≡ rejected) ⊎ (st ≡ failed)
      → let t = (settle codec d g p ctx q deposit st s).1 in
        (t.keeper ≡ s.keeper) × (t.registry ≡ s.registry)
  unfolding settle
  settle-refused ctx q deposit st s (inl e) =
      rw e (burn_deposit-Keeps codec d g p deposit s, burn_deposit-registry deposit s)
  settle-refused ctx q deposit st s (inr e) =
      rw e (burn_deposit-Keeps codec d g p deposit s, burn_deposit-registry deposit s)

  module _ (params : DaoParams) (z : HasZero d)
      (quorum : is_positive params.quorum_percent ≡ true) where
    process_quiet :
        (ctx : Context) (q : Proposal) (s : DaoChain Registry Bank)
        → walk_prefix q.id s.keeper.votes ≡ []
        → SameButProposals s (process_proposal codec d g p ctx params q s)
    unfolding process_proposal set_proposal tallied
    process_quiet ctx q s e =
        let counted = tallied d params q (tally_of q.id s.keeper) in
        let content = unpack_any q.content in
        let refused =
          subst
            (λ t.
              (verdict d params q.total_voting_power_at_snapshot t ≡ rejected)
              ⊎ (verdict d params q.total_voting_power_at_snapshot t ≡ failed))
            (sym (tally_of-quiet q.id s.keeper e))
            (quiet_verdict d params q.total_voting_power_at_snapshot z quorum) in
        let kept =
          settle-refused ctx counted (deposit_of params content)
            (checked_status content counted.status) s
            (checked_status-refused content counted.status refused) in
        record {
          params = ap (λ k. k.params) kept.0;
          seq = ap (λ k. k.proposal_seq) kept.0;
          votes = ap (λ k. k.votes) kept.0;
          lots = ap (λ k. k.voter_power_lots) kept.0;
          registry = kept.1;
        }

    not_voting : (st : ProposalStatus) → IsFinal st → is_voting st ≡ false
    not_voting voting_period h = absurd h
    not_voting _ h = refl

    -- What the block leaves: the stores but for the proposals, of which the open ones have no vote.
    abbrev pub Quiets : DaoChain Registry Bank → DaoChain Registry Bank → Type 0
    Quiets s t = SameButProposals s t × All (λ e. IsQuiet t.keeper e.1) t.keeper.proposals

    All-IsQuiet-votes :
        (k k' : DaoKeeper) (m : Map ℕ Proposal)
        → k'.votes ≡ k.votes
        → All (λ e. IsQuiet k e.1) m
        → All (λ e. IsQuiet k' e.1) m
    All-IsQuiet-votes k k' m same a =
        subst
          (λ (v : Map (ℕ × Address) Vote).
            All (λ e. is_voting e.1.status ≡ true → walk_prefix e.1.id v ≡ []) m)
          (sym same) a

    process_Quiets :
        (ctx : Context) (q : Proposal) (s : DaoChain Registry Bank)
        → walk_prefix q.id s.keeper.votes ≡ []
        → All (λ e. IsQuiet s.keeper e.1) s.keeper.proposals
        → Quiets s (process_proposal codec d g p ctx params q s)
    unfolding tallied
    process_Quiets ctx q s e a =
        let same = process_quiet ctx q s e in
        let t = process_proposal codec d g p ctx params q s in
        let new = closed codec d g p ctx params q s in
        let final = not_voting new.status (closed-ClosedBy codec d g p ctx params q s).is_final in
        (
          same,
          All-IsQuiet-votes s.keeper t.keeper t.keeper.proposals same.votes (
              subst (All (λ e. IsQuiet s.keeper e.1))
                (sym (process_proposal_effect codec d g p ctx params q s).0)
                (All-insert (λ e. IsQuiet s.keeper e.1) q.id new s.keeper.proposals
                  (λ h. absurd (cc (final, h))) a)),
        )

    together :
        (s t u : DaoChain Registry Bank)
        → SameButProposals s t
        → SameButProposals t u
        → SameButProposals s u
    together s t u a b = record {
      params = b.params ∙ a.params;
      seq = b.seq ∙ a.seq;
      votes = b.votes ∙ a.votes;
      lots = b.lots ∙ a.lots;
      registry = b.registry ∙ a.registry;
    }

    process_proposals-Quiets :
        (ctx : Context) (qs : List Proposal) (s : DaoChain Registry Bank)
        → All (λ q. walk_prefix q.id s.keeper.votes ≡ []) qs
        → All (λ e. IsQuiet s.keeper e.1) s.keeper.proposals
        → Quiets s (process_proposals codec d g p ctx params qs s)
    unfolding process_proposals
    process_proposals-Quiets ctx [] s b a =
        (record { params = refl; seq = refl; votes = refl; lots = refl; registry = refl }, a)
    process_proposals-Quiets ctx (q ∷ qs) s b a =
        let mid = process_proposal codec d g p ctx params q s in
        let first = process_Quiets ctx q s b.0 a in
        let rest =
          process_proposals-Quiets ctx qs mid
            (subst (λ (v : Map (ℕ × Address) Vote). All (λ r. walk_prefix r.id v ≡ []) qs)
              (sym first.0.votes) b.1)
            first.1 in
        (together s mid _ first.0 rest.0, rest.1)

    pub end_blocker-Quiets :
        (ctx : Context) (s : DaoChain Registry Bank)
        → s.keeper.params ≡ some params
        → All (λ e. IsQuiet s.keeper e.1) s.keeper.proposals
        → Quiets s (end_blocker codec d g p ctx s).1
    unfolding end_blocker ◌>>=◌
    end_blocker-Quiets ctx s set a =
        let due = due_proposals ctx.height s.keeper.proposals in
        subst (λ r. Quiets s r.1) (sym (get_params-found _ s params set))
          (process_proposals-Quiets ctx due s (due-quiet s.keeper ctx.height s.keeper.proposals a)
            a)
