-- ===== src/Dao/Frozen/Runs.antt =====
-- A frozen DAO stays frozen (x/dao/keeper/msg_server.go, x/dao/keeper/end_blocker.go).
use mathlib.Core.Path.{subst}
use dnsblockchain.Prelude.{ℕ, ◌+◌, ◌<◌, ◌≤◌, ◌≡◌, refl, sym, ap, ◌∙◌, true, false, arith}
use dnsblockchain.Prelude.Int.{ℤ, pos, is_zero, is_positive}
use dnsblockchain.Go.Word.{u64_mod}
use dnsblockchain.Sdk.{Platform, Context, ok, either_way}
use dnsblockchain.Store.{nat_key}
use dnsblockchain.Dao.Types.{DaoParams, MsgVote}
use dnsblockchain.Dao.External.{Codec, Decimals, TldRegistry}
use dnsblockchain.Dao.Store.{DaoChain}
use dnsblockchain.Dao.Submit.{new_proposal}
use dnsblockchain.Dao.Vote.{vote}
use dnsblockchain.Dao.Ballot.{vote_effect}
use dnsblockchain.Dao.Opening.{opened, submit_proposal_effect}
use dnsblockchain.Dao.EndBlock.{end_blocker}
use dnsblockchain.Dao.Reach.{DaoStep, submitting, voting, ending, DaoReach, start, then_step}
use dnsblockchain.Dao.History.Lasting.{steps}
use dnsblockchain.Dao.Frozen.{HasZero, IsFrozen, expired_power}
use dnsblockchain.Dao.Frozen.Ending.{end_blocker-Quiets}
use dnsblockchain.Dao.Frozen.Kept.{IsFrozen-later, opened-IsFrozen, IsFrozen-same}

powerless : (a : ℤ) → ok a ≡ ok (pos 0) → ¬ (is_zero a ≡ false)
powerless a e h = ground (arith, e, h)

module _ (codec : Codec) (d : Decimals) (g : TldRegistry) (p : Platform) where
  open g use {Registry}
  open p use {Bank}

  -- The height of the block of a step.
  abbrev pub step_height : {s t : DaoChain Registry Bank} → DaoStep codec d g p s t → ℕ
  step_height (submitting ctx msg e) = ctx.height
  step_height (voting ctx msg e) = ctx.height
  step_height (ending ctx e) = ctx.height

  -- No block of the run is below a height.
  abbrev pub IsFrom : ℕ → {s t : DaoChain Registry Bank} → DaoReach codec d g p s t → Type 0
  IsFrom h start = Unit
  IsFrom h (then_step r st) = IsFrom h r × (h ≤ step_height st) × (step_height st < u64_mod)

  module _ (params : DaoParams) (z : HasZero d) (quorum : is_positive params.quorum_percent ≡ true)
      (decays : 0 < params.voting_power_decay_duration_blocks) where
    -- A vote in a frozen DAO changes nothing.
    frozen_vote :
        (ctx : Context) (msg : MsgVote) (s : DaoChain Registry Bank)
        → IsFrozen params ctx.height s.keeper
        → ctx.height < u64_mod
        → (vote d p ctx msg s).1 ≡ s
    frozen_vote ctx msg s v room =
        either_way (λ t. t ≡ s) (vote_effect d p ctx msg s)
          (λ _ t c. absurd (
            powerless c.power
              (sym c.power_now
                ∙ expired_power d p params c.voter ctx.height s.keeper s.bank v decays room)
              c.has_power))
          (λ t same. same)

    -- What stays of the stores.
    pub record Stays (h : ℕ) (s t : DaoChain Registry Bank) : Type 0 where
      pub frozen : IsFrozen params h t.keeper
      pub votes : t.keeper.votes ≡ s.keeper.votes
      pub lots : t.keeper.voter_power_lots ≡ s.keeper.voter_power_lots
      pub registry : t.registry ≡ s.registry
      pub room : t.keeper.proposal_seq ≤ s.keeper.proposal_seq + 1

    unmoved :
        (h : ℕ) (s t : DaoChain Registry Bank)
        → IsFrozen params h s.keeper
        → t.keeper ≡ s.keeper
        → t.registry ≡ s.registry
        → Stays h s t
    unmoved h s t v e f = record {
      frozen = subst (IsFrozen params h) (sym e) v;
      votes = ap (λ k. k.votes) e;
      lots = ap (λ k. k.voter_power_lots) e;
      registry = f;
      room = omega (arith, ap (λ k. k.proposal_seq) e);
    }

    DaoStep-Stays :
        (h : ℕ) (s t : DaoChain Registry Bank) (st : DaoStep codec d g p s t)
        → IsFrozen params h s.keeper
        → h ≤ step_height st
        → step_height st < u64_mod
        → s.keeper.proposal_seq + 1 < u64_mod
        → Stays h s t
    unfolding new_proposal
    DaoStep-Stays h s t (submitting ctx msg e) v le height room = subst (Stays h s) (sym e) (
        either_way (Stays h s) (submit_proposal_effect codec g p ctx msg s)
          (λ id u c.
            let q = new_proposal codec g p ctx msg c.packed c.params id u.bank in
            let now = c.written ∙ ap (λ j. opened j q s.keeper) c.next_id in
            record {
              frozen =
                  subst (IsFrozen params h) (sym now)
                    (opened-IsFrozen params h q s.keeper v c.next_id room);
              votes = ap (λ k. k.votes) now;
              lots = ap (λ k. k.voter_power_lots) now;
              registry = c.registry;
              room = omega (arith, ap (λ k. k.proposal_seq) now, room);
            })
          (λ u same. unmoved h s u v same.0 same.1))
    DaoStep-Stays h s t (voting ctx msg e) v le height room =
        let same =
          e ∙ frozen_vote ctx msg s (IsFrozen-later params h ctx.height s.keeper v le) height in
        unmoved h s t v (ap (λ x. x.keeper) same) (ap (λ x. x.registry) same)
    DaoStep-Stays h s t (ending ctx e) v le height room =
        let (same, quiet) = end_blocker-Quiets codec d g p params z quorum ctx s v.set v.quiet in
        subst (Stays h s) (sym e) (record {
          frozen =
              IsFrozen-same params h s.keeper (end_blocker codec d g p ctx s).1.keeper v same.params
                same.lots same.votes same.seq quiet;
          votes = same.votes;
          lots = same.lots;
          registry = same.registry;
          room = omega (arith, same.seq);
        })

    -- In a DAO in which lots of voting power exist, all of them have decayed and no open proposal
    -- has a vote, every sequence of submissions, votes and ends of blocks, successful or not,
    -- leaves the stores of votes and of lots and the TLD registry as they were, leaves the DAO in
    -- such a state again, and advances the sequence of proposal ids by at most the number of steps.
    -- The quorum and the decay duration are positive, the ids of the votes lie below the sequence,
    -- no block is below the height at which the lots have decayed, heights and the sequence stay
    -- below 2^64, and with the decimals the text of zero reads as zero and zero divided by what is
    -- not zero is zero.
    pub DaoReach-IsFrozen :
        (h : ℕ) (s : DaoChain Registry Bank) {t : DaoChain Registry Bank}
        (r : DaoReach codec d g p s t)
        → IsFrozen params h s.keeper
        → IsFrom h r
        → s.keeper.proposal_seq + steps codec d g p r < u64_mod
        → IsFrozen params h t.keeper
          × (t.keeper.votes ≡ s.keeper.votes)
          × (t.keeper.voter_power_lots ≡ s.keeper.voter_power_lots)
          × (t.registry ≡ s.registry)
          × (t.keeper.proposal_seq ≤ s.keeper.proposal_seq + steps codec d g p r)
    DaoReach-IsFrozen h s start v from room = (v, refl, refl, refl, omega arith)
    DaoReach-IsFrozen h s (then_step {t = mid} {u = end} r st) v from room =
        let (before, le, height) = from in
        let (frozen, votes, lots, registry, few) =
          DaoReach-IsFrozen h s r v before (omega (arith, room)) in
        let m = DaoStep-Stays h mid end st frozen le height (omega (arith, room, few)) in
        (
          m.frozen,
          m.votes ∙ votes,
          m.lots ∙ lots,
          m.registry ∙ registry,
          omega (arith, m.room, few),
        )
