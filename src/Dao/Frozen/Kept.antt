-- ===== src/Dao/Frozen/Kept.antt =====
-- What a frozen DAO stays under (x/dao/keeper/msg_server.go, x/dao/keeper/end_blocker.go): time, a new
-- proposal, and proposals that are closed.
use mathlib.Core.Path.{subst}
use dnsblockchain.Prelude.{ℕ, ◌+◌, ◌<◌, ◌≤◌, ◌≡◌, sym, ap, ◌∙◌, List, [], ◌∷◌, arith, All}
use dnsblockchain.Go.Word.{u64_mod, add64}
use dnsblockchain.Store.{nat_key, walk_prefix}
use dnsblockchain.Store.Order.{All-insert}
use dnsblockchain.Dao.Types.{Proposal, DaoParams, DaoKeeper}
use dnsblockchain.Dao.Opening.{opened}
use dnsblockchain.Dao.Frozen.{IsFrozen, IsExpired, walk_prefix-none}
use dnsblockchain.Dao.Frozen.Ending.{IsQuiet}

All-weaken :
    {A : Type 0} (P Q : A → Type 0) (list : List A)
    → ((a : A) → P a → Q a)
    → All P list
    → All Q list
All-weaken P Q [] f h = tt
All-weaken P Q (a ∷ list) f h = (f a h.0, All-weaken P Q list f h.1)

pub IsFrozen-later :
    (params : DaoParams) (h h' : ℕ) (k : DaoKeeper)
    → IsFrozen params h k
    → h ≤ h'
    → IsFrozen params h' k
IsFrozen-later params h h' k v le = record {
  set = v.set;
  lots = v.lots;
  expired =
      All-weaken (λ e. IsExpired params.voting_power_decay_duration_blocks h e.1)
        (λ e. IsExpired params.voting_power_decay_duration_blocks h' e.1) k.voter_power_lots
        (λ e x. omega (arith, x, le)) v.expired;
  quiet = v.quiet;
  below = v.below;
}

-- A new proposal, that has no vote yet.
pub opened-IsFrozen :
    (params : DaoParams) (h : ℕ) (q : Proposal) (k : DaoKeeper)
    → IsFrozen params h k
    → q.id ≡ k.proposal_seq
    → k.proposal_seq + 1 < u64_mod
    → IsFrozen params h (opened k.proposal_seq q k)
opened-IsFrozen params h q k v own room = record {
  set = v.set;
  lots = v.lots;
  expired = v.expired;
  quiet =
      All-insert (λ e. IsQuiet k e.1) k.proposal_seq q k.proposals
        (λ _. ap (λ i. walk_prefix i k.votes) own ∙ walk_prefix-none k.proposal_seq k.votes v.below)
        v.quiet;
  below =
      All-weaken (λ e. e.0.0 < k.proposal_seq) (λ e. e.0.0 < add64 k.proposal_seq 1) k.votes
        (λ e x. omega (arith, x, room)) v.below;
}

-- The same parameters, lots, votes and next identifier, with proposals that have no vote.
pub IsFrozen-same :
    (params : DaoParams) (h : ℕ) (k k' : DaoKeeper)
    → IsFrozen params h k
    → k'.params ≡ k.params
    → k'.voter_power_lots ≡ k.voter_power_lots
    → k'.votes ≡ k.votes
    → k'.proposal_seq ≡ k.proposal_seq
    → All (λ e. IsQuiet k' e.1) k'.proposals
    → IsFrozen params h k'
IsFrozen-same params h k k' v same_params same_lots same_votes same_seq quiet = record {
  set = same_params ∙ v.set;
  lots = rw same_lots v.lots;
  expired =
      subst (All (λ e. IsExpired params.voting_power_decay_duration_blocks h e.1)) (sym same_lots)
        v.expired;
  quiet = quiet;
  below =
      subst (λ n. All (λ e. e.0.0 < n) k'.votes) (sym same_seq)
        (subst (All (λ e. e.0.0 < k.proposal_seq)) (sym same_votes) v.below);
}
