-- ===== src/Dao/Ballot.antt =====
-- The effect of `Vote` (x/dao/keeper/msg_server.go).
use mathlib.Core.Path.{subst}
use dnsblockchain.Prelude.{ℕ, ◌≤◌, ◌≡◌, ◌≢◌, refl, sym, ap, true, false, none, some, [], arith}
use dnsblockchain.Prelude.Int.{ℤ, is_zero}
use dnsblockchain.Sdk.{
  Platform, Address, Context, Handler, ok, ◌>>=◌, Ensures, succeeds, after_fail_if, after_or_fail,
  after_lift, after_gets, after_step, either_way, on_success, proposal_not_found,
}
use dnsblockchain.Store.{nat_key, text_key, pair_key, lookup, insert, lookup-insert, beq_refl}
use dnsblockchain.Dao.Types.{Proposal, Vote, MsgVote, DaoKeeper, is_voting}
use dnsblockchain.Dao.External.{Decimals}
use dnsblockchain.Dao.Power.{calculate_voter_power}
use dnsblockchain.Dao.Store.{DaoChain}
use dnsblockchain.Dao.Vote.{has_voted, get_proposal, set_vote, vote}

abbrev pub ballot : MsgVote → ℤ → Vote
ballot msg power = record {
  proposal_id = msg.proposal_id;
  voter = msg.voter;
  option = msg.option;
  voting_power = power;
}

abbrev pub with_vote : ℕ → Address → Vote → DaoKeeper → DaoKeeper
with_vote id voter v k = record k { votes = insert (id, voter) v k.votes }

-- A vote in the store is found as such, and a write for another key leaves it there.
voted_of :
    (id : ℕ) (voter : Address) (v : Vote) (k : DaoKeeper)
    → lookup (id, voter) k.votes ≡ some v
    → v.voter ≢ []
    → has_voted id voter k ≡ true
unfolding has_voted
voted_of id voter v k there named = ground arith

keeps_vote :
    (id id' : ℕ) (voter voter' : Address) (v w : Vote) (k : DaoKeeper)
    → lookup (id, voter) k.votes ≡ some v
    → v.voter ≢ []
    → has_voted id' voter' k ≡ false
    → lookup (id, voter) (with_vote id' voter' w k).votes ≡ some v
keeps_vote id id' voter voter' v w k there named first = ground (
  arith,
  lookup-insert (id, voter) (id', voter') w k.votes,
  text_key.beq_iff voter voter',
  voted_of id voter v k there named,
)

module _ (d : Decimals) (p : Platform) {R : Type 0} where
  open p use {address, Bank}

  -- A vote that was cast: on a proposal that is open, in time, by an address that had not voted and
  -- that has power; it alone is written.
  pub record Cast (ctx : Context) (msg : MsgVote) (s s' : DaoChain R Bank) : Type 0 where
    pub voter : Address
    pub voter_address : address msg.voter ≡ some voter
    pub proposal : Proposal
    pub found : lookup msg.proposal_id s.keeper.proposals ≡ some proposal
    pub is_open : is_voting proposal.status ≡ true
    pub in_time : ctx.height ≤ proposal.voting_end_block
    pub first : has_voted msg.proposal_id voter s.keeper ≡ false
    pub power : ℤ
    pub power_now : calculate_voter_power d p voter ctx.height s.keeper s.bank ≡ ok power
    pub has_power : is_zero power ≡ false
    pub written : s'.keeper ≡ with_vote msg.proposal_id voter (ballot msg power) s.keeper
    pub registry : s'.registry ≡ s.registry
    pub bank : s'.bank ≡ s.bank

  after_get_proposal :
      {A : Type 0} {Q : A → DaoChain R Bank → Type 0} {E : DaoChain R Bank → Type 0} (id : ℕ)
      (f : Proposal → Handler (DaoChain R Bank) A) (s : DaoChain R Bank)
      → E s
      → ((q : Proposal) → lookup id s.keeper.proposals ≡ some q → Ensures Q E (f q s))
      → Ensures Q E ((get_proposal d p id >>= f) s)
  unfolding get_proposal ◌>>=◌
  after_get_proposal id f s = after_or_fail (lookup id s.keeper.proposals) proposal_not_found f s

  set_vote_effect :
      (v : Vote) (voter : Address) (s : DaoChain R Bank)
      → address v.voter ≡ some voter
      → Ensures
          (λ _ s'. s' ≡ record s { keeper = with_vote v.proposal_id voter v s.keeper })
          (λ s'. s' ≡ s)
          (set_vote d p v s)
  unfolding set_vote
  set_vote_effect v voter s known = after_or_fail _ _ _ s refl λ a same. succeeds _ _ (ground arith)

  -- Vote succeeds only if the voter's address decodes, the proposal is stored and in its voting
  -- period, the block is not after its end, no vote of this address for it is stored under a
  -- voter's name, and the voter's power is computed and not zero; it then writes this one vote with
  -- that power, and changes neither the registry nor the bank. If it fails, the chain is as it was.
  pub vote_effect :
      (ctx : Context) (msg : MsgVote) (s : DaoChain R Bank)
      → Ensures (λ _ s'. Cast ctx msg s s') (λ s'. s' ≡ s) (vote d p ctx msg s)
  unfolding vote
  vote_effect ctx msg s = after_or_fail _ _ _ s refl λ voter known.
      after_get_proposal _ _ s refl λ q found. after_fail_if _ _ _ s refl λ opened.
        after_fail_if _ _ _ s refl λ timely. after_gets _ _ s (
          after_fail_if _ _ _ s refl λ first. after_lift _ _ s refl λ power computed.
            after_fail_if _ _ _ s refl λ powerful.
              after_step _ _ s (set_vote_effect (ballot msg power) voter s known) λ _ t set.
                succeeds _ _ (record {
                  voter = voter;
                  voter_address = known;
                  proposal = q;
                  found = found;
                  is_open = ground arith;
                  in_time = ground arith;
                  first = first;
                  power = power;
                  power_now = computed;
                  has_power = powerful;
                  written = ap (λ x. x.keeper) set;
                  registry = ap (λ x. x.registry) set;
                  bank = ap (λ x. x.bank) set;
                }))

  -- A stored vote that names its voter is found unchanged after any further vote message,
  -- successful or not.
  pub vote_stands :
      (ctx : Context) (msg : MsgVote) (s : DaoChain R Bank) (id : ℕ) (voter : Address) (v : Vote)
      → lookup (id, voter) s.keeper.votes ≡ some v
      → v.voter ≢ []
      → lookup (id, voter) (vote d p ctx msg s).1.keeper.votes ≡ some v
  vote_stands ctx msg s id voter v there named =
      either_way (λ t. lookup (id, voter) t.keeper.votes ≡ some v) (vote_effect ctx msg s)
        (λ _ t c.
          subst (λ k. lookup (id, voter) k.votes ≡ some v) (sym c.written)
            (keeps_vote id msg.proposal_id voter c.voter v (ballot msg c.power) s.keeper there named
              c.first))
        (λ t same. subst (λ x. lookup (id, voter) x.keeper.votes ≡ some v) (sym same) there)

  Cast-has_voted :
      (ctx : Context) (msg : MsgVote) (s t : DaoChain R Bank)
      → address [] ≡ none
      → (c : Cast ctx msg s t) → has_voted msg.proposal_id c.voter t.keeper ≡ true
  Cast-has_voted ctx msg s t no_empty c =
      subst (λ k. has_voted msg.proposal_id c.voter k ≡ true) (sym c.written)
        (voted_of msg.proposal_id c.voter (ballot msg c.power) _
          (ground (
            arith,
            lookup-insert (msg.proposal_id, c.voter) (msg.proposal_id, c.voter) (ballot msg c.power)
                s.keeper.votes,
            beq_refl c.voter,
          ))
          (λ e. cc (c.voter_address, no_empty)))

  -- After a vote that succeeded, a vote for the same proposal from a text that decodes to the same
  -- address does not succeed in the state that the first vote left, at whatever height and for
  -- whatever option. The condition is that the empty text is no address.
  pub vote_once :
      (ctx ctx' : Context) (msg msg' : MsgVote) (s : DaoChain R Bank)
      → address [] ≡ none
      → (vote d p ctx msg s).0 ≡ ok tt
      → address msg'.voter ≡ address msg.voter
      → msg'.proposal_id ≡ msg.proposal_id
      → (vote d p ctx' msg' (vote d p ctx msg s).1).0 ≢ ok tt
  vote_once ctx ctx' msg msg' s no_empty done same_voter same_proposal again =
      let t = (vote d p ctx msg s).1 in
      let c = on_success (vote_effect ctx msg s) tt done in
      let c' = on_success (vote_effect ctx' msg' t) tt again in
      let same : c'.voter ≡ c.voter = cc (c.voter_address, c'.voter_address) in
      cc (
        Cast-has_voted ctx msg s t no_empty c,
        c'.first,
        ap (λ v. has_voted msg'.proposal_id v t.keeper) same,
        ap (λ i. has_voted i c.voter t.keeper) same_proposal,
      )
