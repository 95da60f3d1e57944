-- ===== src/Dao/Frozen.antt =====
-- A DAO whose lots of voting power are all worth nothing (x/dao/keeper/keeper.go,
-- x/dao/keeper/msg_server.go, x/dao/keeper/end_blocker.go).
pub mod Ending
mod Kept
pub mod Runs
use dnsblockchain.Prelude.{
  ℕ, ◌+◌, ◌-◌, ◌<◌, ◌≤◌, ◌≡◌, ◌≢◌, refl, sym, ap, ◌∙◌, Bool, true, false, none, some, Option, List,
  [], ◌∷◌, ◌⊎◌, inl, inr, arith, All, Bool-cases, leb, if◌then◌else◌, not, ◌&&◌,
}
use dnsblockchain.Prelude.Int.{ℤ, pos, ◌+ℤ◌, is_zero, is_positive, leb_ℤ}
use dnsblockchain.Go.Word.{sub64, u64_mod}
use dnsblockchain.Sdk.{Platform, Address, Result, ok, err}
use dnsblockchain.Store.{Map, nat_key, text_key, ◌==◌, walk_prefix}
use dnsblockchain.Dao.Types.{
  Proposal, Vote, VotingPowerLot, DaoParams, DaoKeeper, ProposalStatus, rejected, failed, passed,
  is_voting,
}
use dnsblockchain.Dao.External.{Decimals}
use dnsblockchain.Dao.Power.{
  is_lot_based_voting_active, lot_power, lots_power, calculate_voter_power,
}
use dnsblockchain.Dao.Tally.{
  Tally, no_votes_yet, tally_votes, tally_of, has_quorum, quorum_ratio, passes_threshold, verdict,
  verdict_of_quorum,
}

-- What is relied on of the decimals: nothing is nothing, and no share of anything.
pub record HasZero (d : Decimals) : Type 0 where
  pub from_text_zero : d.from_text (pos 0) ≡ some (pos 0)
  pub quo_zero : (s : ℤ) → is_zero s ≡ false → d.quo (pos 0) s ≡ pos 0

-- The lot has decayed at a height.
abbrev pub IsExpired : ℕ → ℕ → VotingPowerLot → Type 0
IsExpired decay height lot = lot.grant_block_height + decay ≤ height

-- Lots exist, all have decayed, and no open proposal has a vote.
pub record IsFrozen (params : DaoParams) (height : ℕ) (k : DaoKeeper) : Type 0 where
  pub set : k.params ≡ some params
  pub lots : is_lot_based_voting_active k ≡ true
  pub expired :
      All (λ e. IsExpired params.voting_power_decay_duration_blocks height e.1) k.voter_power_lots
  pub quiet : All (λ e. is_voting e.1.status ≡ true → walk_prefix e.1.id k.votes ≡ []) k.proposals
  pub below : All (λ e. e.0.0 < k.proposal_seq) k.votes

-- The values under a first key that no entry has.
pub walk_prefix-none :
    (i : ℕ) (votes : Map (ℕ × Address) Vote) → All (λ e. e.0.0 < i) votes → walk_prefix i votes ≡ []
unfolding walk_prefix
walk_prefix-none i [] b = refl
walk_prefix-none i ((k, v) ∷ votes) b =
    ground (arith, walk_prefix-none i votes b.1, b.0, nat_key.beq_iff i k.0)

walk_prefix-All :
    (P : VotingPowerLot → Type 0) (a : Address) (m : Map (Address × ℕ) VotingPowerLot)
    → All (λ e. P e.1) m
    → All P (walk_prefix a m)
unfolding walk_prefix
walk_prefix-All P a [] h = tt
walk_prefix-All P a ((k, v) ∷ m) h = elim (Bool-cases (a == k.0)) [
  | inl e ↦ rw e (h.0, walk_prefix-All P a m h.1)
  | inr e ↦ rw e (walk_prefix-All P a m h.1)
]

module _ (d : Decimals) where
  lot_power-expired :
      (decay height : ℕ) (lot : VotingPowerLot)
      → 0 < decay
      → height < u64_mod
      → IsExpired decay height lot
      → lot_power d decay height lot ≡ pos 0
  unfolding lot_power
  lot_power-expired decay height lot some_decay room h = ground arith

  lots_power-expired :
      (decay height : ℕ) (lots : List VotingPowerLot)
      → 0 < decay
      → height < u64_mod
      → All (IsExpired decay height) lots
      → lots_power d decay height (pos 0) lots ≡ pos 0
  unfolding lots_power ◌+ℤ◌
  lots_power-expired decay height [] s r h = refl
  lots_power-expired decay height (lot ∷ lots) s r h =
      rw (lot_power-expired decay height lot s r h.0) (lots_power-expired decay height lots s r h.1)

  no_share :
      (quorum : ℤ) (o : Option ℤ)
      → HasZero d
      → is_positive quorum ≡ true
      → (quorum_ratio d quorum (some (pos 0)) o ≡ none)
        ⊎ (quorum_ratio d quorum (some (pos 0)) o ≡ some false)
  unfolding quorum_ratio
  no_share quorum none z q = inl refl
  no_share quorum (some s) z q = inr (ground (arith, q, z.quo_zero s))

  no_quorum :
      (quorum snapshot : ℤ)
      → HasZero d
      → is_positive quorum ≡ true
      → (has_quorum d quorum (pos 0) snapshot ≡ none)
        ⊎ (has_quorum d quorum (pos 0) snapshot ≡ some false)
  unfolding has_quorum
  no_quorum quorum snapshot z q = elim (Bool-cases (is_positive snapshot)) [
    | inl e ↦ rw (e, z.from_text_zero) (no_share quorum (d.from_text snapshot) z q)
    | inr e ↦ rw e (inr (ground (arith, q)))
  ]

  -- A proposal without votes does not pass where the quorum is positive.
  pub quiet_verdict :
      (params : DaoParams) (snapshot : ℤ)
      → HasZero d
      → is_positive params.quorum_percent ≡ true
      → (verdict d params snapshot no_votes_yet ≡ rejected)
        ⊎ (verdict d params snapshot no_votes_yet ≡ failed)
  unfolding verdict
  quiet_verdict params snapshot z q = elim (no_quorum params.quorum_percent snapshot z q) [
    | inl e ↦ inr (rw e refl)
    | inr e ↦ inl (rw e refl)
  ]

  module _ (p : Platform) where
    pub expired_power :
        (params : DaoParams) (voter : Address) (height : ℕ) (k : DaoKeeper) (bank : p.Bank)
        → IsFrozen params height k
        → 0 < params.voting_power_decay_duration_blocks
        → height < u64_mod
        → calculate_voter_power d p voter height k bank ≡ ok (pos 0)
    unfolding calculate_voter_power
    expired_power params voter height k bank v decays room =
        let decay = params.voting_power_decay_duration_blocks in
        let zero_power =
          lots_power-expired decay height (walk_prefix voter k.voter_power_lots) decays room
            (walk_prefix-All (IsExpired decay height) voter k.voter_power_lots v.expired) in
        rw (v.set, v.lots, zero_power) refl

pub tally_of-quiet :
    (i : ℕ) (k : DaoKeeper) → walk_prefix i k.votes ≡ [] → tally_of i k ≡ no_votes_yet
unfolding tally_of tally_votes
tally_of-quiet i k e = rw e refl
