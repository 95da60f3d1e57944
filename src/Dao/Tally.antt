-- ===== src/Dao/Tally.antt =====
-- The tally of a proposal and its verdict (the first half of `EndBlocker`,
-- x/dao/keeper/end_blocker.go).
use dnsblockchain.Prelude.{
  ℕ, Bool, true, false, not, ◌&&◌, Option, none, some, List, [], ◌∷◌, if◌then◌else◌,
}
use dnsblockchain.Prelude.Int.{ℤ, pos, ◌+ℤ◌, is_zero, is_positive, leb_ℤ}
use dnsblockchain.Store.{nat_key, walk_prefix}
use dnsblockchain.Dao.Types.{
  Proposal, Vote, VoteOption, yes_vote, no_vote, abstain, DaoParams, DaoKeeper, ProposalStatus,
  rejected, passed, failed,
}
use dnsblockchain.Dao.External.{Decimals}

-- The sums of the walk over the votes.
pub record Tally : Type 0 where
  pub yes : ℤ
  pub no : ℤ
  pub abstained : ℤ
  pub voted : ℤ

abbrev pub no_votes_yet : Tally
no_votes_yet = record { yes = pos 0; no = pos 0; abstained = pos 0; voted = pos 0 }

-- A vote without an option counts for nothing.
unfoldable pub count_vote : Tally → VoteOption → ℤ → Tally
count_vote t VoteOption.unspecified power = t
count_vote t yes_vote power = record t { yes = t.yes +ℤ power; voted = t.voted +ℤ power }
count_vote t no_vote power = record t { no = t.no +ℤ power; voted = t.voted +ℤ power }
count_vote t abstain power = record t { abstained = t.abstained +ℤ power; voted = t.voted +ℤ power }

unfoldable pub tally_votes : Tally → List Vote → Tally
tally_votes t [] = t
tally_votes t (v ∷ vs) = tally_votes (count_vote t v.option v.voting_power) vs

unfoldable pub tally_of : ℕ → DaoKeeper → Tally
tally_of id k = tally_votes no_votes_yet (walk_prefix id k.votes)

module _ (d : Decimals) where
  open d use {quo, from_text}

  -- Whether the quorum is met; `none` is a failed conversion.
  unfoldable pub quorum_ratio : ℤ → Option ℤ → Option ℤ → Option Bool
  quorum_ratio quorum none s = none
  quorum_ratio quorum (some v) none = none
  quorum_ratio quorum (some v) (some s) =
      if is_zero s && is_positive quorum
      then some false
      else if is_zero s && is_zero quorum
      then some true
      else some (leb_ℤ quorum (quo v s))

  unfoldable pub has_quorum : ℤ → ℤ → ℤ → Option Bool
  has_quorum quorum voted snapshot =
      if is_positive snapshot
      then quorum_ratio quorum (from_text voted) (from_text snapshot)
      else some (is_zero quorum)

  -- Whether enough of the votes for and against are for; `none` is a failed conversion.
  unfoldable pub yes_ratio : ℤ → Option ℤ → Option ℤ → Option Bool
  yes_ratio threshold none s = none
  yes_ratio threshold (some y) none = none
  yes_ratio threshold (some y) (some s) =
      if not (is_zero s) then some (leb_ℤ threshold (quo y s)) else some (is_zero threshold)

  unfoldable pub passes_threshold : ℤ → Tally → Option Bool
  passes_threshold threshold t =
      let decisive = t.yes +ℤ t.no in
      if is_zero t.voted
      then some false
      else if is_positive decisive
      then yes_ratio threshold (from_text t.yes) (from_text decisive)
      else some (is_zero threshold)

  abbrev pub verdict_of_threshold : Option Bool → ProposalStatus
  verdict_of_threshold none = failed
  verdict_of_threshold (some true) = passed
  verdict_of_threshold (some false) = rejected

  abbrev pub verdict_of_quorum : Option Bool → Option Bool → ProposalStatus
  verdict_of_quorum none threshold = failed
  verdict_of_quorum (some false) threshold = rejected
  verdict_of_quorum (some true) threshold = verdict_of_threshold threshold

  -- The status of a proposal in its voting period after the tally.
  unfoldable pub verdict : DaoParams → ℤ → Tally → ProposalStatus
  verdict params snapshot t =
      verdict_of_quorum (has_quorum params.quorum_percent t.voted snapshot)
        (passes_threshold params.min_yes_threshold_percent t)

  unfoldable pub tallied : DaoParams → Proposal → Tally → Proposal
  tallied params p t = record p {
    yes_votes = t.yes;
    no_votes = t.no;
    abstain_votes = t.abstained;
    status = verdict params p.total_voting_power_at_snapshot t;
  }
