-- ===== src/App/Voted.antt =====
-- The executed proposals of x/dao for a TLD, and that their counts win (x/dao/keeper/end_blocker.go).
use mathlib.Core.Path.{subst}
use dnsblockchain.Prelude.{ℕ, ◌≡◌, refl, sym, some}
use dnsblockchain.Prelude.Int.{◌+ℤ◌}
use dnsblockchain.Go.Text.{Text}
use dnsblockchain.Go.Text.Normal.{normal_tld}
use dnsblockchain.Store.{nat_key, lookup}
use dnsblockchain.Dao.{
  AddTld, add_tld, Proposal, DaoParams, DaoKeeper, passed, executed, Codec, Decimals, unpacked,
}
use dnsblockchain.Dao.Tally.{Tally, tally_of, verdict}
use dnsblockchain.Dao.Counts.{tally_of-sums}

-- The proposal asks for the TLD.
abbrev pub Proposes : Codec → (ℕ → ℕ) → Proposal → Text → Type 0
Proposes codec lower q t =
    (c : AddTld) × (codec.unpack_any q.content ≡ unpacked (add_tld c))
    × (t ≡ normal_tld lower c.tld)

-- The counts of a proposal as a tally.
abbrev pub stored_tally : Proposal → Tally
stored_tally q = record {
  yes = q.yes_votes;
  no = q.no_votes;
  abstained = q.abstain_votes;
  voted = q.yes_votes +ℤ q.no_votes +ℤ q.abstain_votes;
}

-- The counts of a proposal meet the quorum and the threshold.
abbrev pub Wins : Decimals → DaoParams → Proposal → Type 0
Wins d params q = verdict d params q.total_voting_power_at_snapshot (stored_tally q) ≡ passed

-- A proposal for the TLD is stored as executed, with counts that win.
pub record Voted (codec : Codec) (d : Decimals) (params : DaoParams) (lower : ℕ → ℕ) (k : DaoKeeper)
    (t : Text) : Type 0 where
  pub id : ℕ
  pub proposal : Proposal
  pub stored : lookup id k.proposals ≡ some proposal
  pub was_executed : proposal.status ≡ executed
  pub wins : Wins d params proposal
  pub proposes : Proposes codec lower proposal t

-- The power voted is the sum of the three counts.
pub tally_of-voted :
    (i : ℕ) (k : DaoKeeper)
    → let t = tally_of i k in
      t ≡ record {
        yes = t.yes;
        no = t.no;
        abstained = t.abstained;
        voted = t.yes +ℤ t.no +ℤ t.abstained;
      }
tally_of-voted i k =
    subst
      (λ (t : Tally). t ≡ record {
        yes = t.yes;
        no = t.no;
        abstained = t.abstained;
        voted = t.yes +ℤ t.no +ℤ t.abstained;
      })
      (sym (tally_of-sums i k)) refl
