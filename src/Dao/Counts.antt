-- ===== src/Dao/Counts.antt =====
-- The tally of `EndBlocker` against the votes one by one, and its verdict against the shares.
use dnsblockchain.Prelude.Arith.{times_mono}
use dnsblockchain.Prelude.{
  ℕ, suc, ◌+◌, ◌*◌, ◌^◌, ◌<◌, ◌≤◌, ◌≡◌, refl, ap, ◌∙◌, Bool, true, false, some, List, [], ◌∷◌,
  arith, if◌then◌else◌, leb,
}
use dnsblockchain.Prelude.Int.{ℤ, pos, leb_ℤ, is_zero, ◌+ℤ◌, int_laws}
use dnsblockchain.Store.{nat_key, walk_prefix}
use dnsblockchain.Dao.Types.{Vote, VoteOption, yes_vote, no_vote, abstain, DaoKeeper}
use dnsblockchain.Dao.External.{Decimals, IsDecimals, dec_one}
use dnsblockchain.Dao.Tally.{
  Tally, no_votes_yet, count_vote, tally_votes, tally_of, quorum_ratio, has_quorum, yes_ratio,
  passes_threshold,
}

abbrev pub is_yes : VoteOption → Bool
is_yes = elim [ yes_vote ↦ true | _ ↦ false ]

abbrev pub is_no : VoteOption → Bool
is_no = elim [ no_vote ↦ true | _ ↦ false ]

abbrev pub is_abstain : VoteOption → Bool
is_abstain = elim [ abstain ↦ true | _ ↦ false ]

-- The power of the votes for the options of a test.
abbrev pub power_for : (VoteOption → Bool) → List Vote → ℤ
power_for f [] = pos 0
power_for f (v ∷ vs) = if f v.option then v.voting_power +ℤ power_for f vs else power_for f vs

abbrev counted_from : Tally → List Vote → Tally
counted_from t vs = record {
  yes = t.yes +ℤ power_for is_yes vs;
  no = t.no +ℤ power_for is_no vs;
  abstained = t.abstained +ℤ power_for is_abstain vs;
  voted = t.voted +ℤ (power_for is_yes vs +ℤ power_for is_no vs +ℤ power_for is_abstain vs);
}

tally_eq :
    (t u : Tally)
    → t.yes ≡ u.yes
    → t.no ≡ u.no
    → t.abstained ≡ u.abstained
    → t.voted ≡ u.voted
    → t ≡ u
tally_eq t u a b c e = cc

add_zero : (a : ℤ) → a ≡ a +ℤ pos 0
add_zero a = omega int_laws

zero_add : (a : ℤ) → pos 0 +ℤ a ≡ a
zero_add a = omega int_laws

counted_from-one :
    (t : Tally) (o : VoteOption) (v : Vote) (vs : List Vote)
    → v.option ≡ o
    → counted_from (count_vote t o v.voting_power) vs ≡ counted_from t (v ∷ vs)
unfolding count_vote
counted_from-one t VoteOption.unspecified v vs e = rw e refl
counted_from-one t yes_vote v vs e = rw e (tally_eq _ _ (omega int_laws) refl refl (omega int_laws))
counted_from-one t no_vote v vs e = rw e (tally_eq _ _ refl (omega int_laws) refl (omega int_laws))
counted_from-one t abstain v vs e = rw e (tally_eq _ _ refl refl (omega int_laws) (omega int_laws))

tally_votes-counted_from : (t : Tally) (vs : List Vote) → tally_votes t vs ≡ counted_from t vs
unfolding tally_votes
tally_votes-counted_from t [] =
    tally_eq _ _ (omega int_laws) (omega int_laws) (omega int_laws) (omega int_laws)
tally_votes-counted_from t (v ∷ vs) =
    tally_votes-counted_from (count_vote t v.option v.voting_power) vs
    ∙ counted_from-one t v.option v vs refl

pub tally_of-sums :
    (id : ℕ) (k : DaoKeeper)
    → tally_of id k ≡ (
        let vs = walk_prefix id k.votes in
        record {
          yes = power_for is_yes vs;
          no = power_for is_no vs;
          abstained = power_for is_abstain vs;
          voted = power_for is_yes vs +ℤ power_for is_no vs +ℤ power_for is_abstain vs;
        })
unfolding tally_of
tally_of-sums id k =
    tally_votes-counted_from no_votes_yet (walk_prefix id k.votes)
    ∙ tally_eq _ _ (zero_add _) (zero_add _) (zero_add _) (zero_add _)

-- A rounded share against a bound.
share_bounds :
    (q x v s : ℕ)
    → x * s < v + s
    → v < x * s + s
    → (q * s ≤ v → leb q x ≡ true)
      × (leb q x ≡ true → q * s < v + s)
      × (v + s ≤ q * s → leb q x ≡ false)
share_bounds q x v s below above = ground (arith, times_mono q x s, times_mono (suc x) q s)

module _ (d : Decimals) (laws : IsDecimals d) where
  open d use {quo}
  open laws use {quo_whole, from_text_whole}

  quorum_ratio-whole :
      (q v s : ℕ)
      → 0 < s
      → v < 2 ^ 255
      → s < 2 ^ 255
      → has_quorum d (pos q) (pos v) (pos s)
        ≡ some (leb_ℤ (pos q) (quo (pos (v * dec_one)) (pos (s * dec_one))))
  unfolding has_quorum quorum_ratio
  quorum_ratio-whole q v s p a b = ground (arith, from_text_whole v a, from_text_whole s b)

  -- For a quorum given in units of 10^-18, a positive snapshot and a power voted below 2^255, and
  -- decimals that keep their laws: the quorum is met when the power voted is at least that share of
  -- the snapshot; if it is met then the power voted is less than one unit of the snapshot short of
  -- that share; and it is not met when the power voted is a unit or more short.
  pub has_quorum-bounds :
      (q v s : ℕ)
      → 0 < s
      → v < 2 ^ 255
      → s < 2 ^ 255
      → (q * s ≤ v * dec_one → has_quorum d (pos q) (pos v) (pos s) ≡ some true)
        × (has_quorum d (pos q) (pos v) (pos s) ≡ some true → q * s < v * dec_one + s)
        × (v * dec_one + s ≤ q * s → has_quorum d (pos q) (pos v) (pos s) ≡ some false)
  has_quorum-bounds q v s p a b =
      let (x, is_x, below, above) = quo_whole v s p a in
      let same : has_quorum d (pos q) (pos v) (pos s) ≡ some (leb_ℤ (pos q) (pos x)) =
        quorum_ratio-whole q v s p a b ∙ ap (λ (y : ℤ). some (leb_ℤ (pos q) y)) is_x in
      ground (arith, same, share_bounds q x (v * dec_one) s below above)

  yes_ratio-whole :
      (t y n : ℕ) (tally : Tally)
      → tally.yes ≡ pos y
      → tally.no ≡ pos n
      → 0 < y + n
      → y + n < 2 ^ 255
      → is_zero tally.voted ≡ false
      → passes_threshold d (pos t) tally
        ≡ some (leb_ℤ (pos t) (quo (pos (y * dec_one)) (pos ((y + n) * dec_one))))
  unfolding passes_threshold yes_ratio ◌+ℤ◌
  yes_ratio-whole t y n tally e f p a z =
      ground (arith, from_text_whole y (omega arith), from_text_whole (y + n) a)

  pub passes_threshold-bounds :
      (t y n : ℕ) (tally : Tally)
      → tally.yes ≡ pos y
      → tally.no ≡ pos n
      → 0 < y + n
      → y + n < 2 ^ 255
      → is_zero tally.voted ≡ false
      → (t * (y + n) ≤ y * dec_one → passes_threshold d (pos t) tally ≡ some true)
        × (passes_threshold d (pos t) tally ≡ some true → t * (y + n) < y * dec_one + (y + n))
        × (y * dec_one + (y + n) ≤ t * (y + n) → passes_threshold d (pos t) tally ≡ some false)
  passes_threshold-bounds t y n tally e f p a z =
      let (x, is_x, below, above) = quo_whole y (y + n) p (omega arith) in
      let same : passes_threshold d (pos t) tally ≡ some (leb_ℤ (pos t) (pos x)) =
        yes_ratio-whole t y n tally e f p a z ∙ ap (λ (r : ℤ). some (leb_ℤ (pos t) r)) is_x in
      ground (arith, same, share_bounds t x (y * dec_one) (y + n) below above)
