-- ===== src/Go/Text/Trim.antt =====
-- Trimming, lower-casing and splitting: what the results look like.
use dnsblockchain.Prelude.{ℕ, ◌≡◌, refl, Bool, false, [], ◌∷◌, arith, ltb, Bool-cases, inl, inr}
use dnsblockchain.Go.Text.Defs.{
  Text, is_dot, trim_left, trim_right, keep_or_drop, to_lower_rune, to_lower, IsLowering, is_space,
}

-- The first, and the last, code point passes the test.
abbrev pub Starts : (ℕ → Bool) → Text → Type 0
Starts p [] = Unit
Starts p (c ∷ s) = p c ≡ false

abbrev pub Ends : (ℕ → Bool) → Text → Type 0
Ends p [] = Unit
Ends p (c ∷ []) = p c ≡ false
Ends p (c ∷ d ∷ s) = Ends p (d ∷ s)

module _ (p : ℕ → Bool) where
  pub trim_left-Starts : (s : Text) → Starts p (trim_left p s)
  unfolding trim_left
  trim_left-Starts [] = tt
  trim_left-Starts (c ∷ s) = elim (Bool-cases (p c)) [
    | inl e ↦ rw e (trim_left-Starts s)
    | inr e ↦ rw e e
  ]

  keep_or_drop-Ends : (c : ℕ) (s : Text) → Ends p s → Ends p (keep_or_drop p c s)
  keep_or_drop-Ends c [] h = elim (Bool-cases (p c)) [ inl e ↦ rw e tt | inr e ↦ rw e e ]
  keep_or_drop-Ends c (d ∷ s) h = h

  pub trim_right-Ends : (s : Text) → Ends p (trim_right p s)
  unfolding trim_right
  trim_right-Ends [] = tt
  trim_right-Ends (c ∷ s) = keep_or_drop-Ends c (trim_right p s) (trim_right-Ends s)

  -- Trimming changes nothing where there is nothing to trim.
  pub trim_left_of_Starts : (s : Text) → Starts p s → trim_left p s ≡ s
  unfolding trim_left
  trim_left_of_Starts [] h = refl
  trim_left_of_Starts (c ∷ s) h = rw h

  pub trim_right_of_Ends : (s : Text) → Ends p s → trim_right p s ≡ s
  unfolding trim_right
  trim_right_of_Ends [] h = refl
  trim_right_of_Ends (c ∷ []) h = rw h
  trim_right_of_Ends (c ∷ d ∷ s) h = rw (trim_right_of_Ends (d ∷ s) h)

  -- Trimming the right leaves the front as it is.
  keep_or_drop-Starts : (c : ℕ) (s : Text) → p c ≡ false → Starts p (keep_or_drop p c s)
  keep_or_drop-Starts c [] h = rw h h
  keep_or_drop-Starts c (d ∷ s) h = h

  pub trim_right-Starts : (s : Text) → Starts p s → Starts p (trim_right p s)
  unfolding trim_right
  trim_right-Starts [] h = tt
  trim_right-Starts (c ∷ s) h = keep_or_drop-Starts c (trim_right p s) h

module _ (lower : ℕ → ℕ) (l : IsLowering lower) where
  pub to_lower_rune_idem :
      (c : ℕ) → to_lower_rune lower (to_lower_rune lower c) ≡ to_lower_rune lower c
  to_lower_rune_idem c = ground (arith, l.idem c)

  pub is_dot-to_lower_rune : (c : ℕ) → is_dot (to_lower_rune lower c) ≡ is_dot c
  is_dot-to_lower_rune c = ground (arith, l.dot_stays c)

  pub is_space-to_lower_rune : (c : ℕ) → is_space (to_lower_rune lower c) ≡ is_space c
  is_space-to_lower_rune c = elim (Bool-cases (ltb c 0x80)) [
    | inl e ↦ ground arith
    | inr e ↦ rw e (l.space_stays c (ground arith))
  ]

  pub to_lower_idem : (s : Text) → to_lower lower (to_lower lower s) ≡ to_lower lower s
  unfolding to_lower
  to_lower_idem [] = refl
  to_lower_idem (c ∷ s) = cc (to_lower_rune_idem c, to_lower_idem s)

  -- A test that lower-casing does not change keeps its verdict on both ends.
  module _ (p : ℕ → Bool) (same : (c : ℕ) → p (to_lower_rune lower c) ≡ p c) where
    pub to_lower-Starts : (s : Text) → Starts p s → Starts p (to_lower lower s)
    unfolding to_lower
    to_lower-Starts [] h = tt
    to_lower-Starts (c ∷ s) h = rw (same c) h

    pub to_lower-Ends : (s : Text) → Ends p s → Ends p (to_lower lower s)
    unfolding to_lower
    to_lower-Ends [] h = tt
    to_lower-Ends (c ∷ []) h = rw (same c) h
    to_lower-Ends (c ∷ d ∷ s) h = to_lower-Ends (d ∷ s) h
