-- ===== src/Dao/Agreement/Plain.antt =====
-- Texts of letters, digits and hyphens: what ValidateBasic leaves of a TLD
-- (types/proposal_content.go), and its two normal forms.
use dnsblockchain.Prelude.{ℕ, ◌+◌, ◌≡◌, refl, ap, Bool, true, false, [], ◌∷◌, arith, All}
use dnsblockchain.Go.Text.{
  Text, is_dot, is_space, has_dot, byte_len, rune_len, to_lower, to_lower_rune, trim_dots,
  trim_space,
}
use dnsblockchain.Go.Text.Trim.{Starts, Ends, trim_left_of_Starts, trim_right_of_Ends}
use dnsblockchain.Go.Text.Normal.{normal_name, normal_tld}
use dnsblockchain.Store.{text_key}
use dnsblockchain.Dao.Content.{is_alnum_or_hyphen, matches_tail, matches_tld}

-- A text of letters, digits and hyphens.
abbrev pub IsPlain : Text → Type 0
IsPlain = All (λ c. is_alnum_or_hyphen c ≡ true)

pub matches_tail-IsPlain : (t : Text) → matches_tail t ≡ true → IsPlain t
unfolding matches_tail
matches_tail-IsPlain [] h = tt
matches_tail-IsPlain (c ∷ []) h = (ground arith, tt)
matches_tail-IsPlain (c ∷ d ∷ s) h = (ground arith, matches_tail-IsPlain (d ∷ s) (ground arith))

pub matches_tld-IsPlain : (t : Text) → matches_tld t ≡ true → IsPlain t
unfolding matches_tld
matches_tld-IsPlain [] h = tt
matches_tld-IsPlain (c ∷ []) h = (ground arith, tt)
matches_tld-IsPlain (c ∷ d ∷ s) h = (ground arith, matches_tail-IsPlain (d ∷ s) (ground arith))

pub plain_rune :
    (c : ℕ)
    → is_alnum_or_hyphen c ≡ true
    → (is_dot c ≡ false) × (is_space c ≡ false) × (rune_len c ≡ 1)
plain_rune c h = ground arith

pub lowered_rune :
    (lower : ℕ → ℕ) (c : ℕ)
    → is_alnum_or_hyphen c ≡ true
    → is_alnum_or_hyphen (to_lower_rune lower c) ≡ true
lowered_rune lower c h = ground arith

pub plain-Starts :
    (f : ℕ → Bool)
    → ((c : ℕ) → is_alnum_or_hyphen c ≡ true → f c ≡ false)
    → (t : Text) → IsPlain t
    → Starts f t
plain-Starts f k [] h = tt
plain-Starts f k (c ∷ s) h = k c h.0

pub plain-Ends :
    (f : ℕ → Bool)
    → ((c : ℕ) → is_alnum_or_hyphen c ≡ true → f c ≡ false)
    → (t : Text) → IsPlain t
    → Ends f t
plain-Ends f k [] h = tt
plain-Ends f k (c ∷ []) h = k c h.0
plain-Ends f k (c ∷ d ∷ s) h = plain-Ends f k (d ∷ s) h.1

module _ (lower : ℕ → ℕ) where
  pub to_lower-IsPlain : (t : Text) → IsPlain t → IsPlain (to_lower lower t)
  unfolding to_lower
  to_lower-IsPlain [] h = tt
  to_lower-IsPlain (c ∷ s) h = (lowered_rune lower c h.0, to_lower-IsPlain s h.1)

  pub byte_len-to_lower : (t : Text) → IsPlain t → byte_len (to_lower lower t) ≡ byte_len t
  unfolding to_lower
  byte_len-to_lower [] h = refl
  byte_len-to_lower (c ∷ s) h =
      rw ((plain_rune c h.0).2, (plain_rune (to_lower_rune lower c) (lowered_rune lower c h.0)).2)
        (ap (λ (n : ℕ). 1 + n) (byte_len-to_lower s h.1))

  pub has_dot-IsPlain : (t : Text) → IsPlain t → has_dot t ≡ false
  has_dot-IsPlain [] h = refl
  has_dot-IsPlain (c ∷ s) h = rw ((plain_rune c h.0).0) (has_dot-IsPlain s h.1)

  pub normal_name-IsPlain : (t : Text) → IsPlain t → normal_name lower t ≡ to_lower lower t
  unfolding normal_name trim_dots
  normal_name-IsPlain t h =
      let f = λ (c : ℕ) (e : is_alnum_or_hyphen c ≡ true). (plain_rune c e).0 in
      ap (to_lower lower) (
        rw (trim_left_of_Starts is_dot t (plain-Starts is_dot f t h))
          (trim_right_of_Ends is_dot t (plain-Ends is_dot f t h)))

  pub normal_tld-IsPlain : (t : Text) → IsPlain t → normal_tld lower t ≡ to_lower lower t
  unfolding normal_tld trim_space
  normal_tld-IsPlain t h =
      let f = λ (c : ℕ) (e : is_alnum_or_hyphen c ≡ true). (plain_rune c e).1 in
      ap (to_lower lower) (
        rw (trim_left_of_Starts is_space t (plain-Starts is_space f t h))
          (trim_right_of_Ends is_space t (plain-Ends is_space f t h)))

  pub lowered_twice :
      (c : ℕ)
      → is_alnum_or_hyphen c ≡ true
      → to_lower_rune lower (to_lower_rune lower c) ≡ to_lower_rune lower c
  lowered_twice c h = ground arith

  pub to_lower_twice : (t : Text) → IsPlain t → to_lower lower (to_lower lower t) ≡ to_lower lower t
  unfolding to_lower
  to_lower_twice [] h = refl
  to_lower_twice (c ∷ s) h = rw (lowered_twice c h.0, to_lower_twice s h.1) refl
