-- ===== src/Go/Text/Normal.antt =====
-- The two normal forms of the program: `ToLower(Trim(s, "."))` of domain names, and
-- `ToLower(TrimSpace(s))` of TLDs.
use dnsblockchain.Prelude.{ap, ◌∙◌, sym, arith, [], ◌∷◌, ℕ, ◌≡◌, false}
use dnsblockchain.Go.Text.Defs.{
  has_dot, Text, is_dot, is_space, trim_left, trim_right, trim_dots, trim_space, to_lower,
  IsLowering,
}
use dnsblockchain.Go.Text.Trim.{
  Starts, Ends, trim_left-Starts, trim_right-Ends, trim_left_of_Starts, trim_right_of_Ends,
  trim_right-Starts, is_dot-to_lower_rune, is_space-to_lower_rune, to_lower_idem, to_lower-Starts,
  to_lower-Ends,
}

module _ (lower : ℕ → ℕ) where
  unfoldable pub normal_name : Text → Text
  normal_name s = to_lower lower (trim_dots s)

  unfoldable pub normal_tld : Text → Text
  normal_tld s = to_lower lower (trim_space s)

no_dot-Starts : (t : Text) → has_dot t ≡ false → Starts is_dot t
no_dot-Starts [] h = tt
no_dot-Starts (c ∷ s) h = ground arith

no_dot-Ends : (t : Text) → has_dot t ≡ false → Ends is_dot t
no_dot-Ends [] h = tt
no_dot-Ends (c ∷ []) h = ground arith
no_dot-Ends (c ∷ d ∷ s) h = no_dot-Ends (d ∷ s) (ground arith)

module _ (lower : ℕ → ℕ) (l : IsLowering lower) where
  -- The normal form of a domain name is its own normal form. The case mapping keeps dots and spaces
  -- apart from letters and is idempotent.
  pub normal_name_idem : (s : Text) → normal_name lower (normal_name lower s) ≡ normal_name lower s
  unfolding normal_name trim_dots
  normal_name_idem s =
      let t = trim_right is_dot (trim_left is_dot s) in
      let starts : Starts is_dot (to_lower lower t) =
        to_lower-Starts lower l is_dot (is_dot-to_lower_rune lower l) t
          (trim_right-Starts is_dot (trim_left is_dot s) (trim_left-Starts is_dot s)) in
      let ends : Ends is_dot (to_lower lower t) =
        to_lower-Ends lower l is_dot (is_dot-to_lower_rune lower l) t
          (trim_right-Ends is_dot (trim_left is_dot s)) in
      rw
        (
          trim_left_of_Starts is_dot (to_lower lower t) starts,
          trim_right_of_Ends is_dot (to_lower lower t) ends,
        )
        (to_lower_idem lower l t)

  pub normal_tld_idem : (s : Text) → normal_tld lower (normal_tld lower s) ≡ normal_tld lower s
  unfolding normal_tld trim_space
  normal_tld_idem s =
      let t = trim_right is_space (trim_left is_space s) in
      let starts : Starts is_space (to_lower lower t) =
        to_lower-Starts lower l is_space (is_space-to_lower_rune lower l) t
          (trim_right-Starts is_space (trim_left is_space s) (trim_left-Starts is_space s)) in
      let ends : Ends is_space (to_lower lower t) =
        to_lower-Ends lower l is_space (is_space-to_lower_rune lower l) t
          (trim_right-Ends is_space (trim_left is_space s)) in
      rw
        (
          trim_left_of_Starts is_space (to_lower lower t) starts,
          trim_right_of_Ends is_space (to_lower lower t) ends,
        )
        (to_lower_idem lower l t)

  -- A normalised TLD without dots is a normalised name.
  pub normal_name-no_dot :
      (tld t : Text) → t ≡ normal_tld lower tld → has_dot t ≡ false → normal_name lower t ≡ t
  unfolding normal_name normal_tld trim_dots
  normal_name-no_dot tld t e one =
      rw
        (
          trim_left_of_Starts is_dot t (no_dot-Starts t one),
          trim_right_of_Ends is_dot t (no_dot-Ends t one),
        )
        (ap (to_lower lower) e ∙ to_lower_idem lower l _ ∙ sym e)
