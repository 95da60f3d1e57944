-- ===== src/App/Export/Refusals.antt =====
-- When the preparation for height zero (app/export.go) refuses a list of allowed addresses.
use dnsblockchain.Prelude.{
  ℕ, ◌≡◌, refl, sym, ap, ◌∙◌, true, Option, none, some, List, [], ◌∷◌, any, arith, Bool-cases, inl,
  inr,
}
use dnsblockchain.Go.Text.{Text}
use dnsblockchain.Sdk.{Address}
use dnsblockchain.Sdk.Panic.{Outcome, returns, panics, must_then, and_go}
use dnsblockchain.Store.{text_key, ◌==◌}
use dnsblockchain.App.Export.Modules.{SdkModules}
use dnsblockchain.App.Export.{allowed_addrs, prep_for_zero_height}

module _ (m : SdkModules) where
  open m use {Store, validator_bytes}

  allowed_addrs-none :
      (addr : Text) (addrs : List Text)
      → any (λ a. addr == a) addrs ≡ true
      → validator_bytes addr ≡ none
      → allowed_addrs m addrs ≡ panics
  unfolding allowed_addrs
  allowed_addrs-none addr [] listed e = absurd (cc listed)
  allowed_addrs-none addr (a ∷ addrs) listed e = elim (Bool-cases (addr == a)) [
    | inl same ↦
        let bad : validator_bytes a ≡ none =
          ap validator_bytes (sym ((text_key.beq_iff addr a).0 same)) ∙ e in
        rw bad refl
    | inr other ↦
        let rest = allowed_addrs-none addr addrs (ground (arith, listed, other)) e in
        skipped (validator_bytes a) (allowed_addrs m addrs) a rest
  ]
    where
      skipped :
          (o : Option Address) (r : Outcome (List Text)) (a : Text)
          → r ≡ panics
          → must_then o (λ _. and_go r (λ rest. returns (a ∷ rest))) ≡ panics
      skipped none r a h = refl
      skipped (some b) r a h = rw h refl

  -- If one of the addresses that are allowed to stay out of jail does not decode, such as the empty
  -- text, the preparation of an export for height zero panics.
  prep_for_zero_height-refuses :
      (height : ℕ) (addr : Text) (addrs : List Text) (s : Store)
      → any (λ a. addr == a) addrs ≡ true
      → validator_bytes addr ≡ none
      → prep_for_zero_height m height addrs s ≡ panics
  unfolding prep_for_zero_height
  prep_for_zero_height-refuses height addr addrs s listed e =
      rw (allowed_addrs-none addr addrs listed e) refl
