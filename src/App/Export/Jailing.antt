-- ===== src/App/Export/Jailing.antt =====
-- Whom the preparation for height zero (app/export.go) jails.
use mathlib.Core.Path.{subst}
use dnsblockchain.Prelude.{
  ◌≡◌, ◌≢◌, refl, sym, ap, ◌∙◌, ◌&&◌, ◌||◌, not, Bool, true, false, Option, none, some, List, [],
  ◌∷◌, any, arith, if◌then◌else◌, Bool-cases, inl, inr, ◌||◌,
}
use dnsblockchain.Go.Text.{Text}
use dnsblockchain.Sdk.{Address}
use dnsblockchain.Sdk.Panic.{returns, and_go, each}
use dnsblockchain.Store.{text_key, ◌==◌, beq_refl}
use dnsblockchain.App.Export.Modules.{SdkModules, Validator}
use dnsblockchain.App.Export.{reset_of, reset_validator, reset_validators}

-- What is relied on of the staking module: a validator is stored under its operator's address,
-- which has a text; a write is found, and changes no other; the keys under `ValidatorsKey` are the
-- addresses of the stored validators.
pub record IsStaking (m : SdkModules) : Type 0 where
  pub stored :
      (a : Address) (s : m.Store) (v : Validator m.Rest)
      → m.get_validator a s ≡ some v
      → m.validator_bytes v.operator ≡ some a
  pub has_text : (o : Text) (a : Address) → m.validator_bytes o ≡ some a → m.validator_text a ≢ none
  pub written :
      (a : Address) (s : m.Store) (v : Validator m.Rest)
      → m.validator_bytes v.operator ≡ some a
      → (t : m.Store) × (m.set_validator v s ≡ some t)
        × (m.get_validator a t ≡ some v)
        × ((b : Address) → b ≢ a → m.get_validator b t ≡ m.get_validator b s)
  pub keyed :
      (a : Address) (s : m.Store)
      → any (λ b. a == b) (m.validator_keys s) ≡ true
      → m.get_validator a s ≢ none
  pub walked :
      (a : Address) (s : m.Store)
      → m.get_validator a s ≢ none
      → any (λ b. a == b) (m.validator_keys s) ≡ true

there_is : {A : Type 0} (o : Option A) → o ≢ none → (a : A) × (o ≡ some a)
there_is none h = absurd (h refl)
there_is (some a) h = (a, refl)

apart : (a b : Address) → (a == b) ≡ false → a ≢ b
apart a b other same = ground (arith, text_key.beq_iff a b)

-- A validator that starts anew: jailed if it was, or if it is not one of those allowed.
abbrev pub fresh : {R : Type 0} → Bool → List Text → Text → Validator R → Validator R
fresh apply_allowed allowed text v = record {
  operator = v.operator;
  unbonding_height = 0;
  jailed = v.jailed || apply_allowed && not (any (λ a. text == a) allowed);
  others = v.others;
}

reset_of-fresh :
    (m : SdkModules) (apply_allowed : Bool) (allowed : List Text) (text : Text)
    (v : Validator m.Rest)
    → reset_of m apply_allowed allowed text v ≡ fresh apply_allowed allowed text v
reset_of-fresh m apply_allowed allowed text v = ground arith

module _ (m : SdkModules) (laws : IsStaking m) (apply_allowed : Bool) (allowed : List Text) where
  open m use {Store, Rest, validator_bytes, validator_text, get_validator, set_validator}

  -- The validator under an address after those of the list are reset.
  abbrev after : List Address → Address → Text → Validator Rest → Validator Rest
  after list a text v = if any (λ b. a == b) list then fresh apply_allowed allowed text v else v

  -- The store after those of the list are reset.
  abbrev Resets : List Address → Store → Store → Type 0
  Resets list s t =
      (a : Address) (v : Validator Rest) (text : Text)
      → get_validator a s ≡ some v
      → validator_text a ≡ some text
      → get_validator a t ≡ some (after list a text v)

  -- No validator is added.
  abbrev pub AddsNone : Store → Store → Type 0
  AddsNone s t = (a : Address) → get_validator a s ≡ none → get_validator a t ≡ none

  -- Every stored validator starts anew.
  abbrev pub ResetsAll : Store → Store → Type 0
  ResetsAll s t =
      (a : Address) (v : Validator Rest)
      → get_validator a s ≡ some v
      → (text : Text) × (validator_text a ≡ some text)
        × (get_validator a t ≡ some (fresh apply_allowed allowed text v))

  -- A second reset changes nothing.
  reset_twice :
      (text : Text) (v : Validator Rest)
      → fresh apply_allowed allowed text (fresh apply_allowed allowed text v)
        ≡ fresh apply_allowed allowed text v
  reset_twice text v = ground arith

  after-cons :
      (b : Address) (list : List Address) (a : Address) (text : Text) (v : Validator Rest)
      → after list a text (after (b ∷ []) a text v) ≡ after (b ∷ list) a text v
  after-cons b list a text v = ground (arith, reset_twice text v)

  reset_validator-found :
      (b : Address) (s t : Store) (v : Validator Rest) (text : Text)
      → get_validator b s ≡ some v
      → validator_text b ≡ some text
      → set_validator (reset_of m apply_allowed allowed text v) s ≡ some t
      → reset_validator m apply_allowed allowed b s ≡ returns t
  unfolding reset_validator
  reset_validator-found b s t v text e f g = rw (e, f, g) refl

  reset_validator-Resets :
      (b : Address) (s : Store)
      → get_validator b s ≢ none
      → (t : Store) × (reset_validator m apply_allowed allowed b s ≡ returns t)
        × Resets (b ∷ []) s t
        × ((a : Address) → get_validator a s ≢ none → get_validator a t ≢ none)
        × AddsNone s t
  reset_validator-Resets b s there =
      let (v, found) = there_is (get_validator b s) there in
      let own = laws.stored b s v found in
      let (text, known) = there_is (validator_text b) (laws.has_text v.operator b own) in
      let (t, set, new, others) = laws.written b s (reset_of m apply_allowed allowed text v) own in
      (
        t,
        reset_validator-found b s t v text found known set,
        λ a w text' e f. elim (Bool-cases (a == b)) [
          | inl same ↦
              let i : a ≡ b = (text_key.beq_iff a b).0 same in
              let w≡v : v ≡ w = cc (e, found, ap (λ x. get_validator x s) i) in
              let text≡ : text ≡ text' = cc (f, known, ap validator_text i) in
              rw same (
                subst (λ x. get_validator a t ≡ some (fresh apply_allowed allowed text' x)) w≡v
                  (subst (λ x. get_validator a t ≡ some (fresh apply_allowed allowed x v)) text≡
                    (ap (λ x. get_validator x t) i
                      ∙ new
                      ∙ ap some (reset_of-fresh m apply_allowed allowed text v))))
          | inr other ↦ rw other (others a (apart a b other) ∙ e)
        ],
        λ a e. elim (Bool-cases (a == b)) [
          | inl same ↦ λ gone.
              absurd (cc (gone, new, ap (λ x. get_validator x t) ((text_key.beq_iff a b).0 same)))
          | inr other ↦ λ gone. e (sym (others a (apart a b other)) ∙ gone)
        ],
        λ a e. elim (Bool-cases (a == b)) [
          | inl same ↦
              absurd (cc (e, found, ap (λ x. get_validator x s) ((text_key.beq_iff a b).0 same)))
          | inr other ↦ others a (apart a b other) ∙ e
        ],
      )

  all_reset :
      (list : List Address) (s : Store)
      → ((a : Address) → any (λ b. a == b) list ≡ true → get_validator a s ≢ none)
      → (t : Store) × (each (reset_validator m apply_allowed allowed) list s ≡ returns t)
        × Resets list s t
        × AddsNone s t
  unfolding each
  all_reset [] s there = (s, refl, λ a v text e f. e, λ a e. e)
  all_reset (b ∷ list) s there =
      let (mid, one, first, still, fewer) =
        reset_validator-Resets b s (there b (rw (beq_refl b) refl)) in
      let (t, rest, later, none_new) =
        all_reset list mid (λ a h. still a (there a (ground (arith, h)))) in
      (
        t,
        ap (λ o. and_go o (each (reset_validator m apply_allowed allowed) list)) one ∙ rest,
        λ a v text e f.
            later a (after (b ∷ []) a text v) text (first a v text e f) f
            ∙ ap some (after-cons b list a text v),
        λ a e. none_new a (fewer a e),
      )

  -- The preparation of an export for height zero resets every stored validator without a panic:
  -- each has unbonding height 0 afterwards, is jailed if it was or if a list of allowed addresses
  -- is given and the text of its own is not in it, and is otherwise as it was; and no validator is
  -- added. The staking module keeps its laws: a validator is stored under its operator's address,
  -- which has a text, a write is found and changes no other, and the keys under ValidatorsKey are
  -- the addresses of the stored validators.
  pub reset_validators_effect :
      (s : Store)
      → (t : Store) × (reset_validators m apply_allowed allowed s ≡ returns t)
        × ResetsAll s t
        × AddsNone s t
  unfolding reset_validators
  reset_validators_effect s =
      let (t, done, resets, none_new) =
        all_reset (m.validator_keys s) s (λ a h. laws.keyed a s h) in
      (
        t,
        done,
        λ a v e.
            let own = laws.stored a s v e in
            let (text, known) = there_is (validator_text a) (laws.has_text v.operator a own) in
            let walked = laws.walked a s (λ gone. absurd (cc (e, gone))) in
            (
              text,
              known,
              resets a v text e known
                  ∙ ap (λ b. some (if b then fresh apply_allowed allowed text v else v)) walked,
            ),
        none_new,
      )
