-- ===== src/App/Tests/Export.antt =====
-- A small staking module, and the theorems on the export (app/export.go) at it.
use mathlib.Core.Path.{subst}
use dnsblockchain.Prelude.{
  ℕ, ◌≡◌, ◌≢◌, refl, sym, ap, ◌∙◌, Bool, true, false, Option, none, some, [], ◌∷◌, map, any, arith,
  if◌then◌else◌,
}
use dnsblockchain.Go.Text.{Text, codes, is_empty}
use dnsblockchain.Sdk.{Address}
use dnsblockchain.Sdk.Panic.{returns, each}
use dnsblockchain.Store.{Map, text_key, ◌==◌, lookup, insert, lookup-insert, beq_refl}
use dnsblockchain.App.Export.Modules.{SdkModules, Validator}
use dnsblockchain.App.Export.{reset_validators, reset_validator}
use dnsblockchain.App.Export.Jailing.{IsStaking, ResetsAll, AddsNone, reset_validators_effect}

-- The unbonding height and whether it is jailed, by address.
abbrev Validators : Type 0
Validators = Map Address (ℕ × Bool)

abbrev as_validator : Address → ℕ × Bool → Validator (Unit {0})
as_validator a (h, j) = record { operator = a; unbonding_height = h; jailed = j; others = tt }

abbrev found : Address → Option (ℕ × Bool) → Option (Validator (Unit {0}))
found a none = none
found a (some v) = some (as_validator a v)

abbrev decode : Text → Option Address
decode t = if is_empty t then none else some t

abbrev staking : SdkModules
staking = record {
  Store = Validators;
  Rest = Unit {0};
  Rewards = ℕ;
  validator_bytes = λ t. some t;
  account_bytes = λ t. some t;
  validator_text = λ a. some a;
  validators = λ s. some [];
  delegations = λ s. some [];
  redelegations = λ s. some [];
  set_redelegation = λ u s. some s;
  unbondings = λ s. some [];
  set_unbonding = λ u s. some s;
  validator_keys = λ s. map (λ e. e.0) s;
  get_validator = λ a s. found a (lookup a s);
  set_validator = λ v s. some (insert v.operator (v.unbonding_height, v.jailed) s);
  close_iterator = λ s. true;
  apply_updates = λ s. some s;
  withdraw_commission = λ h a s. s;
  withdraw_rewards = λ h a b s. s;
  delete_slash_events = λ s. s;
  delete_historical_rewards = λ s. s;
  outstanding_rewards = λ a s. some 0;
  community_pool = λ s. some 0;
  add_rewards = λ a b. a;
  set_community_pool = λ a s. some s;
  after_validator_created = λ h a s. some s;
  before_delegation_created = λ h a b s. some s;
  after_delegation_modified = λ h a b s. some s;
  signing_infos = λ s. some [];
  set_signing_info = λ a i s. s;
}

abbrev operator_of : Option (Validator (Unit {0})) → Option Text
operator_of none = none
operator_of (some v) = some v.operator

found-operator :
    (a : Address) (o : Option (ℕ × Bool)) (v : Validator (Unit {0}))
    → found a o ≡ some v
    → some v.operator ≡ some a
found-operator a none v e = absurd (cc e)
found-operator a (some w) v e = ap operator_of (sym e)

listed :
    (a : Address) (s : Validators)
    → any (λ b. a == b) (map (λ e. e.0) s) ≡ true
    → found a (lookup a s) ≢ none
unfolding lookup
listed a [] h = absurd (cc h)
listed a ((b, v) ∷ s) h = ground (arith, listed a s, text_key.beq_iff a b)

walked :
    (a : Address) (s : Validators)
    → found a (lookup a s) ≢ none
    → any (λ b. a == b) (map (λ e. e.0) s) ≡ true
unfolding lookup
walked a [] h = absurd (h refl)
walked a ((b, v) ∷ s) h = ground (arith, walked a s, text_key.beq_iff a b, h)

some_inj : (a b : Address) → some a ≡ some b → a ≡ b
some_inj a b e = cc e

own_written :
    (s : Validators) (v : Validator (Unit {0}))
    → found v.operator (lookup v.operator (insert v.operator (v.unbonding_height, v.jailed) s))
      ≡ some v
own_written s v =
    rw (lookup-insert v.operator v.operator (v.unbonding_height, v.jailed) s, beq_refl v.operator)
      refl

other_kept :
    (s : Validators) (v : Validator (Unit {0})) (b : Address)
    → b ≢ v.operator
    → found b (lookup b (insert v.operator (v.unbonding_height, v.jailed) s)) ≡ found b (lookup b s)
other_kept s v b other = ap (found b) (
    ground (
      arith,
      lookup-insert b v.operator (v.unbonding_height, v.jailed) s,
      text_key.beq_iff b v.operator,
    ))

staking_written :
    (a : Address) (s : Validators) (v : Validator (Unit {0}))
    → v.operator ≡ a
    → (t : Validators) × (some (insert v.operator (v.unbonding_height, v.jailed) s) ≡ some t)
      × (found a (lookup a t) ≡ some v)
      × ((b : Address) → b ≢ a → found b (lookup b t) ≡ found b (lookup b s))
staking_written a s v e = (
  insert v.operator (v.unbonding_height, v.jailed) s,
  refl,
  subst (λ x. found x (lookup x (insert v.operator (v.unbonding_height, v.jailed) s)) ≡ some v) e
      (own_written s v),
  λ b other. other_kept s v b (λ same. other (same ∙ e)),
)

staking-IsStaking : IsStaking staking
staking-IsStaking = record {
  stored = λ a s v e. found-operator a (lookup a s) v e;
  has_text = λ o a e f. absurd (cc f);
  written = λ a s v e. staking_written a s v (some_inj v.operator a e);
  keyed = listed;
  walked = walked;
}

-- Two validators, of which one is allowed.
abbrev two : Validators
two = (codes "ann", (7, false)) ∷ (codes "bob", (9, false)) ∷ []

jailing-run :
    reset_validators staking true (codes "bob" ∷ []) two
    ≡ returns ((codes "ann", (0, true)) ∷ (codes "bob", (0, false)) ∷ [])
unfolding reset_validators reset_validator each insert lookup
jailing-run = refl

reset_validators_effect_example :
    (t : Validators) × (reset_validators staking true (codes "bob" ∷ []) two ≡ returns t)
    × ResetsAll staking staking-IsStaking true (codes "bob" ∷ []) two t
    × AddsNone staking staking-IsStaking true (codes "bob" ∷ []) two t
reset_validators_effect_example =
    reset_validators_effect staking staking-IsStaking true (codes "bob" ∷ []) two

abbrev strict : SdkModules
strict = record staking { validator_bytes = decode }
