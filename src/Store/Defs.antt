-- ===== src/Store/Defs.antt =====
-- A store as a list of entries in key order, and its operations.
use dnsblockchain.Prelude.{Bool, true, false, Option, none, some, List, [], ◌∷◌, if◌then◌else◌}
use dnsblockchain.Store.Key.{Key, ◌==◌}

abbrev pub Map : Type 0 → Type 0 → Type 0
Map K V = List (K × V)

abbrev pub KeySet : Type 0 → Type 0
KeySet K = Map K (Unit {0})

module _ {K V : Type 0} ⦃key : Key K⦄ where
  -- `Get`: `none` is `collections.ErrNotFound`.
  unfoldable pub lookup : K → Map K V → Option V
  lookup k [] = none
  lookup k ((j, v) ∷ m) = if k == j then some v else lookup k m

  -- `Set`, at the place that keeps the keys in order.
  unfoldable pub insert : K → V → Map K V → Map K V
  insert k v [] = (k, v) ∷ []
  insert k v ((j, w) ∷ m) =
      if k == j
      then (k, v) ∷ m
      else if key.lt k j
      then (k, v) ∷ (j, w) ∷ m
      else (j, w) ∷ insert k v m

  -- `Remove`.
  unfoldable pub remove : K → Map K V → Map K V
  remove k [] = []
  remove k ((j, w) ∷ m) = if k == j then remove k m else (j, w) ∷ remove k m

-- `Has`.
abbrev pub has : {K V : Type 0} ⦃key : Key K⦄ → K → Map K V → Bool
has k m = elim (lookup k m) [ none ↦ false | some _ ↦ true ]

-- `Walk` with a `PrefixedPairRange`: the values under one first key, in order.
module _ {A B V : Type 0} ⦃key : Key A⦄ where
  unfoldable pub walk_prefix : A → Map (A × B) V → List V
  walk_prefix a [] = []
  walk_prefix a ((k, v) ∷ m) = if a == k.0 then v ∷ walk_prefix a m else walk_prefix a m
