-- ===== src/Store/Laws.antt =====
-- What a lookup finds after an insertion or a removal.
use dnsblockchain.Prelude.{◌≡◌, refl, true, none, some, [], ◌∷◌, arith, if◌then◌else◌, false}
use dnsblockchain.Store.Key.{Key, ◌==◌}
use dnsblockchain.Store.Defs.{Map, lookup, insert, remove}

pub beq_refl : {K : Type 0} ⦃key : Key K⦄ (k : K) → (k == k) ≡ true
beq_refl ⦃key⦄ k = (key.beq_iff k k).1 refl

module _ {K V : Type 0} ⦃key : Key K⦄ where
  pub lookup-insert :
      (j k : K) (v : V) (m : Map K V)
      → lookup j (insert k v m) ≡ (if j == k then some v else lookup j m)
  unfolding lookup insert
  lookup-insert j k v [] = refl
  lookup-insert j k v ((i, w) ∷ m) =
      ground (arith, key.beq_iff j k, key.beq_iff k i, key.beq_iff j i, lookup-insert j k v m)

  pub lookup-remove :
      (j k : K) (m : Map K V) → lookup j (remove k m) ≡ (if j == k then none else lookup j m)
  unfolding lookup remove
  lookup-remove j k [] = ground arith
  lookup-remove j k ((i, w) ∷ m) =
      ground (arith, key.beq_iff j k, key.beq_iff k i, key.beq_iff j i, lookup-remove j k m)

  -- The same at the key that is written, and at another.
  pub lookup-insert_here :
      (j k : K) (v : V) (m : Map K V) → (j == k) ≡ true → lookup j (insert k v m) ≡ some v
  lookup-insert_here j k v m e = ground (arith, lookup-insert j k v m)

  pub lookup-insert_away :
      (j k : K) (v : V) (m : Map K V) → (j == k) ≡ false → lookup j (insert k v m) ≡ lookup j m
  lookup-insert_away j k v m e = ground (arith, lookup-insert j k v m)

  pub lookup-remove_here : (j k : K) (m : Map K V) → (j == k) ≡ true → lookup j (remove k m) ≡ none
  lookup-remove_here j k m e = ground (arith, lookup-remove j k m)

  pub lookup-remove_away :
      (j k : K) (m : Map K V) → (j == k) ≡ false → lookup j (remove k m) ≡ lookup j m
  lookup-remove_away j k m e = ground (arith, lookup-remove j k m)
