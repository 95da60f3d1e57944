-- ===== src/Store/Order.antt =====
-- Stores whose entries are in key order.
use mathlib.Core.Path.{subst}
use dnsblockchain.Prelude.{
  ◌≡◌, refl, sym, ap, ◌∙◌, true, false, none, some, [], ◌∷◌, arith, All, Bool-cases, inl, inr,
  if◌then◌else◌, Option, ◌⊎◌,
}
use dnsblockchain.Store.Key.{Key, ◌==◌}
use dnsblockchain.Store.Defs.{Map, lookup, insert, remove}

module _ {K V : Type 0} ⦃key : Key K⦄ where
  abbrev pub Above : K → K × V → Type 0
  Above k e = key.lt k e.0 ≡ true

  abbrev pub IsOrdered : Map K V → Type 0
  IsOrdered [] = Unit
  IsOrdered (e ∷ m) = All (Above e.0) m × IsOrdered m

  All-Above_trans : (j k : K) (m : Map K V) → key.lt j k ≡ true → All (Above k) m → All (Above j) m
  All-Above_trans j k [] h a = tt
  All-Above_trans j k (e ∷ m) h a = (key.lt_trans j k e.0 h a.0, All-Above_trans j k m h a.1)

  All-Above-insert :
      (j k : K) (v : V) (m : Map K V)
      → key.lt j k ≡ true
      → All (Above j) m
      → All (Above j) (insert k v m)
  unfolding insert
  All-Above-insert j k v [] h a = (h, tt)
  All-Above-insert j k v (e ∷ m) h a = ground (arith, All-Above-insert j k v m h a.1)

  pub insert-IsOrdered : (k : K) (v : V) (m : Map K V) → IsOrdered m → IsOrdered (insert k v m)
  unfolding insert
  insert-IsOrdered k v [] o = (tt, tt)
  insert-IsOrdered k v ((j, w) ∷ m) o = ground (
    arith,
    key.beq_iff k j,
    key.lt_total k j,
    All-Above_trans k j m,
    All-Above-insert j k v m,
    insert-IsOrdered k v m o.1,
  )

  All-Above-remove : (j k : K) (m : Map K V) → All (Above j) m → All (Above j) (remove k m)
  unfolding remove
  All-Above-remove j k [] a = tt
  All-Above-remove j k (e ∷ m) a = ground (arith, All-Above-remove j k m a.1)

  pub remove-IsOrdered : (k : K) (m : Map K V) → IsOrdered m → IsOrdered (remove k m)
  unfolding remove
  remove-IsOrdered k [] o = tt
  remove-IsOrdered k ((j, w) ∷ m) o =
      ground (arith, All-Above-remove j k m o.0, remove-IsOrdered k m o.1)

  -- What holds of every entry still does after a write of one of which it holds.
  pub All-insert {κ} :
      (P : K × V → Type κ) (k : K) (v : V) (m : Map K V) → P (k, v) → All P m → All P (insert k v m)
  unfolding insert
  All-insert P k v [] h a = (h, tt)
  All-insert P k v ((j, w) ∷ m) h a = elim (Bool-cases (key.beq k j)) [
    | inl e ↦ rw e (h, a.1)
    | inr e ↦ rw e (elim (Bool-cases (key.lt k j)) [
      | inl f ↦ rw f (h, (a.0, a.1))
      | inr f ↦ rw f (a.0, All-insert P k v m h a.1)
    ])
  ]

  -- Nothing is found under a key that lies below all entries.
  pub lookup_below : (k : K) (m : Map K V) → All (Above k) m → lookup k m ≡ none
  unfolding lookup
  lookup_below k [] a = refl
  lookup_below k ((j, w) ∷ m) a =
      ground (arith, lookup_below k m a.1, key.beq_iff k j, key.lt_irrefl k)

-- What the lookups of a non-empty ordered store tell of its tail.
module _ {K V : Type 0} ⦃key : Key K⦄ where
  lookup_tail :
      (k j : K) (v : V) (m : Map K V)
      → All (Above j) m
      → lookup k m ≡ (if k == j then none else lookup k ((j, v) ∷ m))
  unfolding lookup
  lookup_tail k j v m a = ground (arith, key.beq_iff k j, lookup_below j m a)

  pub lookup_head : (j : K) (v : V) (m : Map K V) → lookup j ((j, v) ∷ m) ≡ some v
  unfolding lookup
  lookup_head j v m = ground (arith, key.beq_iff j j)

  -- A key below the head of an ordered store is not in it.
  lookup-Above-none :
      (j i : K) (w : V) (m : Map K V)
      → All (Above i) m
      → key.lt j i ≡ true
      → lookup j ((i, w) ∷ m) ≡ none
  lookup-Above-none j i w m a h = lookup_below j ((i, w) ∷ m) (h, All-Above_trans j i m h a)

  same_head :
      (j i : K) (v w : V) (m n : Map K V)
      → All (Above j) m
      → All (Above i) n
      → lookup j ((j, v) ∷ m) ≡ lookup j ((i, w) ∷ n)
      → lookup i ((j, v) ∷ m) ≡ lookup i ((i, w) ∷ n)
      → (j ≡ i) × (v ≡ w)
  same_head j i v w m n a b h k = ground (
    arith,
    key.beq_iff j i,
    key.lt_total j i,
    lookup_head j v m,
    lookup_head i w n,
    lookup-Above-none j i w n b,
    lookup-Above-none i j v m a,
  )

  -- Two ordered stores with the same lookups are the same.
  pub IsOrdered-ext :
      (m n : Map K V) → IsOrdered m → IsOrdered n → ((k : K) → lookup k m ≡ lookup k n) → m ≡ n
  unfolding lookup
  IsOrdered-ext [] [] o p h = refl
  IsOrdered-ext [] ((i, w) ∷ n) o p h = absurd (cc (h i, lookup_head i w n))
  IsOrdered-ext ((j, v) ∷ m) [] o p h = absurd (cc (h j, lookup_head j v m))
  IsOrdered-ext ((j, v) ∷ m) ((i, w) ∷ n) o p h =
      let (same_key, same_value) = same_head j i v w m n o.0 p.0 (h j) (h i) in
      let tails = IsOrdered-ext m n o.1 p.1 λ k.
        lookup_tail k j v m o.0
        ∙ ap (λ (x : K). if k == x then none else lookup k ((j, v) ∷ m)) same_key
        ∙ ap (λ (r : Option V). if k == i then none else r) (h k)
        ∙ sym (lookup_tail k i w n p.0) in
      ground (arith, tails, same_key, same_value)

-- Where a value of a store with a head was found.
module _ {K V : Type 0} ⦃key : Key K⦄ where
  pub lookup-cons_cases :
      (k j : K) (v w : V) (m : Map K V)
      → lookup k ((j, w) ∷ m) ≡ some v
      → (k ≡ j) × (w ≡ v) ⊎ (key.beq k j ≡ false) × (lookup k m ≡ some v)
  unfolding lookup
  lookup-cons_cases k j v w m h = ground (arith, key.beq_iff k j)

  pub lookup-cons_tail :
      (k j : K) (v w : V) (m : Map K V)
      → All (Above j) m
      → lookup k m ≡ some v
      → lookup k ((j, w) ∷ m) ≡ some v
  unfolding lookup
  lookup-cons_tail k j v w m a h = ground (arith, key.beq_iff k j, lookup_below j m a)

  -- What holds of every entry holds of the one that is found.
  pub All-lookup {κ} :
      (P : K × V → Type κ) (k : K) (v : V) (m : Map K V) → All P m → lookup k m ≡ some v → P (k, v)
  unfolding lookup
  All-lookup P k v [] a h = absurd (cc h)
  All-lookup P k v ((j, w) ∷ m) a h = elim (lookup-cons_cases k j v w m h) [
    | inl (k≡j, w≡v) ↦
        subst (λ e. P e) (ap (λ (x : K). (x, w)) (sym k≡j) ∙ ap (λ (x : V). (k, x)) w≡v) a.0
    | inr (other, there) ↦ All-lookup P k v m a.1 there
  ]

  pub All-remove {κ} : (P : K × V → Type κ) (k : K) (m : Map K V) → All P m → All P (remove k m)
  unfolding remove
  All-remove P k [] a = tt
  All-remove P k ((j, w) ∷ m) a = elim (Bool-cases (key.beq k j)) [
    | inl e ↦ rw e (All-remove P k m a.1)
    | inr e ↦ rw e (a.0, All-remove P k m a.1)
  ]

  pub All-of_lookup {κ} :
      (P : K × V → Type κ) (m : Map K V)
      → IsOrdered m
      → ((k : K) (v : V) → lookup k m ≡ some v → P (k, v))
      → All P m
  All-of_lookup P [] o h = tt
  All-of_lookup P ((j, w) ∷ m) o h = (
    h j w (lookup_head j w m),
    All-of_lookup P m o.1 (λ k v found. h k v (lookup-cons_tail k j v w m o.0 found)),
  )
