-- ===== src/Store/Copy.antt =====
-- A store written entry by entry into another.
use dnsblockchain.Prelude.{◌≡◌, refl, ◌∙◌, none, some, Option, [], ◌∷◌, arith, Bool-cases, inl, inr}
use dnsblockchain.Store.Key.{Key, ◌==◌}
use dnsblockchain.Store.Defs.{Map, lookup, insert}
use dnsblockchain.Store.Laws.{lookup-insert}
use dnsblockchain.Store.Order.{IsOrdered, insert-IsOrdered, lookup_below, IsOrdered-ext}

-- The entries that are written win.
abbrev over : {V : Type 0} → Option V → Option V → Option V
over none o = o
over (some v) o = some v

over_none : {V : Type 0} (r : Option V) → over r none ≡ r
over_none none = refl
over_none (some v) = refl

module _ {K V : Type 0} ⦃key : Key K⦄ where
  -- All entries of a store, written to another.
  unfoldable pub put_all : Map K V → Map K V → Map K V
  put_all [] acc = acc
  put_all ((j, v) ∷ m) acc = put_all m (insert j v acc)

  put_all-IsOrdered : (m acc : Map K V) → IsOrdered acc → IsOrdered (put_all m acc)
  unfolding put_all
  put_all-IsOrdered [] acc o = o
  put_all-IsOrdered ((j, v) ∷ m) acc o =
      put_all-IsOrdered m (insert j v acc) (insert-IsOrdered j v acc o)

  lookup-put_all :
      (m acc : Map K V) (k : K)
      → IsOrdered m
      → lookup k (put_all m acc) ≡ over (lookup k m) (lookup k acc)
  unfolding put_all lookup
  lookup-put_all [] acc k o = refl
  lookup-put_all ((j, v) ∷ m) acc k o =
      let rest = lookup-put_all m (insert j v acc) k o.1 in
      let written = lookup-insert k j v acc in
      elim (Bool-cases (k == j)) [
        | inl e ↦ ground (arith, rest, written, key.beq_iff k j, lookup_below j m o.0)
        | inr e ↦ ground (arith, rest, written)
      ]

  pub put_all_self : (m : Map K V) → IsOrdered m → put_all m [] ≡ m
  unfolding lookup
  put_all_self m o =
      IsOrdered-ext (put_all m []) m (put_all-IsOrdered m [] tt) o
        λ k. lookup-put_all m [] k o ∙ over_none (lookup k m)
