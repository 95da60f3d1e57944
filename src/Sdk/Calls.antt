-- ===== src/Sdk/Calls.antt =====
-- A call on a state: its result and the state that it leaves. What was written before an error
-- stays written here; the SDK discards it where the call is a transaction.
use dnsblockchain.Prelude.{Bool, true, false, Option, none, some}
use dnsblockchain.Sdk.Errors.{Error, Result, ok, err}

abbrev pub Handler : Type 0 → Type 0 → Type 0
Handler S A = S → Result A × S

-- The rest of a handler, after a step.
abbrev pub proceed : {S A B : Type 0} → (A → Handler S B) → Result A × S → Result B × S
proceed f (ok a, s) = f a s
proceed f (err e, s) = (err e, s)

infixl 5 ◌>>=◌ ◌>>◌
unfoldable pub ◌>>=◌ : {S A B : Type 0} → Handler S A → (A → Handler S B) → Handler S B
◌>>=◌ m f s = proceed f (m s)

abbrev pub ◌>>◌ : {S A B : Type 0} → Handler S A → Handler S B → Handler S B
m >> k = m >>= λ _. k

module _ {S A : Type 0} where
  abbrev pub pure : A → Handler S A
  pure a s = (ok a, s)

  abbrev pub gets : (S → A) → Handler S A
  gets f s = (ok (f s), s)

  abbrev pub lift : Result A → Handler S A
  lift r s = (r, s)

  abbrev pub or_fail : Option A → Error → Handler S A
  or_fail none e s = (err e, s)
  or_fail (some a) e s = (ok a, s)

module _ {S : Type 0} where
  abbrev pub fail_if : Bool → Error → Handler S (Unit {0})
  fail_if true e s = (err e, s)
  fail_if false e s = (ok tt, s)

  abbrev pub modify : (S → S) → Handler S (Unit {0})
  modify f s = (ok tt, f s)

  abbrev pub when : Bool → Handler S (Unit {0}) → Handler S (Unit {0})
  when b m s = elim b [ true ↦ m s | false ↦ (ok tt, s) ]

-- The same, for checks that read and write nothing.
abbrev pub check : Bool → Error → Result (Unit {0})
check true e = ok tt
check false e = err e

abbrev pub and_then : {A B : Type 0} → Result A → Result B → Result B
and_then (ok a) r = r
and_then (err e) r = err e
