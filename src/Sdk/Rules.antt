-- ===== src/Sdk/Rules.antt =====
-- Postconditions of handlers: a predicate on the result and the state of a success, another on the
-- state that an error leaves, and a rule for each step of a handler.
use dnsblockchain.Prelude.{
  ◌≡◌, refl, Bool, true, false, Option, none, some, arith, if◌then◌else◌, ap,
}
use dnsblockchain.Sdk.Errors.{Error, Result, ok, err}
use dnsblockchain.Sdk.Calls.{Handler, proceed, ◌>>=◌, gets, or_fail, fail_if, lift, modify}

pub data Ensures {S A : Type 0} (Q : A → S → Type 0) (E : S → Type 0) : Result A × S → Type 0 where
  succeeds : (a : A) (s : S) → Q a s → Ensures Q E (ok a, s)
  fails : (e : Error) (s : S) → E s → Ensures Q E (err e, s)

module _ {S A : Type 0} {Q : A → S → Type 0} {E : S → Type 0} where
  -- What a postcondition says of a known outcome.
  pub on_success : {r : Result A × S} → Ensures Q E r → (a : A) → r.0 ≡ ok a → Q a r.1
  on_success (succeeds a s q) b h = ground arith
  on_success (fails e s x) b h = ground arith

module _ {S B : Type 0} {Q : B → S → Type 0} {E : S → Type 0} where
  pub after_fail_if :
      (b : Bool) (e : Error) (f : Unit {0} → Handler S B) (s : S)
      → E s
      → (b ≡ false → Ensures Q E (f tt s))
      → Ensures Q E ((fail_if b e >>= f) s)
  unfolding ◌>>=◌
  after_fail_if true e f s bad good = fails e s bad
  after_fail_if false e f s bad good = good refl

  pub after_or_fail :
      {A : Type 0} (o : Option A) (e : Error) (f : A → Handler S B) (s : S)
      → E s
      → ((a : A) → o ≡ some a → Ensures Q E (f a s))
      → Ensures Q E ((or_fail o e >>= f) s)
  unfolding ◌>>=◌
  after_or_fail none e f s bad good = fails e s bad
  after_or_fail (some a) e f s bad good = good a refl

  pub after_lift :
      {A : Type 0} (r : Result A) (f : A → Handler S B) (s : S)
      → E s
      → ((a : A) → r ≡ ok a → Ensures Q E (f a s))
      → Ensures Q E ((lift r >>= f) s)
  unfolding ◌>>=◌
  after_lift (ok a) f s bad good = good a refl
  after_lift (err e) f s bad good = fails e s bad

  pub after_gets :
      {A : Type 0} (g : S → A) (f : A → Handler S B) (s : S)
      → Ensures Q E (f (g s) s)
      → Ensures Q E ((gets g >>= f) s)
  unfolding ◌>>=◌
  after_gets g f s good = good

  pub after_modify :
      (g : S → S) (f : Unit {0} → Handler S B) (s : S)
      → Ensures Q E (f tt (g s))
      → Ensures Q E ((modify g >>= f) s)
  unfolding ◌>>=◌
  after_modify g f s good = good

  -- A step with a postcondition of its own.
  after_result :
      {A : Type 0} {R : A → S → Type 0} (f : A → Handler S B) {r : Result A × S}
      → Ensures R E r
      → ((a : A) (s : S) → R a s → Ensures Q E (f a s))
      → Ensures Q E (proceed f r)
  after_result f (succeeds a s h) good = good a s h
  after_result f (fails e s h) good = fails e s h

  pub after_step :
      {A : Type 0} {R : A → S → Type 0} (m : Handler S A) (f : A → Handler S B) (s : S)
      → Ensures R E (m s)
      → ((a : A) (s' : S) → R a s' → Ensures Q E (f a s'))
      → Ensures Q E ((m >>= f) s)
  unfolding ◌>>=◌
  after_step m f s h good = after_result f h good

  -- A test whose first branch is an error.
  pub after_test :
      (b : Bool) (e : Error) (s : S) {r : Result B × S}
      → E s
      → (b ≡ false → Ensures Q E r)
      → Ensures Q E (if b then (err e, s) else r)
  after_test true e s bad good = fails e s bad
  after_test false e s bad good = good refl

  -- A handler that ends in a check.
  pub at_lift : (r : Result B) (s : S) → E s → ((b : B) → r ≡ ok b → Q b s) → Ensures Q E (lift r s)
  at_lift (ok b) s bad good = succeeds b s (good b refl)
  at_lift (err e) s bad good = fails e s bad

  pub weaken :
      {R : B → S → Type 0} {F : S → Type 0} {r : Result B × S}
      → Ensures R F r
      → ((b : B) (s : S) → R b s → Q b s)
      → ((s : S) → F s → E s)
      → Ensures Q E r
  weaken (succeeds b s h) good bad = succeeds b s (good b s h)
  weaken (fails e s h) good bad = fails e s (bad s h)

-- What holds of the state after a success and after a failure holds of the state.
pub either_way :
    {S A : Type 0} {Q : A → S → Type 0} {E : S → Type 0} (P : S → Type 0) {r : Result A × S}
    → Ensures Q E r
    → ((a : A) (s : S) → Q a s → P s)
    → ((s : S) → E s → P s)
    → P r.1
either_way P (succeeds a s h) good bad = good a s h
either_way P (fails e s h) good bad = bad s h

-- What holds of the state in any case is a postcondition of both kinds.
pub always : {S A : Type 0} (P : S → Type 0) (r : Result A × S) → P r.1 → Ensures (λ _ s. P s) P r
always P (ok a, s) h = succeeds a s h
always P (err e, s) h = fails e s h

-- A step that succeeds, and the rest of the handler; the same for the simple steps.
module _ {S A B : Type 0} where
  pub through :
      (m : Handler S A) (f : A → Handler S B) (s : S) (a : A) (s' : S)
      → m s ≡ (ok a, s')
      → (m >>= f) s ≡ f a s'
  unfolding ◌>>=◌
  through m f s a s' e = ap (proceed f) e

  pub through_or_fail :
      (o : Option A) (e : Error) (f : A → Handler S B) (s : S) (a : A)
      → o ≡ some a
      → (or_fail o e >>= f) s ≡ f a s
  through_or_fail o e f s a found =
      through (or_fail o e) f s a s (ap (λ (x : Option A). or_fail {S = S} x e s) found)

  pub through_lift :
      (r : Result A) (f : A → Handler S B) (s : S) (a : A) → r ≡ ok a → (lift r >>= f) s ≡ f a s
  through_lift r f s a good = through (lift r) f s a s (ap (λ (x : Result A). (x, s)) good)

module _ {S B : Type 0} where
  pub through_fail_if :
      (b : Bool) (e : Error) (f : Unit {0} → Handler S B) (s : S)
      → b ≡ false
      → (fail_if b e >>= f) s ≡ f tt s
  through_fail_if b e f s good =
      through (fail_if b e) f s tt s (ap (λ (x : Bool). fail_if x e s) good)

  pub through_gets :
      {A : Type 0} (g : S → A) (f : A → Handler S B) (s : S) → (gets g >>= f) s ≡ f (g s) s
  unfolding ◌>>=◌
  through_gets g f s = refl
