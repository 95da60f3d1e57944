-- ===== src/Sdk/Panic.antt =====
-- Calls that may panic (`panic`, and the `Must` functions of the SDK).
use dnsblockchain.Prelude.{Option, none, some, List, [], ◌∷◌}
use dnsblockchain.Sdk.Errors.{Result, ok, err}

-- What a call comes to that may panic.
pub data Outcome (A : Type 0) : Type 0 where
  returns : A → Outcome A
  panics : Outcome A

-- A value that must be there, alone and before the rest of a call.
abbrev pub must : {A : Type 0} → Option A → Outcome A
must none = panics
must (some a) = returns a

abbrev pub must_then : {A B : Type 0} → Option A → (A → Outcome B) → Outcome B
must_then none f = panics
must_then (some a) f = f a

-- A result whose error is turned into a panic, before the rest of a call.
abbrev pub ok_then : {A B : Type 0} → Result A → (A → Outcome B) → Outcome B
ok_then (err e) f = panics
ok_then (ok a) f = f a

-- A call before the rest.
abbrev pub and_go : {A B : Type 0} → Outcome A → (A → Outcome B) → Outcome B
and_go panics f = panics
and_go (returns a) f = f a

-- A loop over a list that changes a state.
unfoldable pub each : {A S : Type 0} → (A → S → Outcome S) → List A → S → Outcome S
each f [] s = returns s
each f (a ∷ rest) s = and_go (f a s) (each f rest)
