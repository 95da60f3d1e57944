-- ===== src/Cmd/Multinode/Stakes.antt =====
-- The stakes and the listed ports of the nodes (cmd/dnsblockchaind/cmd/testnet_multi_node.go).
use dnsblockchain.Prelude.{
  ℕ, zero, suc, ◌-◌, ◌≤◌, ◌≡◌, refl, ap, ◌∙◌, Option, none, some, List, [], ◌∷◌, All, map, arith,
  ltb, if◌then◌else◌, Bool-cases, inl, inr,
}
use dnsblockchain.Prelude.Int.{ℤ}
use dnsblockchain.Go.Text.{Text}
use dnsblockchain.Go.Text.Digits.{split_commas}
use dnsblockchain.Sdk.{Coin}
use dnsblockchain.Sdk.Panic.{Outcome, returns, and_go}
use dnsblockchain.Store.{Map, nat_key, lookup, insert, lookup-insert}
use dnsblockchain.Cmd.Multinode.{number_from, read_stakes, list_stakes}

-- An entry of a list by its position, if there is one.
abbrev pub get_elem? : {A : Type 0} → ℕ → List A → Option A
get_elem? i [] = none
get_elem? zero (a ∷ rest) = some a
get_elem? (suc i) (a ∷ rest) = get_elem? i rest

-- The results for the entries for which there is one.
abbrev pub if_some : {B : Type 0} → Option B → List B → List B
if_some none rest = rest
if_some (some b) rest = b ∷ rest

abbrev pub filter_map : {A B : Type 0} → (A → Option B) → List A → List B
filter_map f [] = []
filter_map f (a ∷ rest) = if_some (f a) (filter_map f rest)

-- Nothing stands from a position on.
abbrev IsFree : {A : Type 0} → ℕ → Map ℕ A → Type 0
IsFree top m = (i : ℕ) → top ≤ i → lookup i m ≡ none

IsFree-insert :
    {A : Type 0} (top : ℕ) (a : A) (m : Map ℕ A) → IsFree top m → IsFree (suc top) (insert top a m)
IsFree-insert top a m free i h =
    ground (arith, lookup-insert i top a m, nat_key.beq_iff i top, free i (omega (arith, h)))

get_elem?-after :
    {A : Type 0} (n i : ℕ) (a : A) (rest : List A)
    → n ≡ suc i
    → get_elem? n (a ∷ rest) ≡ get_elem? i rest
get_elem?-after n i a rest e = ap (λ k. get_elem? k (a ∷ rest)) e

get_elem?-first :
    {A : Type 0} (n : ℕ) (a : A) (rest : List A) → n ≡ 0 → get_elem? n (a ∷ rest) ≡ some a
get_elem?-first n a rest e = ap (λ k. get_elem? k (a ∷ rest)) e

-- Numbered entries are found at their numbers.
number_from-lookup :
    {A : Type 0} (top : ℕ) (list : List A) (m : Map ℕ A) (i : ℕ)
    → IsFree top m
    → lookup i (number_from top list m)
      ≡ (if ltb i top then lookup i m else get_elem? (i - top) list)
unfolding number_from
number_from-lookup top [] m i free = ground (arith, free i)
number_from-lookup top (a ∷ rest) m i free =
    let later = number_from-lookup (suc top) rest (insert top a m) i (IsFree-insert top a m free) in
    let here = lookup-insert i top a m in
    elim (Bool-cases (ltb i top)) [
      | inl below ↦ ground (arith, later, here, below, nat_key.beq_iff i top)
      | inr above ↦ elim (Bool-cases (nat_key.beq i top)) [
        | inl same ↦
            let e = (nat_key.beq_iff i top).0 same in
            ground (arith, later, here, same, get_elem?-first (i - top) a rest (omega (arith, e)))
        | inr other ↦
            let step =
              get_elem?-after (i - top) (i - suc top) a rest (ground (arith, above, other)) in
            ground (arith, later, here, other, step, nat_key.beq_iff i top)
      ]
    ]

pub numbered :
    {A : Type 0} (list : List A) (i : ℕ) → lookup i (number_from 0 list []) ≡ get_elem? i list
unfolding lookup
numbered list i = number_from-lookup 0 list [] i (λ j h. refl) ∙ ground arith

module _ (int_of_text : Text → Option ℤ) (new_coin : ℤ → Outcome Coin) where
  -- The amounts that are integers.
  abbrev pub amounts : List Text → List ℤ
  amounts list = filter_map int_of_text list

  -- Each of them makes a coin.
  abbrev pub MakeCoins : (ℤ → Coin) → List ℤ → Type 0
  MakeCoins coin_of list = All (λ a. new_coin a ≡ returns (coin_of a)) list

  read_stakes-numbered :
      (coin_of : ℤ → Coin) (top : ℕ) (list : List Text) (m : Map ℕ Coin)
      → MakeCoins coin_of (amounts list)
      → read_stakes int_of_text new_coin top list m
        ≡ returns (number_from top (map coin_of (amounts list)) m)
  unfolding read_stakes number_from
  read_stakes-numbered coin_of top [] m good = refl
  read_stakes-numbered coin_of top (t ∷ list) m good =
      at (int_of_text t) good (λ k n. read_stakes-numbered coin_of k list n)
    where
      at :
          (o : Option ℤ)
          → MakeCoins coin_of (if_some o (amounts list))
          → ((k : ℕ) (n : Map ℕ Coin)
              → MakeCoins coin_of (amounts list)
              → read_stakes int_of_text new_coin k list n
                ≡ returns (number_from k (map coin_of (amounts list)) n))
          → elim o as (λ _. Outcome (Map ℕ Coin)) [
            | none ↦ read_stakes int_of_text new_coin top list m
            | some a ↦
                and_go
                  (new_coin a)
                  (λ coin. read_stakes int_of_text new_coin (suc top) list (insert top coin m))
          ]
            ≡ returns (number_from top (map coin_of (if_some o (amounts list))) m)
      at none h rest = rest top m h
      at (some a) h rest = rw h.0 (rest (suc top) (insert top (coin_of a) m) h.1)

  -- When NewCoin makes a coin of each amount that is an integer, the stakes are read without a
  -- panic, and the stake listed for the node i is the one of the i-th amount that is an integer, if
  -- there is one: an amount that is no integer has no place, so that those after it move to the
  -- nodes before.
  pub list_stakes_effect :
      (coin_of : ℤ → Coin) (s : Text)
      → MakeCoins coin_of (amounts (split_commas s))
      → (m : Map ℕ Coin) × (list_stakes int_of_text new_coin s ≡ returns m)
        × ((i : ℕ) → lookup i m ≡ get_elem? i (map coin_of (amounts (split_commas s))))
  unfolding list_stakes
  list_stakes_effect coin_of s good = (
    number_from 0 (map coin_of (amounts (split_commas s))) [],
    read_stakes-numbered coin_of 0 (split_commas s) [] good,
    numbered (map coin_of (amounts (split_commas s))),
  )
