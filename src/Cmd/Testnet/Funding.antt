-- ===== src/Cmd/Testnet/Funding.antt =====
-- When the command for a test network in place exits (cmd/dnsblockchaind/cmd/testnet.go).
use dnsblockchain.Prelude.{
  ◌≡◌, refl, sym, ap, ◌∙◌, true, Option, none, some, List, [], ◌∷◌, any, arith, Bool-cases, inl,
  inr,
}
use dnsblockchain.Prelude.Int.{ℤ}
use dnsblockchain.Go.Text.{Text}
use dnsblockchain.Go.Text.Digits.{split_commas}
use dnsblockchain.Sdk.{Coins, Result, ok, err}
use dnsblockchain.Sdk.Panic.{Outcome, returns, panics, must, must_then, and_go, each}
use dnsblockchain.Store.{text_key, ◌==◌}
use dnsblockchain.Cmd.Testnet.Modules.{TestnetModules}
use dnsblockchain.Cmd.Testnet.{
  Options, ValArgs, get_command_args, default_coins, new_validator, remove_validators,
  add_validator, fund_account, fund_accounts, init_app_for_testnet, new_testnet_app,
}

-- A rest that always panics makes the whole panic.
must_then-panics :
    {A B : Type 0} (o : Option A) (f : A → Outcome B)
    → ((a : A) → f a ≡ panics)
    → must_then o f ≡ panics
must_then-panics none f h = refl
must_then-panics (some a) f h = h a

and_go-panics :
    {A B : Type 0} (r : Outcome A) (f : A → Outcome B)
    → ((a : A) → f a ≡ panics)
    → and_go r f ≡ panics
and_go-panics panics f h = refl
and_go-panics (returns a) f h = h a

-- A loop panics if one of its rounds always does.
each-panics :
    {S : Type 0} (f : Text → S → Outcome S) (a : Text) (list : List Text) (s : S)
    → any (λ b. a == b) list ≡ true
    → ((t : S) → f a t ≡ panics)
    → each f list s ≡ panics
unfolding each
each-panics f a [] s listed h = absurd (cc listed)
each-panics f a (b ∷ list) s listed h = elim (Bool-cases (a == b)) [
  | inl same ↦
      let bad = ap (λ x. f x s) (sym ((text_key.beq_iff a b).0 same)) ∙ h s in
      ap (λ r. and_go r (each f list)) bad
  | inr other ↦
      and_go-panics (f b s) (each f list)
        λ t. each-panics f a list t (ground (arith, listed, other)) h
]

-- The accounts of the arguments are those that the option lists.
args_accounts :
    {Key : Type 0} (o : Options Key) (args : ValArgs Key)
    → get_command_args o ≡ ok args
    → args.accounts_to_fund ≡ split_commas o.accounts_to_fund
unfolding get_command_args
args_accounts o args e = ground (arith, e)

module _ (m : TestnetModules) where
  open m use {Store, Key, account_bytes}

  fund_account-panics :
      (coins : Coins) (account : Text) (s : Store)
      → account_bytes account ≡ none
      → fund_account m coins account s ≡ panics
  unfolding fund_account
  fund_account-panics coins account s e =
      must_then-panics (m.mint_coins coins s) _
        λ t. ap (λ o. must_then o (λ a. must (m.send_to_account a coins t))) e

  fund_accounts-panics :
      (accounts : List Text) (account : Text) (s : Store)
      → any (λ a. account == a) accounts ≡ true
      → account_bytes account ≡ none
      → fund_accounts m accounts s ≡ panics
  unfolding fund_accounts
  fund_accounts-panics accounts account s listed e = must_then-panics (m.bond_denom s) _ λ denom.
      each-panics (fund_account m (default_coins m denom)) account accounts s listed
        (λ t. fund_account-panics (default_coins m denom) account t e)

  init_app-panics :
      (last_height : ℤ) (args : ValArgs Key) (account : Text) (s : Store)
      → any (λ a. account == a) args.accounts_to_fund ≡ true
      → account_bytes account ≡ none
      → init_app_for_testnet m last_height args s ≡ panics
  unfolding init_app_for_testnet
  init_app-panics last_height args account s listed e =
      must_then-panics (m.pack_key args.new_val_pub_key) _ λ key.
        must_then-panics (m.operator_bytes args.new_operator_address) _ λ a.
          and_go-panics (remove_validators m s) _ λ s1.
            and_go-panics (add_validator m (new_validator m args key) a s1) _
              λ s2. fund_accounts-panics args.accounts_to_fund account _ listed e

  -- The command for a test network in place exits whenever one of the accounts to fund that its
  -- option lists, which is split at commas, does not decode, whatever the other options and the
  -- stores are, and whether the calls of the SDK before it succeed or fail; without accounts the
  -- list has one entry, the empty text.
  pub new_testnet_app-exits :
      (last_height : ℤ) (o : Options Key) (account : Text) (s : Store)
      → any (λ a. account == a) (split_commas o.accounts_to_fund) ≡ true
      → account_bytes account ≡ none
      → new_testnet_app m last_height o s ≡ panics
  unfolding new_testnet_app
  new_testnet_app-exits last_height o account s listed e = at (get_command_args o) refl
    where
      at :
          (r : Result (ValArgs Key))
          → get_command_args o ≡ r
          → elim r as (λ _. Outcome Store) [
            | err x ↦ panics
            | ok args ↦ init_app_for_testnet m last_height args s
          ]
            ≡ panics
      at (err x) h = refl
      at (ok args) h =
          init_app-panics last_height args account s
            (ap (any (λ a. account == a)) (args_accounts o args h) ∙ listed) e
