-- ===== src/Dao/Frame.antt =====
-- The books of x/dao during the execution and the settlement of a proposal
-- (x/dao/keeper/end_blocker.go).
use mathlib.Core.Path.{subst}
use dnsblockchain.Prelude.{ℕ, ◌≡◌, refl, sym, ◌∙◌, some, [], ◌∷◌, arith, Option}
use dnsblockchain.Go.Text.{Text}
use dnsblockchain.Sdk.{
  Error, or_fail, Platform, Address, Coins, Context, Handler, Result, ok, err, ◌>>=◌, Ensures,
  succeeds, after_or_fail, after_step, weaken, either_way, always, store_not_found,
}
use dnsblockchain.Store.{text_key}
use dnsblockchain.Dao.Types.{
  RequestTokens, add_tld, request_tokens, Proposal, DaoParams, DaoKeeper, ProposalStatus, passed,
  rejected, failed,
}
use dnsblockchain.Dao.External.{Codec, Decimals, Unpacked, broken, empty, unpacked, TldRegistry}
use dnsblockchain.Dao.Execute.{
  grant_lot, grant_lots, execute_add_tld, send_or_burn, execute_request_tokens, execute_content,
  execute_proposal,
}
use dnsblockchain.Dao.EndBlock.{burn_deposit, refund_deposit, after_execution, settle}
use dnsblockchain.Dao.Store.{DaoChain, module_name, on_bank, get_params}

-- The two keepers differ at most in the lots.
pub record SameBooks (k k' : DaoKeeper) : Type 0 where
  pub params : k'.params ≡ k.params
  pub proposal_seq : k'.proposal_seq ≡ k.proposal_seq
  pub proposals : k'.proposals ≡ k.proposals
  pub votes : k'.votes ≡ k.votes

abbrev same_books : (k : DaoKeeper) → SameBooks k k
same_books k = record { params = refl; proposal_seq = refl; proposals = refl; votes = refl }

grant_lots-SameBooks :
    (params : DaoParams) (ctx : Context) (c : RequestTokens) (id : ℕ) (to : Address) (coins : Coins)
    (k : DaoKeeper)
    → SameBooks k (grant_lots params ctx c id to coins k)
unfolding grant_lots grant_lot
grant_lots-SameBooks params ctx c id to [] k = same_books k
grant_lots-SameBooks params ctx c id to (coin ∷ coins) k =
    let rest =
      grant_lots-SameBooks params ctx c id to coins (grant_lot params ctx c id to coin k) in
    ground arith

pub after_get_params :
    {R B A : Type 0} {Q : A → DaoChain R B → Type 0} {E : DaoChain R B → Type 0}
    (f : DaoParams → Handler (DaoChain R B) A) (s : DaoChain R B)
    → E s
    → ((ps : DaoParams) → s.keeper.params ≡ some ps → Ensures Q E (f ps s))
    → Ensures Q E ((get_params >>= f) s)
unfolding get_params ◌>>=◌
after_get_params f s = after_or_fail s.keeper.params store_not_found f s

-- A call past a parameter read that succeeds.
or_fail-found :
    {S A B : Type 0} (o : Option A) (e : Error) (f : A → Handler S B) (s : S) (a : A)
    → o ≡ some a
    → (or_fail o e >>= f) s ≡ f a s
unfolding ◌>>=◌
or_fail-found o e f s a h = rw h refl

pub get_params-found :
    {R B A : Type 0} (f : DaoParams → Handler (DaoChain R B) A) (s : DaoChain R B)
    (params : DaoParams)
    → s.keeper.params ≡ some params
    → (get_params >>= f) s ≡ f params s
unfolding get_params ◌>>=◌
get_params-found f s params h = or_fail-found s.keeper.params store_not_found f s params h

module _ (codec : Codec) (d : Decimals) (g : TldRegistry) (p : Platform) where
  open codec use {unpack_any}
  open g use {Registry, add_permitted_tld}
  open p use {address, Bank, coins_zero, burn_coins, mint_coins, send_to_account}

  abbrev Keeps : DaoChain Registry Bank → DaoChain Registry Bank → Type 0
  Keeps s t = SameBooks s.keeper t.keeper

  send_or_burn-Keeps :
      (to : Address) (coins : Coins) (s : DaoChain Registry Bank)
      → (send_or_burn codec g p to coins s).1.keeper ≡ s.keeper
  unfolding send_or_burn
  send_or_burn-Keeps to coins s = ground arith

  on_bank-Keeps :
      (call : Bank → Result (Unit {0}) × Bank) (s : DaoChain Registry Bank)
      → (on_bank call s).1.keeper ≡ s.keeper
  on_bank-Keeps call s = refl

  as_before : (s t : DaoChain Registry Bank) → t.keeper ≡ s.keeper → Keeps s t
  as_before s t e = subst (SameBooks s.keeper) (sym e) (same_books s.keeper)

  execute_request_tokens_effect :
      (ctx : Context) (c : RequestTokens) (id : ℕ) (s : DaoChain Registry Bank)
      → Ensures (λ _ t. Keeps s t) (Keeps s) (execute_request_tokens codec g p ctx c id s)
  unfolding execute_request_tokens
  execute_request_tokens_effect ctx c id s =
      after_get_params _ s (same_books s.keeper) λ params found.
        after_or_fail _ _ _ s (same_books s.keeper) λ to known.
          after_step _ _ s
            (weaken
              (always (λ t. t.keeper ≡ s.keeper)
                (on_bank (mint_coins module_name c.amount_requested) s) refl)
              (λ _ t e. e) (λ t e. as_before s t e))
            λ _ t minted.
              after_step _ _ t
                (weaken
                  (always (λ u. u.keeper ≡ t.keeper)
                    (send_or_burn codec g p to c.amount_requested t)
                    (send_or_burn-Keeps to c.amount_requested t))
                  (λ _ u e. e ∙ minted) (λ u e. as_before s u (e ∙ minted)))
                λ _ u sent. succeeds _ _ (
                  subst
                    (λ k. SameBooks k (grant_lots params ctx c id to c.amount_requested u.keeper))
                    sent (grant_lots-SameBooks params ctx c id to c.amount_requested u.keeper))

  execute_content-Keeps :
      (ctx : Context) (id : ℕ) (c : Unpacked) (s : DaoChain Registry Bank)
      → Keeps s (execute_content codec g p ctx id c s).1
  unfolding execute_content execute_add_tld
  execute_content-Keeps ctx id broken s = same_books s.keeper
  execute_content-Keeps ctx id empty s = same_books s.keeper
  execute_content-Keeps ctx id (unpacked (add_tld c)) s = same_books s.keeper
  execute_content-Keeps ctx id (unpacked (request_tokens c)) s =
      either_way (Keeps s) (execute_request_tokens_effect ctx c id s) (λ _ t h. h) (λ t h. h)

  pub execute_proposal-Keeps :
      (ctx : Context) (q : Proposal) (s : DaoChain Registry Bank)
      → Keeps s (execute_proposal codec g p ctx q s).1
  unfolding execute_proposal
  execute_proposal-Keeps ctx q s = execute_content-Keeps ctx q.id (unpack_any q.content) s

  pub burn_deposit-Keeps :
      (deposit : Coins) (s : DaoChain Registry Bank)
      → (burn_deposit codec d g p deposit s).keeper ≡ s.keeper
  unfolding burn_deposit
  burn_deposit-Keeps deposit s = ground arith

  pub refund_deposit-Keeps :
      (to : Text) (deposit : Coins) (s : DaoChain Registry Bank)
      → (refund_deposit codec d g p to deposit s).keeper ≡ s.keeper
  unfolding refund_deposit
  refund_deposit-Keeps to deposit s = ground arith

  after_execution-Keeps :
      (q : Proposal) (deposit : Coins) (s : DaoChain Registry Bank)
      (r : Result (Unit {0}) × DaoChain Registry Bank)
      → Keeps s r.1
      → Keeps s (after_execution codec d g p q deposit r).1
  after_execution-Keeps q deposit s (ok u, t) h =
      subst (SameBooks s.keeper) (sym (refund_deposit-Keeps q.proposer deposit t)) h
  after_execution-Keeps q deposit s (err e, t) h =
      subst (SameBooks s.keeper) (sym (burn_deposit-Keeps deposit t)) h

  -- Whatever the status after the tally, the execution of a proposal and the settlement of its
  -- deposit leave the proposals, the votes, the parameters and the sequence of x/dao as they were,
  -- whether the calls of the bank and of the TLD registry succeed or fail.
  pub settle-Keeps :
      (ctx : Context) (q : Proposal) (deposit : Coins) (st : ProposalStatus)
      (s : DaoChain Registry Bank)
      → Keeps s (settle codec d g p ctx q deposit st s).1
  unfolding settle
  settle-Keeps ctx q deposit passed s =
      after_execution-Keeps q deposit s (execute_proposal codec g p ctx q s)
        (execute_proposal-Keeps ctx q s)
  settle-Keeps ctx q deposit rejected s =
      as_before s (burn_deposit codec d g p deposit s) (burn_deposit-Keeps deposit s)
  settle-Keeps ctx q deposit failed s =
      as_before s (burn_deposit codec d g p deposit s) (burn_deposit-Keeps deposit s)
  settle-Keeps ctx q deposit _ s = same_books s.keeper
