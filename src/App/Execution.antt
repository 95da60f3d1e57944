-- ===== src/App/Execution.antt =====
-- What the settlement of one proposal of x/dao (x/dao/keeper/end_blocker.go) does to the stores of
-- x/dnsblockchain (x/dnsblockchain/keeper/keeper.go).
use mathlib.Core.Path.{subst}
use dnsblockchain.Prelude.{ℕ, ◌≡◌, ◌≢◌, refl, sym, ◌∙◌, false, [], arith, ap}
use dnsblockchain.Go.Text.{Text, has_dot}
use dnsblockchain.Go.Text.Normal.{normal_tld}
use dnsblockchain.Sdk.{
  Platform, Address, Coins, Context, Result, ok, err, Ensures, succeeds, fails, after_or_fail,
  after_step, weaken, always,
}
use dnsblockchain.Dns.Types.{Keeper}
use dnsblockchain.Dns.Permitted.{add_permitted_tld, add_normal_tld}
use dnsblockchain.Dns.Tlds.{permitting}
use dnsblockchain.Dns.Index.Steps.{add_normal_tld-cases}
use dnsblockchain.Dao.{
  AddTld, RequestTokens, add_tld, request_tokens, Proposal, DaoParams, ProposalStatus, passed,
  rejected, executed, failed, Codec, Decimals, Unpacked, broken, empty, unpacked, TldRegistry,
  DaoChain, module_name, on_bank, set_proposal,
}
use dnsblockchain.Dao.Tally.{tally_of, tallied, verdict}
use dnsblockchain.Dao.Execute.{
  execute_add_tld, send_or_burn, execute_request_tokens, execute_content, execute_proposal,
}
use dnsblockchain.Dao.EndBlock.{
  burn_deposit, refund_deposit, deposit_of, checked_status, after_execution, settle,
  process_proposal,
}
use dnsblockchain.Dao.Closing.{closed}
use dnsblockchain.Dao.Frame.{after_get_params}
use dnsblockchain.Dao.Agreement.{keeper_registry}

module _ (codec : Codec) (d : Decimals) (g : TldRegistry) (p : Platform) where
  open g use {Registry}
  open p use {Bank, mint_coins}

  abbrev SameRegistry : DaoChain Registry Bank → DaoChain Registry Bank → Type 0
  SameRegistry s t = t.registry ≡ s.registry

  send_or_burn-SameRegistry :
      (to : Address) (coins : Coins) (s : DaoChain Registry Bank)
      → SameRegistry s (send_or_burn codec g p to coins s).1
  unfolding send_or_burn
  send_or_burn-SameRegistry to coins s = ground arith

  request_tokens-SameRegistry :
      (ctx : Context) (c : RequestTokens) (id : ℕ) (s : DaoChain Registry Bank)
      → Ensures
          (λ _ t. SameRegistry s t)
          (SameRegistry s)
          (execute_request_tokens codec g p ctx c id s)
  unfolding execute_request_tokens
  request_tokens-SameRegistry ctx c id s = after_get_params _ s refl λ params found.
      after_or_fail _ _ _ s refl λ to known.
        after_step _ _ s
          (always (SameRegistry s) (on_bank (mint_coins module_name c.amount_requested) s) refl)
          λ _ t minted.
            after_step _ _ t
              (weaken
                (always (SameRegistry t) (send_or_burn codec g p to c.amount_requested t)
                  (send_or_burn-SameRegistry to c.amount_requested t))
                (λ _ u e. e ∙ minted) (λ u e. e ∙ minted))
              λ _ u sent. succeeds _ _ sent

  pub burn_deposit-SameRegistry :
      (deposit : Coins) (s : DaoChain Registry Bank)
      → SameRegistry s (burn_deposit codec d g p deposit s)
  unfolding burn_deposit
  burn_deposit-SameRegistry deposit s = ground arith

  pub refund_deposit-SameRegistry :
      (to : Text) (deposit : Coins) (s : DaoChain Registry Bank)
      → SameRegistry s (refund_deposit codec d g p to deposit s)
  unfolding refund_deposit
  refund_deposit-SameRegistry to deposit s = ground arith

-- What happens to the stores of x/dnsblockchain when a proposal that the tally gave the status `was`
-- is settled with the status `st`: nothing, or the proposal adds a TLD, passed and is executed, and
-- this TLD becomes permitted.
pub data Grants (codec : Codec) (lower : ℕ → ℕ) (q : Proposal) (was st : ProposalStatus)
    (k k' : Keeper) : Type 0 where
  no_grant : k' ≡ k → Grants codec lower q was st k k'
  grant :
      (c : AddTld)
      → codec.unpack_any q.content ≡ unpacked (add_tld c)
      → was ≡ passed
      → st ≡ executed
      → normal_tld lower c.tld ≢ []
      → has_dot (normal_tld lower c.tld) ≡ false
      → k' ≡ permitting (normal_tld lower c.tld) k
      → Grants codec lower q was st k k'

module _ (codec : Codec) (d : Decimals) (p : Platform) where
  open codec use {unpack_any}
  open p use {lower, Bank}

  abbrev World : Type 0
  World = DaoChain Keeper Bank

  -- The registry after an execution, by its result.
  abbrev Granted : Proposal → World → Result (Unit {0}) × World → Type 0
  Granted q s (ok _, t) = Grants codec lower q passed executed s.registry t.registry
  Granted q s (err _, t) = t.registry ≡ s.registry

  Granted-of :
      (q : Proposal) (s : World) {r : Result (Unit {0}) × World}
      → Ensures
          (λ _ t. Grants codec lower q passed executed s.registry t.registry)
          (λ t. t.registry ≡ s.registry)
          r
      → Granted q s r
  Granted-of q s (succeeds a t h) = h
  Granted-of q s (fails e t h) = h

  execute_add_tld-Granted :
      (c : AddTld) (q : Proposal) (s : World)
      → unpack_any q.content ≡ unpacked (add_tld c)
      → Granted q s (execute_add_tld codec (keeper_registry lower) p c s)
  unfolding execute_add_tld add_permitted_tld
  execute_add_tld-Granted c q s e =
      at (add_normal_tld lower (normal_tld lower c.tld) s.registry)
        (add_normal_tld-cases lower (normal_tld lower c.tld) s.registry)
    where
      at :
          (r : Result (Unit {0}) × Keeper)
          → Ensures
              (λ _ k'.
                (normal_tld lower c.tld ≢ [])
                × (has_dot (normal_tld lower c.tld) ≡ false)
                × (k' ≡ permitting (normal_tld lower c.tld) s.registry))
              (λ k'. k' ≡ s.registry)
              r
          → Granted q s (r.0, record s { registry = r.1 })
      at _ (succeeds a k h) = grant c e refl refl h.0 h.1 h.2
      at _ (fails x k h) = h

  execute_content-Granted :
      (ctx : Context) (id : ℕ) (c : Unpacked) (q : Proposal) (s : World)
      → unpack_any q.content ≡ c
      → Granted q s (execute_content codec (keeper_registry lower) p ctx id c s)
  unfolding execute_content
  execute_content-Granted ctx id broken q s e = refl
  execute_content-Granted ctx id empty q s e = refl
  execute_content-Granted ctx id (unpacked (add_tld c)) q s e = execute_add_tld-Granted c q s e
  execute_content-Granted ctx id (unpacked (request_tokens c)) q s e = Granted-of q s (
      weaken (request_tokens-SameRegistry codec d (keeper_registry lower) p ctx c id s)
        (λ _ t h. no_grant h) (λ t h. h))

  execute_proposal-Granted :
      (ctx : Context) (q : Proposal) (s : World)
      → Granted q s (execute_proposal codec (keeper_registry lower) p ctx q s)
  unfolding execute_proposal
  execute_proposal-Granted ctx q s =
      execute_content-Granted ctx q.id (unpack_any q.content) q s refl

  -- The stores of x/dnsblockchain after a settlement, by the final status.
  abbrev Settled : Proposal → World → ProposalStatus → ProposalStatus × World → Type 0
  Settled q s was (st, t) = Grants codec lower q was st s.registry t.registry

  after_execution-Settled :
      (q : Proposal) (deposit : Coins) (s : World) (r : Result (Unit {0}) × World)
      → Granted q s r
      → Settled q s passed (after_execution codec d (keeper_registry lower) p q deposit r)
  after_execution-Settled q deposit s (ok u, t) h =
      subst (Grants codec lower q passed executed s.registry)
        (sym (refund_deposit-SameRegistry codec d (keeper_registry lower) p q.proposer deposit t)) h
  after_execution-Settled q deposit s (err e, t) h =
      no_grant (burn_deposit-SameRegistry codec d (keeper_registry lower) p deposit t ∙ h)

  settle-Settled :
      (ctx : Context) (q : Proposal) (deposit : Coins) (st : ProposalStatus) (s : World)
      → Settled q s st (settle codec d (keeper_registry lower) p ctx q deposit st s)
  unfolding settle
  settle-Settled ctx q deposit passed s =
      after_execution-Settled q deposit s (execute_proposal codec (keeper_registry lower) p ctx q s)
        (execute_proposal-Granted ctx q s)
  settle-Settled ctx q deposit rejected s =
      no_grant (burn_deposit-SameRegistry codec d (keeper_registry lower) p deposit s)
  settle-Settled ctx q deposit failed s =
      no_grant (burn_deposit-SameRegistry codec d (keeper_registry lower) p deposit s)
  settle-Settled ctx q deposit _ s = no_grant refl

  -- Of the tallied proposal only the content matters, and a proposal whose content cannot be
  -- unpacked does not pass.
  same_content :
      {k k' : Keeper} {was st : ProposalStatus} (q r : Proposal)
      → r.content ≡ q.content
      → Grants codec lower r (checked_status (unpack_any r.content) was) st k k'
      → Grants codec lower q was st k k'
  same_content q r same (no_grant e) = no_grant e
  same_content {k} {k'} {was} {st} q r same (grant c e before x f o w) =
      grant c (ap unpack_any (sym same) ∙ e) (sym (ap (λ u. checked_status u was) e) ∙ before) x f o
        w

  -- One round of the loop of `EndBlocker`.
  pub process_proposal-Grants :
      (ctx : Context) (params : DaoParams) (q : Proposal) (s : World)
      → Grants codec lower q
          (verdict d params q.total_voting_power_at_snapshot (tally_of q.id s.keeper))
          (closed codec d (keeper_registry lower) p ctx params q s).status
          s.registry
          (process_proposal codec d (keeper_registry lower) p ctx params q s).registry
  unfolding process_proposal set_proposal tallied
  process_proposal-Grants ctx params q s =
      let counted = tallied d params q (tally_of q.id s.keeper) in
      let content = unpack_any counted.content in
      same_content q counted refl (
        settle-Settled ctx counted (deposit_of params content)
          (checked_status content counted.status) s)
