-- ===== src/Dao/Opening.antt =====
-- The effect of `SubmitProposal` (x/dao/keeper/msg_server.go).
pub mod Exact
use mathlib.Core.Path.{subst}
use dnsblockchain.Prelude.{ℕ, ◌≡◌, refl, sym, ap, ◌∙◌, true, false, some, ◌⊎◌, inl, inr, Bool-cases}
use dnsblockchain.Go.Word.{add64}
use dnsblockchain.Sdk.{
  Platform, Address, Coins, Context, Result, ok, err, ◌>>=◌, Ensures, succeeds, fails,
  after_fail_if, after_or_fail, after_lift, after_gets, after_step, weaken,
}
use dnsblockchain.Store.{nat_key, insert}
use dnsblockchain.Dao.Types.{Any, Content, Proposal, DaoParams, DaoKeeper, MsgSubmitProposal}
use dnsblockchain.Dao.External.{Codec, TldRegistry}
use dnsblockchain.Dao.Content.{validate_content}
use dnsblockchain.Dao.Store.{DaoChain, module_name, on_bank, get_next_proposal_id, set_proposal}
use dnsblockchain.Dao.Submit.{
  content_of, has_duplicate, required_deposit, pay_deposit, new_proposal, store_proposal,
  submit_proposal,
}
use dnsblockchain.Dao.Frame.{after_get_params}

-- The keeper with one more proposal.
abbrev pub opened : ℕ → Proposal → DaoKeeper → DaoKeeper
opened id q k = record k { proposal_seq = add64 id 1; proposals = insert id q k.proposals }

module _ (codec : Codec) (g : TldRegistry) (p : Platform) where
  open codec use {unpack_any}
  open g use {Registry}
  open p use {address, coins_zero, Bank, send_to_module}

  -- What becomes of the deposit.
  abbrev pub Deposited : Address → Coins → Coins → Bank → Bank → Type 0
  Deposited proposer deposit initial b b' =
      (coins_zero deposit ≡ true) × (coins_zero initial ≡ true) × (b' ≡ b)
      ⊎ (coins_zero deposit ≡ false) × (send_to_module proposer module_name deposit b ≡ (ok tt, b'))

  pub record Submitted (ctx : Context) (msg : MsgSubmitProposal) (s : DaoChain Registry Bank)
      (id : ℕ) (s' : DaoChain Registry Bank) : Type 0 where
    pub proposer : Address
    pub proposer_address : address msg.proposer ≡ some proposer
    pub packed : Any
    pub packed_content : msg.content ≡ some packed
    pub content : Content
    pub unpacked_content : content_of (unpack_any packed) ≡ some content
    pub valid : validate_content p content ≡ ok tt
    pub unique : has_duplicate codec g p packed content s ≡ false
    pub params : DaoParams
    pub params_found : s.keeper.params ≡ some params
    pub deposit : Coins
    pub deposit_due : required_deposit codec g p content params s.registry ≡ ok deposit
    pub paid : Deposited proposer deposit msg.initial_deposit s.bank s'.bank
    pub next_id : id ≡ s.keeper.proposal_seq
    pub written :
        s'.keeper ≡ opened id (new_proposal codec g p ctx msg packed params id s'.bank) s.keeper
    pub registry : s'.registry ≡ s.registry

  abbrev pub SameStores : DaoChain Registry Bank → DaoChain Registry Bank → Type 0
  SameStores s t = (t.keeper ≡ s.keeper) × (t.registry ≡ s.registry)

  paid_by :
      (call : Bank → Result (Unit {0}) × Bank) (s : DaoChain Registry Bank)
      → Ensures
          (λ _ t. SameStores s t × (call s.bank ≡ (ok tt, t.bank)))
          (SameStores s)
          (on_bank call s)
  paid_by call s = at (call s.bank) refl
    where
      at :
          (r : Result (Unit {0}) × Bank)
          → call s.bank ≡ r
          → Ensures
              (λ _ t. SameStores s t × (call s.bank ≡ (ok tt, t.bank)))
              (SameStores s)
              (r.0, record s { bank = r.1 })
      at (ok tt, b) e = succeeds _ _ ((refl, refl), e)
      at (err x, b) e = fails _ _ (refl, refl)

  pay_deposit_effect :
      (proposer : Address) (deposit initial : Coins) (s : DaoChain Registry Bank)
      → Ensures
          (λ _ t. SameStores s t × Deposited proposer deposit initial s.bank t.bank)
          (SameStores s)
          (pay_deposit codec g p proposer deposit initial s)
  unfolding pay_deposit
  pay_deposit_effect proposer deposit initial s = elim (Bool-cases (coins_zero deposit)) [
    | inl zero_deposit ↦ rw zero_deposit (elim (Bool-cases (coins_zero initial)) [
      | inl none_given ↦ rw none_given (succeeds _ _ ((refl, refl), inl (refl, refl, refl)))
      | inr given ↦ rw given (fails _ _ (refl, refl))
    ])
    | inr due ↦ rw due (
        weaken (paid_by (send_to_module proposer module_name deposit) s)
          (λ _ t r. (r.0, inr (refl, r.1))) (λ t h. h))
  ]

  store_proposal_effect :
      (ctx : Context) (msg : MsgSubmitProposal) (packed : Any) (content : Content)
      (params : DaoParams) (s : DaoChain Registry Bank)
      → Ensures
          (λ id t.
            (id ≡ s.keeper.proposal_seq)
            × (t.keeper
                ≡ opened id (new_proposal codec g p ctx msg packed params id t.bank) s.keeper)
            × (t.registry ≡ s.registry)
            × (t.bank ≡ s.bank))
          (SameStores s)
          (store_proposal codec g p ctx msg packed content params s)
  unfolding store_proposal get_next_proposal_id set_proposal ◌>>=◌ new_proposal
  store_proposal_effect ctx msg packed content params s = succeeds _ _ (refl, refl, refl, refl)

  -- SubmitProposal succeeds only if the proposer's address decodes, the content is there, can be
  -- unpacked and validates, no proposal in its voting period has the same type and content, the
  -- parameters are set, the registry has nothing against a proposed TLD, and the deposit that is
  -- due was taken from the proposer, or none is due and none is offered; it then returns the next
  -- id and writes the new proposal under it and the next sequence number, and changes nothing else
  -- of the two keepers. If it fails, both keepers are as they were.
  pub submit_proposal_effect :
      (ctx : Context) (msg : MsgSubmitProposal) (s : DaoChain Registry Bank)
      → Ensures (Submitted ctx msg s) (SameStores s) (submit_proposal codec g p ctx msg s)
  unfolding submit_proposal
  submit_proposal_effect ctx msg s =
      after_or_fail _ _ _ s (refl, refl)
        λ proposer known.
          after_or_fail _ _ _ s (refl, refl)
            λ packed given.
              after_or_fail _ _ _ s (refl, refl)
                λ content readable.
                  after_lift _ _ s (refl, refl)
                    λ _ valid. after_gets _ _ s (
                      after_fail_if _ _ _ s (refl, refl)
                        λ unique.
                          after_get_params _ s (refl, refl)
                            λ params found.
                              after_lift _ _ s (refl, refl)
                                λ deposit due.
                                  after_step _ _ s
                                    (pay_deposit_effect proposer deposit msg.initial_deposit s)
                                    λ _ t paid.
                                      weaken (store_proposal_effect ctx msg packed content params t)
                                        (λ id u stored. record {
                                          proposer = proposer;
                                          proposer_address = known;
                                          packed = packed;
                                          packed_content = given;
                                          content = content;
                                          unpacked_content = readable;
                                          valid = valid;
                                          unique = unique;
                                          params = params;
                                          params_found = found;
                                          deposit = deposit;
                                          deposit_due = due;
                                          paid =
                                              subst
                                                (Deposited proposer deposit msg.initial_deposit
                                                  s.bank)
                                                (sym stored.3) paid.1;
                                          next_id = stored.0 ∙ ap (λ k. k.proposal_seq) paid.0.0;
                                          written =
                                              stored.1
                                              ∙ ap
                                                  (opened id (
                                                    new_proposal codec g p ctx msg packed params id
                                                      u.bank))
                                                  paid.0.0;
                                          registry = stored.2 ∙ paid.0.1;
                                        })
                                        (λ u same. (same.0 ∙ paid.0.0, same.1 ∙ paid.0.1)))
