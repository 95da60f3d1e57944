-- ===== src/Dns/Effects/Success.antt =====
-- When `CreateDomain` succeeds (x/dnsblockchain/keeper/msg_server_domain.go).
use dnsblockchain.Prelude.{◌≡◌, ◌≢◌, refl, sym, ap, ◌∙◌, none, some, Option, inl, inr, arith}
use mathlib.Core.Path.{subst}
use dnsblockchain.Go.Text.{Text}
use dnsblockchain.Sdk.{
  Platform, Address, Coins, Context, Result, ok, through, through_or_fail, through_fail_if,
  through_gets, or_fail, store_not_found, ◌>>=◌,
}
use dnsblockchain.Dns.Types.{Chain, Params, MsgCreateDomain}
use dnsblockchain.Dns.Msg.{
  module_name, on_bank, charge_fee, check_domain, store_domain, create_domain, get_params,
  next_domain_id, set_domain, set_domain_name,
}
use dnsblockchain.Dns.Effects.Create.{Paid, IsAccepted}

some_of : {A : Type 0} (o : Option A) → o ≢ none → (a : A) × (o ≡ some a)
some_of none n = absurd (n refl)
some_of (some a) n = (a, refl)

get_params-set :
    {B : Type 0} (params : Params) (s : Chain B)
    → s.keeper.params ≡ some params
    → get_params s ≡ (ok params, s)
unfolding get_params
get_params-set params s e = ap (λ o. or_fail o store_not_found s) e

module _ (p : Platform) where
  open p use {address, coins_zero, Bank, send_to_module, burn_coins}

  on_bank_call :
      (call : Bank → Result (Unit {0}) × Bank) (s : Chain Bank) (b : Bank)
      → call s.bank ≡ (ok tt, b)
      → on_bank call s ≡ (ok tt, record s { bank = b })
  on_bank_call call s b e = ap (λ r. (r.0, record s { bank = r.1 })) e

  charge_fee_succeeds :
      (addr : Address) (creator : Text) (fee : Coins) (s : Chain Bank) (b : Bank)
      → Paid p addr fee s.bank b
      → (t : Chain Bank) × (charge_fee p addr creator fee s ≡ (ok tt, t)) × (t.keeper ≡ s.keeper)
  unfolding charge_fee
  charge_fee_succeeds addr creator fee s b (inl (free, same)) = rw free (s, refl, refl)
  charge_fee_succeeds addr creator fee s b (inr (due, (c, sent, burned))) = rw due (
    _,
    through _ _ s tt _ (on_bank_call (send_to_module addr module_name fee) s c sent)
        ∙ through _ _ _ tt _
            (on_bank_call (burn_coins module_name fee) (record s { bank = c }) b burned),
    refl,
  )

  check_domain_succeeds :
      (msg : MsgCreateDomain) (s : Chain Bank)
      → IsAccepted p msg s.keeper
      → check_domain p msg s ≡ (ok tt, s)
  unfolding check_domain
  check_domain_succeeds msg s v =
      through_or_fail _ _ _ s v.tld v.two_labels
      ∙ through_gets _ _ s
      ∙ through_fail_if _ _ _ s (ground (arith, v.permitted))
      ∙ through_gets _ _ s
      ∙ through_fail_if _ _ _ s (ground (arith, v.free))
      ∙ through_fail_if _ _ _ s (ground (arith, v.some_record))
      ∙ ap (λ (r : Result (Unit {0})). (r, s)) v.records

  stored :
      (ctx : Context) (msg : MsgCreateDomain) (s : Chain Bank)
      → (store_domain p ctx msg s).0 ≡ ok s.keeper.domain_seq
  unfolding store_domain next_domain_id set_domain set_domain_name ◌>>=◌
  stored ctx msg s = refl

  -- CreateDomain succeeds and returns the next id whenever both addresses decode, the parameters
  -- are set, the bank takes and burns the fee unless it is zero, the normalised name has two labels
  -- of which the last is a permitted TLD, the name is free, and there is at least one record and
  -- all records are valid.
  pub create_domain_succeeds :
      (ctx : Context) (msg : MsgCreateDomain) (s : Chain Bank) (creator : Address) (params : Params)
      (b : Bank)
      → address msg.creator ≡ some creator
      → address msg.owner ≢ none
      → s.keeper.params ≡ some params
      → Paid p creator params.domain_creation_fee s.bank b
      → IsAccepted p msg s.keeper
      → (create_domain p ctx msg s).0 ≡ ok s.keeper.domain_seq
  unfolding create_domain
  create_domain_succeeds ctx msg s creator params b known owner found paid v =
      let (o, o_known) = some_of (address msg.owner) owner in
      let (t, charged, same) =
        charge_fee_succeeds creator msg.creator params.domain_creation_fee s b paid in
      ap (λ r. r.0)
        (through_or_fail _ _ _ s creator known
          ∙ through_or_fail _ _ _ s o o_known
          ∙ through _ _ s params s (get_params-set params s found)
          ∙ through _ _ s tt t charged
          ∙ through _ _ t tt t
              (check_domain_succeeds msg t (subst (λ k. IsAccepted p msg k) (sym same) v)))
      ∙ stored ctx msg t
      ∙ ap (λ k. ok k.domain_seq) same
