-- ===== src/Dns/Effects/Create.antt =====
-- The effect of `CreateDomain` (x/dnsblockchain/keeper/msg_server_domain.go).
use dnsblockchain.Prelude.{
  ℕ, ◌≡◌, ◌≢◌, refl, true, false, none, some, ◌⊎◌, inl, inr, arith, [], ◌∙◌, Bool-cases,
}
use mathlib.Core.Path.{subst}
use dnsblockchain.Go.Text.{Text, split_dots}
use dnsblockchain.Go.Text.Normal.{normal_name}
use dnsblockchain.Go.Time.{add_year}
use dnsblockchain.Sdk.{
  Platform, Address, Context, Coins, Handler, Result, ok, err, ◌>>=◌, Ensures, succeeds, fails,
  after_fail_if, after_or_fail, after_gets, after_step, store_not_found, weaken, at_lift,
}
use dnsblockchain.Store.{nat_key, text_key, lookup}
use dnsblockchain.Dns.Types.{Domain, Keeper, Chain, Params, MsgCreateDomain}
use dnsblockchain.Dns.Permitted.{is_tld_permitted}
use dnsblockchain.Dns.Msg.{
  module_name, on_bank, get_params, charge_fee, check_domain, check_ns_records, tld_of_parts,
  next_domain_id, store_domain, set_domain, set_domain_name, create_domain,
}
use dnsblockchain.Dns.Index.Changes.{added}

-- The domain that a message asks for.
abbrev pub requested : (lower : ℕ → ℕ) → Context → MsgCreateDomain → ℕ → Domain
requested lower ctx msg id = record {
  id = id;
  creator = msg.creator;
  name = normal_name lower msg.name;
  owner = msg.owner;
  ns_records = msg.ns_records;
  expiration = add_year ctx.time;
}

module _ (p : Platform) where
  open p use {lower, address, coins_zero, Bank, send_to_module, burn_coins}

  -- What the fee does to the bank: nothing if it is zero; else it is taken, and burned.
  abbrev pub Paid : Address → Coins → Bank → Bank → Type 0
  Paid addr fee b b' =
      (coins_zero fee ≡ true) × (b' ≡ b)
      ⊎ ((coins_zero fee ≡ false)
          × ((c : Bank) × (send_to_module addr module_name fee b ≡ (ok tt, c))
              × (burn_coins module_name fee c ≡ (ok tt, b'))))

  -- What is checked of the name and of the records, before anything is written.
  pub record IsAccepted (msg : MsgCreateDomain) (k : Keeper) : Type 0 where
    pub tld : Text
    pub two_labels : tld_of_parts (split_dots (normal_name lower msg.name)) ≡ some tld
    pub permitted : is_tld_permitted lower tld k ≡ true
    pub free : lookup (normal_name lower msg.name) k.domain_name ≡ none
    pub records : check_ns_records msg.ns_records ≡ ok tt
    pub some_record : msg.ns_records ≢ []

  pub record Created (ctx : Context) (msg : MsgCreateDomain) (s : Chain Bank) (id : ℕ)
      (s' : Chain Bank) : Type 0 where
    pub creator : Address
    pub creator_address : address msg.creator ≡ some creator
    pub owner_address : address msg.owner ≢ none
    pub params : Params
    pub params_found : s.keeper.params ≡ some params
    pub paid : Paid creator params.domain_creation_fee s.bank s'.bank
    pub accepted : IsAccepted msg s.keeper
    pub next_id : id ≡ s.keeper.domain_seq
    pub written : s'.keeper ≡ added (requested lower ctx msg id) s.keeper

  abbrev Same : Chain Bank → Chain Bank → Type 0
  Same s s' = s'.keeper ≡ s.keeper

  on_bank_effect :
      (call : Bank → Result (Unit {0}) × Bank) (s : Chain Bank)
      → Ensures (λ _ s'. Same s s' × (call s.bank ≡ (ok tt, s'.bank))) (Same s) (on_bank call s)
  on_bank_effect call s = at (call s.bank) refl
    where
      at :
          (r : Result (Unit {0}) × Bank)
          → call s.bank ≡ r
          → Ensures
              (λ _ s'. Same s s' × (call s.bank ≡ (ok tt, s'.bank)))
              (Same s)
              (r.0, record s { bank = r.1 })
      at (ok tt, b) e = succeeds _ _ (refl, e)
      at (err x, b) e = fails _ _ refl

  -- The same, where an earlier step has left the keeper alone.
  on_bank_from :
      (s t : Chain Bank) (call : Bank → Result (Unit {0}) × Bank)
      → Same s t
      → Ensures (λ _ u. Same s u × (call t.bank ≡ (ok tt, u.bank))) (Same s) (on_bank call t)
  on_bank_from s t call h =
      weaken (on_bank_effect call t) (λ _ u r. (r.0 ∙ h, r.1)) (λ u same. same ∙ h)

  charge_fee_effect :
      (addr : Address) (creator : Text) (fee : Coins) (s : Chain Bank)
      → Ensures
          (λ _ s'. Same s s' × Paid addr fee s.bank s'.bank)
          (Same s)
          (charge_fee p addr creator fee s)
  unfolding charge_fee
  charge_fee_effect addr creator fee s = elim (Bool-cases (coins_zero fee)) [
    | inl zero_fee ↦ rw zero_fee (succeeds _ _ (refl, inl (refl, refl)))
    | inr due ↦ rw due (
        after_step _ _ s (on_bank_effect (send_to_module addr module_name fee) s) λ _ t sent.
          after_step _ _ t (on_bank_from s t (burn_coins module_name fee) sent.0)
            λ _ u burned. succeeds _ _ (burned.0, inr (refl, (t.bank, sent.1, burned.1))))
  ]

  check_domain_effect :
      (msg : MsgCreateDomain) (s : Chain Bank)
      → Ensures (λ _ s'. (s' ≡ s) × IsAccepted msg s.keeper) (λ s'. s' ≡ s) (check_domain p msg s)
  unfolding check_domain
  check_domain_effect msg s = after_or_fail _ _ _ s refl λ tld two. after_gets _ _ s (
      after_fail_if _ _ _ s refl λ denied. after_gets _ _ s (
        after_fail_if _ _ _ s refl λ taken. after_fail_if _ _ _ s refl λ none_given.
          at_lift _ s refl λ _ valid. (
            refl,
            record {
              tld = tld;
              two_labels = two;
              permitted = ground arith;
              free = ground arith;
              records = valid;
              some_record = ground arith;
            },
          )))

  after_get_params :
      {A : Type 0} {Q : A → Chain Bank → Type 0} {E : Chain Bank → Type 0}
      (f : Params → Handler (Chain Bank) A) (s : Chain Bank)
      → E s
      → ((ps : Params) → s.keeper.params ≡ some ps → Ensures Q E (f ps s))
      → Ensures Q E ((get_params >>= f) s)
  unfolding get_params ◌>>=◌
  after_get_params f s = after_or_fail s.keeper.params store_not_found f s

  store_domain_effect :
      (ctx : Context) (msg : MsgCreateDomain) (s : Chain Bank)
      → Ensures
          (λ id s'.
            (id ≡ s.keeper.domain_seq)
            × (s'.keeper ≡ added (requested lower ctx msg id) s.keeper)
            × (s'.bank ≡ s.bank))
          (Same s)
          (store_domain p ctx msg s)
  unfolding store_domain next_domain_id set_domain set_domain_name ◌>>=◌
  store_domain_effect ctx msg s = succeeds _ _ (refl, refl, refl)

  -- A call from a chain whose keeper is that of `s`.
  created :
      (ctx : Context) (msg : MsgCreateDomain) (s t u v : Chain Bank) (id : ℕ)
      (creator owner : Address) (ps : Params)
      → address msg.creator ≡ some creator
      → address msg.owner ≡ some owner
      → s.keeper.params ≡ some ps
      → Same s t × Paid creator ps.domain_creation_fee s.bank t.bank
      → (u ≡ t) × IsAccepted msg t.keeper
      → (id ≡ u.keeper.domain_seq)
        × (v.keeper ≡ added (requested lower ctx msg id) u.keeper)
        × (v.bank ≡ u.bank)
      → Created ctx msg s id v
  created ctx msg s t u v id creator owner ps known valid found paid checked stored = record {
    creator = creator;
    creator_address = known;
    owner_address = ground arith;
    params = ps;
    params_found = found;
    paid = subst (Paid creator ps.domain_creation_fee s.bank) (cc) paid.1;
    accepted = subst (λ k. IsAccepted msg k) paid.0 checked.1;
    next_id = cc;
    written = cc;
  }

  -- CreateDomain succeeds only if both addresses decode, the parameters are set, the fee was taken
  -- from the creator and burned unless it is zero, the normalised name has two labels of which the
  -- last is a permitted TLD, the name is free, and there is at least one record and all records are
  -- valid; it then returns the next id and writes the requested domain, its index entry and the
  -- next sequence number, and nothing else in its stores. If it fails, its stores are as they were.
  pub create_domain_effect :
      (ctx : Context) (msg : MsgCreateDomain) (s : Chain Bank)
      → Ensures (Created ctx msg s) (Same s) (create_domain p ctx msg s)
  unfolding create_domain
  create_domain_effect ctx msg s = after_or_fail _ _ _ s refl λ creator known.
      after_or_fail _ _ _ s refl λ owner valid. after_get_params _ s refl λ ps found.
        after_step _ _ s (charge_fee_effect creator msg.creator ps.domain_creation_fee s)
          λ _ t paid.
            after_step _ _ t (weaken (check_domain_effect msg t) (λ _ u r. r) (λ u same. cc))
              λ _ u checked.
                weaken (store_domain_effect ctx msg u)
                  (λ id v stored.
                    created ctx msg s t u v id creator owner ps known valid found paid checked
                      stored)
                  (λ v same. cc)
