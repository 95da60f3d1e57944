-- ===== src/Dao/Opening/Exact.antt =====
-- `SubmitProposal` (x/dao/keeper/msg_server.go) against a description of its own: what is checked,
-- what is paid and what is stored.
use dnsblockchain.Prelude.{
  ℕ, ◌+◌, ◌%◌, ◌^◌, ◌≡◌, ◌≢◌, sym, ap, ◌∙◌, false, some, [], ◌∷◌, arith, All, any,
}
use dnsblockchain.Prelude.Int.{pos}
use dnsblockchain.Go.Text.Normal.{normal_name}
use dnsblockchain.Sdk.{Platform, Address, Coins, Context, ok, Ensures, weaken}
use dnsblockchain.Store.{Map, nat_key, text_key, insert}
use dnsblockchain.Dao.Types.{
  Any, Content, add_tld, request_tokens, Proposal, DaoParams, DaoKeeper, MsgSubmitProposal,
  voting_period, is_voting,
}
use dnsblockchain.Dao.External.{Codec, Unpacked, broken, empty, unpacked, TldRegistry}
use dnsblockchain.Dao.Content.{validate_content}
use dnsblockchain.Dao.Store.{DaoChain}
use dnsblockchain.Dao.Submit.{
  content_of, is_broken, marshalled, is_duplicate, has_duplicate, required_deposit, new_proposal,
  submit_proposal,
}
use dnsblockchain.Dao.Opening.{Deposited, SameStores, submit_proposal_effect}

content_of-unpacked : (u : Unpacked) (c : Content) → content_of u ≡ some c → u ≡ unpacked c
content_of-unpacked broken c e = absurd (cc e)
content_of-unpacked empty c e = absurd (cc e)
content_of-unpacked (unpacked b) c e = cc e

module _ (codec : Codec) (g : TldRegistry) (p : Platform) where
  open codec use {unpack_any, marshal_interface}
  open g use {Registry, is_tld_permitted, is_tld_globally_reserved}
  open p use {lower, address, Bank, supply}

  -- The proposal, if it is in its voting period and its content unpacks, has another type or other
  -- bytes.
  abbrev pub DiffersFrom : Any → Content → Proposal → Type 0
  DiffersFrom packed content old =
      (c : Content)
      → old.status ≡ voting_period
      → unpack_any old.content ≡ unpacked c
      → packed.type_url ≡ old.content.type_url
      → marshal_interface content ≢ marshal_interface c

  -- The price of a TLD, that must be neither reserved nor permitted, or that of another proposal.
  abbrev pub Costs : Content → DaoParams → Registry → Coins → Type 0
  Costs (add_tld c) params registry deposit =
      let tld = normal_name lower c.tld in
      (is_tld_globally_reserved tld ≡ false)
      × (is_tld_permitted tld registry ≡ false)
      × (deposit ≡ params.add_tld_proposal_cost)
  Costs (request_tokens c) params registry deposit = deposit ≡ params.proposal_submission_deposit

  -- The keeper with the proposal that the message asks for.
  abbrev pub with_proposal :
      Context → MsgSubmitProposal → Any → DaoParams → Bank → ℕ → DaoKeeper → DaoKeeper
  with_proposal ctx msg packed params bank id k = record k {
    proposal_seq = (id + 1) % 2 ^ 64;
    proposals =
        insert id
          (record {
            id = id;
            proposer = msg.proposer;
            title = msg.title;
            description = msg.description;
            content = packed;
            status = voting_period;
            submit_block = ctx.height;
            voting_start_block = ctx.height;
            voting_end_block = (ctx.height + params.voting_period_blocks) % 2 ^ 64;
            yes_votes = pos 0;
            no_votes = pos 0;
            abstain_votes = pos 0;
            total_voting_power_at_snapshot = supply bank params.voting_token_denom;
          })
          k.proposals;
  }

  pub record Opens (ctx : Context) (msg : MsgSubmitProposal) (s : DaoChain Registry Bank) (id : ℕ)
      (s' : DaoChain Registry Bank) : Type 0 where
    pub proposer : Address
    pub proposer_address : address msg.proposer ≡ some proposer
    pub packed : Any
    pub packed_content : msg.content ≡ some packed
    pub content : Content
    pub unpacked_content : unpack_any packed ≡ unpacked content
    pub valid : validate_content p content ≡ ok tt
    pub unique : All (λ e. DiffersFrom packed content e.1) s.keeper.proposals
    pub params : DaoParams
    pub params_found : s.keeper.params ≡ some params
    pub deposit : Coins
    pub deposit_due : Costs content params s.registry deposit
    pub paid : Deposited codec g p proposer deposit msg.initial_deposit s.bank s'.bank
    pub next_id : id ≡ s.keeper.proposal_seq
    pub written : s'.keeper ≡ with_proposal ctx msg packed params s'.bank id s.keeper
    pub registry : s'.registry ≡ s.registry

  is_duplicate-DiffersFrom :
      (packed : Any) (content : Content) (old : Proposal)
      → is_duplicate codec g p packed content old ≡ false
      → DiffersFrom packed content old
  unfolding is_duplicate
  is_duplicate-DiffersFrom packed content old h c voting e types bytes = absurd (
      ground (
        arith,
        h,
        ap is_voting voting,
        ap (is_broken codec g p) e,
        (text_key.beq_iff packed.type_url old.content.type_url).1 types,
        (text_key.beq_iff (marshal_interface content)
              (marshalled codec g p (unpack_any old.content))).1
            (bytes ∙ sym (ap (marshalled codec g p) e)),
      ))

  has_duplicate-DiffersFrom :
      (packed : Any) (content : Content) (m : Map ℕ Proposal)
      → any (λ e. is_duplicate codec g p packed content e.1) m ≡ false
      → All (λ e. DiffersFrom packed content e.1) m
  has_duplicate-DiffersFrom packed content [] h = tt
  has_duplicate-DiffersFrom packed content ((i, old) ∷ m) h = (
    is_duplicate-DiffersFrom packed content old (ground (arith, h)),
    has_duplicate-DiffersFrom packed content m (ground (arith, h)),
  )

  required_deposit-Costs :
      (content : Content) (params : DaoParams) (registry : Registry) (deposit : Coins)
      → required_deposit codec g p content params registry ≡ ok deposit
      → Costs content params registry deposit
  unfolding required_deposit
  required_deposit-Costs (add_tld c) params registry deposit h = ground (arith, h)
  required_deposit-Costs (request_tokens c) params registry deposit h = cc

  -- SubmitProposal succeeds only if the proposer's address decodes, the content is there, unpacks
  -- and validates, every stored proposal in its voting period whose content unpacks has another
  -- type or other bytes, the parameters are set, a proposed TLD is in its normal form neither
  -- reserved nor permitted, and the price was taken from the proposer, which is the cost of a TLD
  -- for a TLD and the submission deposit for other contents, or this price is zero and none is
  -- offered. It then returns the next id, advances the sequence by one modulo 2^64, and stores
  -- under the id a proposal as the message asks, in its voting period, open from this block for the
  -- voting period modulo 2^64, with no votes counted and the supply of the voting denomination
  -- after the payment as the snapshot; it changes nothing else of the two keepers. If it fails,
  -- both keepers are as they were.
  pub submit_proposal-Opens :
      (ctx : Context) (msg : MsgSubmitProposal) (s : DaoChain Registry Bank)
      → Ensures (Opens ctx msg s) (SameStores codec g p s) (submit_proposal codec g p ctx msg s)
  unfolding new_proposal has_duplicate
  submit_proposal-Opens ctx msg s =
      weaken (submit_proposal_effect codec g p ctx msg s)
        (λ id t r. record {
          proposer = r.proposer;
          proposer_address = r.proposer_address;
          packed = r.packed;
          packed_content = r.packed_content;
          content = r.content;
          unpacked_content = content_of-unpacked (unpack_any r.packed) r.content r.unpacked_content;
          valid = r.valid;
          unique = has_duplicate-DiffersFrom r.packed r.content s.keeper.proposals r.unique;
          params = r.params;
          params_found = r.params_found;
          deposit = r.deposit;
          deposit_due =
              required_deposit-Costs r.content r.params s.registry r.deposit r.deposit_due;
          paid = r.paid;
          next_id = r.next_id;
          written = r.written;
          registry = r.registry;
        })
        (λ t same. same)
