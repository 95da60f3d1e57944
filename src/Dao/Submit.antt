-- ===== src/Dao/Submit.antt =====
-- `SubmitProposal` (x/dao/keeper/msg_server.go).
use dnsblockchain.Prelude.{
  ℕ, Bool, true, false, not, ◌&&◌, Option, none, some, List, [], any, if◌then◌else◌,
}
use dnsblockchain.Prelude.Int.{pos}
use dnsblockchain.Go.Text.{Text, codes}
use dnsblockchain.Go.Text.Normal.{normal_name}
use dnsblockchain.Go.Word.{add64}
use dnsblockchain.Sdk.{
  Platform, Address, Coins, Context, Handler, Result, ok, err, ◌>>=◌, ◌>>◌, pure, gets, lift,
  or_fail, fail_if, modify, invalid_address, invalid_proposal_content, duplicate_active_proposal,
  tld_reserved, invalid_request,
}
use dnsblockchain.Store.{text_key, ◌==◌}
use dnsblockchain.Dao.Types.{
  Any, Content, add_tld, request_tokens, Proposal, DaoParams, MsgSubmitProposal, DaoEvent,
  voting_period, is_voting,
}
use dnsblockchain.Dao.External.{Codec, Unpacked, broken, empty, unpacked, TldRegistry}
use dnsblockchain.Dao.Content.{validate_content}
use dnsblockchain.Dao.Store.{
  DaoChain, module_name, on_bank, emit, get_params, get_next_proposal_id, set_proposal,
}

-- `ProposalType`; the handler writes "AddTld" once more for a TLD.
abbrev pub proposal_type : Content → Text
proposal_type (add_tld c) = codes "AddTld"
proposal_type (request_tokens c) = codes "RequestTokens"

-- `UnpackAny` followed by the test for a nil interface.
abbrev pub content_of : Unpacked → Option Content
content_of broken = none
content_of empty = none
content_of (unpacked c) = some c

module _ (codec : Codec) (g : TldRegistry) (p : Platform) where
  open codec use {unpack_any, marshal_interface}
  open g use {Registry, is_tld_permitted, is_tld_globally_reserved}
  open p use {lower, address, coins_zero, Bank, send_to_module, supply}

  -- The bytes of an unpacked content; a nil interface does not marshal.
  abbrev pub marshalled : Unpacked → List ℕ
  marshalled broken = []
  marshalled empty = []
  marshalled (unpacked c) = marshal_interface c

  abbrev pub is_broken : Unpacked → Bool
  is_broken broken = true
  is_broken empty = false
  is_broken (unpacked c) = false

  -- A proposal in its voting period with the same type and the same content.
  unfoldable pub is_duplicate : Any → Content → Proposal → Bool
  is_duplicate packed content old =
      is_voting old.status
      && not (is_broken (unpack_any old.content))
      && packed.type_url == old.content.type_url
      && marshal_interface content == marshalled (unpack_any old.content)

  unfoldable pub has_duplicate : Any → Content → DaoChain Registry Bank → Bool
  has_duplicate packed content s = any (λ e. is_duplicate packed content e.1) s.keeper.proposals

  -- What the proposer pays: a TLD must be neither reserved nor permitted.
  unfoldable pub required_deposit : Content → DaoParams → Registry → Result Coins
  required_deposit (add_tld c) params registry =
      let tld = normal_name lower c.tld in
      if is_tld_globally_reserved tld
      then err tld_reserved
      else if is_tld_permitted tld registry
      then err invalid_proposal_content
      else ok params.add_tld_proposal_cost
  required_deposit (request_tokens c) params registry = ok params.proposal_submission_deposit

  unfoldable pub pay_deposit : Address → Coins → Coins → Handler (DaoChain Registry Bank) (Unit {0})
  pay_deposit proposer deposit initial =
      if not (coins_zero deposit)
      then on_bank (send_to_module proposer module_name deposit)
      else fail_if (not (coins_zero initial)) invalid_request

  -- The proposal that is stored: it opens for votes at once, with the supply as the snapshot.
  unfoldable pub new_proposal : Context → MsgSubmitProposal → Any → DaoParams → ℕ → Bank → Proposal
  new_proposal ctx msg packed params id bank = record {
    id = id;
    proposer = msg.proposer;
    title = msg.title;
    description = msg.description;
    content = packed;
    status = voting_period;
    submit_block = ctx.height;
    voting_start_block = ctx.height;
    voting_end_block = add64 ctx.height params.voting_period_blocks;
    yes_votes = pos 0;
    no_votes = pos 0;
    abstain_votes = pos 0;
    total_voting_power_at_snapshot = supply bank params.voting_token_denom;
  }

  -- The id, the write and the event.
  unfoldable pub store_proposal :
      Context → MsgSubmitProposal → Any → Content → DaoParams → Handler (DaoChain Registry Bank) ℕ
  store_proposal ctx msg packed content params = do
    id ← get_next_proposal_id
    s ← gets (λ s. s)
    modify (set_proposal (new_proposal ctx msg packed params id s.bank))
    emit (DaoEvent.submit_proposal id (proposal_type content) msg.proposer)
    pure id

  unfoldable pub submit_proposal : Context → MsgSubmitProposal → Handler (DaoChain Registry Bank) ℕ
  submit_proposal ctx msg = do
    proposer ← or_fail (address msg.proposer) invalid_address
    packed ← or_fail msg.content invalid_proposal_content
    content ← or_fail (content_of (unpack_any packed)) invalid_proposal_content
    lift (validate_content p content)
    s ← gets (λ s. s)
    fail_if (has_duplicate packed content s) duplicate_active_proposal
    params ← get_params
    deposit ← lift (required_deposit content params s.registry)
    pay_deposit proposer deposit msg.initial_deposit
    store_proposal ctx msg packed content params
