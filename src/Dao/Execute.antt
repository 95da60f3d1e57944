-- ===== src/Dao/Execute.antt =====
-- The execution of a proposal that passed (x/dao/keeper/end_blocker.go).
use dnsblockchain.Prelude.{ℕ, ◌&&◌, [], ◌∷◌, if◌then◌else◌}
use dnsblockchain.Prelude.Int.{is_positive}
use dnsblockchain.Sdk.{
  Platform, Address, Coin, Coins, Context, Handler, ok, err, ◌>>=◌, ◌>>◌, or_fail, modify,
  invalid_proposal_content, invalid_address,
}
use dnsblockchain.Store.{nat_key, text_key, pair_key, ◌==◌, insert}
use dnsblockchain.Dao.Types.{
  AddTld, RequestTokens, add_tld, request_tokens, Proposal, DaoParams, DaoKeeper,
}
use dnsblockchain.Dao.External.{Codec, Unpacked, broken, empty, unpacked, TldRegistry}
use dnsblockchain.Dao.Store.{DaoChain, module_name, on_bank, quietly, get_params}

-- The lot that a coin of the grant makes, if it is of the voting token and positive.
unfoldable pub grant_lot :
    DaoParams → Context → RequestTokens → ℕ → Address → Coin → DaoKeeper → DaoKeeper
grant_lot params ctx c id recipient coin k =
    if coin.denom == params.voting_token_denom && is_positive coin.amount
    then record k {
      voter_power_lots =
          insert (recipient, id)
            (record {
              voter_address = c.recipient_address;
              granted_by_proposal_id = id;
              initial_amount = coin.amount;
              grant_block_height = ctx.height;
            })
            k.voter_power_lots;
    }
    else k

unfoldable pub grant_lots :
    DaoParams → Context → RequestTokens → ℕ → Address → Coins → DaoKeeper → DaoKeeper
grant_lots params ctx c id recipient [] k = k
grant_lots params ctx c id recipient (coin ∷ coins) k =
    grant_lots params ctx c id recipient coins (grant_lot params ctx c id recipient coin k)

module _ (codec : Codec) (g : TldRegistry) (p : Platform) where
  open codec use {unpack_any}
  open g use {Registry, add_permitted_tld}
  open p use {address, Bank, mint_coins, burn_coins, send_to_account}

  unfoldable pub execute_add_tld : AddTld → Handler (DaoChain Registry Bank) (Unit {0})
  execute_add_tld c s =
      let (r, registry) = add_permitted_tld c.tld s.registry in
      (r, record s { registry = registry })

  -- The minted coins are sent, or burned if they cannot be sent.
  unfoldable pub send_or_burn : Address → Coins → Handler (DaoChain Registry Bank) (Unit {0})
  send_or_burn recipient coins s =
      let (r, bank) = send_to_account module_name recipient coins s.bank in
      elim r [
        | ok u ↦ (ok u, record s { bank = bank })
        | err e ↦ (err e, quietly (burn_coins module_name coins) (record s { bank = bank }))
      ]

  unfoldable pub execute_request_tokens :
      Context → RequestTokens → ℕ → Handler (DaoChain Registry Bank) (Unit {0})
  execute_request_tokens ctx c id = do
    params ← get_params
    recipient ← or_fail (address c.recipient_address) invalid_address
    on_bank (mint_coins module_name c.amount_requested)
    send_or_burn recipient c.amount_requested
    modify (λ s. record s {
      keeper = grant_lots params ctx c id recipient c.amount_requested s.keeper;
    })

  unfoldable pub execute_content :
      Context → ℕ → Unpacked → Handler (DaoChain Registry Bank) (Unit {0})
  execute_content ctx id broken s = (err invalid_proposal_content, s)
  execute_content ctx id empty s = (err invalid_proposal_content, s)
  execute_content ctx id (unpacked (add_tld c)) s = execute_add_tld c s
  execute_content ctx id (unpacked (request_tokens c)) s = execute_request_tokens ctx c id s

  unfoldable pub execute_proposal : Context → Proposal → Handler (DaoChain Registry Bank) (Unit {0})
  execute_proposal ctx proposal = execute_content ctx proposal.id (unpack_any proposal.content)
