-- ===== src/Dao/Store.antt =====
-- The chain as a handler of x/dao sees it, and the keeper's methods on its stores
-- (x/dao/keeper/keeper.go).
use dnsblockchain.Prelude.{ℕ, List, [], ◌∷◌, ◌++◌, map}
use dnsblockchain.Go.Text.{Text, codes}
use dnsblockchain.Go.Word.{add64}
use dnsblockchain.Sdk.{Handler, Result, ok, modify, or_fail, store_not_found}
use dnsblockchain.Store.{nat_key, text_key, pair_key, insert, remove}
use dnsblockchain.Dao.Types.{Proposal, DaoParams, DaoKeeper, DaoEvent}

-- The stores of x/dao, those of the TLD registry and of the bank, and the events of the block.
pub record DaoChain (Registry Bank : Type 0) : Type 0 where
  pub keeper : DaoKeeper
  pub registry : Registry
  pub bank : Bank
  pub events : List DaoEvent

-- `types.ModuleName`.
abbrev pub module_name : Text
module_name = codes "dao"

module _ {R B : Type 0} where
  abbrev pub emit : DaoEvent → Handler (DaoChain R B) (Unit {0})
  emit e = modify (λ s. record s { events = s.events ++ e ∷ [] })

  -- A call of the bank module; `quietly` logs an error and goes on.
  abbrev pub on_bank : (B → Result (Unit {0}) × B) → Handler (DaoChain R B) (Unit {0})
  on_bank call s = let (r, b) = call s.bank in (r, record s { bank = b })

  abbrev pub quietly : (B → Result (Unit {0}) × B) → DaoChain R B → DaoChain R B
  quietly call s = record s { bank = (call s.bank).1 }

  -- `Params.Get`.
  unfoldable pub get_params : Handler (DaoChain R B) DaoParams
  get_params s = or_fail s.keeper.params store_not_found s

  -- `ProposalSeq.Next`.
  unfoldable pub get_next_proposal_id : Handler (DaoChain R B) ℕ
  get_next_proposal_id s = (
    ok s.keeper.proposal_seq,
    record s { keeper = record s.keeper { proposal_seq = add64 s.keeper.proposal_seq 1 } },
  )

  unfoldable pub set_proposal : Proposal → DaoChain R B → DaoChain R B
  set_proposal p s = record s {
    keeper = record s.keeper { proposals = insert p.id p s.keeper.proposals };
  }

-- The index of active proposals, which no handler uses.
unfoldable pub add_to_active_proposal_queue : ℕ → DaoKeeper → DaoKeeper
add_to_active_proposal_queue id k = record k {
  active_proposal_queue = insert id tt k.active_proposal_queue;
}

unfoldable pub remove_from_active_proposal_queue : ℕ → DaoKeeper → DaoKeeper
remove_from_active_proposal_queue id k = record k {
  active_proposal_queue = remove id k.active_proposal_queue;
}

abbrev pub get_active_proposals : DaoKeeper → List ℕ
get_active_proposals k = map (λ e. e.0) k.active_proposal_queue
