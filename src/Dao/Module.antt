-- ===== src/Dao/Module.antt =====
-- The module x/dao as the SDK calls it (x/dao/module/module.go).
use dnsblockchain.Prelude.{Bool, none, some}
use dnsblockchain.Sdk.{Platform, Context, Handler, Result, err, plain}
use dnsblockchain.Sdk.Json.{JsonCodec}
use dnsblockchain.Sdk.Panic.{Outcome, returns, must, must_then, ok_then}
use dnsblockchain.Dao.Types.{DaoKeeper}
use dnsblockchain.Dao.External.{Codec, Decimals, TldRegistry}
use dnsblockchain.Dao.Store.{DaoChain}
use dnsblockchain.Dao.EndBlock.{end_blocker}
use dnsblockchain.Dao.Params.{
  DaoGenesis, default_genesis, validate_dao_genesis, init_dao_genesis, export_dao_genesis,
}

module _ {Raw : Type 0} (cdc : JsonCodec Raw DaoGenesis) where
  open cdc use {marshal_json, unmarshal_json}

  -- `DefaultGenesis`.
  unfoldable pub default_dao_json : Outcome Raw
  default_dao_json = must (marshal_json default_genesis)

  -- `ValidateGenesis`.
  unfoldable pub validate_dao_json : Platform → Raw → Result (Unit {0})
  validate_dao_json p raw = elim (unmarshal_json raw) [
    | none ↦ err plain
    | some g ↦ validate_dao_genesis p g
  ]

  -- `InitGenesis`.
  unfoldable pub init_dao_json : Platform → Raw → DaoKeeper → Outcome DaoKeeper
  init_dao_json p raw k = must_then (unmarshal_json raw) (λ g. returns (init_dao_genesis p g k))

  -- `ExportGenesis`.
  unfoldable pub export_dao_json : Bool → DaoKeeper → Outcome Raw
  export_dao_json bare k = ok_then (export_dao_genesis bare k) (λ g. must (marshal_json g))

-- `EndBlock`.
unfoldable pub dao_end_block :
    (codec : Codec) (d : Decimals) (g : TldRegistry) (p : Platform)
    → Context
    → Handler (DaoChain g.Registry p.Bank) (Unit {0})
dao_end_block codec d g p ctx = end_blocker codec d g p ctx
