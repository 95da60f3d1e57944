-- ===== src/Dns/Module.antt =====
-- The module x/dnsblockchain as the SDK calls it (x/dnsblockchain/module/module.go).
use dnsblockchain.Prelude.{ℕ, none, some}
use dnsblockchain.Sdk.{Platform, Handler, Result, err, pure, plain}
use dnsblockchain.Sdk.Json.{JsonCodec}
use dnsblockchain.Sdk.Panic.{Outcome, returns, must, must_then, ok_then}
use dnsblockchain.Dns.Types.{Keeper, Chain}
use dnsblockchain.Dns.Genesis.{
  GenesisState, default_dns_genesis, validate_genesis, init_genesis, export_genesis,
}

module _ {Raw : Type 0} (cdc : JsonCodec Raw GenesisState) where
  open cdc use {marshal_json, unmarshal_json}

  -- `DefaultGenesis`.
  unfoldable pub default_genesis_json : Outcome Raw
  default_genesis_json = must (marshal_json default_dns_genesis)

  -- `ValidateGenesis`.
  unfoldable pub validate_genesis_json : Platform → Raw → Result (Unit {0})
  validate_genesis_json p raw = elim (unmarshal_json raw) [
    | none ↦ err plain
    | some g ↦ validate_genesis p g
  ]

  -- `InitGenesis`.
  unfoldable pub init_genesis_json : (ℕ → ℕ) → Raw → Keeper → Outcome Keeper
  init_genesis_json lower raw k =
      must_then (unmarshal_json raw) (λ g. returns (init_genesis lower g k))

  -- `ExportGenesis`.
  unfoldable pub export_genesis_json : Keeper → Outcome Raw
  export_genesis_json k = ok_then (export_genesis k) (λ g. must (marshal_json g))

-- `BeginBlock` and `EndBlock`.
unfoldable pub begin_block : {B : Type 0} → Handler (Chain B) (Unit {0})
begin_block = pure tt

unfoldable pub end_block : {B : Type 0} → Handler (Chain B) (Unit {0})
end_block = pure tt
