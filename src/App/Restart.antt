-- ===== src/App/Restart.antt =====
-- A chain that is exported and started again: the genesis of both modules
-- (x/dnsblockchain/module/module.go, x/dao/module/module.go).
use dnsblockchain.Prelude.{ℕ, Bool, ◌+◌, ◌<◌, ◌≡◌, refl, ap, ◌∙◌, none, some, []}
use dnsblockchain.Store.{KeySet}
use dnsblockchain.Go.Text.{Text, IsLowering}
use dnsblockchain.Sdk.{Platform, ok}
use dnsblockchain.Sdk.Json.{JsonCodec, IsLossless}
use dnsblockchain.Sdk.Panic.{returns, must, must_then, ok_then}
use dnsblockchain.Dns.Types.{Params, Keeper}
use dnsblockchain.Dns.Genesis.{
  GenesisState, default_dns_genesis, init_genesis, export_genesis, no_stores,
}
use dnsblockchain.Dns.Genesis.Restore.{exported, init_genesis-export}
use dnsblockchain.Dns.Module.{init_genesis_json, export_genesis_json}
use dnsblockchain.Dao.{DaoParams, DaoKeeper, Codec, Decimals}
use dnsblockchain.Dao.Params.{
  DaoGenesis, validate_dao_params, params_to_set, init_dao_genesis, export_dao_genesis,
}
use dnsblockchain.Dao.Module.{init_dao_json, export_dao_json}
use dnsblockchain.Go.Word.{u64_mod}
use dnsblockchain.App.Registered.{new_chain-reaches}
use dnsblockchain.App.{World, AppReach}
use dnsblockchain.App.Runs.{IsCoherent}

-- The stores of x/dao on a new chain.
abbrev pub no_dao_stores : DaoKeeper
no_dao_stores = record {
  params = none;
  proposal_seq = 0;
  proposals = [];
  votes = [];
  active_proposal_queue = [];
  voter_power_lots = [];
}

module _ {Raw : Type 0} (p : Platform) where
  open p use {lower, Bank}

  -- A state that is exported, written, read and imported.
  dns_restarts :
      (cdc : JsonCodec Raw GenesisState) (g : GenesisState) (k k' : Keeper)
      → IsLossless cdc
      → export_genesis k ≡ ok g
      → init_genesis lower g no_stores ≡ k'
      → (raw : Raw) × (export_genesis_json cdc k ≡ returns raw)
        × (init_genesis_json cdc lower raw no_stores ≡ returns k')
  unfolding export_genesis_json init_genesis_json
  dns_restarts cdc g k k' law out back =
      let (raw, written, read) = law g in
      (
        raw,
        ap (λ r. ok_then r (λ x. must (cdc.marshal_json x))) out ∙ ap must written,
        ap (λ o. must_then o (λ x. returns (init_genesis lower x no_stores))) read
            ∙ ap returns back,
      )

  dao_restarts :
      (cdc : JsonCodec Raw DaoGenesis) (bare : Bool) (g : DaoGenesis) (k k' : DaoKeeper)
      → IsLossless cdc
      → export_dao_genesis bare k ≡ ok g
      → init_dao_genesis p g no_dao_stores ≡ k'
      → (raw : Raw) × (export_dao_json cdc bare k ≡ returns raw)
        × (init_dao_json cdc p raw no_dao_stores ≡ returns k')
  unfolding export_dao_json init_dao_json
  dao_restarts cdc bare g k k' law out back =
      let (raw, written, read) = law g in
      (
        raw,
        ap (λ r. ok_then r (λ x. must (cdc.marshal_json x))) out ∙ ap must written,
        ap (λ o. must_then o (λ x. returns (init_dao_genesis p x no_dao_stores))) read
            ∙ ap returns back,
      )

export_dao-found :
    (bare : Bool) (params : DaoParams) (k : DaoKeeper)
    → k.params ≡ some params
    → export_dao_genesis bare k ≡ ok (record { params = params })
unfolding export_dao_genesis
export_dao-found bare params k e = rw e refl

module _ (p : Platform) where
  init_dao-valid :
      (params : DaoParams)
      → validate_dao_params p params ≡ ok tt
      → init_dao_genesis p (record { params = params }) no_dao_stores
        ≡ record no_dao_stores { params = some params }
  unfolding init_dao_genesis
  init_dao-valid params v =
      ap (λ r. record no_dao_stores { params = some (params_to_set p params r) }) v

module _ {Raw : Type 0} (codec : Codec) (d : Decimals) (p : Platform) (l : IsLowering p.lower) where
  open p use {lower, Bank}

  -- What an export and an import make of the stores of both modules: those of x/dnsblockchain come
  -- back; of x/dao only the parameters do.
  pub record Restarts (dns : JsonCodec Raw GenesisState) (dao : JsonCodec Raw DaoGenesis)
      (bare : Bool) (params : DaoParams) (w : World Bank) : Type 0 where
    pub dns_stores :
        (raw : Raw) × (export_genesis_json dns w.dao.registry ≡ returns raw)
        × (init_genesis_json dns lower raw no_stores ≡ returns w.dao.registry)
    pub dao_stores :
        (raw : Raw) × (export_dao_json dao bare w.dao.keeper ≡ returns raw)
        × (init_dao_json dao p raw no_dao_stores
            ≡ returns (record no_dao_stores { params = some params }))

  IsCoherent-Restarts :
      (dns : JsonCodec Raw GenesisState) (dao : JsonCodec Raw DaoGenesis) (bare : Bool)
      (dns_params : Params) (params : DaoParams) {first : KeySet Text} (w : World Bank)
      → IsLossless dns
      → IsLossless dao
      → IsCoherent codec d p l params first w
      → w.dao.registry.params ≡ some dns_params
      → validate_dao_params p params ≡ ok tt
      → Restarts dns dao bare params w
  IsCoherent-Restarts dns dao bare dns_params params w dns_law dao_law v set valid =
      let back = init_genesis-export lower dns_params w.dao.registry v.sound set in
      record {
        dns_stores =
            dns_restarts p dns (exported dns_params w.dao.registry) w.dao.registry w.dao.registry
              dns_law back.0 back.1;
        dao_stores =
            dao_restarts p dao bare (record { params = params }) w.dao.keeper _ dao_law
              (export_dao-found bare params w.dao.keeper v.parameters)
              (init_dao-valid p params valid);
      }

  -- On a chain whose x/dnsblockchain starts from the default genesis state and whose x/dao starts
  -- with parameters that validate and without proposals, after every sequence of messages and ends
  -- of blocks that exhausts neither sequence of ids and leaves the parameters of x/dnsblockchain
  -- set, ExportGenesis of both modules returns, and InitGenesis of the JSON on a new chain rebuilds
  -- the stores of x/dnsblockchain as they were, and of the stores of x/dao the parameters alone: no
  -- proposal, vote or lot comes back. The codec writes every genesis state and reads what it wrote;
  -- the case mapping keeps dots and spaces apart from letters and is idempotent.
  pub AppReach-Restarts :
      (dns : JsonCodec Raw GenesisState) (dao : JsonCodec Raw DaoGenesis) (bare : Bool)
      (dns_params : Params) (params : DaoParams) (s : World Bank) {n : ℕ} {w : World Bank}
      → IsLossless dns
      → IsLossless dao
      → s.dao.registry ≡ init_genesis lower default_dns_genesis no_stores
      → s.dao.keeper.params ≡ some params
      → s.dao.keeper.proposals ≡ []
      → AppReach codec d p s n w
      → s.dao.keeper.proposal_seq + n < u64_mod
      → w.dao.registry.params ≡ some dns_params
      → validate_dao_params p params ≡ ok tt
      → Restarts dns dao bare params w
  AppReach-Restarts dns dao bare dns_params params s {n} {w} dns_law dao_law fresh set none_yet r
        room found valid =
      IsCoherent-Restarts dns dao bare dns_params params w dns_law dao_law
        (new_chain-reaches codec d p l params s fresh set none_yet r room) found valid
