-- ===== src/Lib.antt =====
-- The modules x/dnsblockchain and x/dao of dnsblockchain, a Cosmos SDK chain that registers domain
-- names under top-level domains which its DAO permits.
--
-- PARTS. x/dnsblockchain keeps the domains by id, an index of their names, the permitted TLDs and
-- the parameters; messages create, update, delete, renew and transfer domains. x/dao keeps
-- proposals, votes and lots of voting power; messages submit a proposal and vote, and the end of
-- each block tallies the proposals whose voting period is over, executes those that passed and
-- settles their deposits. The two meet in AddPermittedTLD, which the execution of an AddTld
-- proposal calls.
--
-- FILES.
-- Prelude: shared names, Boolean tests, lists and integers over the native numbers.
-- Go: what the handlers use of Go and its library: uint64 arithmetic and its conversion to int64
-- (Word), texts as lists of code points with Trim, TrimSpace, Split and ToLower (Text), net.ParseIP
-- (Net), AddDate(1, 0, 0) (Time), Itoa and Split at a comma (Text/Digits).
-- Store: the collections Map, KeySet and Walk with a prefix, as lists of entries in key order, and
-- their laws.
-- Sdk: errors and results, handlers as functions from a state to a result and a state (Calls),
-- rules for postconditions of handlers (Rules), and the platform (External): address codec, coins,
-- bank and Unicode case mapping, which are a parameter everywhere. Paging has the paging requests,
-- Json the codec of genesis states and Panic the calls that may panic.
-- Dns: x/dnsblockchain. Types holds its data (x/dnsblockchain/types/*.pb.go, keeper/keeper.go); Tld
-- the reserved names and ExtractTLD (types/reserved_tlds.go, types/utils.go); Permitted the methods
-- on permitted TLDs (keeper/keeper.go); Msg the handlers (keeper/msg_server_domain.go,
-- keeper/msg_update_params.go). Basic ValidateBasic (types/messages_domain.go); Query the queries
-- (keeper/query_domain.go, keeper/query_params.go, keeper/query_permitted_tlds.go); Genesis the
-- genesis state (types/genesis.go, keeper/genesis.go); Module the functions that the SDK calls
-- (module/module.go). Registry is the abstract view, a map from names to domains with the four
-- things that a signer can do to it; its child Refines relates the handlers to it. Tlds, Effects,
-- Index (whose child Steps is the step relation of the module) and the children of Basic, Query and
-- Genesis hold proofs.
-- Dao: x/dao. Types holds its data (x/dao/types/*.pb.go, keeper/keeper.go); External the codec, the
-- decimals of cosmossdk.io/math and the TLD registry, which are parameters; Content the validation
-- of proposal contents (types/proposal_content.go); Power CalculateVoterPower and Store the
-- accessors (keeper/keeper.go); Submit and Vote the handlers (keeper/msg_server.go); Tally, Execute
-- and EndBlock the end of a block (keeper/end_blocker.go); Page the paging in memory and Query the
-- queries (keeper/query_*.go); Params the parameters and the genesis state (types/params.go,
-- types/genesis.go, keeper/genesis.go). Module the functions that the SDK calls (module/module.go).
-- Ballot, Opening, Casting, Agreement, Frame, Closing, Loop, Reach, History, Distinct, Counts,
-- Decay, Frozen and Genesis and their children, and the children of Page and Query hold proofs.
-- Samples and Tests hold runs and instances.
-- App: the chain with both modules, x/dnsblockchain as the registry of x/dao. World is the state of
-- both, AppStep a message to one of them or the end of a block, AppReach a run; AddPermittedTLD has
-- no message, so that only the execution of a proposal reaches it. Execution, Voted and Block say
-- what the settlement of the proposals does to the stores of x/dnsblockchain, Steps and Housed what
-- each step keeps, Runs, Registered, Delivery and Restart what runs come to. Export is
-- app/export.go, over the keepers of the SDK (Modules); its children Jailing and Refusals hold
-- proofs.
-- Cmd: the commands that set up test networks. Multinode is what
-- cmd/dnsblockchaind/cmd/testnet_multi_node.go computes of its arguments, with proofs in Ports and
-- Stakes; Testnet is cmd/dnsblockchaind/cmd/testnet.go over the keepers of the SDK (Modules), with
-- proofs in Funding.
--
-- CONVENTIONS. A handler returns the state it leaves also when it fails, since the SDK, not the
-- module, drops the writes of a failed transaction. Errors of the store other than "not found" do
-- not occur; messages of errors and logs are left out. Block height and time are natural numbers,
-- and the height is taken to fit int64. Sums on uint64 wrap. An amount (math.Int) is an integer
-- without a bound: that a sum beyond 256 bits panics, in the tally of the votes for example, is not
-- modelled. A LegacyDec is an integer in units of 10^-18; what is relied on of its operations is
-- IsDecimals, with the sizes under which they do not overflow. Every function is structurally
-- recursive, so no fuel is needed. The default limit of a page, CollectionPaginate and whether Get
-- returns the error ErrNotFound itself, which some callers compare with ==, are arguments of the
-- queries and of the export that use them. An int of Go has 64 bits.
--
-- NOT MODELLED. The wiring of the application and the registration of the modules, which only
-- configure the SDK, and the record that ExportAppStateAndValidators returns beside an error; the
-- files, keys and transactions that the command for a network of several nodes writes; the rest of
-- the command line; the simulation, whose operations are stubs; the generated marshalling and
-- gateways; the constructors of messages, which only fill records.
pub mod Prelude
pub mod Go
pub mod Store
pub mod Sdk
pub mod Dns
pub mod Samples
pub mod Dao
pub mod App
pub mod Cmd
