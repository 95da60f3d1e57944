-- ===== src/Cmd/Multinode.antt =====
-- The command that writes the files of a network of several nodes
-- (cmd/dnsblockchaind/cmd/testnet_multi_node.go): its arguments, and what it computes of them for
-- each node. The files and the keys are left out.
pub mod Ports
pub mod Stakes
use dnsblockchain.Prelude.{
  ℕ, zero, suc, ◌+◌, ◌*◌, Bool, Option, none, some, List, [], ◌∷◌, ◌++◌, map, if◌then◌else◌,
}
use dnsblockchain.Prelude.Int.{ℤ, pos, negsuc, ◌-ℤ◌}
use dnsblockchain.Go.Text.{Text, codes, is_empty}
use dnsblockchain.Go.Text.Digits.{split_commas, itoa}
use dnsblockchain.Sdk.{Coin}
use dnsblockchain.Sdk.Panic.{Outcome, returns, panics, must_then, and_go}
use dnsblockchain.Store.{Map, nat_key, lookup, insert}

-- `initArgs`, as far as it is used here.
pub record InitArgs : Type 0 where
  pub node_dir_prefix : Text
  pub num_validators : ℕ
  pub starting_ip_address : Text
  pub validators_stakes_amount : Map ℕ Coin
  pub ports : Map ℕ Text

-- The ports of the node `i`.
abbrev pub rpc_port : ℕ → ℤ
rpc_port i = pos 26657 -ℤ pos (3 * i)

abbrev pub p2p_port : ℕ → ℤ
p2p_port i = pos 26656 -ℤ pos (3 * i)

abbrev pub proxy_port : ℕ → ℤ
proxy_port i = pos 26658 -ℤ pos (3 * i)

abbrev pub prometheus_port : ℕ → ℤ
prometheus_port i = pos (26660 + i)

abbrev pub grpc_port : ℕ → ℤ
grpc_port i = pos 9090 -ℤ pos (2 * i)

abbrev pub api_port : ℕ → ℤ
api_port i = pos 1317 -ℤ pos i

-- `args.ports[top] = ...`, from `top` on.
unfoldable pub number_from : {A : Type 0} → ℕ → List A → Map ℕ A → Map ℕ A
number_from top [] m = m
number_from top (a ∷ rest) m = number_from (suc top) rest (insert top a m)

-- The ports that are used when none are listed: those of the nodes from `i` on.
unfoldable pub default_ports : ℕ → ℕ → List Text
default_ports i zero = []
default_ports i (suc n) = itoa (rpc_port i) ∷ default_ports (suc i) n

unfoldable pub list_ports : ℕ → Text → Map ℕ Text
list_ports num_validators s =
    if is_empty s
    then number_from 0 (default_ports 0 num_validators) []
    else number_from 0 (split_commas s) []

-- `math.NewIntFromString` and `sdk.NewCoin` with the bond denomination, which panics on a negative
-- amount, are arguments.
module _ (int_of_text : Text → Option ℤ) (new_coin : ℤ → Outcome Coin) where
  -- The stakes: an amount that is no integer is passed over.
  unfoldable pub read_stakes : ℕ → List Text → Map ℕ Coin → Outcome (Map ℕ Coin)
  read_stakes top [] m = returns m
  read_stakes top (amount ∷ rest) m = elim (int_of_text amount) [
    | none ↦ read_stakes top rest m
    | some a ↦ and_go (new_coin a) (λ coin. read_stakes (suc top) rest (insert top coin m))
  ]

  unfoldable pub list_stakes : Text → Outcome (Map ℕ Coin)
  list_stakes s = read_stakes 0 (split_commas s) []

-- The stake of a node; the one of a node without one of its own is an argument.
abbrev pub stake_of : Coin → ℕ → Map ℕ Coin → Coin
stake_of default_stake i m = elim (lookup i m) [ none ↦ default_stake | some coin ↦ coin ]

-- What the node `i` is told, and tells the others.
abbrev pub node_dir_name : InitArgs → ℕ → Text
node_dir_name args i = args.node_dir_prefix ++ itoa (pos i)

abbrev pub memo : InitArgs → Text → ℕ → Text
memo args node_id i =
    node_id ++ codes "@" ++ args.starting_ip_address ++ codes ":" ++ itoa (p2p_port i)

-- A missing entry of a map of Go is the empty text.
abbrev pub port_text : InitArgs → ℕ → Text
port_text args i = elim (lookup i args.ports) [ none ↦ [] | some t ↦ t ]

pub record NodeConfig : Type 0 where
  pub moniker : Text
  pub rpc_listen_address : Text
  pub p2p_listen_address : Text
  pub persistent_peers : Text
  pub proxy_app : Text
  pub prometheus_listen_addr : Text
  pub grpc_address : Text
  pub api_address : Text

-- The peers of all nodes, from the node `i` on.
unfoldable pub join_peers : InitArgs → ℕ → List Text → Text → Text
join_peers args i [] peers = peers
join_peers args i (node_id ∷ rest) peers =
    join_peers args (suc i) rest
      (if is_empty peers then memo args node_id i else peers ++ codes "," ++ memo args node_id i)

unfoldable pub node_config : InitArgs → Text → ℕ → NodeConfig
node_config args peers i = record {
  moniker = node_dir_name args i;
  rpc_listen_address = codes "tcp://127.0.0.1:" ++ port_text args i;
  p2p_listen_address = codes "tcp://0.0.0.0:" ++ itoa (p2p_port i);
  persistent_peers = peers;
  proxy_app = codes "tcp://127.0.0.1:" ++ itoa (proxy_port i);
  prometheus_listen_addr = codes ":" ++ itoa (prometheus_port i);
  grpc_address = args.starting_ip_address ++ codes ":" ++ itoa (grpc_port i);
  api_address = codes "tcp://localhost:" ++ itoa (api_port i);
}
