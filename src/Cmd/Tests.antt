-- ===== src/Cmd/Tests.antt =====
-- Runs of what the commands compute (cmd/dnsblockchaind/cmd), and the theorems at concrete inputs.
use dnsblockchain.Prelude.{ℕ, ◌≡◌, refl, Option, none, some, [], ◌∷◌, arith, if◌then◌else◌}
use dnsblockchain.Prelude.Int.{ℤ, pos, negsuc, ◌-ℤ◌}
use dnsblockchain.Go.Text.{Text, codes, is_empty}
use dnsblockchain.Go.Text.Digits.{split_commas, itoa, digits_from}
use dnsblockchain.Sdk.{Coin}
use dnsblockchain.Sdk.Panic.{Outcome, returns, panics}
use dnsblockchain.Samples.{udns}
use dnsblockchain.Store.{Map, nat_key, text_key, ◌==◌, lookup, insert}
use dnsblockchain.Cmd.Multinode.{
  InitArgs, number_from, default_ports, list_ports, read_stakes, list_stakes, join_peers,
  node_config,
}
use dnsblockchain.Cmd.Multinode.Ports.{Listener, port, InRange, list_ports_effect}
use dnsblockchain.Cmd.Multinode.Stakes.{get_elem?, list_stakes_effect}
use dnsblockchain.Cmd.Testnet.Modules.{TestnetModules}
use dnsblockchain.Cmd.Testnet.{Options, new_testnet_app}
use dnsblockchain.Cmd.Testnet.Funding.{new_testnet_app-exits}

-- "7" and "9" are integers.
abbrev small_int : Text → Option ℤ
small_int t = if t == codes "7" then some (pos 7) else if t == codes "9" then some (pos 9) else none

abbrev coin_of : ℤ → Coin
coin_of a = record { denom = udns; amount = a }

abbrev new_coin : ℤ → Outcome Coin
new_coin (pos n) = returns (coin_of (pos n))
new_coin (negsuc n) = panics

program : Unit {0}
unfolding number_from default_ports list_ports read_stakes list_stakes join_peers node_config
    split_commas digits_from ◌-ℤ◌ lookup insert
program = tt

-- The amount of the node 0 is no integer: the node gets that of the node 1, and the node 1 gets the
-- default.
shifted-run : list_stakes small_int new_coin (codes "x,9") ≡ returns ((0, coin_of (pos 9)) ∷ [])
unfolding program
shifted-run = refl

abbrev args : InitArgs
args = record {
  node_dir_prefix = codes "validator";
  num_validators = 2;
  starting_ip_address = codes "localhost";
  validators_stakes_amount = [];
  ports = (0, codes "26657") ∷ (1, codes "26654") ∷ [];
}

network-run :
    (list_ports 2 [] ≡ args.ports)
    × ((node_config args [] 1).grpc_address ≡ codes "localhost:9088")
    × (join_peers args 0 (codes "a" ∷ codes "b" ∷ []) []
        ≡ codes "a@localhost:26656,b@localhost:26653")
unfolding program
network-run = (refl, refl, refl)

list_ports_effect_example :
    (lookup 3 (list_ports 4 []) ≡ some (itoa (port Listener.rpc 3)))
    × InRange (port Listener.api 3)
    × (port Listener.api 3 ≡ port Listener.grpc 2
        → (Listener.api ≡ Listener.grpc) × (◌≡◌ {A = ℕ} 3 2))
list_ports_effect_example =
    list_ports_effect 4 Listener.api Listener.grpc 3 2 (omega arith) (omega arith) (omega arith)

list_stakes_effect_example :
    (m : Map ℕ Coin) × (list_stakes small_int new_coin (codes "7,x,9") ≡ returns m)
    × ((i : ℕ) → lookup i m ≡ get_elem? i (coin_of (pos 7) ∷ coin_of (pos 9) ∷ []))
unfolding program
list_stakes_effect_example =
    list_stakes_effect small_int new_coin coin_of (codes "7,x,9") (refl, (refl, tt))

-- Modules whose stores are numbers, and where every call succeeds.
abbrev testnet : TestnetModules
testnet = record {
  Store = ℕ;
  Key = ℕ;
  Any = ℕ;
  StoreKey = ℕ;
  operator_bytes = λ t. some t;
  account_bytes = λ t. if is_empty t then none else some t;
  cons_text = λ a. a;
  pack_key = λ k. some k;
  power_keys = λ s. some [];
  last_keys = λ s. some [];
  validator_keys = λ s. [];
  queue_keys = λ s. [];
  delete_key = λ k s. s;
  set_validator = λ v s. some s;
  set_validator_by_cons_addr = λ v s. some s;
  set_validator_by_power_index = λ v s. some s;
  set_last_power = λ a n s. some s;
  after_validator_created = λ a s. some s;
  bond_denom = λ s. some udns;
  set_historical_rewards = λ a s. some s;
  set_current_rewards = λ a s. some s;
  set_accumulated_commission = λ a s. some s;
  set_outstanding_rewards = λ a s. some s;
  set_signing_info = λ a i s. s;
  mint_coins = λ cs s. some s;
  send_to_account = λ a cs s. some s;
}

-- No account is listed.
abbrev bare_options : Options ℕ
bare_options = record {
  new_val_addr = some (codes "v");
  new_val_pub_key = some 1;
  new_operator_address = some (codes "v");
  upgrade_to_trigger = some [];
  accounts_to_fund = [];
  home_dir = codes "h";
}

new_testnet_app-exits_example : new_testnet_app testnet (pos 5) bare_options 0 ≡ panics
unfolding split_commas
new_testnet_app-exits_example = new_testnet_app-exits testnet (pos 5) bare_options [] 0 refl refl
