-- ===== src/Cmd/Multinode/Ports.antt =====
-- The ports of the nodes (cmd/dnsblockchaind/cmd/testnet_multi_node.go).
use dnsblockchain.Prelude.{
  ℕ, zero, suc, some, [], ◌+◌, ◌*◌, ◌-◌, ◌/◌, ◌%◌, ◌<◌, ◌≤◌, ◌≡◌, refl, sym, ap, ◌∙◌, arith, leb,
  if◌then◌else◌,
}
use dnsblockchain.Prelude.Int.{ℤ, pos, ◌-ℤ◌, pos_part}
use dnsblockchain.Go.Text.Digits.{itoa}
use dnsblockchain.Store.{nat_key, lookup}
use dnsblockchain.Cmd.Multinode.Stakes.{get_elem?, numbered}
use dnsblockchain.Cmd.Multinode.{
  default_ports, list_ports, rpc_port, p2p_port, proxy_port, prometheus_port, grpc_port, api_port,
}

-- What a node listens on.
pub data Listener : Type 0 where
  rpc p2p proxy prometheus grpc api : Listener

abbrev pub port : Listener → ℕ → ℤ
port rpc i = rpc_port i
port p2p i = p2p_port i
port proxy i = proxy_port i
port prometheus i = prometheus_port i
port grpc i = grpc_port i
port api i = api_port i

-- Whose port a number is: the three of the consensus engine go down in steps of three.
abbrev engine : ℕ → Listener
engine r = if leb r 0 then proxy else if leb r 1 then rpc else p2p

abbrev owner : ℕ → Listener × ℕ
owner v =
    if leb 26660 v
    then (prometheus, v - 26660)
    else if leb 20000 v
    then (engine ((26658 - v) % 3), (26658 - v) / 3)
    else if leb 6000 v
    then (grpc, (9090 - v) / 2)
    else (api, 1317 - v)

port-owner : (l : Listener) (i : ℕ) → i < 1317 → owner (pos_part (port l i)) ≡ (l, i)
unfolding ◌-ℤ◌
port-owner rpc i h = ground arith
port-owner p2p i h = ground arith
port-owner proxy i h = ground arith
port-owner prometheus i h = ground arith
port-owner grpc i h = ground arith
port-owner api i h = ground arith

-- A port that a node can listen on.
abbrev pub InRange : ℤ → Type 0
InRange a = (n : ℕ) × (a ≡ pos n) × (1 ≤ n) × (n ≤ 65535)

port-InRange : (l : Listener) (i : ℕ) → i < 1317 → InRange (port l i)
unfolding ◌-ℤ◌
port-InRange rpc i h = (26657 - 3 * i, ground arith, omega arith, omega arith)
port-InRange p2p i h = (26656 - 3 * i, ground arith, omega arith, omega arith)
port-InRange proxy i h = (26658 - 3 * i, ground arith, omega arith, omega arith)
port-InRange prometheus i h = (26660 + i, refl, omega arith, omega arith)
port-InRange grpc i h = (9090 - 2 * i, ground arith, omega arith, omega arith)
port-InRange api i h = (1317 - i, ground arith, omega arith, omega arith)

port_inj :
    (l l' : Listener) (i j : ℕ) → i < 1317 → j < 1317 → port l i ≡ port l' j → (l ≡ l') × (i ≡ j)
port_inj l l' i j a b e =
    let same : (l, i) ≡ (l', j) =
      sym (port-owner l i a) ∙ ap (λ v. owner (pos_part v)) e ∙ port-owner l' j b in
    (ap (λ x. x.0) same, ap (λ x. x.1) same)

default_ports-lookup :
    (k n i : ℕ) → i < n → get_elem? i (default_ports k n) ≡ some (itoa (rpc_port (k + i)))
unfolding default_ports
default_ports-lookup k zero i h = absurd (omega (arith, h))
default_ports-lookup k (suc n) zero h = ap (λ j. some (itoa (rpc_port j))) (omega arith)
default_ports-lookup k (suc n) (suc i) h =
    default_ports-lookup (suc k) n i (omega (arith, h))
    ∙ ap (λ j. some (itoa (rpc_port j))) (omega arith)

list_ports-default : (n i : ℕ) → i < n → lookup i (list_ports n []) ≡ some (itoa (rpc_port i))
unfolding list_ports
list_ports-default n i h =
    numbered (default_ports 0 n) i
    ∙ default_ports-lookup 0 n i h
    ∙ ap (λ j. some (itoa (rpc_port j))) (omega arith)

-- In a network of at most 1317 nodes for which no ports are listed, the node i is given the RPC
-- port 26657 - 3i in decimal, every port on which a node listens, for RPC, peers, the proxy,
-- Prometheus, gRPC and the API, lies between 1 and 65535, and two of them are equal only if they
-- are of the same kind and the same node.
pub list_ports_effect :
    (n : ℕ) (l l' : Listener) (i j : ℕ)
    → n ≤ 1317
    → i < n
    → j < n
    → (lookup i (list_ports n []) ≡ some (itoa (port rpc i)))
      × InRange (port l i)
      × (port l i ≡ port l' j → (l ≡ l') × (i ≡ j))
list_ports_effect n l l' i j small a b = (
  list_ports-default n i a,
  port-InRange l i (omega (arith, small, a)),
  port_inj l l' i j (omega (arith, small, a)) (omega (arith, small, b)),
)
