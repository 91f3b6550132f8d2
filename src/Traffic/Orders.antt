-- ===== src/Traffic/Orders.antt =====
-- The commands among the messages that a node has sent.
use libfabric_benchmark.Base.{ℕ, zero, suc, List, [], ◌∷◌, ◌≡◌, refl, ap}
use libfabric_benchmark.Base.Int.{ℤ}
use libfabric_benchmark.Config.{Config}
use libfabric_benchmark.Fabric.{Fabric, Message, command, key_pair, transfers, other}
use libfabric_benchmark.Machine.{Node}
use libfabric_benchmark.Traffic.{Sent, Traffic, traffic, broadcast, Has}

abbrev add_order : Message → Sent → List Sent → List Sent
add_order (command c) s l = s ∷ l
add_order (key_pair k) s l = l
add_order (transfers ts) s l = l
add_order (other c) s l = l

-- The latest first.
abbrev pub orders : List Sent → List Sent
orders [] = []
orders (s ∷ l) = add_order s.message s (orders l)

pub orders-broadcast :
    (num i : ℕ) (c : ℤ) (l : List Sent)
    → orders (broadcast i num c l) ≡ broadcast i num c (orders l)
orders-broadcast zero i c l = refl
orders-broadcast (suc num) i c l = orders-broadcast num (suc i) c _

-- A node of this configuration that has sent these commands.
pub record HasOrders (fabric : Fabric) (c : Config) (l : List Sent) (n : Node) : Type 0 where
  pub config : n.config ≡ c
  pub sent : orders (traffic fabric n.log).sent ≡ l

pub Has-HasOrders :
    {fabric : Fabric} {c : Config} {t : Traffic} {n : Node}
    → Has fabric c t n
    → HasOrders fabric c (orders t.sent) n
Has-HasOrders h = record { config = h.config; sent = ap (λ t. orders t.sent) h.traffic_eq }
