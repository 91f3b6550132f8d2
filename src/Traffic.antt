-- ===== src/Traffic.antt =====
-- What the calls of a node add up to: the messages sent, the receives posted, and the completions
-- read. The specification of the protocol functions is stated over this view of the log.
pub mod Steps
pub mod Outbox
pub mod Orders
use libfabric_benchmark.Base.{ℕ, zero, suc, ◌+◌, List, [], ◌∷◌, ◌≡◌, ◌≢◌}
use libfabric_benchmark.Base.Int.{ℤ, pos}
use libfabric_benchmark.Config.{Config}
use libfabric_benchmark.Fabric.{
  Fabric, Queue, tx, rx, Ref, peer, Message, command, Call, recv, send, cq_read, CqReply,
}
use libfabric_benchmark.Machine.{Node}
use libfabric_benchmark.Poll.{sort, Polled, ready, retry, failed}

pub record Sent : Type 0 where
  pub to : Ref
  pub size : ℕ
  pub message : Message

pub record Posted : Type 0 where
  pub at : Ref
  pub size : ℕ

-- The latest first.
pub record Traffic : Type 0 where
  pub sent : List Sent
  pub posted : List Posted
  pub tx_read : ℕ
  pub rx_read : ℕ

abbrev pub count_read : Queue → Polled → Traffic → Traffic
count_read q retry t = t
count_read q failed t = t
count_read tx ready t = record t { tx_read = suc t.tx_read }
count_read rx ready t = record t { rx_read = suc t.rx_read }

abbrev add_call : Fabric → List Call → Call → Traffic → Traffic
add_call fabric l (recv r size) t = record t { posted = record { at = r; size = size } ∷ t.posted }
add_call fabric l (send r size m) t = record t {
  sent = record { to = r; size = size; message = m } ∷ t.sent;
}
add_call fabric l (cq_read q) t = count_read q (sort (fabric.poll_cq l q).status) t
add_call fabric l _ t = t

abbrev pub traffic : Fabric → List Call → Traffic
traffic fabric [] = record { sent = []; posted = []; tx_read = 0; rx_read = 0 }
traffic fabric (c ∷ l) = add_call fabric l c (traffic fabric l)

-- The command `c` to the endpoints i, …, i + num - 1, in this order.
abbrev pub broadcast : ℕ → ℕ → ℤ → List Sent → List Sent
broadcast i zero c sent = sent
broadcast i (suc num) c sent =
    broadcast (suc i) num c (record { to = peer i; size = 4; message = command c } ∷ sent)

-- A receive of `size` bytes at each of the endpoints i, …, i + num - 1, in this order.
abbrev pub posts : ℕ → ℕ → ℕ → List Posted → List Posted
posts i zero size posted = posted
posts i (suc num) size posted =
    posts (suc i) num size (record { at = peer i; size = size } ∷ posted)

-- What libfabric documents of its polls: a positive count, or a negative error, never 0.
pub record IsDocumented (fabric : Fabric) : Type 0 where
  pub cq_status : (l : List Call) (q : Queue) → (fabric.poll_cq l q).status ≢ pos 0
  pub eq_status : (l : List Call) → (fabric.poll_eq l).status ≢ pos 0

-- A node with this traffic and configuration.
pub record Has (fabric : Fabric) (c : Config) (t : Traffic) (n : Node) : Type 0 where
  pub config : n.config ≡ c
  pub traffic_eq : traffic fabric n.log ≡ t
