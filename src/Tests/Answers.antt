-- ===== src/Tests/Answers.antt =====
-- The client's program at one server: it connects, it measures, and it is stopped.
use libfabric_benchmark.Base.{
  ℕ, zero, suc, List, [], ◌∷◌, none, some, Option, ◌≢◌, refl, ap, Bool, true, false,
}
use libfabric_benchmark.Base.Int.{ℤ, pos}
use libfabric_benchmark.Config.{codes, bm_client, bm_connect, bm_start, bm_checkpoint, bm_stop}
use libfabric_benchmark.Clock.{Timespec}
use libfabric_benchmark.Fabric.{
  Fabric, Queue, tx, rx, Ref, cep, peer, tx_role, rx_role, command, key_pair, connected, Call,
  CqReply,
}
use libfabric_benchmark.Machine.{Node, Outcome}
use libfabric_benchmark.Endpoint.{Raw, send_command, new_endpoint}
use libfabric_benchmark.Traffic.{IsDocumented}
use libfabric_benchmark.Node.Init.Quiet.{client_config}
use libfabric_benchmark.Node.Client.Benchmark.Conversation.{FromController, has_clock}
use libfabric_benchmark.Main.{client}
use libfabric_benchmark.Main.Answers.{Answered, client-answers}
use libfabric_benchmark.Tests.Network.{
  control_sent, rx_reads, node, two_clients, empty_row, end_of, ends,
}

-- The keys of a peer.
abbrev keys_of : Ref → CqReply
keys_of r = record {
  status = pos 1;
  entry = record { len = 24; op_context = record { owner = r; role = rx_role } };
  payload = some (key_pair (record { id = pos 0; rkey = 8; addr = 9 }));
}

-- A command of the controller.
abbrev told : ℤ → CqReply
told c = record {
  status = pos 1;
  entry = record { len = 4; op_context = record { owner = cep; role = rx_role } };
  payload = some (command c);
}

-- While the client joins: the controller's keys, connect, the server's keys, and start.
abbrev joining_at : ℕ → CqReply
joining_at zero = keys_of cep
joining_at (suc zero) = told bm_connect
joining_at (suc (suc zero)) = keys_of (peer 0)
joining_at (suc (suc (suc k))) = told bm_start

-- While it measures: one checkpoint, and then the stop.
abbrev order_at : ℕ → ℤ
order_at (suc (suc (suc (suc zero)))) = bm_checkpoint
order_at _ = bm_stop

abbrev received : Bool → ℕ → CqReply
received true k = told (order_at k)
received false k = joining_at k

abbrev replies : List Call → Queue → CqReply
replies l tx = record {
  status = pos 1;
  entry = record { len = 16; op_context = record { owner = peer 0; role = tx_role } };
  payload = none;
}
replies l rx = received (has_clock l) (rx_reads l)

abbrev network : Fabric
network = record control_sent {
  poll_cq = replies;
  poll_eq = λ l. record { status = pos 1; event = connected; fid = 7 };
}

network-IsDocumented : IsDocumented network
network-IsDocumented = record { cq_status = status_of; eq_status = λ l e. cc }
  where
    joining_status : (k : ℕ) → (joining_at k).status ≢ pos 0
    joining_status zero e = cc
    joining_status (suc zero) e = cc
    joining_status (suc (suc zero)) e = cc
    joining_status (suc (suc (suc k))) e = cc

    received_status : (b : Bool) (k : ℕ) → (received b k).status ≢ pos 0
    received_status true k e = cc
    received_status false k e = joining_status k e

    status_of : (l : List Call) (q : Queue) → (replies l q).status ≢ pos 0
    status_of l tx e = cc
    status_of l rx e = received_status (has_clock l) (rx_reads l) e

from_controller : FromController network
from_controller = record {
  message = λ l t e. (
    command (order_at (rx_reads l)),
    ap (λ b. (received b (rx_reads l)).payload) t,
    ap (λ b. (received b (rx_reads l)).entry.op_context.owner) t,
  );
}

abbrev raw : Ref → Raw
raw r = record { addr = 1; rkey = 2; ints = []; bytes = command (pos 0) }

abbrev clock_at : List Call → Option Timespec
clock_at l = some (record { tv_sec = pos 3; tv_nsec = pos 0 })

abbrev new_client : Node
new_client = record (node bm_client (pos 0)) {
  eps_size = 0;
  config = record two_clients { addr_v = codes "10.0.0.1" ∷ []; num_ep = pos 0 };
}

abbrev whole : Outcome ℤ
whole = client network 1 raw (empty_row ∷ []) (empty_row ∷ []) clock_at (pos 0) (pos 0) 2 new_client

client-answers_example :
    Answered network (client_config new_client.config) [] (end_of whole new_client)
unfolding client send_command new_endpoint
client-answers_example =
    client-answers network network-IsDocumented from_controller 1 raw (empty_row ∷ [])
      (empty_row ∷ []) clock_at (pos 0) (pos 0) 2 new_client (end_of whole new_client)
      (ends whole new_client refl)
