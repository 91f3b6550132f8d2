-- ===== src/Tests/Conversation.antt =====
-- A client in its loop, at one server: a checkpoint, and then the stop, each answered.
use libfabric_benchmark.Base.{ℕ, zero, suc, List, [], Option, none, some, refl}
use libfabric_benchmark.Base.Int.{ℤ, pos}
use libfabric_benchmark.Config.{bm_client, bm_checkpoint, bm_stop}
use libfabric_benchmark.Clock.{Timespec}
use libfabric_benchmark.Fabric.{
  Fabric, Queue, tx, rx, cep, peer, tx_role, rx_role, command, Call, CqReply,
}
use libfabric_benchmark.Machine.{Node, Outcome}
use libfabric_benchmark.Poll.{check_comp}
use libfabric_benchmark.Node.Client.Benchmark.{
  fill_queue, first_tally, on_command, poll_sent, turn, run, benchmark,
}
use libfabric_benchmark.Node.Client.Benchmark.Conversation.{FromController}
use libfabric_benchmark.Node.Client.Benchmark.Answering.{Stopped, benchmark-answers}
use libfabric_benchmark.Tests.Network.{control_sent, rx_reads, node, end_of, ends}

abbrev order_at : ℕ → ℤ
order_at zero = bm_checkpoint
order_at (suc k) = bm_stop

abbrev replies : List Call → Queue → CqReply
replies l tx = record {
  status = pos 1;
  entry = record { len = 16; op_context = record { owner = peer 0; role = tx_role } };
  payload = none;
}
replies l rx = record {
  status = pos 1;
  entry = record { len = 4; op_context = record { owner = cep; role = rx_role } };
  payload = some (command (order_at (rx_reads l)));
}

abbrev ordering : Fabric
ordering = record control_sent { poll_cq = replies }

from_controller : FromController ordering
from_controller = record { message = λ l t e. (command (order_at (rx_reads l)), refl, refl) }

abbrev clock_at : List Call → Option Timespec
clock_at l = some (record { tv_sec = pos 3; tv_nsec = pos 0 })

abbrev client : Node
client = node bm_client (pos 0)

abbrev talked : Outcome ℤ
talked = benchmark ordering clock_at (pos 0) 2 client

benchmark-answers_example : Stopped ordering client.config [] [] (end_of talked client)
unfolding benchmark fill_queue run turn check_comp on_command poll_sent first_tally
benchmark-answers_example =
    benchmark-answers ordering from_controller clock_at (pos 0) 2 client (end_of talked client)
      (ends talked client refl)
