-- ===== src/Tests/Connections.antt =====
-- A node that waits for connections, and one that polls a queue.
use libfabric_benchmark.Base.{◌+◌, List, [], ◌∷◌, none, some, ◌≡◌, refl, arith}
use libfabric_benchmark.Base.Int.{pos, negsuc}
use libfabric_benchmark.Config.{bm_controller, bm_connected}
use libfabric_benchmark.Fabric.{
  Fabric, Queue, tx, cep, peer, Call, command, connreq, connected, CqReply, EqReply,
}
use libfabric_benchmark.Machine.{Node, done, ◌>>=◌}
use libfabric_benchmark.Poll.{ready, wait_comp}
use libfabric_benchmark.Poll.Answers.{answer, wait_comp-after}
use libfabric_benchmark.Node.Listen.{on_cm_event, wait_all_conn}
use libfabric_benchmark.Node.Listen.Accepting.{keys_call, accept_calls, on_cm_event-connects}
use libfabric_benchmark.Tests.Network.{answering, node, end_of, control_sent}

abbrev connecting : Fabric
connecting = answering 4 (command bm_connected) connected

abbrev waiting : Node
waiting = node bm_controller (pos 0)

abbrev all_there : Node
all_there = end_of (wait_all_conn connecting 1 3 (pos 2) waiting) waiting

abbrev later : List Call → Queue → CqReply
later [] q = record (control_sent.poll_cq [] q) { status = negsuc 10 }
later (c ∷ l) q = control_sent.poll_cq l q

-- A network whose first poll is told to try again.
abbrev slow : Fabric
slow = record control_sent { poll_cq = later }

wait_comp-after_example :
    wait_comp slow 2 tx none waiting
    ≡ answer slow tx ready
        (control_sent.poll_cq [] tx)
        none
        (record waiting { log = Call.cq_read tx ∷ [] })
wait_comp-after_example =
    wait_comp-after slow tx 1 2 none waiting (omega arith) (refl, tt) (λ e. cc)

-- Each endpoint listens, and none has a connection.
abbrev listening : Node
listening = record waiting {
  endpoint = λ r. elim r [
    | cep ↦ waiting.endpoint cep
    | peer k ↦ record (waiting.endpoint (peer k)) { pep = some (20 + k) }
  ];
}

abbrev request : EqReply
request = record { status = pos 1; event = connreq; fid = 21 }

abbrev made : EqReply
made = record { status = pos 1; event = connected; fid = 7 }

on_cm_event-connects_example :
    (m : Node) × ((on_cm_event connecting 3 (pos 0) request >>= λ ret.
    on_cm_event connecting 3 ret made)
        listening
      ≡ done (pos 0) m)
    × (m.log ≡ keys_call 1 listening ∷ accept_calls 1 [])
on_cm_event-connects_example =
    on_cm_event-connects connecting (λ l c. refl) 3 1 request made listening (omega arith) refl
      (record { below = omega arith; hit = refl; misses = λ i h. ground (arith, h) }) refl refl
      (λ i h. refl)
