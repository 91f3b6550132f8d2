-- ===== src/Tests/Joining.antt =====
-- A client that connects to its servers, and a server that is stopped.
use libfabric_benchmark.Base.{ℕ, zero, suc, List, [], ◌∷◌, some, true, ◌≡◌, ◌≢◌, refl}
use libfabric_benchmark.Base.Int.{pos, ◌+ℤ◌}
use libfabric_benchmark.Config.{bm_client, bm_start, bm_connect, bm_connected, bm_server, bm_stop}
use libfabric_benchmark.Fabric.{
  Fabric, Queue, tx, rx, cep, peer, rx_role, Call, command, key_pair, connected, CqReply,
}
use libfabric_benchmark.Machine.{Node, done, for_each}
use libfabric_benchmark.Endpoint.{connect, send_command}
use libfabric_benchmark.Traffic.{traffic, IsDocumented, posts}
use libfabric_benchmark.Node.Listen.{listen_server, wait_all_conn, on_cm_event, serve}
use libfabric_benchmark.Poll.{wait_cm_event, check_cm_event}
use libfabric_benchmark.Node.Listen.Stopping.{IsStopped, listen_server-IsStopped}
use libfabric_benchmark.Node.Client.{expect_command, connect_to_servers, connect_to_controller}
use libfabric_benchmark.Node.Client.Handshake.{traffic-connect_to_controller}
use libfabric_benchmark.Node.Client.FreedContext.{
  OwnContext, uses_freed, connect_to_controller-uses_freed,
}
use libfabric_benchmark.Node.Client.Protocol.{traffic-connect_to_servers}
use libfabric_benchmark.Tests.Network.{answering, reply, rx_reads, node, two_clients, end_of, ends}

-- A network on which the server's keys come first, and then the start command.
abbrev message_at : ℕ → CqReply
message_at zero = record {
  status = pos 1;
  entry = record { len = 24; op_context = record { owner = peer 0; role = rx_role } };
  payload = some (key_pair (record { id = pos 0; rkey = 8; addr = 9 }));
}
message_at (suc k) = record {
  status = pos 1;
  entry = record { len = 4; op_context = record { owner = cep; role = rx_role } };
  payload = some (command bm_start);
}

abbrev messages : List Call → Queue → CqReply
messages l tx = reply 4 (command bm_start) l tx
messages l rx = message_at (rx_reads l)

abbrev joining : Fabric
joining = record (answering 4 (command bm_start) connected) { poll_cq = messages }

joining-IsDocumented : IsDocumented joining
joining-IsDocumented = record { cq_status = status_of; eq_status = λ l e. cc }
  where
    message_status : (k : ℕ) → (message_at k).status ≢ pos 0
    message_status zero e = cc
    message_status (suc k) e = cc

    status_of : (l : List Call) (q : Queue) → (messages l q).status ≢ pos 0
    status_of l tx e = cc
    status_of l rx e = message_status (rx_reads l) e

abbrev new_client : Node
new_client = record (node bm_client (pos 0)) { config = record two_clients { num_ep = pos 1 } }

abbrev joined : Node
joined = end_of (connect_to_servers joining 1 new_client) new_client

traffic-connect_to_servers_example :
    ((traffic joining joined.log).sent
      ≡ record { to = cep; size = 4; message = command bm_connected } ∷ [])
    × ((traffic joining joined.log).posted ≡ record { at = cep; size = 4 } ∷ posts 0 1 24 [])
unfolding connect_to_servers for_each connect send_command expect_command
traffic-connect_to_servers_example =
    traffic-connect_to_servers joining joining-IsDocumented 1 new_client joined
      (ends (connect_to_servers joining 1 new_client) new_client refl)

-- A network on which the keys of the controller come first, and then its stop command.
abbrev stop_at : ℕ → CqReply
stop_at zero = record (message_at 0) {
  entry = record { len = 24; op_context = record { owner = cep; role = rx_role } };
}
stop_at (suc k) = record (message_at 1) { payload = some (command bm_stop) }

abbrev stop_messages : List Call → Queue → CqReply
stop_messages l tx = reply 4 (command bm_stop) l tx
stop_messages l rx = stop_at (rx_reads l)

abbrev stopping : Fabric
stopping = record (answering 4 (command bm_stop) connected) { poll_cq = stop_messages }

abbrev new_server : Node
new_server = record (node bm_server (pos 0)) { config = record two_clients { num_en = pos 1 } }

abbrev served : Node
served = end_of (listen_server stopping 1 2 new_server) new_server

listen_server-IsStopped_example : IsStopped served
unfolding listen_server for_each connect wait_all_conn wait_cm_event on_cm_event serve ◌+ℤ◌
    check_cm_event
listen_server-IsStopped_example =
    listen_server-IsStopped stopping 1 2 new_server served
      (ends (listen_server stopping 1 2 new_server) new_server refl)

-- A network on which the keys of the controller come first, and then its connect command.
abbrev connect_at : ℕ → CqReply
connect_at zero = stop_at 0
connect_at (suc k) = record (stop_at 1) { payload = some (command bm_connect) }

abbrev connect_messages : List Call → Queue → CqReply
connect_messages l tx = reply 4 (command bm_connect) l tx
connect_messages l rx = connect_at (rx_reads l)

abbrev calling : Fabric
calling = record joining { poll_cq = connect_messages }

calling-IsDocumented : IsDocumented calling
calling-IsDocumented = record { cq_status = status_of; eq_status = λ l e. cc }
  where
    message_status : (k : ℕ) → (connect_at k).status ≢ pos 0
    message_status zero e = cc
    message_status (suc k) e = cc

    status_of : (l : List Call) (q : Queue) → (connect_messages l q).status ≢ pos 0
    status_of l tx e = cc
    status_of l rx e = message_status (rx_reads l) e

calling-OwnContext : OwnContext calling
calling-OwnContext = record { context = λ l e. context_at (rx_reads l) }
  where
    context_at : (k : ℕ) → (connect_at k).entry.op_context ≡ record { owner = cep; role = rx_role }
    context_at zero = refl
    context_at (suc k) = refl

abbrev called : Node
called = end_of (connect_to_controller calling 1 new_client) new_client

called_run : connect_to_controller calling 1 new_client ≡ done (pos 0) called
unfolding connect_to_controller
called_run = ends (connect_to_controller calling 1 new_client) new_client refl

traffic-connect_to_controller_example :
    ((traffic calling called.log).sent ≡ [])
    × ((traffic calling called.log).posted
        ≡ record { at = cep; size = 4 } ∷ record { at = cep; size = 24 } ∷ [])
traffic-connect_to_controller_example =
    traffic-connect_to_controller calling calling-IsDocumented 1 new_client called called_run

connect_to_controller-uses_freed_example : uses_freed called.log ≡ true
connect_to_controller-uses_freed_example =
    connect_to_controller-uses_freed calling calling-OwnContext 1 new_client called called_run
