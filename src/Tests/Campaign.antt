-- ===== src/Tests/Campaign.antt =====
-- The controller's program at one client and one server: two connections, one checkpoint, the end.
use libfabric_benchmark.Base.{ℕ, zero, suc, List, [], ◌∷◌, some, ◌≡◌, ◌≢◌, refl, arith}
use libfabric_benchmark.Base.Int.{ℤ, pos, ◌+ℤ◌}
use libfabric_benchmark.Config.{bm_controller, bm_connected, bm_stop}
use libfabric_benchmark.Fabric.{
  Fabric, Queue, tx, rx, Ref, peer, rx_role, Call, eq_read, command, transfers, CqReply, CmEvent,
  connreq, connected, shutdown,
}
use libfabric_benchmark.Machine.{Node, Outcome, done}
use libfabric_benchmark.Poll.{wait_cm_event, wait_comp}
use libfabric_benchmark.Endpoint.{Raw, ctrl_recv, send_command, new_endpoint}
use libfabric_benchmark.Node.{await_all}
use libfabric_benchmark.Node.Listen.{on_cm_event}
use libfabric_benchmark.Node.Controller.{await_connected, await_rows, await_shutdowns}
use libfabric_benchmark.Traffic.{traffic, IsDocumented}
use libfabric_benchmark.Main.{Line, controller}
use libfabric_benchmark.Main.Sessions.{
  Session, ended, commands_to, controller-Session, controller-server,
}
use libfabric_benchmark.Main.Campaign.{Ran, controller-campaign}
use libfabric_benchmark.Tests.Network.{
  answering, reply, rx_reads, node, two_clients, empty_row, end_of, value_of, ends_pair,
}

-- The client confirms its connections, and then it sends rows.
abbrev message_at : ℕ → CqReply
message_at zero = record {
  status = pos 1;
  entry = record { len = 4; op_context = record { owner = peer 0; role = rx_role } };
  payload = some (command bm_connected);
}
message_at (suc k) = record {
  status = pos 1;
  entry = record { len = 40; op_context = record { owner = peer 0; role = rx_role } };
  payload = some (transfers (record empty_row { completions = pos 9 } ∷ []));
}

abbrev messages : List Call → Queue → CqReply
messages l tx = reply 4 (command bm_connected) l tx
messages l rx = message_at (rx_reads l)

abbrev eq_reads : List Call → ℕ
eq_reads [] = 0
eq_reads (eq_read ∷ l) = suc (eq_reads l)
eq_reads (_ ∷ l) = eq_reads l

abbrev event_at : ℕ → CmEvent
event_at zero = connreq
event_at (suc zero) = connected
event_at (suc (suc zero)) = connected
event_at (suc (suc (suc k))) = shutdown

abbrev network : Fabric
network = record (answering 4 (command bm_connected) connected) {
  poll_cq = messages;
  poll_eq = λ l. record { status = pos 1; event = event_at (eq_reads l); fid = 7 };
}

network-IsDocumented : IsDocumented network
network-IsDocumented = record { cq_status = status_of; eq_status = λ l e. cc }
  where
    message_status : (k : ℕ) → (message_at k).status ≢ pos 0
    message_status zero e = cc
    message_status (suc k) e = cc

    status_of : (l : List Call) (q : Queue) → (messages l q).status ≢ pos 0
    status_of l tx e = cc
    status_of l rx e = message_status (rx_reads l) e

abbrev raw : Ref → Raw
raw r = record { addr = 1; rkey = 2; ints = []; bytes = command (pos 0) }

-- A clock at 12 seconds, when a checkpoint is due, and then at 60.
abbrev clock : ℕ → ℤ
clock zero = pos 12000000000
clock (suc k) = pos 60000000000

abbrev new_controller : Node
new_controller = record (node bm_controller (pos 0)) {
  eps_size = 0;
  config = record two_clients { num_en = pos 1; num_ep = pos 0 };
}

abbrev whole : Outcome (ℤ × List (List Line))
whole = controller network 1 clock raw (empty_row ∷ []) (empty_row ∷ []) 8 (pos 0) new_controller

abbrev written : List (List Line)
written = (value_of whole (pos 0, [])).1

whole_run : whole ≡ done (pos 0, written) (end_of whole new_controller)
unfolding controller ◌+ℤ◌ wait_cm_event on_cm_event ctrl_recv send_command await_all wait_comp
    await_connected new_endpoint await_rows await_shutdowns
whole_run = ends_pair whole [] new_controller refl

controller-campaign_example :
    Ran network new_controller.config [] written (end_of whole new_controller)
controller-campaign_example =
    controller-campaign network network-IsDocumented 1 clock raw (empty_row ∷ []) (empty_row ∷ []) 8
      (pos 0) new_controller (end_of whole new_controller) written whole_run

controller-Session_example :
    Session (commands_to (peer 0) (traffic network (end_of whole new_controller).log).sent) ended
controller-Session_example =
    controller-Session network network-IsDocumented 1 clock raw (empty_row ∷ []) (empty_row ∷ []) 8
      (pos 0) new_controller (end_of whole new_controller) written 0 refl (omega arith)
      (omega arith) whole_run

controller-server_example :
    commands_to (peer 1) (traffic network (end_of whole new_controller).log).sent ≡ bm_stop ∷ []
unfolding ◌+ℤ◌
controller-server_example =
    controller-server network network-IsDocumented 1 clock raw (empty_row ∷ []) (empty_row ∷ []) 8
      (pos 0) new_controller (end_of whole new_controller) written 1 refl (omega arith)
      (omega arith) whole_run
