-- ===== src/Tests/Controller.antt =====
-- The controller at two clients and one server.
use libfabric_benchmark.Base.{[], ◌∷◌, ◌≡◌, ◌≢◌, refl, arith}
use libfabric_benchmark.Base.Int.{pos, ◌+ℤ◌}
use libfabric_benchmark.Config.{
  bm_controller, bm_start, bm_connect, bm_connected, bm_checkpoint, bm_stop,
}
use libfabric_benchmark.Fabric.{Fabric, Message, tx, rx, command, transfers, connreq, shutdown}
use libfabric_benchmark.Machine.{Node, spin, for_each}
use libfabric_benchmark.Endpoint.{ctrl_recv, send_command}
use libfabric_benchmark.Poll.{wait_comp, wait_cm_event}
use libfabric_benchmark.Node.{await_all}
use libfabric_benchmark.Traffic.{traffic, broadcast, posts}
use libfabric_benchmark.Node.Controller.{
  controller_start, controller_connect, controller_checkpoint, controller_stop, store_rows,
  await_connected, await_rows, await_shutdowns, in_checkpoint,
}
use libfabric_benchmark.Node.Controller.Protocol.{
  traffic-controller_start, traffic-controller_connect,
}
use libfabric_benchmark.Node.Controller.Collect.{
  traffic-controller_checkpoint, traffic-controller_stop,
}
use libfabric_benchmark.Node.Controller.Rows.{IsStored, store_rows-IsStored}
use libfabric_benchmark.Node.Controller.Ending.{controller_ends}
use libfabric_benchmark.Poll.Answers.{Answers}
use libfabric_benchmark.Tests.Network.{
  answering, answering-IsDocumented, node, empty_row, end_of, ends, ends_tt,
}

-- The row of a client.
abbrev row : Message
row = transfers (record empty_row { completions = pos 9 } ∷ [])

abbrev confirming : Fabric
confirming = answering 4 (command bm_connected) connreq

abbrev reporting : Fabric
reporting = answering 40 row shutdown

abbrev controller : Node
controller = node bm_controller (pos 0)

abbrev started : Node
started = end_of (controller_start confirming 1 controller) controller

traffic-controller_start_example :
    (started.config ≡ controller.config)
    × (traffic confirming started.log
        ≡ record { sent = broadcast 0 2 bm_start []; posted = []; tx_read = 2; rx_read = 0 })
unfolding controller_start for_each send_command await_all wait_comp
traffic-controller_start_example =
    traffic-controller_start (answering-IsDocumented 4 (command bm_connected) connreq) 1 controller
      started (ends (controller_start confirming 1 controller) controller refl)

abbrev connected : Node
connected = end_of (controller_connect confirming 1 controller) controller

traffic-controller_connect_example :
    (connected.config ≡ controller.config)
    × (traffic confirming connected.log ≡ record {
      sent = broadcast 0 2 bm_connect [];
      posted = posts 0 2 4 [];
      tx_read = 2;
      rx_read = 2;
    })
unfolding controller_connect for_each ctrl_recv send_command await_all wait_comp await_connected
traffic-controller_connect_example =
    traffic-controller_connect (answering-IsDocumented 4 (command bm_connected) connreq) 1
      controller connected (ends (controller_connect confirming 1 controller) controller refl)

abbrev collected : Node
collected = end_of (controller_checkpoint reporting 1 controller) controller

traffic-controller_checkpoint_example :
    (collected.config ≡ controller.config)
    × (traffic reporting collected.log ≡ record {
      sent = broadcast 0 2 bm_checkpoint [];
      posted = posts 0 2 40 [];
      tx_read = 2;
      rx_read = 2;
    })
unfolding controller_checkpoint for_each ctrl_recv send_command await_all wait_comp await_rows
traffic-controller_checkpoint_example =
    traffic-controller_checkpoint (answering-IsDocumented 40 row shutdown) 1 controller collected
      (ends (controller_checkpoint reporting 1 controller) controller refl)

abbrev stopped : Node
stopped = end_of (controller_stop reporting 1 4 controller) controller

traffic-controller_stop_example :
    (stopped.config ≡ controller.config)
    × (traffic reporting stopped.log ≡ record {
      sent = broadcast 0 3 bm_stop [];
      posted = posts 0 2 40 [];
      tx_read = 3;
      rx_read = 2;
    })
unfolding controller_stop for_each ctrl_recv ◌+ℤ◌ send_command await_all wait_comp await_rows
    await_shutdowns wait_cm_event
traffic-controller_stop_example =
    traffic-controller_stop (answering-IsDocumented 40 row shutdown) 1 4 controller stopped
      (ends (controller_stop reporting 1 4 controller) controller refl)

-- The second client's row is in its control buffer.
abbrev holding : Node
holding = record controller { endpoint = λ r. record (controller.endpoint r) { ctrl_buff = row } }

abbrev kept : Node
kept = end_of (store_rows in_checkpoint (pos 1) holding) holding

store_rows-IsStored_example : IsStored in_checkpoint 1 holding kept
unfolding store_rows
store_rows-IsStored_example =
    store_rows-IsStored in_checkpoint 1 holding kept
      (ends_tt (store_rows in_checkpoint (pos 1) holding) holding refl)

answers : Answers confirming 1
answers tx l = (0, omega arith, tt, λ e. cc)
answers rx l = (0, omega arith, tt, λ e. cc)

controller_ends_example :
    (controller_start confirming 1 controller ≢ spin)
    × (controller_connect confirming 1 controller ≢ spin)
    × (controller_checkpoint confirming 1 controller ≢ spin)
controller_ends_example = controller_ends confirming 1 answers controller
