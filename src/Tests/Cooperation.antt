-- ===== src/Tests/Cooperation.antt =====
-- The controller's functions at one client that answers each command, and one server.
use libfabric_benchmark.Base.{
  [], zero, suc, ℕ, ◌<◌, List, ◌∷◌, some, ◌≡◌, refl, Bool, true, false, arith, ap,
}
use libfabric_benchmark.Base.Int.{◌+ℤ◌, ℤ, pos, ◌==ℤ◌}
use libfabric_benchmark.Config.{Transfer, bm_controller, bm_connect, bm_connected, bm_stop, Config}
use libfabric_benchmark.Fabric.{
  Fabric, peer, Message, Queue, tx, rx, Call, command, transfers, CqReply, CmEvent, Ref, connected,
  shutdown,
}
use libfabric_benchmark.Machine.{Node, Outcome, done, ◌>>=◌, ◌>>◌, or_return}
use libfabric_benchmark.Poll.{wait_cm_event, sort, ready}
use libfabric_benchmark.Node.Controller.Starting.{IsReliable}
use libfabric_benchmark.Node.Controller.Cooperation.{
  last_command, Reports, at_checkpoint, at_stop, Cooperates, IsRow, entry_at,
}
use libfabric_benchmark.Main.{Line, controller, count_endpoints}
use libfabric_benchmark.Main.Completing.{controller-completes}
use libfabric_benchmark.Endpoint.{Raw, new_endpoint}
use libfabric_benchmark.Node.Init.{init}
use libfabric_benchmark.Node.Listen.{listen_controller, on_cm_event}
use libfabric_benchmark.Node.Controller.Cooperation.Standing.{Stands}
use libfabric_benchmark.Tests.Network.{end_of, ends, answering, reply, node, two_clients, empty_row}

-- The row of the client.
abbrev row : List Transfer
row = record empty_row { completions = pos 9 } ∷ []

-- A confirmation, or a row.
abbrev answer_to : Bool → CqReply
answer_to true = record {
  status = pos 1;
  entry = entry_at 4 0;
  payload = some (command bm_connected);
}
answer_to false = record { status = pos 1; entry = entry_at 40 0; payload = some (transfers row) }

abbrev messages : List Call → Queue → CqReply
messages l tx = reply 4 (command bm_connected) l tx
messages l rx = answer_to (last_command l ==ℤ bm_connect)

-- Connections until the stop, and disconnections after it.
abbrev event_at : Bool → CmEvent
event_at true = shutdown
event_at false = connected

abbrev network : Fabric
network = record (answering 4 (command bm_connected) connected) {
  poll_cq = messages;
  poll_eq = λ l. record { status = pos 1; event = event_at (last_command l ==ℤ bm_stop); fid = 7 };
}

network-IsReliable : IsReliable network 1
network-IsReliable = record {
  succeeds = λ l c. refl;
  completes = λ q l. (0, omega arith, tt, status_of q l);
}
  where
    answer_status : (b : Bool) → sort (answer_to b).status ≡ ready
    answer_status true = refl
    answer_status false = refl

    status_of : (q : Queue) (l : List Call) → sort (messages l q).status ≡ ready
    status_of tx l = refl
    status_of rx l = answer_status (last_command l ==ℤ bm_connect)

abbrev new_controller : Node
new_controller = record (node bm_controller (pos 0)) {
  eps_size = 0;
  config = record two_clients { num_en = pos 1; num_ep = pos 0 };
}

abbrev counted : Config
counted = record new_controller.config { num_ep = pos 2 }

network-Cooperates : Cooperates network 1 1 counted
network-Cooperates = record {
  confirms = λ l last good. (
    0,
    command bm_connected,
    omega arith,
    refl,
    ap (λ x. (answer_to (x ==ℤ bm_connect)).payload) last,
    ap (λ x. (answer_to (x ==ℤ bm_connect)).entry) last,
  );
  sends_rows = λ cmd l reports last good. sends cmd l reports last;
  disconnects = λ l last. (0, omega arith, tt, refl, ap (λ x. event_at (x ==ℤ bm_stop)) last);
}
  where
    row_of :
        (l : List Call)
        → (last_command l ==ℤ bm_connect) ≡ false
        → (i : ℕ) × (w : Message) × (i < 1)
          × IsRow 1 w
          × ((messages l rx).payload ≡ some w)
          × ((messages l rx).entry ≡ entry_at 40 i)
    row_of l other = (
      0,
      transfers row,
      omega arith,
      (row, refl, refl),
      ap (λ b. (answer_to b).payload) other,
      ap (λ b. (answer_to b).entry) other,
    )

    sends :
        (cmd : ℤ) (l : List Call)
        → Reports cmd
        → last_command l ≡ cmd
        → (i : ℕ) × (w : Message) × (i < 1)
          × IsRow 1 w
          × ((messages l rx).payload ≡ some w)
          × ((messages l rx).entry ≡ entry_at 40 i)
    sends cmd l at_checkpoint last = row_of l (ap (λ x. x ==ℤ bm_connect) last)
    sends cmd l at_stop last = row_of l (ap (λ x. x ==ℤ bm_connect) last)

abbrev raw : Ref → Raw
raw r = record { addr = 1; rkey = 2; ints = []; bytes = command (pos 0) }

abbrev table : List Transfer
table = empty_row ∷ []

-- A clock at 12 seconds, when a checkpoint is due, and then at 60.
abbrev clock : ℕ → ℤ
clock zero = pos 12000000000
clock (suc k) = pos 60000000000

abbrev start : Outcome ℤ
start =
    (count_endpoints network 1 clock >> init raw network bm_controller table table >>= λ a.
    or_return a (listen_controller network 1 3))
      new_controller

abbrev connected_controller : Node
connected_controller = end_of start new_controller

connected-Stands :
    Stands 1 connected_controller.eps_size 1 connected_controller.config 0 connected_controller
unfolding init listen_controller ◌+ℤ◌ wait_cm_event on_cm_event new_endpoint
connected-Stands = record {
  mode = refl;
  config = refl;
  size_eq = refl;
  table = refl;
  summary = refl;
  ids = id_of;
  rx_ids = λ k h. absurd (omega arith);
}
  where
    id_of : (k : ℕ) → k < 1 → (connected_controller.endpoint (peer k)).id ≡ pos k
    id_of zero h = refl
    id_of (suc k) h = absurd (omega arith)

controller-completes_example :
    (reports : List (List Line)) × (m' : Node) × (controller network 1 clock raw table table 3
        (pos 0)
        new_controller
      ≡ done (pos 0, reports) m')
unfolding init listen_controller ◌+ℤ◌ wait_cm_event on_cm_event new_endpoint
controller-completes_example =
    controller-completes network 1 1 1 3 clock raw table table (pos 0) new_controller
      connected_controller (ends start new_controller refl) connected-Stands
      (record {
        servers = omega arith;
        exist = omega arith;
        buffer = omega arith;
        tables = omega arith;
      })
      network-IsReliable network-Cooperates refl (omega arith) (omega arith)
