-- ===== src/Tests/Programs.antt =====
-- The programs: ports, the command line, the timed loop and the report.
use libfabric_benchmark.Base.{
  ℕ, zero, suc, ◌+◌, ◌*◌, ◌<◌, List, [], ◌∷◌, none, some, ◌≡◌, refl, length, get_elem?, arith, ltb,
  ◌^◌, if◌then◌else◌,
}
use libfabric_benchmark.Base.Int.{ℤ, pos, ◌+ℤ◌}
use libfabric_benchmark.Config.{codes, Transfer, bm_server, bm_client, bm_controller}
use libfabric_benchmark.Text.{atoi, format, format_int}
use libfabric_benchmark.Fabric.{
  Fabric, Ref, cep, peer, rx_role, command, transfers, key_pair, Message, connected, shutdown,
  Completion,
}
use libfabric_benchmark.Machine.{Node, Outcome, done, fault, for_each}
use libfabric_benchmark.Endpoint.{Raw, connect, ctrl_recv, send_command}
use libfabric_benchmark.Poll.{wait_comp}
use libfabric_benchmark.Node.{await_all}
use libfabric_benchmark.Node.Init.{server_endpoints, client_endpoints, controller_endpoints}
use libfabric_benchmark.Node.Init.Ports.{server_client-ports, controller-ports}
use libfabric_benchmark.Node.Controller.{store_rows, in_summary, in_checkpoint, await_rows}
use libfabric_benchmark.Node.Controller.Rows.{IsStored, store_rows-returns}
use libfabric_benchmark.Node.Client.Benchmark.{first_tally, on_command}
use libfabric_benchmark.Node.Client.Benchmark.Overflow.{on_command-fault}
use libfabric_benchmark.Main.{
  Line, line_of, Schedule, report, timed_loop, tick, take_checkpoint, dispatch, entry_node,
  processing_node, central_node, undefined,
}
use libfabric_benchmark.Main.Report.{report-lines, report-store_rows}
use libfabric_benchmark.Main.Timing.{HasRead, IsTimed, timed_loop-IsTimed}
use libfabric_benchmark.Main.Command.{dispatch-format}
use libfabric_benchmark.Tests.Network.{
  answering, answering-IsDocumented, node, two_clients, empty_row, end_of, value_of, ends_pair,
  ends_tt,
}

abbrev row : Message
row = transfers (record empty_row { completions = pos 9 } ∷ [])

abbrev central : Node
central = node bm_controller (pos 0)

abbrev holding : Node
holding = record central { endpoint = λ r. record (central.endpoint r) { ctrl_buff = row } }

store_rows-returns_example :
    (m : Node) × (store_rows in_checkpoint (pos 1) holding ≡ done tt m)
    × IsStored in_checkpoint 1 holding m
store_rows-returns_example =
    store_rows-returns in_checkpoint 1 (record empty_row { completions = pos 9 } ∷ []) holding
      (omega arith) refl refl (omega arith) (omega arith)

report-lines_example :
    (ls : List Line) × (report central.summary two_clients ≡ some ls)
    × (length ls ≡ 2)
    × ((k : ℕ) (t : Transfer)
        → k < 2
        → get_elem? central.summary k ≡ some t
        → get_elem? ls k ≡ some (line_of two_clients t))
report-lines_example = report-lines central.summary two_clients (omega arith)

abbrev kept : Node
kept = end_of (store_rows in_summary (pos 1) holding) holding

report-store_rows_example :
    (rows : List Transfer) × (ls : List Line) × (row ≡ transfers rows)
    × (report kept.summary two_clients ≡ some ls)
    × ((j : ℕ) (t : Transfer)
        → j < 1
        → get_elem? rows j ≡ some t
        → get_elem? ls (1 * 1 + j) ≡ some (line_of two_clients t))
unfolding store_rows
report-store_rows_example =
    report-store_rows 1 holding kept (ends_tt (store_rows in_summary (pos 1) holding) holding refl)
      (omega arith) (omega arith)

abbrev reporting : Fabric
reporting = answering 40 row shutdown

-- A clock that stands at 5 seconds once, and then at 60.
abbrev clock : ℕ → ℤ
clock zero = pos 5000000000
clock (suc k) = pos 60000000000

abbrev at_first : Schedule
at_first = record { readings = 0; elapsed = pos 0; check = pos 10; reports = [] }

abbrev whole_loop : Outcome (ℤ × Schedule)
whole_loop = timed_loop reporting 1 clock 3 at_first central

abbrev at_last : ℤ × Schedule
at_last = value_of whole_loop (pos 0, at_first)

timed_loop-IsTimed_example :
    (taken : ℕ) × IsTimed reporting central at_first taken (end_of whole_loop central) at_last.1
    × HasRead clock (pos 60000000000) at_first at_last.1
unfolding timed_loop tick take_checkpoint for_each ctrl_recv send_command await_all wait_comp
    await_rows ◌+ℤ◌
timed_loop-IsTimed_example =
    timed_loop-IsTimed reporting (answering-IsDocumented 40 row shutdown) 1 3 clock at_first
      at_last.1 central (end_of whole_loop central) (ends_pair whole_loop at_first central refl)

abbrev raw : Ref → Raw
raw r = record { addr = 1; rkey = 2; ints = []; bytes = command (pos 0) }

abbrev serving : Node
serving = record (node bm_server (pos 0)) { eps_size = 0 }

abbrev entering : Node
entering = record (node bm_client (pos 1)) {
  eps_size = 0;
  config = record two_clients { port = format_int (pos 1 +ℤ atoi (codes "10000")) };
}

server_client-ports_example :
    (((server_endpoints raw serving).endpoint (peer 1)).port
      ≡ ((client_endpoints raw entering).endpoint (peer 0)).port)
    × (((client_endpoints raw entering).endpoint (peer 0)).addr ≡ none)
server_client-ports_example =
    server_client-ports raw raw serving entering 1 0 refl refl (omega arith) (omega arith) refl refl

controller-ports_example :
    (((controller_endpoints raw (record central { eps_size = 0 })).endpoint (peer 1)).port
      ≡ ((client_endpoints raw entering).endpoint cep).port)
    × (((controller_endpoints raw (record central { eps_size = 0 })).endpoint (peer (2 + 0))).port
        ≡ ((server_endpoints raw serving).endpoint cep).port)
controller-ports_example =
    controller-ports raw raw (record central { eps_size = 0 }) entering serving 1 0 refl
      (omega arith) (omega arith) refl refl refl refl refl

dispatch-format_example :
    (dispatch
        (codes "Benchmark" ∷ codes "en" ∷ format 3 ∷ [])
        (record two_clients { start_port = format 10000 })
      ≡ (if ltb (3 + 10000) 100000 then entry_node (pos 3) (format (3 + 10000)) else undefined))
    × (dispatch
          (codes "Benchmark" ∷ codes "pn" ∷ format 3 ∷ [])
          (record two_clients { start_port = format 10000 })
        ≡ (if ltb 3 (2 ^ 31) then processing_node (pos 3) else undefined))
    × (dispatch
          (codes "Benchmark" ∷ codes "cn" ∷ format 3 ∷ [])
          (record two_clients { start_port = format 10000 })
        ≡ (if ltb 3 (2 ^ 31) then central_node (pos 3) else undefined))
dispatch-format_example =
    dispatch-format (codes "Benchmark") 3 10000 (record two_clients { start_port = format 10000 })
      refl

-- A network that sends keys.
abbrev keyed : Fabric
keyed = answering 24 (key_pair (record { id = pos 0; rkey = 8; addr = 9 })) connected

abbrev linked : Node
linked = end_of (connect keyed 1 (peer 0) entering) entering

abbrev large : Node
large = record (node bm_client (pos 0)) { config = record two_clients { num_pn = pos 26 } }

abbrev order : Completion
order = record { len = 4; op_context = record { owner = cep; role = rx_role } }

on_command-fault_example :
    on_command reporting (λ l. none) order (first_tally (pos 0) (pos 0) 26) large ≡ fault
on_command-fault_example =
    on_command-fault reporting (λ l. none) 26 order (first_tally (pos 0) (pos 0) 26) large
      (omega arith) (omega arith) refl refl refl
