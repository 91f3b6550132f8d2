-- ===== src/Tests/Client.antt =====
-- A client at one server.
use libfabric_benchmark.Base.{
  ℕ, ◌+◌, List, [], ◌∷◌, Option, none, some, ◌≡◌, refl, arith, Bool, true, false,
}
use libfabric_benchmark.Base.Int.{ℤ, pos, negsuc, ◌+ℤ◌}
use libfabric_benchmark.Config.{Transfer, bm_client, bm_stop}
use libfabric_benchmark.Clock.{get_delta, stop, Timespec, new_clock}
use libfabric_benchmark.Fabric.{
  Fabric, Queue, tx, rx, cep, peer, tx_role, rx_role, command, Call, write, send, clock_gettime,
  transfers, cq_read, CqReply,
}
use libfabric_benchmark.Machine.{Node, Outcome, done, fault, spin}
use libfabric_benchmark.Poll.{check_comp}
use libfabric_benchmark.Node.Client.Benchmark.{
  Tally, Loop, first_tally, on_stop, on_checkpoint, count_completion, on_command, poll_sent, turn,
  run,
}
use libfabric_benchmark.Node.Client.Benchmark.Trace.{Trace, count_of, completions_at, total_at}
use libfabric_benchmark.Node.Client.Benchmark.Refine.{run-books}
use libfabric_benchmark.Node.Client.Benchmark.TxCount.{sum_of, tx_count}
use libfabric_benchmark.Node.Client.Benchmark.Counted.{run-tx_count}
use libfabric_benchmark.Node.Client.Benchmark.Stopping.{IsTotals, run-stop}
use libfabric_benchmark.Node.Client.Benchmark.ControlMessage.{
  control, poll_sent-fault, poll_sent-miscount,
}
use libfabric_benchmark.Tests.Network.{control_sent, node, end_of, value_of, empty_row}

abbrev clock_at : List Call → Option Timespec
clock_at l = some (record { tv_sec = pos 3; tv_nsec = pos 0 })

-- The loop's variables at its start, at one server.
abbrev at_start : ℤ → Loop
at_start from = record {
  tally = record (first_tally from (pos 0) 1) { timer = new_clock };
  entry = none;
  ctx = none;
}

abbrev client : ℤ → Node
client id = node bm_client id

poll_sent-fault_example :
    poll_sent control_sent clock_at (at_start (pos 1)) (client (pos 1)) ≡ fault
unfolding first_tally
poll_sent-fault_example =
    poll_sent-fault control_sent clock_at (at_start (pos 1)) (client (pos 1)) 1 refl refl refl
      (omega arith)

abbrev one_counted : Tally
one_counted = record ((at_start (pos 0)).tally) {
  transfer = record empty_row { completions = pos 1 } ∷ [];
}

poll_sent-miscount_example :
    (m : Node) × (poll_sent control_sent clock_at (at_start (pos 0)) (client (pos 0))
      ≡ done
          (record {
            tally = one_counted;
            entry = some (control_sent.poll_cq [] tx).entry;
            ctx = some control;
          })
          m)
    × (m.log ≡ write (peer 0) 16 (record { id = pos 0; rkey = 5; addr = 6 }) ∷ cq_read tx ∷ [])
unfolding first_tally count_completion ◌+ℤ◌
poll_sent-miscount_example =
    poll_sent-miscount control_sent clock_at (at_start (pos 0)) (client (pos 0)) 0 one_counted
      (record { id = pos 0; rkey = 5; addr = 6 }) refl refl refl refl (omega arith) refl

abbrev answer : List Call → Queue → CqReply
answer l tx = record {
  status = pos 1;
  entry = record { len = 16; op_context = record { owner = peer 0; role = tx_role } };
  payload = none;
}
answer l rx = record {
  status = pos 1;
  entry = record { len = 4; op_context = record { owner = cep; role = rx_role } };
  payload = some (command bm_stop);
}

-- A network with a stop command and the completion of a write.
abbrev stopping : Fabric
stopping = record control_sent { poll_cq = answer }

abbrev has_returned : {A : Type 0} → Outcome A → Bool
has_returned (done a m) = true
has_returned fault = false
has_returned spin = false

ends_at :
    {A : Type 0} (r : Outcome A) (a : A) (n : Node)
    → has_returned r ≡ true
    → r ≡ done (value_of r a) (end_of r n)
ends_at (done a m) b n h = refl
ends_at fault b n h = cc
ends_at spin b n h = cc

abbrev whole_run : Outcome (ℤ × Loop)
whole_run = run stopping clock_at 1 (at_start (pos 0)) (client (pos 0))

abbrev at_end : ℤ × Loop
at_end = value_of whole_run (pos 0, at_start (pos 0))

run-books_example :
    (rows : List (List Transfer)) × (tr : Trace (first_tally (pos 0) (pos 0) 1) at_end.1.tally rows)
    × ((j : ℕ)
        → (completions_at j at_end.1.tally.transfer ≡ pos (count_of tr j))
          × (completions_at j (on_stop at_end.1.tally).delta ≡ pos (count_of tr j))
          × (total_at j ((on_checkpoint at_end.1.tally).delta ∷ rows) ≡ pos (count_of tr j)))
unfolding run turn check_comp on_command poll_sent first_tally
run-books_example =
    run-books stopping clock_at (pos 0) (pos 0) 1 1 new_clock (at_start (pos 0)) (client (pos 0))
      (end_of whole_run (client (pos 0))) at_end.0 at_end.1 refl
      (ends_at whole_run (pos 0, at_start (pos 0)) (client (pos 0)) refl)

abbrev command_alone : List Call → Queue → CqReply
command_alone l tx = record (answer l tx) { status = negsuc 10 }
command_alone l rx = answer l rx

-- A network on which no write completes, with a stop command.
abbrev ordering : Fabric
ordering = record control_sent { poll_cq = command_alone }

-- The loop after five writes, before the stop.
abbrev five_written : Loop
five_written = record (at_start (pos 0)) {
  tally = record {
    temp = empty_row ∷ [];
    transfer = record empty_row { completions = pos 5 } ∷ [];
    delta = empty_row ∷ [];
    timer = new_clock;
  };
}

run-stop_example :
    (rows : List Transfer) × (l : Loop) × (m : Node) × (run ordering clock_at 1 five_written
        (client (pos 0))
      ≡ done (pos 0, l) m)
    × (m.log ≡ cq_read tx ∷ send cep 40 (transfers rows) ∷ clock_gettime ∷ cq_read rx ∷ [])
    × IsTotals
        (get_delta (stop (clock_at (cq_read rx ∷ [])) new_clock).1)
        five_written.tally.transfer
        five_written.tally.delta
        rows
run-stop_example =
    run-stop ordering clock_at 0 five_written (client (pos 0)) refl refl refl (omega arith) refl
      (λ k c. refl) (λ c. refl)

run-tx_count_example :
    (a : ℕ) × (sum_of at_end.1.tally.transfer ≡ pos a)
    × (tx_count stopping (end_of whole_run (client (pos 0))).log ≡ 0 + a)
unfolding run turn check_comp on_command poll_sent first_tally ◌+ℤ◌
run-tx_count_example =
    run-tx_count stopping clock_at 1 (at_start (pos 0)) (client (pos 0))
      (end_of whole_run (client (pos 0))) at_end.0 at_end.1 refl
      (ends_at whole_run (pos 0, at_start (pos 0)) (client (pos 0)) refl)
