-- ===== src/Node/Client/Benchmark/Stopping.antt =====
-- How the benchmark's loop ends: the stop command.
use mathlib.Core.Path.{ap₂}
use libfabric_benchmark.Base.{
  ℕ, suc, ◌≤◌, List, [], ◌∷◌, map, replicate, length, Option, some, ◌≡◌, refl, ap, sym, subst, true,
  leb, le→leb, arith,
}
use libfabric_benchmark.Base.Int.{ℤ, pos, ◌==ℤ◌, eq→==ℤ}
use libfabric_benchmark.Config.{Config, Transfer, bm_stop, sizeof_int}
use libfabric_benchmark.Clock.{Timespec, stop, get_delta}
use libfabric_benchmark.Fabric.{
  Fabric, Queue, tx, rx, cep, first_int, transfers, Call, send, cq_read, clock_gettime, Completion,
}
use libfabric_benchmark.Machine.{Node, done, note, and_then, update}
use libfabric_benchmark.Poll.{sort, ready, retry, deliver, check_comp}
use libfabric_benchmark.Endpoint.{ctrl_send, or_ctrl_size, to_int}
use libfabric_benchmark.Node.{row_bytes}
use libfabric_benchmark.Node.Client.Benchmark.ControlMessage.{deliver_keeps}
use libfabric_benchmark.Node.Client.Benchmark.{
  Tally, Loop, stamp, stop_rows, on_stop, switch, send_rows, reply, on_command, poll_sent, turn,
  run,
}

-- The node after the poll that has delivered the command.
abbrev pub commanded : Fabric → Node → Node
commanded fabric n = deliver (fabric.poll_cq n.log rx) (note (cq_read rx) n)

-- The tally at the moment that the command is answered.
abbrev pub timed_tally : Option Timespec → Tally → Tally
timed_tally time s =
    let timer = (stop time s.timer).1 in
    record s { timer = timer; transfer = stamp (get_delta timer) s.transfer }

module _ (fabric : Fabric) (now : List Call → Option Timespec) where
  pub ready_entry :
      (q : Queue) (entry : Option Completion) (n : Node)
      → sort (fabric.poll_cq n.log q).status ≡ ready
      → check_comp fabric q entry n
        ≡ done
            (pos 1, some (fabric.poll_cq n.log q).entry)
            (deliver (fabric.poll_cq n.log q) (note (cq_read q) n))
  unfolding check_comp
  ready_entry q entry n h = ground (arith, h)

  pub no_entry :
      (q : Queue) (entry : Option Completion) (n : Node)
      → sort (fabric.poll_cq n.log q).status ≡ retry
      → check_comp fabric q entry n ≡ done (pos 0, entry) (note (cq_read q) n)
  unfolding check_comp
  no_entry q entry n h = ground (arith, h)

  idle :
      (l : Loop) (n : Node)
      → sort (fabric.poll_cq n.log tx).status ≡ retry
      → poll_sent fabric now l n ≡ done l (note (cq_read tx) n)
  unfolding poll_sent
  idle l n h = rw (no_entry tx l.entry n h)

  -- The node after the rows were sent.
  abbrev answered : Tally → Node → Node
  answered s n =
      let m = update cep (λ e. record e { ctrl_buff = transfers s.delta }) n in
      let k =
        update cep
          (λ e. record e {
            c_ctx = record (e.c_ctx) { size = to_int (or_ctrl_size (row_bytes n.config) n.config) };
          })
          m in
      note (send cep (or_ctrl_size (row_bytes n.config) n.config) (transfers s.delta)) k

  send_rows-done :
      (s : Tally) (n : Node)
      → leb (row_bytes n.config) n.config.ctrl_size ≡ true
      → ((l : List Call) (c : Call) → fabric.result l c ≡ pos 0)
      → send_rows fabric now s n ≡ done (pos 0, s) (answered s n)
  unfolding send_rows ctrl_send
  send_rows-done s n fits ok = rw (fits, ok)

  on_command-stop :
      (e : Completion) (s : Tally) (n : Node)
      → e.len ≡ sizeof_int
      → (first_int (n.endpoint cep).ctrl_buff ==ℤ bm_stop) ≡ true
      → leb (row_bytes n.config) n.config.ctrl_size ≡ true
      → ((l : List Call) (c : Call) → fabric.result l c ≡ pos 0)
      → on_command fabric now e s n
        ≡ done
            (pos 0, true, on_stop (timed_tally (now n.log) s))
            (answered (on_stop (timed_tally (now n.log) s)) (note clock_gettime n))
  unfolding on_command reply switch
  on_command-stop e s n len is_stop fits ok = rw (
    len,
    is_stop,
    send_rows-done (on_stop (timed_tally (now n.log) s)) (note clock_gettime n) fits ok,
  )

-- The rows of a stop, column by column: the counts of the counters, the time twice, and the two ends
-- as they were set.
pub record IsTotals (time : ℤ) (counters old rows : List Transfer) : Type 0 where
  pub counts : map (λ r. r.completions) rows ≡ map (λ r. r.completions) counters
  pub times : map (λ r. r.time_sec) rows ≡ replicate (length counters) time
  pub deltas : map (λ r. r.delta_sec) rows ≡ replicate (length counters) time
  pub senders : map (λ r. r.from) rows ≡ map (λ r. r.from) old
  pub receivers : map (λ r. r.to) rows ≡ map (λ r. r.to) old

stop_rows-IsTotals :
    (time : ℤ) (ts ds : List Transfer)
    → length ds ≡ length ts
    → IsTotals time ts ds (stop_rows (stamp time ts) ds)
unfolding stop_rows stamp
stop_rows-IsTotals time [] [] e = record {
  counts = refl;
  times = refl;
  deltas = refl;
  senders = refl;
  receivers = refl;
}
stop_rows-IsTotals time [] (d ∷ ds) e = absurd (omega arith)
stop_rows-IsTotals time (t ∷ ts) [] e = absurd (omega arith)
stop_rows-IsTotals time (t ∷ ts) (d ∷ ds) e =
    let h = stop_rows-IsTotals time ts ds (omega arith) in
    record {
      counts = ap (λ l. t.completions ∷ l) h.counts;
      times = ap (λ l. time ∷ l) h.times;
      deltas = ap (λ l. time ∷ l) h.deltas;
      senders = ap (λ l. d.from ∷ l) h.senders;
      receivers = ap (λ l. d.to ∷ l) h.receivers;
    }

-- When the next receive brings the stop command, the poll of the transmit queue right after the
-- answer has no completion, the client's row fits the control buffer, the library's calls
-- succeed, and there is a place in the row for each counter, then the loop returns 0 in this
-- turn: since the receive was read it has read the clock, sent one row of transfers to the
-- controller, and polled the transmit queue once, and nothing else. The row holds the counts of
-- the counters, as both of its times the time of getDelta at the command, and the clients and
-- servers that it held before.
pub run-stop :
    (fabric : Fabric) (now : List Call → Option Timespec) (turns : ℕ) (l : Loop) (n : Node)
    → sort (fabric.poll_cq n.log rx).status ≡ ready
    → (fabric.poll_cq n.log rx).entry.len ≡ sizeof_int
    → first_int ((commanded fabric n).endpoint cep).ctrl_buff ≡ bm_stop
    → row_bytes n.config ≤ n.config.ctrl_size
    → length l.tally.delta ≡ length l.tally.transfer
    → ((k : List Call) (c : Call) → fabric.result k c ≡ pos 0)
    → ((c : Call)
        → sort (fabric.poll_cq (c ∷ clock_gettime ∷ cq_read rx ∷ n.log) tx).status ≡ retry)
    → (rows : List Transfer) × (l' : Loop) × (m : Node) × (run fabric now (suc turns) l n
        ≡ done (pos 0, l') m)
      × (m.log
          ≡ cq_read tx
            ∷ send cep (or_ctrl_size (row_bytes n.config) n.config) (transfers rows)
            ∷ clock_gettime
            ∷ cq_read rx
            ∷ n.log)
      × IsTotals
          (get_delta (stop (now (cq_read rx ∷ n.log)) l.tally.timer).1)
          l.tally.transfer
          l.tally.delta
          rows
unfolding run turn on_stop
run-stop fabric now turns l n comes len is_stop fits same_length ok quiet =
    let m = commanded fabric n in
    let kept = deliver_keeps (fabric.poll_cq n.log rx) (note (cq_read rx) n) cep in
    let s = on_stop (timed_tally (now m.log) l.tally) in
    let e = (fabric.poll_cq n.log rx).entry in
    let small = le→leb (row_bytes m.config) m.config.ctrl_size (rw kept.1 fits) in
    let m' = answered fabric now s (note clock_gettime m) in
    let time = λ (k : List Call). get_delta (stop (now k) l.tally.timer).1 in
    (
      s.delta,
      record l { tally = s; entry = some e },
      note (cq_read tx) m',
      rw (
        ready_entry fabric now rx l.entry n comes,
        and_then,
        on_command-stop fabric now e l.tally m len
            (eq→==ℤ (first_int (m.endpoint cep).ctrl_buff) bm_stop is_stop) small ok,
        idle fabric now (record l { tally = s; entry = some e }) m'
            (subst (λ k. sort (fabric.poll_cq (sent s m ∷ clock_gettime ∷ k) tx).status ≡ retry)
              (sym kept.0) (quiet (sent s m))),
      ),
      ap₂
          (λ (c : Config) k.
            cq_read tx
            ∷ send cep (or_ctrl_size (row_bytes c) c) (transfers s.delta)
            ∷ clock_gettime
            ∷ k)
          kept.1 kept.0,
      subst (λ k. IsTotals (time k) l.tally.transfer l.tally.delta s.delta) kept.0
          (stop_rows-IsTotals (time m.log) l.tally.transfer l.tally.delta same_length),
    )
  where
    sent : Tally → Node → Call
    sent s m = send cep (or_ctrl_size (row_bytes m.config) m.config) (transfers s.delta)
