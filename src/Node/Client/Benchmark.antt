-- ===== src/Node/Client/Benchmark.antt =====
-- `Node::benchmark` of CBM_Benchmark/Node.cpp: the client keeps its writes in flight, counts their
-- completions for each server, and answers the controller's commands with a row of transfers.
pub mod Trace
pub mod Refine
pub mod ControlMessage
pub mod Books
pub mod Overflow
pub mod Stopping
pub mod TxCount
pub mod Counted
pub mod Conversation
pub mod Saying
pub mod Answering
use libfabric_benchmark.Base.{
  ℕ, zero, suc, ◌+◌, List, [], ◌∷◌, map, Option, none, some, Bool, true, false, leb, ltb, ◌==◌,
  if◌then◌else◌, get_elem?, set, range,
}
use libfabric_benchmark.Base.Int.{ℤ, pos, negsuc, is_nonzero, is_positive, ◌+ℤ◌, ◌-ℤ◌, ◌==ℤ◌}
use libfabric_benchmark.Config.{Config, Transfer, bm_stop, bm_checkpoint, sizeof_int}
use libfabric_benchmark.Clock.{Clock, Timespec, new_clock, start, stop, get_delta}
use libfabric_benchmark.Fabric.{
  Fabric, tx, rx, Ref, cep, first_int, transfers, Call, clock_gettime, Context, Completion,
}
use libfabric_benchmark.Machine.{
  Endpoint, Node, Outcome, done, fault, spin, Run, pure, abort, and_then, ◌>>=◌, ◌>>◌, or_return,
  get, modify, note, eps, eps_at, deref, free_ctx, for_each,
}
use libfabric_benchmark.Poll.{check_comp}
use libfabric_benchmark.Endpoint.{ctrl_recv, ctrl_send, rdma_write}
use libfabric_benchmark.Node.{rounds, row_bytes}

-- The local variables of the loop: the three arrays, with one transfer for each server, and the timer.
pub record Tally : Type 0 where
  pub temp : List Transfer
  pub transfer : List Transfer
  pub delta : List Transfer
  pub timer : Clock

-- The first rows. Of `delta_sec` only that of `temp` is set: the code assigns it three times, and
-- leaves the other two arrays with what the memory holds, here `unset`.
abbrev pub first_row : ℤ → ℤ → ℕ → Transfer
first_row from delta_sec i = record {
  from = from;
  to = pos i;
  delta_sec = delta_sec;
  time_sec = pos 0;
  completions = pos 0;
}

unfoldable pub first_tally : ℤ → ℤ → ℕ → Tally
first_tally from unset num = record {
  temp = map (first_row from (pos 0)) (range 0 num);
  transfer = map (first_row from unset) (range 0 num);
  delta = map (first_row from unset) (range 0 num);
  timer = new_clock;
}

-- `transfer[i].time_sec = time_` for each i.
unfoldable pub stamp : ℤ → List Transfer → List Transfer
stamp t [] = []
stamp t (r ∷ rs) = record r { time_sec = t } ∷ stamp t rs

-- `case BM_STOP`: the row for each server holds the totals.
unfoldable pub stop_rows : List Transfer → List Transfer → List Transfer
stop_rows (t ∷ ts) (d ∷ ds) =
    record d { time_sec = t.time_sec; delta_sec = t.time_sec; completions = t.completions }
    ∷ stop_rows ts ds
stop_rows ts ds = []

-- `case BM_CHECKPOINT`: the row for each server holds what is new since the last checkpoint.
unfoldable pub checkpoint_rows : List Transfer → List Transfer → List Transfer → List Transfer
checkpoint_rows (p ∷ ps) (t ∷ ts) (d ∷ ds) =
    record d {
      delta_sec = t.time_sec -ℤ p.time_sec;
      time_sec = t.time_sec;
      completions = t.completions -ℤ p.completions;
    }
    ∷ checkpoint_rows ps ts ds
checkpoint_rows ps ts ds = []

-- `temp[i]` takes the time and the count of `transfer[i]`.
unfoldable pub remember : List Transfer → List Transfer → List Transfer
remember (p ∷ ps) (t ∷ ts) =
    record p { time_sec = t.time_sec; completions = t.completions } ∷ remember ps ts
remember ps ts = []

unfoldable pub on_stop : Tally → Tally
unfolding stop_rows
on_stop s = record s { delta = stop_rows s.transfer s.delta }

unfoldable pub on_checkpoint : Tally → Tally
unfolding checkpoint_rows remember
on_checkpoint s = record s {
  delta = checkpoint_rows s.temp s.transfer s.delta;
  temp = remember s.temp s.transfer;
}

-- `transfer[id].completions++`: none out of range.
unfoldable pub count_completion : ℤ → Tally → Option Tally
count_completion (negsuc k) s = none
count_completion (pos i) s = elim (get_elem? s.transfer i) [
  | none ↦ none
  | some t ↦
      some (record s {
        transfer = set s.transfer i (record t { completions = t.completions +ℤ pos 1 });
      })
]

-- What the loop carries from turn to turn.
pub record Loop : Type 0 where
  pub tally : Tally
  pub entry : Option Completion
  pub ctx : Option Context

module _ (fabric : Fabric) (now : List Call → Option Timespec) where
  abbrev stop_timer : Tally → Run Tally
  stop_timer s n = done (record s { timer = (stop (now n.log) s.timer).1 }) (note clock_gettime n)

  -- The switch over the command. For a checkpoint the time is taken again, and the receive for the
  -- next command is posted, whose result is only printed.
  unfoldable pub switch : ℤ → Tally → Run Tally
  unfolding on_stop on_checkpoint ctrl_recv
  switch c s =
      if c ==ℤ bm_stop
      then pure (on_stop s)
      else if c ==ℤ bm_checkpoint
      then (do s' ← stop_timer s; ret ← ctrl_recv fabric cep sizeof_int; pure (on_checkpoint s'))
      else pure s

  -- `delta` is copied to the control buffer, a fault if it does not fit, and sent.
  unfoldable pub send_rows : Tally → Run (ℤ × Tally)
  unfolding ctrl_send
  send_rows s n =
      (if leb (row_bytes n.config) n.config.ctrl_size
          then (do
            modify cep (λ e. record e { ctrl_buff = transfers s.delta })
            ret ← ctrl_send fabric cep (row_bytes n.config)
            pure (ret, s))
          else abort)
        n

  -- The answer to a command, known or not.
  unfoldable pub reply : ℤ → Tally → Run (ℤ × Tally)
  unfolding switch send_rows
  reply c s = switch c s >>= send_rows

  -- A completed receive: the time is taken, and the command is answered. The result is the code's
  -- `return`, if there is one, or whether to stop.
  unfoldable pub on_command : Completion → Tally → Run (ℤ × Bool × Tally)
  unfolding stamp get_delta stop reply
  on_command entry s = get >>= λ n.
      if entry.len == sizeof_int
      then (let c = first_int (n.endpoint cep).ctrl_buff in
          do
            s' ← stop_timer s
            p ← reply c (record s' { transfer = stamp (get_delta s'.timer) s'.transfer })
            pure (p.0, c ==ℤ bm_stop, p.1))
      else pure (negsuc 0, false, s)

  -- `transfer[id].completions++` and the next write to `eps[id]`, whose result is not looked at.
  unfoldable pub count_and_write : ℤ → Tally → Run Tally
  unfolding count_completion rdma_write
  count_and_write id s = elim (count_completion id s) [
    | none ↦ abort
    | some s' ↦ eps_at id >>= λ r. rdma_write fabric r >>= λ ret. pure s'
  ]

  -- A completion of the transmit queue, for the server that its context names. Every completion
  -- counts, also that of a control message.
  unfoldable pub on_sent : Loop → Completion → Run Loop
  unfolding count_and_write
  on_sent l e n =
      (count_and_write (deref e.op_context n).id l.tally >>= λ s.
      pure (record l { tally = s; entry = some e; ctx = some e.op_context }))
        n

  -- The second half of a turn: one poll of the transmit queue.
  unfoldable pub poll_sent : Loop → Run Loop
  unfolding check_comp on_sent
  poll_sent l = check_comp fabric tx l.entry >>= λ p.
      if is_positive p.0
      then elim p.1 [ none ↦ abort | some e ↦ on_sent l e ]
      else pure (record l { entry = p.1 })

  -- One turn of the loop: a result to return, or none, and whether the loop has ended.
  unfoldable pub turn : Loop → Run (Option ℤ × Bool × Loop)
  unfolding check_comp on_command poll_sent
  turn l = check_comp fabric rx l.entry >>= λ p.
      if is_positive p.0
      then elim p.1 [
        | none ↦ abort
        | some e ↦ on_command e l.tally >>= λ c.
            let l' = record l { tally = c.2; entry = some e } in
            if is_nonzero c.0
            then pure (some c.0, true, l')
            else (poll_sent l' >>= λ l''. pure (none, c.1, l''))
      ]
      else (poll_sent (record l { entry = p.1 }) >>= λ l''. pure (none, false, l''))

  -- `while (!stop)`
  unfoldable pub run : ℕ → Loop → Run (ℤ × Loop)
  unfolding turn
  run zero l = λ n. spin
  run (suc turns) l = turn l >>= λ t. elim t.0 [
    | some ret ↦ pure (ret, t.2)
    | none ↦ if t.1 then pure (pos 0, t.2) else run turns t.2
  ]

  -- Ten rounds of one write to each server, whose results are not looked at.
  unfoldable pub fill_queue : ℕ → ℕ → Run (Unit {0})
  unfolding for_each rdma_write
  fill_queue zero num = pure tt
  fill_queue (suc queuesize) num =
      for_each 0 num (λ j. eps j >>= λ r. rdma_write fabric r >>= λ ret. pure (pos 0))
      >> fill_queue queuesize num

  -- `benchmark`
  unfoldable pub benchmark : ℤ → ℕ → Run ℤ
  unfolding first_tally ctrl_recv start fill_queue run
  benchmark unset turns = get >>= λ n.
      let num = rounds n.config.num_pn in
      ctrl_recv fabric cep 0 >>= λ ret. get >>= λ m.
      let s = first_tally (m.endpoint cep).id unset num in
      let s' = record s { timer = (start (now m.log) s.timer).1 } in
      (λ k. done tt (note clock_gettime k))
      >> fill_queue 10 num
      >> run turns (record { tally = s'; entry = none; ctx = none })
      >>= λ p. elim p.1.ctx [
        | none ↦ pure p.0
        | some c ↦ (do (if is_nonzero p.0 then pure tt else free_ctx c); pure p.0)
      ]
