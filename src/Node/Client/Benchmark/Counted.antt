-- ===== src/Node/Client/Benchmark/Counted.antt =====
-- The counters of `Node::benchmark` and the completions read from the transmit queue.
use libfabric_benchmark.Base.{
  ℕ, zero, suc, ◌+◌, List, Option, none, some, ◌≡◌, ◌∙◌, ap, Bool, true, Bool-cases, Option-cases,
  inl, inr, get_elem?, ◌==◌, leb, if◌then◌else◌, arith,
}
use libfabric_benchmark.Base.Int.{ℤ, pos, negsuc, is_nonzero, is_positive, ◌+ℤ◌, ◌==ℤ◌, int_laws}
use libfabric_benchmark.Config.{bm_stop, bm_checkpoint, sizeof_int}
use libfabric_benchmark.Clock.{Timespec, stop, get_delta}
use libfabric_benchmark.Fabric.{Fabric, cep, peer, first_int, Call, Completion}
use libfabric_benchmark.Machine.{Node, done, deref, pure, ◌>>=◌}
use libfabric_benchmark.Machine.Ensures.{Ensures, returns, faults, spins, bind, returned, eps-rule}
use libfabric_benchmark.Endpoint.{ctrl_recv, ctrl_send}
use libfabric_benchmark.Node.{row_bytes}
use libfabric_benchmark.Node.Client.Benchmark.{
  Tally, Loop, on_stop, on_checkpoint, count_completion, switch, send_rows, reply, on_command,
  count_and_write, on_sent, poll_sent, turn, run,
}
use libfabric_benchmark.Node.Client.Benchmark.Stopping.{no_entry}
use libfabric_benchmark.Node.Client.Benchmark.TxCount.{
  sum_of, tx_count, sum_of-set, sum_of-stamp, rx_poll, tx_poll, rdma_write-tx_count,
}

module _ (fabric : Fabric) (now : List Call → Option Timespec) (base : ℕ) where
  -- All completions since the base are in the counters.
  abbrev Balanced : Tally → Node → Type 0
  Balanced s n = (a : ℕ) × (sum_of s.transfer ≡ pos a) × (tx_count fabric n.log ≡ base + a)

  switch-Balanced :
      (c : ℤ) (s : Tally) (n : Node)
      → Balanced s n
      → Ensures (λ s' m. Balanced s' m) (switch fabric now c s n)
  unfolding switch ctrl_recv on_stop on_checkpoint
  switch-Balanced c s n h = elim (Bool-cases (c ==ℤ bm_stop)) [
    | inl is_stop ↦ rw is_stop (returns h)
    | inr not_stop ↦ rw not_stop (elim (Bool-cases (c ==ℤ bm_checkpoint)) [
      | inl is_check ↦ rw is_check (returns h)
      | inr unknown ↦ rw unknown (returns h)
    ])
  ]

  send_rows-Balanced :
      (s : Tally) (n : Node)
      → Balanced s n
      → Ensures (λ p m. Balanced p.1 m) (send_rows fabric now s n)
  unfolding send_rows ctrl_send
  send_rows-Balanced s n h = elim (Bool-cases (leb (row_bytes n.config) n.config.ctrl_size)) [
    | inl fits ↦ rw fits (returns h)
    | inr over ↦ rw over faults
  ]

  on_command-Balanced :
      (e : Completion) (s : Tally) (n : Node)
      → Balanced s n
      → Ensures (λ p m. Balanced p.2 m) (on_command fabric now e s n)
  unfolding on_command reply
  on_command-Balanced e s n h = elim (Bool-cases (e.len == sizeof_int)) [
    | inr wrong ↦ rw wrong (returns h)
    | inl right ↦ rw right (
        bind
          (bind
            (switch-Balanced (first_int (n.endpoint cep).ctrl_buff) _ _
              (h.0, sum_of-stamp (get_delta (stop (now n.log) s.timer).1) s.transfer ∙ h.1, h.2))
            send_rows-Balanced)
          (λ p m k. returns k))
  ]

module _ (fabric : Fabric) (now : List Call → Option Timespec) (base : ℕ) where
  abbrev Fits : Tally → Node → Type 0
  Fits = Balanced fabric now base

  counted_once :
      (i : ℕ) (s s' : Tally)
      → count_completion (pos i) s ≡ some s'
      → sum_of s'.transfer ≡ sum_of s.transfer +ℤ pos 1
  unfolding count_completion
  counted_once i s s' e = elim (Option-cases (get_elem? s.transfer i)) [
    | inl none_there ↦ absurd (ground (arith, none_there, e))
    | inr (t, there) ↦ ground (arith, there, e, sum_of-set i t s.transfer there)
  ]

  -- A completion was read and is not yet counted.
  count_and_write-Balanced :
      (id : ℤ) (s : Tally) (n : Node) (a : ℕ)
      → sum_of s.transfer ≡ pos a
      → tx_count fabric n.log ≡ suc (base + a)
      → Ensures (λ s' m. Fits s' m) (count_and_write fabric now id s n)
  unfolding count_and_write
  count_and_write-Balanced (negsuc k) s n a total count = unfold count_completion in faults
  count_and_write-Balanced (pos i) s n a total count =
      elim (Option-cases (count_completion (pos i) s)) [
        | inl out ↦ rw (out, count_and_write) faults
        | inr (s', e) ↦
            rw (e, count_and_write)
              (eps-rule i n _ (
                bind (rdma_write-tx_count fabric now (peer i) n) (λ ret m same. returns (
                  suc a,
                  counted_once i s s' e ∙ ap (λ k. k +ℤ pos 1) total ∙ one_more a,
                  same ∙ count ∙ omega arith,
                ))))
      ]
    where
      one_more : (a : ℕ) → pos a +ℤ pos 1 ≡ pos (suc a)
      one_more a = grind int_laws

  poll_sent-Balanced :
      (l : Loop) (n : Node)
      → Fits l.tally n
      → Ensures (λ l' m. Fits l'.tally m) (poll_sent fabric now l n)
  unfolding poll_sent on_sent
  poll_sent-Balanced l n (a, total, count) = bind (tx_poll fabric now l.entry n) λ p m read.
      elim (Bool-cases (is_positive p.0)) [
        | inr idle ↦ rw idle (returns (a, total, rw idle at read ∙ count))
        | inl hit ↦ rw hit (elim (Option-cases p.1) [
          | inl no_entry ↦ rw no_entry faults
          | inr (e, is_e) ↦ rw is_e (
              bind
                (count_and_write-Balanced (deref e.op_context m).id l.tally m a total
                  (rw hit at read ∙ ap suc count))
                (λ s k h. returns h))
        ])
      ]

  commanded_turn :
      (l : Loop) (e : Completion) (c : ℤ × Bool × Tally) (m : Node)
      → Fits c.2 m
      → Ensures {A = Option ℤ × Bool × Loop}
          (λ t k. Fits t.2.tally k)
          ((let l' = record l { tally = c.2; entry = some e } in
              if is_nonzero c.0
              then pure (some c.0, true, l')
              else (poll_sent fabric now l' >>= λ l''. pure (none, c.1, l'')))
            m)
  commanded_turn l e c m h = elim (Bool-cases (is_nonzero c.0)) [
    | inl bad ↦ rw bad (returns h)
    | inr good ↦ rw good (
        bind (poll_sent-Balanced (record l { tally = c.2; entry = some e }) m h)
          (λ l' k h'. returns h'))
  ]

  turn-Balanced :
      (l : Loop) (n : Node)
      → Fits l.tally n
      → Ensures {A = Option ℤ × Bool × Loop} (λ t m. Fits t.2.tally m) (turn fabric now l n)
  unfolding turn
  turn-Balanced l n (a, total, count) = bind (rx_poll fabric now l.entry n) λ p m read.
      elim (Bool-cases (is_positive p.0)) [
        | inr idle ↦ rw idle (
            bind (poll_sent-Balanced (record l { entry = p.1 }) m (a, total, read ∙ count))
              (λ l' k h. returns h))
        | inl hit ↦ rw hit (elim (Option-cases p.1) [
          | inl no_entry ↦ rw no_entry faults
          | inr (e, is_e) ↦ rw is_e (
              bind (on_command-Balanced fabric now base e l.tally m (a, total, read ∙ count))
                (commanded_turn l e))
        ])
      ]

  run-Balanced :
      (turns : ℕ) (l : Loop) (n : Node)
      → Fits l.tally n
      → Ensures (λ p m. Fits p.1.tally m) (run fabric now turns l n)
  unfolding run
  run-Balanced zero l n h = spins
  run-Balanced (suc turns) l n h = bind (turn-Balanced l n h) λ t m k. elim (Option-cases t.0) [
    | inr (ret, is_ret) ↦ rw is_ret (returns k)
    | inl go_on ↦ rw go_on (elim (Bool-cases t.1) [
      | inl ended ↦ rw ended (returns k)
      | inr more ↦ rw more (run-Balanced turns t.2 m k)
    ])
  ]

-- Whatever the network and the clock do: if the loop of benchmark starts with counters that add
-- up to 0 and returns, with the stop command or with an error, then its counters add up to the
-- number of completions that it has read from the transmit queue: each is counted once, and
-- nothing else is.
pub run-tx_count :
    (fabric : Fabric) (now : List Call → Option Timespec) (turns : ℕ) (l : Loop) (n m : Node)
    (ret : ℤ) (l' : Loop)
    → sum_of l.tally.transfer ≡ pos 0
    → run fabric now turns l n ≡ done (ret, l') m
    → (a : ℕ) × (sum_of l'.tally.transfer ≡ pos a)
      × (tx_count fabric m.log ≡ tx_count fabric n.log + a)
run-tx_count fabric now turns l n m ret l' start e =
    returned (run-Balanced fabric now (tx_count fabric n.log) turns l n (0, start, omega arith)) e
