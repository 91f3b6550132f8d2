-- ===== src/Node/Client/Benchmark/Refine.antt =====
-- The loop of `Node::benchmark` against the abstract view of its counters.
use libfabric_benchmark.Base.{
  ℕ, zero, suc, List, [], ◌∷◌, Option, none, some, ◌≡◌, refl, inl, inr, Bool, true, ◌==◌, leb,
  if◌then◌else◌, Bool-cases, Option-cases,
}
use libfabric_benchmark.Base.Int.{ℤ, pos, negsuc, is_nonzero, is_positive, ◌==ℤ◌}
use libfabric_benchmark.Config.{Transfer, bm_stop, bm_checkpoint, sizeof_int}
use libfabric_benchmark.Clock.{Clock, Timespec, stop, get_delta}
use libfabric_benchmark.Fabric.{Fabric, tx, rx, cep, first_int, Call, Completion}
use libfabric_benchmark.Machine.{Node, done, deref, ◌>>=◌, eps_at, pure}
use libfabric_benchmark.Machine.Ensures.{Ensures, returns, faults, spins, bind, always, returned}
use libfabric_benchmark.Poll.{check_comp}
use libfabric_benchmark.Endpoint.{ctrl_recv, ctrl_send, rdma_write}
use libfabric_benchmark.Node.{row_bytes}
use libfabric_benchmark.Node.Client.Benchmark.{
  Tally, Loop, first_tally, on_stop, on_checkpoint, count_completion, switch, send_rows, reply,
  on_command, count_and_write, on_sent, poll_sent, turn, run,
}
use libfabric_benchmark.Node.Client.Benchmark.Trace.{
  Trace, begin, counted, timed, ticked, reported, stopped, count_of, completions_at, total_at,
}
use libfabric_benchmark.Node.Client.Benchmark.Books.{transfer-count_of, rows-count_of}

-- The tally of a loop was reached from `s₀` by steps of the abstract view.
abbrev pub Reached : Tally → Tally → Type 0
Reached s₀ s = (rows : List (List Transfer)) × Trace s₀ s rows

module _ (fabric : Fabric) (now : List Call → Option Timespec) {s₀ : Tally} where
  switch-Reached :
      (c : ℤ) (s : Tally) (n : Node)
      → Reached s₀ s
      → Ensures (λ s' m. Reached s₀ s') (switch fabric now c s n)
  unfolding switch ctrl_recv
  switch-Reached c s n (rows, tr) = elim (Bool-cases (c ==ℤ bm_stop)) [
    | inl is_stop ↦ rw is_stop (returns (rows, stopped tr refl))
    | inr not_stop ↦ rw not_stop (elim (Bool-cases (c ==ℤ bm_checkpoint)) [
      | inl is_check ↦
          rw is_check
            (returns (_, reported (ticked tr (stop (now n.log) s.timer).1 refl) refl refl))
      | inr unknown ↦ rw unknown (returns (rows, tr))
    ])
  ]

  send_rows-Reached :
      (s : Tally) (n : Node)
      → Reached s₀ s
      → Ensures (λ p m. Reached s₀ p.1) (send_rows fabric now s n)
  unfolding send_rows ctrl_send
  send_rows-Reached s n h = elim (Bool-cases (leb (row_bytes n.config) n.config.ctrl_size)) [
    | inl fits ↦ rw fits (returns h)
    | inr over ↦ rw over faults
  ]

  reply-Reached :
      (c : ℤ) (s : Tally) (n : Node)
      → Reached s₀ s
      → Ensures (λ p m. Reached s₀ p.1) (reply fabric now c s n)
  unfolding reply
  reply-Reached c s n h = bind (switch-Reached c s n h) (λ s' m k. send_rows-Reached s' m k)

  on_command-Reached :
      (e : Completion) (s : Tally) (n : Node)
      → Reached s₀ s
      → Ensures (λ p m. Reached s₀ p.2) (on_command fabric now e s n)
  unfolding on_command
  on_command-Reached e s n (rows, tr) = elim (Bool-cases (e.len == sizeof_int)) [
    | inr wrong ↦ rw wrong (returns (rows, tr))
    | inl right ↦
        let c = (stop (now n.log) s.timer).1 in
        rw right (
          bind
            (reply-Reached (first_int (n.endpoint cep).ctrl_buff) _ _
              (rows, timed tr (get_delta c) c refl))
            (λ p m k. returns k))
  ]

  count_and_write-Reached :
      (id : ℤ) (s : Tally) (n : Node)
      → Reached s₀ s
      → Ensures (λ s' m. Reached s₀ s') (count_and_write fabric now id s n)
  unfolding count_and_write
  count_and_write-Reached (negsuc k) s n h = unfold count_completion in faults
  count_and_write-Reached (pos i) s n (rows, tr) =
      elim (Option-cases (count_completion (pos i) s)) [
        | inl out ↦ rw (out, count_and_write) faults
        | inr (s', e) ↦
            rw (e, count_and_write)
              (bind {P = λ r m. Unit {0}} (always (eps_at (pos i) n) (λ _ _. tt)) (λ r m _.
                bind {P = λ r m. Unit {0}} (always (rdma_write fabric r m) (λ _ _. tt))
                  (λ ret m' _. returns (rows, counted tr i e))))
      ]

  on_sent-Reached :
      (l : Loop) (e : Completion) (n : Node)
      → Reached s₀ l.tally
      → Ensures (λ l' m. Reached s₀ l'.tally) (on_sent fabric now l e n)
  unfolding on_sent
  on_sent-Reached l e n h =
      bind (count_and_write-Reached (deref e.op_context n).id l.tally n h) (λ s m k. returns k)

  poll_sent-Reached :
      (l : Loop) (n : Node)
      → Reached s₀ l.tally
      → Ensures (λ l' m. Reached s₀ l'.tally) (poll_sent fabric now l n)
  unfolding poll_sent
  poll_sent-Reached l n h =
      bind {P = λ p m. Unit {0}} (always (check_comp fabric tx l.entry n) (λ _ _. tt)) λ p m _.
        elim (Bool-cases (is_positive p.0)) [
          | inr idle ↦ rw idle (returns h)
          | inl hit ↦ rw hit (elim (Option-cases p.1) [
            | inl no_entry ↦ rw no_entry faults
            | inr (e, is_e) ↦ rw is_e (on_sent-Reached l e m h)
          ])
        ]

  commanded :
      (l : Loop) (e : Completion) (c : ℤ × Bool × Tally) (m : Node)
      → Reached s₀ c.2
      → Ensures {A = Option ℤ × Bool × Loop}
          (λ t m'. Reached s₀ t.2.tally)
          ((let l' = record l { tally = c.2; entry = some e } in
              if is_nonzero c.0
              then pure (some c.0, true, l')
              else (poll_sent fabric now l' >>= λ l''. pure (none, c.1, l'')))
            m)
  commanded l e c m k = elim (Bool-cases (is_nonzero c.0)) [
    | inl bad ↦ rw bad (returns k)
    | inr good ↦ rw good (
        bind (poll_sent-Reached (record l { tally = c.2; entry = some e }) m k)
          (λ l' m' k'. returns k'))
  ]

  turn-Reached :
      (l : Loop) (n : Node)
      → Reached s₀ l.tally
      → Ensures {A = Option ℤ × Bool × Loop} (λ t m. Reached s₀ t.2.tally) (turn fabric now l n)
  unfolding turn
  turn-Reached l n h =
      bind {P = λ p m. Unit {0}} (always (check_comp fabric rx l.entry n) (λ _ _. tt)) λ p m _.
        elim (Bool-cases (is_positive p.0)) [
          | inr idle ↦
              rw idle
                (bind (poll_sent-Reached (record l { entry = p.1 }) m h) (λ l' m' k. returns k))
          | inl hit ↦ rw hit (elim (Option-cases p.1) [
            | inl no_entry ↦ rw no_entry faults
            | inr (e, is_e) ↦ rw is_e (bind (on_command-Reached e l.tally m h) (commanded l e))
          ])
        ]

  -- Whatever the network and the clock do, the counters with which the benchmark's loop returns were
  -- reached from the first ones by steps of the abstract view.
  pub run-Reached :
      (turns : ℕ) (l : Loop) (n : Node)
      → Reached s₀ l.tally
      → Ensures (λ p m. Reached s₀ p.1.tally) (run fabric now turns l n)
  unfolding run
  run-Reached zero l n h = spins
  run-Reached (suc turns) l n h = bind (turn-Reached l n h) λ t m k. elim (Option-cases t.0) [
    | inr (ret, is_ret) ↦ rw is_ret (returns k)
    | inl go_on ↦ rw go_on (elim (Bool-cases t.1) [
      | inl ended ↦ rw ended (returns k)
      | inr more ↦ rw more (run-Reached turns t.2 m k)
    ])
  ]

-- Whatever the network and the clock do: if the loop of benchmark returns, with the stop command
-- or with an error, its counters come from the first ones by steps of an abstract trace, and for
-- each server the counter, the row of a stop and the sum of all checkpoint rows with one more
-- checkpoint all equal the number of completions that the trace has counted for it. The trace is
-- not tied to the messages.
pub run-books :
    (fabric : Fabric) (now : List Call → Option Timespec) (from unset : ℤ) (num turns : ℕ)
    (clock : Clock) (l : Loop) (n m : Node) (ret : ℤ) (l' : Loop)
    → l.tally ≡ record (first_tally from unset num) { timer = clock }
    → run fabric now turns l n ≡ done (ret, l') m
    → (rows : List (List Transfer)) × (tr : Trace (first_tally from unset num) l'.tally rows)
      × ((j : ℕ)
          → (completions_at j l'.tally.transfer ≡ pos (count_of tr j))
            × (completions_at j (on_stop l'.tally).delta ≡ pos (count_of tr j))
            × (total_at j ((on_checkpoint l'.tally).delta ∷ rows) ≡ pos (count_of tr j)))
run-books fabric now from unset num turns clock l n m ret l' start e =
    let (rows, tr) = returned (run-Reached fabric now turns l n ([], ticked begin clock start)) e in
    (
      rows,
      tr,
      λ j. (
        transfer-count_of from unset num j tr,
        (rows-count_of from unset num j tr).1,
        (rows-count_of from unset num j tr).0,
      ),
    )
