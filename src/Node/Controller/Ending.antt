-- ===== src/Node/Controller/Ending.antt =====
-- Whether the controller's functions end: the polls of CBM_Benchmark/Node.cpp.
use libfabric_benchmark.Base.{
  ℕ, zero, suc, ◌+◌, Option, none, some, ◌≢◌, inl, inr, Bool-cases, Option-cases, ◌==◌,
  if◌then◌else◌, ltb, leb, ◌&&◌, ◌*◌, length,
}
use libfabric_benchmark.Base.Int.{ℤ, pos, negsuc, is_nonzero, ◌==ℤ◌}
use libfabric_benchmark.Config.{
  bm_controller, bm_start, bm_connect, bm_connected, bm_checkpoint, sizeof_int,
}
use libfabric_benchmark.Fabric.{Fabric, Queue, tx, rx, Ref, first_int, Completion, Context}
use libfabric_benchmark.Machine.{
  Node, spin, Run, pure, abort, eps, eps_at, deref, free_ctx, ◌>>=◌, ◌>>◌, and_then,
}
use libfabric_benchmark.Machine.Ensures.{
  Ends, ended, faulted, bind-Ends, or_return-Ends, for_each-Ends, ended_or_faulted,
}
use libfabric_benchmark.Poll.Answers.{Answers, wait_comp-Ends}
use libfabric_benchmark.Endpoint.{ctrl_recv, send_command}
use libfabric_benchmark.Node.{in_mode, await_all, row_bytes, rounds}
use libfabric_benchmark.Node.Controller.{
  send_all, recv_all, start_body, connect_body, checkpoint_body, controller_start,
  controller_connect, controller_checkpoint, await_connected, await_rows, take_row, store_rows,
  Table, in_checkpoint, free_var, rows_of, table_of,
}

in_mode-Ends : (mode : ℤ) (body : Run ℤ) (n : Node) → Ends (body n) → Ends (in_mode mode body n)
unfolding in_mode
in_mode-Ends mode body n h = elim (Bool-cases (n.mode ==ℤ mode)) [
  | inl good ↦ rw good h
  | inr bad ↦ rw bad ended
]

eps-Ends : (i : ℕ) (n : Node) → Ends (eps i n)
eps-Ends i n = elim (Bool-cases (ltb i n.eps_size)) [
  | inl inside ↦ rw inside ended
  | inr outside ↦ rw outside faulted
]

eps_at-Ends : (i : ℤ) (n : Node) → Ends (eps_at i n)
eps_at-Ends (pos i) n = eps-Ends i n
eps_at-Ends (negsuc i) n = faulted

send_all-Ends : (fabric : Fabric) (num : ℕ) (c : ℤ) (n : Node) → Ends (send_all fabric num c n)
unfolding send_command
send_all-Ends fabric num c n =
    for_each-Ends (λ i. eps i >>= λ r. send_command fabric r c)
      (λ i m. bind-Ends (eps-Ends i m) (λ r m'. ended)) num 0 n

recv_all-Ends : (fabric : Fabric) (num size : ℕ) (n : Node) → Ends (recv_all fabric num size n)
unfolding ctrl_recv
recv_all-Ends fabric num size n =
    for_each-Ends (λ i. eps i >>= λ r. ctrl_recv fabric r size)
      (λ i m. bind-Ends (eps-Ends i m) (λ r m'. ended)) num 0 n

free_var-Ends : (p : Option Context) (ret : ℤ) (n : Node) → Ends ((free_var p >> pure ret) n)
free_var-Ends none ret n = ended
free_var-Ends (some c) ret n = ended

store_rows-Ends : (t : Table) (id : ℤ) (n : Node) → Ends (store_rows t id n)
unfolding store_rows
store_rows-Ends t (negsuc k) n = faulted
store_rows-Ends t (pos id) n = bind-Ends (eps-Ends id n) λ r m.
    elim (Option-cases (rows_of (rounds m.config.num_pn) (m.endpoint r).ctrl_buff)) [
      | inl bad ↦ rw (bad, and_then) faulted
      | inr (rows, good) ↦
          elim (Bool-cases (
            leb (row_bytes m.config) m.config.ctrl_size
            && leb (id * rounds m.config.num_pn + rounds m.config.num_pn)
                (length (table_of t m)))) [
                  | inl fits ↦ rw (good, and_then, fits) ended
                  | inr over ↦ rw (good, and_then, over) faulted
                ]
    ]

take_row-Ends : (t : Table) (e : Completion) (n : Node) → Ends (take_row t e n)
unfolding take_row
take_row-Ends t e n = elim (Bool-cases (e.len == row_bytes n.config)) [
  | inl row ↦ rw row (store_rows-Ends t (deref e.op_context n).id n)
  | inr short ↦ rw short ended
]

module _ (fabric : Fabric) (bound : ℕ) (h : Answers fabric bound) where
  await_all-Ends :
      (q : Queue) (num : ℕ) (entry : Option Completion) (n : Node)
      → Ends (await_all fabric bound q num entry n)
  unfolding await_all
  await_all-Ends q zero entry n = ended
  await_all-Ends q (suc num) entry n = bind-Ends (wait_comp-Ends fabric bound h q entry n) λ p m.
      elim (Bool-cases (is_nonzero p.0)) [
        | inl bad ↦ rw bad ended
        | inr good ↦ rw good (await_all-Ends q num p.1 m)
      ]

  confirmed-Ends :
      (ret : ℤ) (e : Completion) (rest : Run ℤ) (n m : Node) (r : Ref)
      → Ends (rest m)
      → Ends (
          (if first_int (n.endpoint r).ctrl_buff ==ℤ bm_connected
              then (if is_nonzero ret then free_ctx e.op_context >> pure ret else rest)
              else abort)
            m)
  confirmed-Ends ret e rest n m r k =
      elim (Bool-cases (first_int (n.endpoint r).ctrl_buff ==ℤ bm_connected)) [
        | inr other ↦ rw other faulted
        | inl right ↦
            rw right
              (elim (Bool-cases (is_nonzero ret)) [ inl bad ↦ rw bad ended | inr good ↦ rw good k ])
      ]

  await_connected-Ends :
      (left : ℕ) (entry : Option Completion) (ctx : Option Context) (n : Node)
      → Ends (await_connected fabric bound left entry ctx n)
  unfolding await_connected
  await_connected-Ends zero entry ctx n = free_var-Ends ctx (pos 0) n
  await_connected-Ends (suc left) entry ctx n =
      bind-Ends (wait_comp-Ends fabric bound h rx entry n) λ p m. elim (Option-cases p.1) [
        | inl no_entry ↦ rw no_entry faulted
        | inr (e, is_e) ↦ rw is_e (elim (Bool-cases (e.len == sizeof_int)) [
          | inr wrong ↦ rw wrong ended
          | inl right ↦ rw right (
              bind-Ends (eps_at-Ends (deref e.op_context m).id m) λ r m'.
                confirmed-Ends p.0 e
                  (await_connected fabric bound left (some e) (some e.op_context)) m m' r
                  (await_connected-Ends left (some e) (some e.op_context) m'))
        ])
      ]

  await_rows-Ends :
      (t : Table) (left : ℕ) (entry : Option Completion) (ctx : Option Context) (n : Node)
      → Ends (await_rows fabric bound t left entry ctx n)
  unfolding await_rows
  await_rows-Ends t zero entry ctx n = ended
  await_rows-Ends t (suc left) entry ctx n =
      bind-Ends (wait_comp-Ends fabric bound h rx entry n) λ p m. elim (Option-cases p.1) [
        | inl no_entry ↦ rw no_entry faulted
        | inr (e, is_e) ↦ rw is_e (
            bind-Ends (take_row-Ends t e m) λ _ m'. elim (Bool-cases (is_nonzero p.0)) [
              | inl bad ↦ rw bad ended
              | inr good ↦ rw good (await_rows-Ends t left (some e) (some e.op_context) m')
            ])
      ]

  controller_start-Ends : (n : Node) → Ends (controller_start fabric bound n)
  unfolding controller_start
  controller_start-Ends n =
      let num = rounds n.config.num_en in
      in_mode-Ends bm_controller (start_body fabric bound) n (
        bind-Ends (send_all-Ends fabric num bm_start n)
          λ a m. or_return-Ends a _ m (bind-Ends (await_all-Ends tx num none m) (λ p m'. ended)))

  controller_connect-Ends : (n : Node) → Ends (controller_connect fabric bound n)
  unfolding controller_connect
  controller_connect-Ends n =
      let num = rounds n.config.num_en in
      in_mode-Ends bm_controller (connect_body fabric bound) n (
        bind-Ends (recv_all-Ends fabric num sizeof_int n) λ a m. or_return-Ends a _ m (
          bind-Ends (send_all-Ends fabric num bm_connect m) λ b m'. or_return-Ends b _ m' (
            bind-Ends (await_all-Ends tx num none m')
              λ p m''. or_return-Ends p.0 _ m'' (await_connected-Ends num p.1 none m''))))

  controller_checkpoint-Ends : (n : Node) → Ends (controller_checkpoint fabric bound n)
  unfolding controller_checkpoint
  controller_checkpoint-Ends n =
      let num = rounds n.config.num_en in
      in_mode-Ends bm_controller (checkpoint_body fabric bound) n (
        bind-Ends (recv_all-Ends fabric num (row_bytes n.config) n) λ a m. or_return-Ends a _ m (
          bind-Ends (send_all-Ends fabric num bm_checkpoint m) λ b m'. or_return-Ends b _ m' (
            bind-Ends (await_all-Ends tx num none m') λ p m''. or_return-Ends p.0 _ m'' (
              bind-Ends (await_rows-Ends in_checkpoint num p.1 none m'')
                (λ q m₃. free_var-Ends q.1 q.0 m₃)))))

  -- If each queue answers within a bound of polls, then with that much fuel controllerStart,
  -- controllerConnect and controllerCheckpoint are never left polling, from any node: they return
  -- or go wrong.
  pub controller_ends :
      (n : Node)
      → (controller_start fabric bound n ≢ spin)
        × (controller_connect fabric bound n ≢ spin)
        × (controller_checkpoint fabric bound n ≢ spin)
  controller_ends n = (
    ended_or_faulted _ (controller_start-Ends n),
    ended_or_faulted _ (controller_connect-Ends n),
    ended_or_faulted _ (controller_checkpoint-Ends n),
  )
