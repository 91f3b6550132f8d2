-- ===== src/Node/Controller/Replies.antt =====
-- The traffic of the loops in which the controller awaits the clients' replies.
use libfabric_benchmark.Base.{
  ℕ, zero, suc, ◌+◌, ◌*◌, List, Option, none, some, ◌≡◌, inl, inr, ◌&&◌, leb, length, Bool-cases,
  Option-cases, ◌==◌, if◌then◌else◌,
}
use libfabric_benchmark.Base.Int.{ℤ, pos, negsuc, is_nonzero, ◌==ℤ◌}
use libfabric_benchmark.Config.{Config, bm_connected, sizeof_int, Transfer}
use libfabric_benchmark.Fabric.{Fabric, rx, first_int, Completion, Context}
use libfabric_benchmark.Machine.{
  Node, Outcome, Run, done, fault, spin, pure, abort, eps_at, deref, ◌>>=◌, ◌>>◌, and_then,
  free_ctx,
}
use libfabric_benchmark.Machine.Ensures.{
  Ensures, returns, faults, spins, bind, weaken, IfOk, zero_of_not, nonzero_absurd, eps-Ensures,
}
use libfabric_benchmark.Poll.{wait_cm_event, sort_cases}
use libfabric_benchmark.Traffic.{Traffic, Has, IsDocumented}
use libfabric_benchmark.Traffic.Steps.{wait_comp-Has, one_read}
use libfabric_benchmark.Node.{rounds, row_bytes}
use libfabric_benchmark.Node.Controller.{
  await_connected, await_rows, await_shutdowns, store_rows, Table, in_checkpoint, in_summary,
  with_table, free_var, take_row, after_event, rows_of, table_of,
}
use libfabric_benchmark.Node.Controller.Phases.{reads}

eps_at-Ensures : (i : ℤ) (n : Node) → Ensures (λ r m. m ≡ n) (eps_at i n)
eps_at-Ensures (pos i) n = weaken (eps-Ensures i n) (λ r m p. p.1)
eps_at-Ensures (negsuc i) n = faults

module _ {fabric : Fabric} {c : Config} {t : Traffic} where
  pub free_ctx-Has :
      (p : Context) (n : Node) → Has fabric c t n → Ensures (λ _ m. Has fabric c t m) (free_ctx p n)
  free_ctx-Has p n h = returns (record { config = h.config; traffic_eq = h.traffic_eq })

  pub free_var-Has :
      (p : Option Context) (n : Node)
      → Has fabric c t n
      → Ensures (λ _ m. Has fabric c t m) (free_var p n)
  free_var-Has none n h = returns h
  free_var-Has (some p) n h = free_ctx-Has p n h

  with_table-Has :
      (w : Table) (rows : List Transfer) (n : Node)
      → Has fabric c t n
      → Has fabric c t (with_table w rows n)
  with_table-Has in_checkpoint rows n h = record { config = h.config; traffic_eq = h.traffic_eq }
  with_table-Has in_summary rows n h = record { config = h.config; traffic_eq = h.traffic_eq }

  -- Storing rows changes a table only.
  pub store_rows-Has :
      (w : Table) (id : ℤ) (n : Node)
      → Has fabric c t n
      → Ensures (λ _ m. Has fabric c t m) (store_rows w id n)
  unfolding store_rows
  store_rows-Has w (negsuc k) n h = faults
  store_rows-Has w (pos id) n h = bind (eps-Ensures id n) λ r m e.
      rw (e.1) (elim (Option-cases (rows_of (rounds n.config.num_pn) (n.endpoint r).ctrl_buff)) [
        | inl bad ↦ rw (bad, and_then) faults
        | inr (rows, good) ↦
            elim (Bool-cases (
              leb (row_bytes n.config) n.config.ctrl_size
              && leb (id * rounds n.config.num_pn + rounds n.config.num_pn)
                  (length (table_of w n)))) [
                    | inl fits ↦ rw (good, and_then, fits) (returns (with_table-Has w _ n h))
                    | inr over ↦ rw (good, and_then, over) faults
                  ]
      ])

  take_row-Has :
      (w : Table) (e : Completion) (n : Node)
      → Has fabric c t n
      → Ensures (λ _ m. Has fabric c t m) (take_row w e n)
  unfolding take_row
  take_row-Has w e n h = elim (Bool-cases (e.len == row_bytes n.config)) [
    | inl row ↦ rw row (store_rows-Has w (deref e.op_context n).id n h)
    | inr short ↦ rw short (returns h)
  ]

take_row-any : (w : Table) (e : Completion) (n : Node) → Ensures (λ _ m. Unit {0}) (take_row w e n)
take_row-any w e n = any (take_row w e n)
  where
    any : (r : Outcome (Unit {0})) → Ensures (λ _ m. Unit {0}) r
    any (done a m) = returns tt
    any fault = faults
    any spin = spins

module _ {fabric : Fabric} (doc : IsDocumented fabric) (fuel : ℕ) {c : Config} where
  -- One turn of `await_connected` after its wait, for any rest of the loop.
  connected_turn :
      {t u : Traffic} (ret : ℤ) (e : Completion) (rest : Run ℤ) (n : Node)
      → (ret ≡ pos 0 → Has fabric c t n)
      → ((m : Node) → Has fabric c t m → Ensures (IfOk (Has fabric c u)) (rest m))
      → Ensures (IfOk (Has fabric c u)) (
          (if e.len == sizeof_int
              then (eps_at (deref e.op_context n).id >>= λ r.
                  if first_int (n.endpoint r).ctrl_buff ==ℤ bm_connected
                  then (if is_nonzero ret then free_ctx e.op_context >> pure ret else rest)
                  else abort)
              else free_ctx e.op_context >> pure (negsuc 0))
            n)
  connected_turn ret e rest n h f = elim (Bool-cases (e.len == sizeof_int)) [
    | inr wrong ↦ rw wrong (returns (λ z. cc))
    | inl right ↦ rw right (
        bind (eps_at-Ensures (deref e.op_context n).id n) λ r m same.
          rw same (elim (Bool-cases (first_int (n.endpoint r).ctrl_buff ==ℤ bm_connected)) [
            | inr other ↦ rw other faults
            | inl confirmed ↦ rw confirmed (elim (Bool-cases (is_nonzero ret)) [
              | inl bad ↦ rw bad (returns (λ z. absurd (nonzero_absurd ret bad z)))
              | inr good ↦ rw good (f n (h (zero_of_not ret good)))
            ])
          ]))
  ]

  -- A successful `await_connected` has read one receive completion for each confirmation.
  pub await_connected-Has :
      (left : ℕ) (entry : Option Completion) (ctx : Option Context) (t : Traffic) (n : Node)
      → Has fabric c t n
      → Ensures
          (IfOk (Has fabric c (reads rx left t)))
          (await_connected fabric fuel left entry ctx n)
  unfolding await_connected
  await_connected-Has zero entry ctx t n h = bind (free_var-Has ctx n h) (λ _ m k. returns (λ _. k))
  await_connected-Has (suc left) entry ctx t n h =
      bind (wait_comp-Has doc fuel rx entry {t = t} n h) λ p m k. elim (Option-cases p.1) [
        | inl no_entry ↦ rw no_entry faults
        | inr (e, is_e) ↦ rw is_e (
            connected_turn p.0 e (await_connected fabric fuel left (some e) (some e.op_context)) m k
              (λ m' k'.
                await_connected-Has left (some e) (some e.op_context) (one_read rx t) m' k'))
      ]

  -- A successful `await_rows` has read one receive completion for each row.
  pub await_rows-Has :
      (w : Table) (left : ℕ) (entry : Option Completion) (ctx : Option Context) (t : Traffic)
      (n : Node)
      → Has fabric c t n
      → Ensures
          (λ q m. q.0 ≡ pos 0 → Has fabric c (reads rx left t) m)
          (await_rows fabric fuel w left entry ctx n)
  unfolding await_rows
  await_rows-Has w zero entry ctx t n h = returns (λ _. h)
  await_rows-Has w (suc left) entry ctx t n h =
      bind (wait_comp-Has doc fuel rx entry {t = t} n h) λ p m k. elim (Option-cases p.1) [
        | inl no_entry ↦ rw no_entry faults
        | inr (e, is_e) ↦ rw is_e (elim (Bool-cases (is_nonzero p.0)) [
          | inl bad ↦ rw bad (
              bind (take_row-any w e m)
                (λ _ m' _. returns (λ z. absurd (nonzero_absurd p.0 bad z))))
          | inr good ↦ rw good (
              bind (take_row-Has w e m (k (zero_of_not p.0 good))) (λ _ m' k'.
                await_rows-Has w left (some e) (some e.op_context) (one_read rx t) m' k'))
        ])
      ]

  -- Waiting for an event leaves the traffic as it is.
  wait_cm_event-Has :
      (polls : ℕ) {t : Traffic} (n : Node)
      → Has fabric c t n
      → Ensures (λ _ m. Has fabric c t m) (wait_cm_event fabric polls n)
  unfolding wait_cm_event
  wait_cm_event-Has zero n h = spins
  wait_cm_event-Has (suc polls) {t} n h = elim (sort_cases (fabric.poll_eq n.log).status) [
    | inl e ↦
        rw (e, wait_cm_event) (returns (record { config = h.config; traffic_eq = h.traffic_eq }))
    | inr (inl e) ↦
        rw (e, wait_cm_event)
          (wait_cm_event-Has polls {t = t} _
            (record { config = h.config; traffic_eq = h.traffic_eq }))
    | inr (inr e) ↦
        rw (e, wait_cm_event) (returns (record { config = h.config; traffic_eq = h.traffic_eq }))
  ]

  pub await_shutdowns-Has :
      (turns left : ℕ) {t : Traffic} (n : Node)
      → Has fabric c t n
      → Ensures (λ _ m. Has fabric c t m) (await_shutdowns fabric fuel turns left n)
  unfolding await_shutdowns
  await_shutdowns-Has zero zero n h = returns h
  await_shutdowns-Has (suc turns) zero n h = returns h
  await_shutdowns-Has zero (suc left) n h = spins
  await_shutdowns-Has (suc turns) (suc left) {t} n h =
      bind (wait_cm_event-Has fuel {t = t} n h) λ p m k. elim (Bool-cases (is_nonzero p.0)) [
        | inl bad ↦ rw bad (returns k)
        | inr good ↦ rw good (await_shutdowns-Has turns (after_event p.1.event left) {t = t} m k)
      ]
