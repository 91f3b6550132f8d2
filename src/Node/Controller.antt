-- ===== src/Node/Controller.antt =====
-- The controller of CBM_Benchmark/Node.cpp: `controllerStart`, `controllerConnect`,
-- `controllerCheckpoint` and `controllerStop`.
pub mod Phases
pub mod Ending
pub mod Rows
pub mod Replies
pub mod Protocol
pub mod Collect
pub mod Starting
pub mod Cooperation
pub mod Answered
pub mod Succeeding
use libfabric_benchmark.Base.{
  ℕ, zero, suc, ◌+◌, ◌*◌, List, [], ◌∷◌, Option, none, some, Bool, true, false, ◌&&◌, leb, ltb,
  ◌==◌, if◌then◌else◌, length,
}
use libfabric_benchmark.Base.Int.{ℤ, pos, negsuc, is_nonzero, ◌+ℤ◌, ltb_ℤ, ◌==ℤ◌}
use libfabric_benchmark.Config.{
  Config, Transfer, bm_controller, bm_start, bm_connect, bm_connected, bm_checkpoint, bm_stop,
  sizeof_int,
}
use libfabric_benchmark.Fabric.{
  Fabric, tx, rx, Ref, peer, first_int, Message, command, key_pair, transfers, other, Context,
  Completion, shutdown, CmEvent,
}
use libfabric_benchmark.Machine.{
  Endpoint, Node, Outcome, done, fault, spin, Run, pure, abort, and_then, ◌>>=◌, ◌>>◌, or_return,
  get, eps, eps_at, deref, free_ctx, for_each,
}
use libfabric_benchmark.Poll.{wait_comp, wait_cm_event}
use libfabric_benchmark.Endpoint.{ctrl_recv, send_command}
use libfabric_benchmark.Node.{in_mode, rounds, row_bytes, await_all}

-- `for (n…) { ret = eps[n]->sendCommand(&COMMAND); if (ret) return ret; }`
abbrev pub send_all : Fabric → ℕ → ℤ → Run ℤ
send_all fabric num c = for_each 0 num (λ i. eps i >>= λ r. send_command fabric r c)

-- `for (n…) { ret = eps[n]->ctrl_recv(size); if (ret) return ret; }`
abbrev pub recv_all : Fabric → ℕ → ℕ → Run ℤ
recv_all fabric num size = for_each 0 num (λ i. eps i >>= λ r. ctrl_recv fabric r size)

-- A table of transfers with `rows` written from index `at` on.
unfoldable pub write_at : ℕ → List Transfer → List Transfer → List Transfer
write_at at [] table = table
write_at at (r ∷ rows) [] = []
write_at zero (r ∷ rows) (t ∷ table) = r ∷ write_at zero rows table
write_at (suc at) (r ∷ rows) (t ∷ table) = t ∷ write_at at (r ∷ rows) table

-- `checkpoint` and `summary`.
pub data Table : Type 0 where
  in_checkpoint in_summary : Table

abbrev pub table_of : Table → Node → List Transfer
table_of in_checkpoint n = n.checkpoint
table_of in_summary n = n.summary

abbrev pub with_table : Table → List Transfer → Node → Node
with_table in_checkpoint t n = record n { checkpoint = t }
with_table in_summary t n = record n { summary = t }

-- The rows that a buffer holds, if they are `num` transfers.
abbrev pub rows_of : ℕ → Message → Option (List Transfer)
rows_of num (command c) = none
rows_of num (key_pair k) = none
rows_of num (other c) = none
rows_of num (transfers ts) = if length ts == num then some ts else none

-- `memcpy(&table[id * num_pn], eps[id]->ctrl_buff, sizeof(struct transfer) * num_pn)`, with a fault
-- where it reads behind the buffer or writes behind the table.
unfoldable pub store_rows : Table → ℤ → Run (Unit {0})
unfolding write_at
store_rows t (negsuc k) = abort
store_rows t (pos id) = eps id >>= λ r. get >>= λ n.
    let num = rounds n.config.num_pn in
    elim (rows_of num (n.endpoint r).ctrl_buff) [
      | none ↦ abort
      | some rows ↦
          if leb (row_bytes n.config) n.config.ctrl_size
            && leb (id * num + num) (length (table_of t n))
          then (λ m. done tt (with_table t (write_at (id * num) rows (table_of t m)) m))
          else abort
    ]

-- What a completed receive does to a table. A message of another length is only warned about.
unfoldable pub take_row : Table → Completion → Run (Unit {0})
unfolding store_rows
take_row t e n =
    if e.len == row_bytes n.config then store_rows t (deref e.op_context n).id n else done tt n

-- The hosts that are left to wait for after an event.
abbrev pub after_event : CmEvent → ℕ → ℕ
after_event shutdown left = left
after_event _ left = suc left

-- The variable `ctx`: none while it points at the function's own allocation.
abbrev pub free_var : Option Context → Run (Unit {0})
free_var none = pure tt
free_var (some p) = free_ctx p

module _ (fabric : Fabric) (fuel : ℕ) where
  -- What `controllerStart` does in its mode.
  unfoldable pub start_body : Run ℤ
  start_body = get >>= λ n.
      let num_en = rounds n.config.num_en in
      send_all fabric num_en bm_start >>= λ a.
      or_return a (await_all fabric fuel tx num_en none >>= λ p. pure p.0)

  -- `controllerStart`
  unfoldable pub controller_start : Run ℤ
  unfolding in_mode start_body
  controller_start = in_mode bm_controller (start_body)

  -- The loop that awaits the confirmations. The entry is used before `ret` is looked at, a message of
  -- another length ends the loop with -1, and an unexpected command is printed by "%s".
  unfoldable pub await_connected : ℕ → Option Completion → Option Context → Run ℤ
  await_connected zero entry ctx = do free_var ctx; pure (pos 0)
  await_connected (suc left) entry ctx = wait_comp fabric fuel rx entry >>= λ p. elim p.1 [
    | none ↦ abort
    | some e ↦ get >>= λ n.
        if e.len == sizeof_int
        then (eps_at (deref e.op_context n).id >>= λ r.
            if first_int (n.endpoint r).ctrl_buff ==ℤ bm_connected
            then if is_nonzero p.0
              then (do free_ctx e.op_context; pure p.0)
              else await_connected left (some e) (some e.op_context)
            else abort)
        else (do free_ctx e.op_context; pure (negsuc 0))
  ]

  -- What `controllerConnect` does in its mode.
  unfoldable pub connect_body : Run ℤ
  connect_body = get >>= λ n.
      let num_en = rounds n.config.num_en in
      recv_all fabric num_en sizeof_int >>= λ a. or_return a (
        send_all fabric num_en bm_connect >>= λ b. or_return b (
          await_all fabric fuel tx num_en none >>= λ p.
          or_return p.0 (await_connected num_en p.1 none)))

  -- `controllerConnect`
  unfoldable pub controller_connect : Run ℤ
  unfolding in_mode connect_body
  controller_connect = in_mode bm_controller (connect_body)

  -- The loop that awaits a row of transfers from each client; the entry is used before `ret` is
  -- looked at.
  unfoldable pub await_rows :
      Table → ℕ → Option Completion → Option Context → Run (ℤ × Option Context)
  unfolding take_row
  await_rows t zero entry ctx = pure (pos 0, ctx)
  await_rows t (suc left) entry ctx = wait_comp fabric fuel rx entry >>= λ p. elim p.1 [
    | none ↦ abort
    | some e ↦
        take_row t e
        >> (if is_nonzero p.0
            then pure (p.0, some e.op_context)
            else await_rows t left (some e) (some e.op_context))
  ]

  -- What `controllerCheckpoint` does in its mode.
  unfoldable pub checkpoint_body : Run ℤ
  checkpoint_body = get >>= λ n.
      let num_en = rounds n.config.num_en in
      recv_all fabric num_en (row_bytes n.config) >>= λ a. or_return a (
        send_all fabric num_en bm_checkpoint >>= λ b. or_return b (
          await_all fabric fuel tx num_en none >>= λ p.
          or_return p.0
            (await_rows in_checkpoint num_en p.1 none >>= λ q. (do free_var q.1; pure q.0))))

  -- `controllerCheckpoint`
  unfoldable pub controller_checkpoint : Run ℤ
  unfolding in_mode checkpoint_body
  controller_checkpoint = in_mode bm_controller (checkpoint_body)

  -- The loop of `controllerStop` that counts the hosts that have disconnected.
  unfoldable pub await_shutdowns : ℕ → ℕ → Run ℤ
  await_shutdowns turns zero = pure (pos 0)
  await_shutdowns zero (suc left) = λ n. spin
  await_shutdowns (suc turns) (suc left) = wait_cm_event fabric fuel >>= λ p.
      if is_nonzero p.0 then pure p.0 else await_shutdowns turns (after_event p.1.event left)

  -- What `controllerStop` does in its mode.
  unfoldable pub stop_body : ℕ → Run ℤ
  stop_body turns = get >>= λ n.
      let num_en = rounds n.config.num_en in
      let num_ep = rounds (n.config.num_en +ℤ n.config.num_pn) in
      recv_all fabric num_en (row_bytes n.config) >>= λ a. or_return a (
        send_all fabric num_ep bm_stop >>= λ b. or_return b (
          await_all fabric fuel tx num_ep none >>= λ p. or_return p.0 (
            await_rows in_summary num_en p.1 none >>= λ q.
            if is_nonzero q.0
            then (do free_var q.1; pure q.0)
            else (await_shutdowns turns num_ep >>= λ c. (do free_var q.1; pure c)))))

  -- `controllerStop`
  unfoldable pub controller_stop : ℕ → Run ℤ
  unfolding in_mode stop_body
  controller_stop turns = in_mode bm_controller (stop_body turns)
