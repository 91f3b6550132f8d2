-- ===== src/Endpoint.antt =====
-- CBM_Benchmark/Endpoint.cpp: the operations of one endpoint. `r` is the endpoint's `this`.
pub mod Connect
use libfabric_benchmark.Base.{
  ℕ, zero, suc, ◌+◌, ◌/◌, ◌%◌, ◌^◌, ◌-◌, List, [], ◌∷◌, map, Option, none, some, Bool, true, false,
  leb, ltb, ◌==◌, if◌then◌else◌, replicate, range,
}
use libfabric_benchmark.Base.Int.{ℤ, pos, negsuc, is_positive, is_nonzero, to_size_t, ◌==ℤ◌}
use libfabric_benchmark.Config.{Bytes, Config, Ctx, Keys, sizeof_int, sizeof_keys}
use libfabric_benchmark.Fabric.{
  Fabric, Queue, rx, Ref, Message, command, key_pair, transfers, other, Binding, to_eq, to_cq_tx,
  to_cq_rx, Call, recv, send, write, read, open_pep, bind_pep, open_ep, bind_ep, eq_sread,
  eq_readerr, Completion, CmEvent, connected, EqReply,
}
use libfabric_benchmark.Fabric
use libfabric_benchmark.Machine.{
  Endpoint, Node, Outcome, done, fault, spin, Run, pure, abort, and_then, ◌>>=◌, ◌>>◌, or_return,
  get, update, modify, note, deref, free_ctx, call,
}
use libfabric_benchmark.Poll.{Polled, ready, retry, failed, sort, wait_comp}

-- The conversion of a `size_t` to the `int` that `struct ctx` holds.
abbrev pub to_int : ℕ → ℤ
to_int n = let w = n % 2 ^ 32 in if ltb w (2 ^ 31) then pos w else negsuc (2 ^ 32 - w - 1)

-- What the system gives a new endpoint: the address and the key of its data buffer, and the first
-- contents of its two buffers.
pub record Raw : Type 0 where
  pub addr : ℕ
  pub rkey : ℕ
  pub ints : List ℤ
  pub bytes : Message

-- `Endpoint::Endpoint`. Allocation and registration succeed.
unfoldable pub new_endpoint : ℤ → Option Bytes → Bytes → ℤ → Raw → Endpoint
new_endpoint mode addr port id raw = record {
  id = id;
  addr = addr;
  port = port;
  run = none;
  tx_ctx = record { id = id; mode = mode; size = pos 0 };
  c_ctx = record { id = id; mode = mode; size = pos 0 };
  rx_ctx = record { id = id; mode = mode; size = pos 0 };
  msg_buff = raw.ints;
  ctrl_buff = raw.bytes;
  local_keys = record { id = id; rkey = raw.rkey; addr = raw.addr };
  remote_keys = none;
  ep = none;
  pep = none;
}

-- `Endpoint::init`
abbrev pub init : Ref → Run ℤ
init r = pure (pos 0)

-- `size <= 0` on a `size_t`: the whole control buffer.
abbrev pub or_ctrl_size : ℕ → Config → ℕ
or_ctrl_size size c = if size == 0 then c.ctrl_size else size

-- The array that `server` and `setDataBuffer` fill the data buffer with.
abbrev pub words : Config → ℕ
words c = c.msg_size / sizeof_int

-- `setDataBuffer`: the numbers 0, 1, 2, …
unfoldable pub set_data_buffer : Ref → Run ℤ
set_data_buffer r = do
  n ← get
  modify r (λ e. record e { msg_buff = map pos (range 0 (words n.config)) })
  pure (pos 0)

module _ (fabric : Fabric) where
  -- `ctrl_recv`
  unfoldable pub ctrl_recv : Ref → ℕ → Run ℤ
  ctrl_recv r size = do
    n ← get
    let bytes = or_ctrl_size size n.config
    modify r (λ e. record e { rx_ctx = record (e.rx_ctx) { id = e.id; size = to_int bytes } })
    call fabric (recv r bytes)

  -- `ctrl_send`
  unfoldable pub ctrl_send : Ref → ℕ → Run ℤ
  ctrl_send r size = do
    n ← get
    let bytes = or_ctrl_size size n.config
    modify r (λ e. record e { c_ctx = record (e.c_ctx) { size = to_int bytes } })
    call fabric (send r bytes (n.endpoint r).ctrl_buff)

  -- `sendKeys`
  unfoldable pub send_keys : Ref → Run ℤ
  unfolding ctrl_send
  send_keys r = do
    modify r (λ e. record e { ctrl_buff = key_pair e.local_keys })
    ctrl_send r sizeof_keys

  -- `sendCommand`. The bytes behind the command are not tracked: a message is read only at the
  -- length that a completed receive reports.
  unfoldable pub send_command : Ref → ℤ → Run ℤ
  unfolding ctrl_send
  send_command r c = do
    modify r (λ e. record e {
      ctrl_buff = command c;
      c_ctx = record (e.c_ctx) { size = pos sizeof_int };
    })
    ctrl_send r sizeof_int

  -- `rdma_write` and `rdma_read`. Without the peer's keys the code would read unset memory.
  unfoldable pub rdma_write : Ref → Run ℤ
  rdma_write r = do
    n ← get
    let size = n.config.msg_size
    modify r (λ e. record e { tx_ctx = record (e.tx_ctx) { size = to_int size } })
    elim (n.endpoint r).remote_keys [ none ↦ abort | some k ↦ call fabric (write r size k) ]

  pub rdma_read : Ref → Run ℤ
  rdma_read r = do
    n ← get
    let size = n.config.msg_size
    modify r (λ e. record e { tx_ctx = record (e.tx_ctx) { size = to_int size } })
    elim (n.endpoint r).remote_keys [ none ↦ abort | some k ↦ call fabric (read r size k) ]

  -- `server`: clear the data buffer, open the passive endpoint and bind it to the event queue.
  unfoldable pub server : Ref → Run ℤ
  server r = do
    n ← get
    modify r (λ e. record e { msg_buff = replicate (words n.config) (pos 0) })
    let fid = fabric.fid n.log
    ret ← call fabric (open_pep r)
    or_return ret (do
      modify r (λ e. record e { pep = some fid })
      ret' ← call fabric (bind_pep r)
      or_return ret' (pure (pos 0)))

  -- The binds and `fi_enable`, the same in `client` and in `accept`.
  unfoldable pub bind_and_enable : Ref → Run ℤ
  bind_and_enable r = do
    a ← call fabric (bind_ep r to_eq)
    or_return a (do
      b ← call fabric (bind_ep r to_cq_tx)
      or_return b
          (do c ← call fabric (bind_ep r to_cq_rx); or_return c (call fabric (Fabric.enable r))))

  -- `fi_endpoint(domain, …, &ep, NULL)`
  unfoldable pub open_endpoint : Ref → Run ℤ
  open_endpoint r = do
    n ← get
    let fid = fabric.fid n.log
    ret ← call fabric (open_ep r)
    or_return ret (do modify r (λ e. record e { ep = some fid }); pure (pos 0))

  -- `client`
  unfoldable pub client : Ref → Run ℤ
  unfolding open_endpoint bind_and_enable
  client r = do
    a ← open_endpoint r
    or_return a (do b ← bind_and_enable r; or_return b (pure (pos 0)))

  -- `accept`
  unfoldable pub accept : Ref → Run ℤ
  unfolding open_endpoint bind_and_enable
  accept r = do
    a ← open_endpoint r
    or_return a (do b ← bind_and_enable r; or_return b (call fabric (Fabric.accept r)))

  -- `listen`
  unfoldable pub listen : Ref → Run ℤ
  listen r = call fabric (Fabric.listen r)

  -- The part of `connect` after its receive is complete: the entry's context tells how many bytes
  -- were asked for, and is freed on both branches.
  unfoldable pub take_keys : Ref → Completion → Run ℤ
  take_keys r entry = do
    n ← get
    let ctx = deref entry.op_context n
    if to_size_t ctx.size == entry.len
        then (if entry.len == sizeof_keys
            then elim (n.endpoint r).ctrl_buff [
              | command c ↦ abort
              | transfers ts ↦ abort
              | other c ↦ abort
              | key_pair k ↦ do
                modify r (λ e. record e { remote_keys = some k; run = some (pos 1) })
                free_ctx entry.op_context
                pure (pos 0)
            ]
            else abort)
        else (do free_ctx entry.op_context; pure (negsuc 0))

  -- The wait for the answer to `fi_connect`: 0 or -1. No event yet is taken as a success.
  unfoldable pub await_connected : Run ℤ
  await_connected n =
      let e = fabric.poll_eq n.log in
      let n' = note eq_sread n in
      elim (sort e.status) [
        | ready ↦ elim e.event [ connected ↦ done (pos 0) n' | _ ↦ done (negsuc 0) n' ]
        | retry ↦ done (pos 0) n'
        | failed ↦ done (negsuc 0) (note eq_readerr n')
      ]

  -- `connect`
  unfoldable pub connect : ℕ → Ref → Run ℤ
  unfolding ctrl_recv take_keys await_connected wait_comp
  connect fuel r = do
    a ← ctrl_recv r sizeof_keys
    or_return a (do
      b ← call fabric (Fabric.connect r)
      or_return b (do
        c ← await_connected
        or_return c (do
          p ← wait_comp fabric fuel rx none
          or_return p.0 (elim p.1 [ none ↦ abort | some entry ↦ take_keys r entry ]))))
