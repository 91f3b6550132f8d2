-- ===== src/Node/Client.antt =====
-- The client side of CBM_Benchmark/Node.cpp before the benchmark: `connectToController`,
-- `connectToServers` and `setDataBuffers`.
pub mod Benchmark
pub mod Protocol
pub mod Handshake
pub mod FreedContext
use libfabric_benchmark.Base.{ℕ, Option, none, some, Bool, true, false, ltb, ◌==◌, if◌then◌else◌}
use libfabric_benchmark.Base.Int.{ℤ, pos, negsuc, is_nonzero, ◌==ℤ◌}
use libfabric_benchmark.Config.{Config, bm_client, bm_connect, bm_connected, bm_start, sizeof_int}
use libfabric_benchmark.Fabric.{Fabric, tx, rx, Ref, cep, first_int, Completion}
use libfabric_benchmark.Machine.{
  Node, Outcome, done, fault, spin, Run, pure, abort, and_then, ◌>>=◌, ◌>>◌, or_return, get, eps,
  for_each,
}
use libfabric_benchmark.Poll.{wait_comp}
use libfabric_benchmark.Endpoint.{connect, ctrl_recv, send_command, set_data_buffer}
use libfabric_benchmark.Node.{in_mode, rounds}

-- What follows the wait for a command on `cep`: the entry's length is looked at before `ret` is. A
-- message of another length is only warned about.
unfoldable pub expect_command : ℤ → ℤ → Option Completion → Run ℤ
expect_command confirm ret none = abort
expect_command confirm ret (some entry) = get >>= λ n.
    if entry.len == sizeof_int
    then if first_int (n.endpoint cep).ctrl_buff ==ℤ confirm then pure (pos 0) else pure (negsuc 0)
    else pure ret

module _ (fabric : Fabric) (fuel : ℕ) where
  -- `connectToController`. The result of `ctrl_recv` is overwritten.
  unfoldable pub connect_to_controller : Run ℤ
  unfolding connect ctrl_recv wait_comp expect_command
  connect_to_controller = do
    a ← connect fabric fuel cep
    or_return a (do
      b ← ctrl_recv fabric cep sizeof_int
      p ← wait_comp fabric fuel rx none
      expect_command bm_connect p.0 p.1)

  -- What `connectToServers` does in its mode. The result of the first wait is overwritten.
  unfoldable pub servers_body : Run ℤ
  servers_body = do
    n ← get
    a ← for_each 0 (rounds n.config.num_ep) (λ i. eps i >>= connect fabric fuel)
    or_return a (do
      b ← ctrl_recv fabric cep sizeof_int
      or_return b (do
        c ← send_command fabric cep bm_connected
        or_return c (do
          p ← wait_comp fabric fuel tx none
          q ← wait_comp fabric fuel rx p.1
          expect_command bm_start q.0 q.1)))

  -- `connectToServers`
  unfoldable pub connect_to_servers : Run ℤ
  unfolding in_mode servers_body
  connect_to_servers = in_mode bm_client servers_body

-- `setDataBuffers`. With no endpoint the code returns an unset variable, here `unset`.
unfoldable pub set_data_buffers : ℤ → Run ℤ
unfolding in_mode for_each set_data_buffer
set_data_buffers unset = in_mode bm_client (do
  n ← get
  ret ← for_each 0 (rounds n.config.num_ep) (λ i. eps i >>= set_data_buffer)
  pure (if ltb 0 (rounds n.config.num_ep) then ret else unset))
