-- ===== src/Node/Listen.antt =====
-- The side of CBM_Benchmark/Node.cpp that accepts connections: `waitAllConn`, `listenServer` and
-- `listenController`. `fuel` bounds the polls of one wait, `turns` the turns of a loop.
pub mod Connections
pub mod Kept
pub mod Accepting
pub mod Silent
pub mod Stopping
use libfabric_benchmark.Base.{
  ℕ, zero, suc, ◌-◌, ◌/◌, Option, none, some, Bool, true, false, not, ◌&&◌, ◌==◌, ltb,
  if◌then◌else◌,
}
use libfabric_benchmark.Base.Int.{ℤ, pos, negsuc, is_nonzero, is_positive, ◌+ℤ◌, ◌-ℤ◌, ltb_ℤ, ◌==ℤ◌}
use libfabric_benchmark.Config.{Config, bm_server, bm_controller, bm_stop, sizeof_int}
use libfabric_benchmark.Fabric.{
  Fabric, rx, Ref, cep, peer, first_int, Completion, CmEvent, connreq, connected, shutdown, invalid,
  EqReply,
}
use libfabric_benchmark.Machine.{
  Endpoint, Node, Outcome, done, fault, spin, Run, pure, abort, and_then, ◌>>=◌, ◌>>◌, or_return,
  get, eps, for_each,
}
use libfabric_benchmark.Poll.{check_comp, check_cm_event, wait_cm_event}
use libfabric_benchmark.Endpoint.{ctrl_recv, send_keys, accept, listen, connect, words}
use libfabric_benchmark.Node.{in_mode, rounds}

abbrev is_fid : ℕ → Option ℕ → Bool
is_fid fid none = false
is_fid fid (some k) = k == fid

-- `for (n…) if (eps[n]->pep == pep) { …; break; }`: the first endpoint whose field is the event's
-- `fid`. An unset field equals no `fid`.
unfoldable pub find_endpoint : (Endpoint → Option ℕ) → ℕ → ℕ → ℕ → Run (Option Ref)
find_endpoint field fid i zero = pure none
find_endpoint field fid i (suc num) = eps i >>= λ r. get >>= λ n.
    let rest = find_endpoint field fid (suc i) num in
    if is_fid fid (field (n.endpoint r)) then pure (some r) else rest

-- The first such endpoint is handled; without one, `ret` is as before.
unfoldable pub with_found : (Endpoint → Option ℕ) → ℕ → ℕ → ℤ → (Ref → Run ℤ) → Run ℤ
unfolding find_endpoint
with_found field fid num ret act =
    find_endpoint field fid 0 num >>= λ found. elim found [ none ↦ pure ret | some r ↦ act r ]

-- What the loops do with an event: the new value of `ret`.
abbrev pub handle_event : Fabric → ℕ → ℤ → ℕ → CmEvent → Run ℤ
handle_event fabric num ret fid connreq = with_found (λ p. p.pep) fid num ret (accept fabric)
handle_event fabric num ret fid connected = with_found (λ p. p.ep) fid num ret (send_keys fabric)
handle_event fabric num ret fid shutdown = with_found (λ p. p.ep) fid num ret (λ r. pure ret)
handle_event fabric num ret fid (invalid k) = pure ret

unfoldable pub on_cm_event : Fabric → ℕ → ℤ → EqReply → Run ℤ
unfolding with_found accept send_keys
on_cm_event fabric num ret e = handle_event fabric num ret e.fid e.event

-- `counter++` on a connection, `counter--` on a shutdown.
abbrev pub count_event : CmEvent → ℤ → ℤ
count_event connreq k = k
count_event connected k = k +ℤ pos 1
count_event shutdown k = k -ℤ pos 1
count_event (invalid j) k = k

module _ (fabric : Fabric) (fuel : ℕ) where
  -- The loop of `waitAllConn`, from a counter.
  unfoldable pub wait_conns : ℕ → ℤ → ℤ → Run ℤ
  wait_conns zero goal counter = λ n. spin
  wait_conns (suc turns) goal counter =
      if ltb_ℤ counter goal
      then (wait_cm_event fabric fuel >>= λ p. or_return p.0 (
          get >>= λ n. on_cm_event fabric (rounds n.config.num_ep) p.0 p.1 >>= λ ret.
          or_return ret (wait_conns turns goal (count_event p.1.event counter))))
      else pure (pos 0)

  -- `waitAllConn`
  unfoldable pub wait_all_conn : ℕ → ℤ → Run ℤ
  unfolding wait_conns
  wait_all_conn turns goal = wait_conns turns goal (pos 0)

  -- What `listenController` does in its mode.
  unfoldable pub listen_body : ℕ → Run ℤ
  listen_body turns = do
    n ← get
    let num_ep = n.config.num_pn +ℤ n.config.num_en
    ret ← for_each 0 (rounds num_ep) (λ i. eps i >>= listen fabric)
    or_return ret (do ret' ← wait_all_conn turns num_ep; or_return ret' (pure (pos 0)))

  -- `listenController`
  unfoldable pub listen_controller : ℕ → Run ℤ
  unfolding in_mode for_each listen wait_all_conn listen_body
  listen_controller turns = in_mode bm_controller (listen_body turns)

  -- The message that a server has received: `none` to go on, `some true` to stop, `some false` for a
  -- message of the wrong size. Any other command is printed by "%s", which reads memory at the
  -- command's number; and the data buffers are printed before the server stops.
  abbrev server_command : Option Completion → Run (Option Bool)
  server_command none = abort
  server_command (some entry) = get >>= λ n.
      if entry.len == sizeof_int
      then if first_int (n.endpoint cep).ctrl_buff ==ℤ bm_stop
        then if words n.config == 0 && ltb 0 (rounds n.config.num_en)
          then abort
          else pure (some true)
        else abort
      else pure (some false)

  -- One turn after the receive queue was looked at: an event of the connection manager.
  abbrev server_event : ℤ → Run ℤ
  server_event num_en = check_cm_event fabric >>= λ p.
      if is_positive p.0 then on_cm_event fabric (rounds num_en) p.0 p.1 else pure (pos 0)

  -- The loop of `listenServer`: `while (run)`. A negative result of the handler ends it.
  unfoldable pub serve : ℕ → Option Completion → Run ℤ
  unfolding check_comp
  serve zero entry = λ n. spin
  serve (suc turns) entry = do
    n ← get
    p ← check_comp fabric rx entry
    c ← (if is_positive p.0 then server_command p.1 else pure none)
    elim c [
      | some false ↦ pure (negsuc 0)
      | none ↦ do
        ret ← server_event n.config.num_en
        if ltb_ℤ ret (pos 0) then pure ret else serve turns p.1
      | some true ↦ do
        ret ← server_event n.config.num_en
        pure (if ltb_ℤ ret (pos 0) then ret else pos 0)
    ]

  -- `listenServer`
  unfoldable pub listen_server : ℕ → Run ℤ
  unfolding in_mode for_each listen connect wait_all_conn ctrl_recv serve
  listen_server turns = in_mode bm_server (do
    n ← get
    let num_en = n.config.num_en
    a ← for_each 0 (rounds num_en) (λ i. eps i >>= listen fabric)
    or_return a (do
      b ← connect fabric fuel cep
      or_return b (do
        c ← wait_all_conn turns num_en
        or_return c (do d ← ctrl_recv fabric cep sizeof_int; or_return d (serve turns none)))))
