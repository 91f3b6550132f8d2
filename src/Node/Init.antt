-- ===== src/Node/Init.antt =====
-- `Node::Node` and `Node::init` of CBM_Benchmark/Node.cpp: the endpoints of a node and their ports.
pub mod Ports
pub mod Quiet
use libfabric_benchmark.Base.{
  ℕ, zero, suc, ◌+◌, ◌*◌, List, [], Option, none, some, Bool, true, false, ltb, leb, ◌==◌,
  if◌then◌else◌, get_elem?, length,
}
use libfabric_benchmark.Base.Int.{ℤ, pos, negsuc, is_nonzero, to_size_t, ◌+ℤ◌, ◌==ℤ◌}
use libfabric_benchmark.Config.{Bytes, Config, Transfer, bm_server, bm_client, bm_controller}
use libfabric_benchmark.Text.{atoi, format_int}
use libfabric_benchmark.Fabric.{
  Fabric, Ref, cep, peer, Resource, info, eq, domain, cq_tx, cq_rx, Call, acquire,
}
use libfabric_benchmark.Fabric
use libfabric_benchmark.Machine.{
  Endpoint, Node, Outcome, done, fault, spin, Run, pure, abort, and_then, ◌>>=◌, ◌>>◌, or_return,
  get, update, modify, eps, call, for_each,
}
use libfabric_benchmark.Endpoint.{Raw, new_endpoint, server, client}
use libfabric_benchmark.Endpoint
use libfabric_benchmark.Node.{rounds}

-- `Node::Node`. What it leaves unset comes from the memory that it is given.
abbrev pub new_node : ℤ → Config → Option Bytes → (Ref → Endpoint) → Node
new_node id config addr memory = record {
  id = id;
  addr = addr;
  mode = pos 0;
  config = config;
  eps_size = 0;
  endpoint = memory;
  summary = [];
  checkpoint = [];
  log = [];
}

-- `sprintf(port, "%d", n)`
abbrev pub port_text : ℤ → Bytes
port_text = format_int

module _ (raw : Ref → Raw) where
  -- `eps.push_back(new Endpoint(this, addr, port, …, id))`
  unfoldable pub push : Option Bytes → Bytes → ℤ → Node → Node
  push addr port id n =
      let r = peer n.eps_size in
      let m = update r (λ old. new_endpoint n.mode addr port id (raw r)) n in
      record m { eps_size = n.eps_size + 1 }

  -- `cep = new Endpoint(this, config->controller_addr, port, 0, config, id)`
  unfoldable pub set_cep : ℤ → Node → Node
  set_cep port n =
      update cep
        (λ old. new_endpoint n.mode n.config.controller_addr (port_text port) n.id (raw cep)) n

  -- The loop that pushes `num` endpoints: the i-th at address `addr i`, with the port and the id that
  -- the loop computes from i.
  unfoldable pub push_all : (ℕ → Option Bytes) → (ℕ → Bytes) → (ℕ → ℤ) → ℕ → ℕ → Node → Node
  push_all addr port id i zero n = n
  push_all addr port id i (suc num) n =
      push_all addr port id (suc i) num (push (addr i) (port i) (id i) n)

  abbrev pub with_num_ep : ℤ → Node → Node
  with_num_ep k n = record n { config = record (n.config) { num_ep = k } }

  -- `case BM_SERVER`
  unfoldable pub server_endpoints : Node → Node
  unfolding push push_all set_cep
  server_endpoints n =
      let c = n.config in
      let base = atoi c.start_port in
      let m =
        push_all (λ i. n.addr) (λ i. port_text (base +ℤ pos i)) pos 0 (rounds c.num_en)
          (with_num_ep c.num_en n) in
      set_cep (n.id +ℤ (atoi c.controller_port +ℤ c.server_offset)) m

  -- `case BM_CLIENT`, after the test that the serverlist has enough addresses.
  unfoldable pub client_endpoints : Node → Node
  unfolding push push_all set_cep
  client_endpoints n =
      let c = n.config in
      let m =
        push_all (get_elem? c.addr_v) (λ i. c.port) pos 0 (rounds c.num_pn)
          (with_num_ep c.num_pn n) in
      set_cep (n.id +ℤ atoi c.controller_port) m

  -- `case BM_CONTROLLER`: first the clients, then the servers.
  unfoldable pub controller_endpoints : Node → Node
  unfolding push push_all
  controller_endpoints n =
      let c = n.config in
      let base = atoi c.controller_port in
      let m = push_all (λ i. n.addr) (λ i. port_text (base +ℤ pos i)) pos 0 (rounds c.num_en) n in
      push_all (λ i. n.addr) (λ i. port_text (base +ℤ pos i +ℤ c.server_offset))
        (λ i. pos (i + 1000)) 0 (rounds c.num_pn) m

  module _ (fabric : Fabric) where
    -- The resources, one after the other, each tested.
    unfoldable pub acquire_all : Run ℤ
    acquire_all = do
      a ← call fabric (acquire info)
      or_return a (do
        b ← call fabric (acquire Fabric.fabric)
        or_return b (do
          c ← call fabric (acquire eq)
          or_return c (do
            d ← call fabric (acquire domain)
            or_return d
                (do e ← call fabric (acquire cq_tx); or_return e (call fabric (acquire cq_rx))))))

    -- The last loop: `server` or `client` for each endpoint, whose result is not looked at.
    abbrev start_endpoint : ℤ → Ref → Run ℤ
    start_endpoint mode r =
        if (mode ==ℤ bm_server)
        then server fabric r
        else if mode ==ℤ bm_client
        then client fabric r
        else if mode ==ℤ bm_controller
        then server fabric r
        else pure (pos 0)

    unfoldable pub start_all : Run ℤ
    unfolding server client for_each
    start_all = do
      n ← get
      for_each 0 (rounds n.config.num_ep) (λ i. do r ← eps i; start_endpoint n.mode r; pure (pos 0))

    abbrev start_cep : Run ℤ
    start_cep = do Endpoint.init cep; client fabric cep

    -- `Node::init`. `table` is the fresh memory of the two tables.
    unfoldable pub init : ℤ → List Transfer → List Transfer → Run ℤ
    unfolding acquire_all server_endpoints client_endpoints controller_endpoints client start_all
    init mode summary checkpoint n =
        let m = record n { mode = mode; summary = summary; checkpoint = checkpoint } in
        (acquire_all >>= λ a. or_return a (
            if mode ==ℤ bm_server
            then (λ k. (start_cep >> start_all) (server_endpoints k))
            else if mode ==ℤ bm_client
            then (λ k.
                if ltb (length k.config.addr_v) (to_size_t k.config.num_pn)
                then done (negsuc 0) (with_num_ep k.config.num_pn k)
                else (start_cep >> start_all) (client_endpoints k))
            else if mode ==ℤ bm_controller
            then (λ k. start_all (controller_endpoints k))
            else start_all))
          m
