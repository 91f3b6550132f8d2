-- ===== src/Node/Init/Quiet.antt =====
-- Setting a node up sends nothing, posts nothing and reads nothing.
use libfabric_benchmark.Base.{
  ℕ, zero, suc, List, Option, some, ◌≡◌, refl, ◌∙◌, ap, ◌+◌, replicate, Bool-cases, inl, inr, ltb,
  length, get_elem?,
}
use libfabric_benchmark.Base.Int.{ℤ, pos, to_size_t, ◌==ℤ◌, ◌+ℤ◌}
use libfabric_benchmark.Config.{Bytes, Config, Transfer, bm_server, bm_client, bm_controller}
use libfabric_benchmark.Fabric.{
  Fabric, Ref, cep, Call, acquire, info, eq, domain, cq_tx, cq_rx, open_pep, bind_pep, open_ep,
  bind_ep, to_eq, to_cq_tx, to_cq_rx,
}
use libfabric_benchmark.Fabric
use libfabric_benchmark.Machine.{
  Endpoint, Node, Run, done, ◌>>=◌, ◌>>◌, or_return, eps, for_each, call, note, pure, update,
}
use libfabric_benchmark.Machine.Ensures.{
  Ensures, returns, bind, weaken, IfOk, chain-IfOk, or_return-rule, eps-rule,
}
use libfabric_benchmark.Endpoint.{Raw, words, server, client, open_endpoint, bind_and_enable}
use libfabric_benchmark.Text.{atoi}
use libfabric_benchmark.Traffic.{Traffic, traffic, Has}
use libfabric_benchmark.Node.{rounds}
use libfabric_benchmark.Node.Init.{
  port_text, push, push_all, controller_endpoints, client_endpoints, set_cep, with_num_ep,
  acquire_all, start_endpoint, start_all, start_cep, init,
}

push_all-same :
    (raw : Ref → Raw) (addr : ℕ → Option Bytes) (port : ℕ → Bytes) (id : ℕ → ℤ) (num i : ℕ)
    (n : Node)
    → let m = push_all raw addr port id i num n in (m.config ≡ n.config) × (m.log ≡ n.log)
unfolding push_all push
push_all-same raw addr port id zero i n = (refl, refl)
push_all-same raw addr port id (suc num) i n =
    let h = push_all-same raw addr port id num (suc i) (push raw (addr i) (port i) (id i) n) in
    (h.0, h.1)

-- The calls of `Node::init`, and of `Endpoint::server` and `Endpoint::client`.
data Opening : Call → Type 0 where
  acquires : (r : Fabric.Resource) → Opening (acquire r)
  opens_pep : (r : Ref) → Opening (open_pep r)
  binds_pep : (r : Ref) → Opening (bind_pep r)
  opens_ep : (r : Ref) → Opening (open_ep r)
  binds_ep : (r : Ref) (b : Fabric.Binding) → Opening (bind_ep r b)
  enables : (r : Ref) → Opening (Fabric.enable r)

module _ (raw : Ref → Raw) (fabric : Fabric) (c : Config) (t : Traffic) where
  abbrev Quiet : Node → Type 0
  Quiet n = Has fabric c t n

  noted : (k : Call) (n : Node) → Opening k → Quiet n → Quiet (note k n)
  noted k n (acquires r) h = record { config = h.config; traffic_eq = h.traffic_eq }
  noted k n (opens_pep r) h = record { config = h.config; traffic_eq = h.traffic_eq }
  noted k n (binds_pep r) h = record { config = h.config; traffic_eq = h.traffic_eq }
  noted k n (opens_ep r) h = record { config = h.config; traffic_eq = h.traffic_eq }
  noted k n (binds_ep r b) h = record { config = h.config; traffic_eq = h.traffic_eq }
  noted k n (enables r) h = record { config = h.config; traffic_eq = h.traffic_eq }

  updated : (r : Ref) (f : Endpoint → Endpoint) (n : Node) → Quiet n → Quiet (update r f n)
  updated r f n h = record { config = h.config; traffic_eq = h.traffic_eq }

  call_then :
      (k : Call) (rest : Run ℤ)
      → Opening k
      → ((n : Node) → Quiet n → Ensures (λ _ m. Quiet m) (rest n))
      → (n : Node) → Quiet n
      → Ensures (λ _ m. Quiet m) ((call fabric k >>= λ ret. or_return ret rest) n)
  call_then k rest opening keep n h =
      or_return-rule Quiet (fabric.result n.log k) rest (note k n) (noted k n opening h)
        (keep (note k n))

  last_call :
      (k : Call) → Opening k → (n : Node) → Quiet n → Ensures (λ _ m. Quiet m) (call fabric k n)
  last_call k opening n h = returns (noted k n opening h)

  acquire_all-Quiet : (n : Node) → Quiet n → Ensures (λ _ m. Quiet m) (acquire_all raw fabric n)
  unfolding acquire_all
  acquire_all-Quiet = call_then (acquire info) _ (acquires info) (
      call_then (acquire Fabric.fabric) _ (acquires Fabric.fabric) (
        call_then (acquire eq) _ (acquires eq) (
          call_then (acquire domain) _ (acquires domain) (
            call_then (acquire cq_tx) _ (acquires cq_tx)
              (last_call (acquire cq_rx) (acquires cq_rx))))))

  server-Quiet : (r : Ref) (n : Node) → Quiet n → Ensures (λ _ m. Quiet m) (server fabric r n)
  unfolding server
  server-Quiet r n h =
      let cleared = λ (e : Endpoint). record e { msg_buff = replicate (words n.config) (pos 0) } in
      let opened = λ (e : Endpoint). record e { pep = some (fabric.fid n.log) } in
      call_then (open_pep r)
        (λ m.
          (call fabric (bind_pep r) >>= λ ret. or_return ret (pure (pos 0))) (update r opened m))
        (opens_pep r)
        (λ m k.
          call_then (bind_pep r) (pure (pos 0)) (binds_pep r) (λ m' k'. returns k')
            (update r opened m) (updated r opened m k))
        (update r cleared n) (updated r cleared n h)

  client-Quiet : (r : Ref) (n : Node) → Quiet n → Ensures (λ _ m. Quiet m) (client fabric r n)
  unfolding client open_endpoint bind_and_enable
  client-Quiet r n h = bind (opened n h) λ a m k.
      or_return-rule Quiet a (bind_and_enable fabric r >>= λ b. or_return b (pure (pos 0))) m k
        λ k. bind (bound m k) λ b m' k'. or_return-rule Quiet b (pure (pos 0)) m' k' returns
    where
      opened : (n : Node) → Quiet n → Ensures (λ _ m. Quiet m) (open_endpoint fabric r n)
      opened n h =
          call_then (open_ep r)
            (λ m. done (pos 0) (update r (λ e. record e { ep = some (fabric.fid n.log) }) m))
            (opens_ep r)
            (λ m p. returns (updated r (λ e. record e { ep = some (fabric.fid n.log) }) m p)) n h

      bound : (n : Node) → Quiet n → Ensures (λ _ m. Quiet m) (bind_and_enable fabric r n)
      bound = call_then (bind_ep r to_eq) _ (binds_ep r to_eq) (
          call_then (bind_ep r to_cq_tx) _ (binds_ep r to_cq_tx) (
            call_then (bind_ep r to_cq_rx) (call fabric (Fabric.enable r)) (binds_ep r to_cq_rx)
              (last_call (Fabric.enable r) (enables r))))

  start_endpoint-Quiet :
      (mode : ℤ) (r : Ref) (n : Node)
      → Quiet n
      → Ensures (λ _ m. Quiet m) (start_endpoint raw fabric mode r n)
  start_endpoint-Quiet mode r n h = elim (Bool-cases (mode ==ℤ bm_server)) [
    | inl is_server ↦ rw is_server (server-Quiet r n h)
    | inr not_server ↦ rw not_server (elim (Bool-cases (mode ==ℤ bm_client)) [
      | inl is_client ↦ rw is_client (client-Quiet r n h)
      | inr not_client ↦ rw not_client (elim (Bool-cases (mode ==ℤ bm_controller)) [
        | inl is_controller ↦ rw is_controller (server-Quiet r n h)
        | inr other ↦ rw other (returns h)
      ])
    ])
  ]

  start_all-Quiet : (n : Node) → Quiet n → Ensures (λ _ m. Quiet m) (start_all raw fabric n)
  unfolding start_all
  start_all-Quiet n h = each (rounds n.config.num_ep) 0 n h
    where
      each :
          (num i : ℕ) (m : Node)
          → Quiet m
          → Ensures
              (λ _ m'. Quiet m')
              (for_each i num
                (λ i. eps i >>= λ r. (start_endpoint raw fabric n.mode r >> pure (pos 0)))
                m)
      each zero i m k = returns k
      each (suc num) i m k =
          bind {P = λ ret m'. Quiet m'}
            (eps-rule i m (λ r. start_endpoint raw fabric n.mode r >> pure (pos 0))
              (bind (start_endpoint-Quiet n.mode (Fabric.peer i) m k) (λ s m' k'. returns k')))
            λ ret m' k'.
              or_return-rule Quiet ret
                (for_each (suc i) num
                  (λ i. eps i >>= λ r. (start_endpoint raw fabric n.mode r >> pure (pos 0))))
                m' k' (each num (suc i) m')

  -- `Node::init` of a controller.
  pub init_controller-Quiet :
      (summary checkpoint : List Transfer) (n : Node)
      → Quiet n
      → Ensures (λ _ m. Quiet m) (init raw fabric bm_controller summary checkpoint n)
  unfolding init controller_endpoints
  init_controller-Quiet summary checkpoint n h =
      bind (acquire_all-Quiet _ (record { config = h.config; traffic_eq = h.traffic_eq })) λ a m k.
        or_return-rule Quiet a (λ k. start_all raw fabric (controller_endpoints raw k)) m k
          λ k. start_all-Quiet (controller_endpoints raw m) (set_up m k)
    where
      set_up : (m : Node) → Quiet m → Quiet (controller_endpoints raw m)
      set_up m k =
          let base = atoi m.config.controller_port in
          let num_en = rounds m.config.num_en in
          let clients = λ (i : ℕ). port_text (base +ℤ pos i) in
          let first = push_all-same raw (λ i. m.addr) clients pos num_en 0 m in
          let mid = push_all raw (λ i. m.addr) clients pos 0 num_en m in
          let second =
            push_all-same raw (λ i. m.addr)
              (λ i. port_text (base +ℤ pos i +ℤ m.config.server_offset)) (λ i. pos (i + 1000))
              (rounds m.config.num_pn) 0 mid in
          record {
            config = second.0 ∙ first.0 ∙ k.config;
            traffic_eq = ap (traffic fabric) (second.1 ∙ first.1) ∙ k.traffic_eq;
          }

-- The configuration of a client once its endpoints are set up.
abbrev pub client_config : Config → Config
client_config c = record c { num_ep = c.num_pn }

-- `Node::init` of a client, which has refused a serverlist that is too short.
module _ (raw : Ref → Raw) (fabric : Fabric) (c : Config) (t : Traffic) where
  set_up_client :
      (m : Node) → Has fabric c t m → Has fabric (client_config c) t (client_endpoints raw m)
  unfolding client_endpoints set_cep
  set_up_client m k =
      let pushed =
        push_all-same raw (get_elem? m.config.addr_v) (λ i. m.config.port) pos
          (rounds m.config.num_pn) 0 (with_num_ep raw m.config.num_pn m) in
      record {
        config = pushed.0 ∙ ap client_config k.config;
        traffic_eq = ap (traffic fabric) pushed.1 ∙ k.traffic_eq;
      }

  started-Quiet :
      (n : Node)
      → Has fabric (client_config c) t n
      → Ensures
          (λ _ m. Has fabric (client_config c) t m)
          ((start_cep raw fabric >> start_all raw fabric) n)
  started-Quiet n h =
      bind (client-Quiet raw fabric (client_config c) t cep n h)
        λ ret m k. start_all-Quiet raw fabric (client_config c) t m k

  pub init_client-Quiet :
      (summary checkpoint : List Transfer) (n : Node)
      → Has fabric c t n
      → Ensures
          (IfOk (Has fabric (client_config c) t))
          (init raw fabric bm_client summary checkpoint n)
  unfolding init
  init_client-Quiet summary checkpoint n h =
      chain-IfOk {P = Has fabric c t}
        (weaken
          (acquire_all-Quiet raw fabric c t _
            (record { config = h.config; traffic_eq = h.traffic_eq }))
          (λ ret m k _. k))
        λ m k. elim (Bool-cases (ltb (length m.config.addr_v) (to_size_t m.config.num_pn))) [
          | inl short ↦ rw short (returns (λ z. cc))
          | inr enough ↦ rw enough (
              weaken (started-Quiet (client_endpoints raw m) (set_up_client m k))
                (λ ret m' k' _. k'))
        ]
