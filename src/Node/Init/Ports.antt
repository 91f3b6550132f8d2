-- ===== src/Node/Init/Ports.antt =====
-- The ports that the nodes agree on without a message: those of the endpoints of `Node::init`.
use libfabric_benchmark.Base.{
  ℕ, zero, suc, ◌+◌, ◌<◌, ◌≡◌, refl, ◌∙◌, sym, ap, Option, get_elem?, arith,
}
use libfabric_benchmark.Base.Int.{ℤ, pos, ◌+ℤ◌, int_laws}
use libfabric_benchmark.Config.{Bytes}
use libfabric_benchmark.Text.{atoi, format_int}
use libfabric_benchmark.Fabric.{Ref, cep, peer}
use libfabric_benchmark.Machine.{Endpoint, Node}
use libfabric_benchmark.Endpoint.{Raw, new_endpoint}
use libfabric_benchmark.Node.{rounds}
use libfabric_benchmark.Node.Init.{
  push, set_cep, push_all, server_endpoints, client_endpoints, controller_endpoints, port_text,
  with_num_ep,
}

-- An endpoint with this address, port and number.
pub record Is (e : Endpoint) (addr : Option Bytes) (port : Bytes) (id : ℤ) : Type 0 where
  pub addr_eq : e.addr ≡ addr
  pub port_eq : e.port ≡ port
  pub id_eq : e.id ≡ id

module _ (raw : Ref → Raw) where
  push-here :
      (addr : Option Bytes) (port : Bytes) (id : ℤ) (n : Node)
      → Is ((push raw addr port id n).endpoint (peer n.eps_size)) addr port id
  unfolding push new_endpoint
  push-here addr port id n = ground arith

  push-other :
      (addr : Option Bytes) (port : Bytes) (id : ℤ) (n : Node) (i : ℕ)
      → i < n.eps_size
      → (push raw addr port id n).endpoint (peer i) ≡ n.endpoint (peer i)
  unfolding push
  push-other addr port id n i lt = ground arith

  push-size :
      (addr : Option Bytes) (port : Bytes) (id : ℤ) (n : Node)
      → (push raw addr port id n).eps_size ≡ suc n.eps_size
  unfolding push
  push-size addr port id n = omega arith

  module _ (addr : ℕ → Option Bytes) (port : ℕ → Bytes) (id : ℕ → ℤ) where
    push_all-size :
        (i num : ℕ) (n : Node) → (push_all raw addr port id i num n).eps_size ≡ n.eps_size + num
    unfolding push_all
    push_all-size i zero n = omega arith
    push_all-size i (suc num) n = omega (
      arith,
      push_all-size (suc i) num (push raw (addr i) (port i) (id i) n),
      push-size (addr i) (port i) (id i) n,
    )

    push_all-before :
        (i num : ℕ) (n : Node) (k : ℕ)
        → k < n.eps_size
        → (push_all raw addr port id i num n).endpoint (peer k) ≡ n.endpoint (peer k)
    unfolding push_all
    push_all-before i zero n k lt = refl
    push_all-before i (suc num) n k lt =
        push_all-before (suc i) num (push raw (addr i) (port i) (id i) n) k
          (omega (arith, push-size (addr i) (port i) (id i) n))
        ∙ push-other (addr i) (port i) (id i) n k lt

    -- The k-th endpoint that the loop pushes.
    push_all-Is :
        (i num : ℕ) (n : Node) (k j l : ℕ)
        → k < num
        → n.eps_size + k ≡ j
        → i + k ≡ l
        → Is ((push_all raw addr port id i num n).endpoint (peer j)) (addr l) (port l) (id l)
    unfolding push_all
    push_all-Is i zero n k j l lt e f = absurd (omega arith)
    push_all-Is i (suc num) n zero j l lt e f =
        let at_j : n.eps_size ≡ j = omega arith in
        let at_l : i ≡ l = omega arith in
        rw
          (
            push_all-before (suc i) num (push raw (addr i) (port i) (id i) n) j
                (omega (arith, push-size (addr i) (port i) (id i) n)),
            ← at_j,
            ← at_l,
          )
          (push-here (addr i) (port i) (id i) n)
    push_all-Is i (suc num) n (suc k) j l lt e f =
        push_all-Is (suc i) num (push raw (addr i) (port i) (id i) n) k j l (omega arith)
          (omega (arith, push-size (addr i) (port i) (id i) n)) (omega arith)

  set_cep-peer :
      (port : ℤ) (n : Node) (k : ℕ) → (set_cep raw port n).endpoint (peer k) ≡ n.endpoint (peer k)
  unfolding set_cep
  set_cep-peer port n k = refl

  set_cep-cep :
      (port : ℤ) (n : Node)
      → Is ((set_cep raw port n).endpoint cep) n.config.controller_addr (format_int port) n.id
  unfolding set_cep new_endpoint
  set_cep-cep port n = record { addr_eq = refl; port_eq = refl; id_eq = refl }

add_comm : (a b : ℤ) → a +ℤ b ≡ b +ℤ a
add_comm a b = grind int_laws

add_rotate : (a b c : ℤ) → a +ℤ b +ℤ c ≡ b +ℤ (a +ℤ c)
add_rotate a b c = grind int_laws

-- The e-th endpoint of a server, for e below num_en, listens at the port of each endpoint of the
-- client that was given start_port + e as its port; and the client's endpoint p, for p below
-- num_pn, has the address in line p of its serverlist. Both start with no endpoints and have the
-- same start_port.
pub server_client-ports :
    (raw raw' : Ref → Raw) (server client : Node) (e p : ℕ)
    → server.eps_size ≡ 0
    → client.eps_size ≡ 0
    → e < rounds server.config.num_en
    → p < rounds client.config.num_pn
    → client.config.start_port ≡ server.config.start_port
    → client.config.port ≡ format_int (pos e +ℤ atoi client.config.start_port)
    → (((server_endpoints raw server).endpoint (peer e)).port
        ≡ ((client_endpoints raw' client).endpoint (peer p)).port)
      × (((client_endpoints raw' client).endpoint (peer p)).addr ≡ get_elem? client.config.addr_v p)
unfolding server_endpoints client_endpoints
server_client-ports raw raw' server client e p h k lt lt' same given =
    let s =
      push_all-Is raw (λ i. server.addr) (λ i. port_text (atoi server.config.start_port +ℤ pos i))
        pos 0 (rounds server.config.num_en) (with_num_ep raw server.config.num_en server) e e e lt
        (omega arith) (omega arith) in
    let c =
      push_all-Is raw' (get_elem? client.config.addr_v) (λ i. client.config.port) pos 0
        (rounds client.config.num_pn) (with_num_ep raw client.config.num_pn client) p p p lt'
        (omega arith) (omega arith) in
    (
      s.port_eq
          ∙ ap format_int (
              ap (λ t. atoi t +ℤ pos e) (sym same)
              ∙ add_comm (atoi client.config.start_port) (pos e))
          ∙ sym given
          ∙ sym c.port_eq,
      c.addr_eq,
    )

-- For e below num_en the controller's endpoint e listens at the port that client e connects to;
-- and for p below num_pn its endpoint num_en + p listens at the port that server p connects to.
-- All have the same controller_port, the server has the controller's server_offset, and the
-- controller starts with no endpoints.
pub controller-ports :
    (raw raw' : Ref → Raw) (controller client server : Node) (e p : ℕ)
    → controller.eps_size ≡ 0
    → e < rounds controller.config.num_en
    → p < rounds controller.config.num_pn
    → client.config.controller_port ≡ controller.config.controller_port
    → client.id ≡ pos e
    → server.config.controller_port ≡ controller.config.controller_port
    → server.config.server_offset ≡ controller.config.server_offset
    → server.id ≡ pos p
    → (((controller_endpoints raw controller).endpoint (peer e)).port
        ≡ ((client_endpoints raw' client).endpoint cep).port)
      × (((controller_endpoints raw controller).endpoint
            (peer (rounds controller.config.num_en + p))).port
          ≡ ((server_endpoints raw' server).endpoint cep).port)
unfolding server_endpoints client_endpoints controller_endpoints new_endpoint
controller-ports raw raw' controller client server e p h lt lt' port_c id_c port_s offset id_s =
    let base = atoi controller.config.controller_port in
    let num_en = rounds controller.config.num_en in
    let num_pn = rounds controller.config.num_pn in
    let first =
      push_all raw (λ i. controller.addr) (λ i. port_text (base +ℤ pos i)) pos 0 num_en
        controller in
    let size =
      push_all-size raw (λ i. controller.addr) (λ i. port_text (base +ℤ pos i)) pos 0 num_en
        controller in
    let c =
      push_all-Is raw (λ i. controller.addr) (λ i. port_text (base +ℤ pos i)) pos 0 num_en
        controller e e e lt (omega arith) (omega arith) in
    let s =
      push_all-Is raw (λ i. controller.addr)
        (λ i. port_text (base +ℤ pos i +ℤ controller.config.server_offset)) (λ i. pos (i + 1000)) 0
        num_pn first p (num_en + p) p lt' (omega arith) (omega arith) in
    let before =
      push_all-before raw (λ i. controller.addr)
        (λ i. port_text (base +ℤ pos i +ℤ controller.config.server_offset)) (λ i. pos (i + 1000)) 0
        num_pn first e (omega arith) in
    (
      ap (λ x. x.port) before
          ∙ c.port_eq
          ∙ ap format_int (add_comm base (pos e) ∙ rw (port_c, id_c))
          ∙ sym (set_cep-cep raw' (client.id +ℤ atoi client.config.controller_port) client).port_eq,
      s.port_eq
          ∙ ap format_int
              (add_rotate base (pos p) controller.config.server_offset ∙ rw (port_s, id_s, offset))
          ∙ sym
              (set_cep-cep raw'
                (server.id +ℤ (atoi server.config.controller_port +ℤ server.config.server_offset))
                server).port_eq,
    )
