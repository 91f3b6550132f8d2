-- ===== src/Node/Client/Protocol.antt =====
-- What the client's functions have sent, posted and read when they succeed.
use libfabric_benchmark.Base.{
  ℕ, zero, suc, List, ◌∷◌, Option, none, some, ◌≡◌, refl, ◌∙◌, ap, Bool-cases, Option-cases, inl,
  inr, ◌==◌,
}
use libfabric_benchmark.Base.Int.{ℤ, pos, negsuc, to_size_t, ◌==ℤ◌}
use libfabric_benchmark.Config.{Config, bm_client, bm_start, bm_connected, sizeof_int, sizeof_keys}
use libfabric_benchmark.Fabric.{
  Fabric, tx, rx, Ref, cep, peer, command, first_int, Call, Completion, CmEvent, connreq, connected,
  shutdown, invalid,
}
use libfabric_benchmark.Machine.{Node, done, ◌>>=◌, eps, for_each, deref, call, note, abort}
use libfabric_benchmark.Machine.Ensures.{
  Ensures, returns, faults, bind, weaken, returned, IfOk, chain-IfOk, or_return-IfOk, eps-Ensures,
}
use libfabric_benchmark.Poll.{sort_cases, wait_comp}
use libfabric_benchmark.Traffic.{Sent, Posted, Traffic, traffic, Has, IsDocumented, posts}
use libfabric_benchmark.Traffic.Outbox.{HasSent, wait_comp-HasSent}
use libfabric_benchmark.Traffic.Steps.{ctrl_recv-Has, send_command-Has, wait_comp-Has, one_read}
use libfabric_benchmark.Endpoint.{take_keys, await_connected, connect}
use libfabric_benchmark.Endpoint.Connect.{message_cases}
use libfabric_benchmark.Node.{rounds}
use libfabric_benchmark.Node.Client.{expect_command, servers_body, connect_to_servers}
use libfabric_benchmark.Node.Controller.Protocol.{in_mode-IfOk, start-Has}

-- A receive of a key pair at `r`, and its completion.
abbrev pub linked : Ref → Traffic → Traffic
linked r t = one_read rx (record t { posted = record { at = r; size = sizeof_keys } ∷ t.posted })

-- The endpoints i, …, i + num - 1, each linked.
abbrev pub all_linked : ℕ → ℕ → Traffic → Traffic
all_linked i zero t = t
all_linked i (suc num) t = all_linked (suc i) num (linked (peer i) t)

module _ {fabric : Fabric} {c : Config} where
  noted :
      {t : Traffic} {n m : Node}
      → Has fabric c t n
      → m.config ≡ n.config
      → traffic fabric m.log ≡ traffic fabric n.log
      → Has fabric c t m
  noted h e f = record { config = e ∙ h.config; traffic_eq = f ∙ h.traffic_eq }

  request-Has :
      (r : Ref) (t : Traffic) (n : Node)
      → Has fabric c t n
      → Ensures (IfOk (Has fabric c t)) (call fabric (Call.connect r) n)
  request-Has r t n h = returns (λ _. noted h refl refl)

  await_connected-Has :
      (t : Traffic) (n : Node)
      → Has fabric c t n
      → Ensures (IfOk (Has fabric c t)) (await_connected fabric n)
  unfolding await_connected
  await_connected-Has t n h = elim (sort_cases (fabric.poll_eq n.log).status) [
    | inl e ↦ rw (e, await_connected) (after (fabric.poll_eq n.log).event)
    | inr (inl e) ↦ rw (e, await_connected) (returns (λ _. noted h refl refl))
    | inr (inr e) ↦ rw (e, await_connected) (returns (λ z. cc))
  ]
    where
      after :
          (event : CmEvent)
          → Ensures (IfOk (Has fabric c t)) (elim event [
            | connected ↦ done (pos 0) (note Call.eq_sread n)
            | _ ↦ done (negsuc 0) (note Call.eq_sread n)
          ])
      after connreq = returns (λ z. cc)
      after connected = returns (λ _. noted h refl refl)
      after shutdown = returns (λ z. cc)
      after (invalid k) = returns (λ z. cc)

  take_keys-Has :
      (r : Ref) (e : Completion) (t : Traffic) (n : Node)
      → Has fabric c t n
      → Ensures (IfOk (Has fabric c t)) (take_keys fabric r e n)
  unfolding take_keys
  take_keys-Has r e t n h = elim (Bool-cases (to_size_t (deref e.op_context n).size == e.len)) [
    | inr other_size ↦ rw other_size (returns (λ z. cc))
    | inl same ↦ rw same (elim (Bool-cases (e.len == sizeof_keys)) [
      | inr short ↦ rw short faults
      | inl whole ↦ rw whole (elim (message_cases (n.endpoint r).ctrl_buff) [
        | inl (k, held) ↦ rw held (returns (λ _. noted h refl refl))
        | inr (inl (c, held)) ↦ rw held faults
        | inr (inr (inl (ts, held))) ↦ rw held faults
        | inr (inr (inr (c, held))) ↦ rw held faults
      ])
    ])
  ]

module _ {fabric : Fabric} (doc : IsDocumented fabric) (fuel : ℕ) {c : Config} where
  pub connect-Has :
      (r : Ref) (t : Traffic) (n : Node)
      → Has fabric c t n
      → Ensures (IfOk (Has fabric c (linked r t))) (connect fabric fuel r n)
  unfolding connect
  connect-Has r t n h =
      let u = record t { posted = record { at = r; size = sizeof_keys } ∷ t.posted } in
      chain-IfOk {P = Has fabric c u} (weaken (ctrl_recv-Has r sizeof_keys n h) (λ ret m p _. p))
        λ m p. chain-IfOk {P = Has fabric c u} (request-Has r u m p) λ m' p'.
          chain-IfOk {P = Has fabric c u} (await_connected-Has u m' p') λ m'' p''.
            bind (wait_comp-Has doc fuel rx none {t = u} m'' p'') λ q k got.
              or_return-IfOk (Has fabric c (linked r t)) q.0
                (elim q.1 [ none ↦ abort | some e ↦ take_keys fabric r e ]) k got
                λ g. elim (Option-cases q.1) [
                  | inl no_entry ↦ rw no_entry faults
                  | inr (e, is_e) ↦ rw is_e (take_keys-Has r e (linked r t) k g)
                ]

  connect_all-Has :
      (num i : ℕ) (t : Traffic) (n : Node)
      → Has fabric c t n
      → Ensures
          (IfOk (Has fabric c (all_linked i num t)))
          (for_each i num (λ i. eps i >>= connect fabric fuel) n)
  unfolding for_each
  connect_all-Has zero i t n h = returns (λ _. h)
  connect_all-Has (suc num) i t n h =
      chain-IfOk {P = Has fabric c (linked (peer i) t)}
        (bind (eps-Ensures i n) λ r m e. rw (e.0, e.1) (connect-Has (peer i) t n h))
        λ m p. connect_all-Has num (suc i) (linked (peer i) t) m p

module _ {fabric : Fabric} {c : Config} {sent : List Sent} {posted : List Posted} where
  pub expect_command-HasSent :
      (confirm ret : ℤ) (entry : Option Completion) (n : Node)
      → HasSent fabric c sent posted n
      → Ensures (λ s m. HasSent fabric c sent posted m) (expect_command confirm ret entry n)
  unfolding expect_command
  expect_command-HasSent confirm ret none n h = faults
  expect_command-HasSent confirm ret (some e) n h = elim (Bool-cases (e.len == sizeof_int)) [
    | inr wrong ↦ rw wrong (returns h)
    | inl right ↦ rw right (elim (Bool-cases (first_int (n.endpoint cep).ctrl_buff ==ℤ confirm)) [
      | inl same ↦ rw same (returns h)
      | inr wrong ↦ rw wrong (returns h)
    ])
  ]

all_linked-lem :
    (num i : ℕ) (t : Traffic)
    → ((all_linked i num t).sent ≡ t.sent)
      × ((all_linked i num t).posted ≡ posts i num sizeof_keys t.posted)
all_linked-lem zero i t = (refl, refl)
all_linked-lem (suc num) i t = all_linked-lem num (suc i) (linked (peer i) t)

module _ {fabric : Fabric} (doc : IsDocumented fabric) (fuel : ℕ) where
  -- The messages that a client has sent after it has confirmed.
  abbrev confirmed : Traffic → List Sent
  confirmed t = record { to = cep; size = sizeof_int; message = command bm_connected } ∷ t.sent

  abbrev received : ℕ → Traffic → List Posted
  received num t = record { at = cep; size = sizeof_int } ∷ posts 0 num sizeof_keys t.posted

  waits_run :
      (c : Config) (sent : List Sent) (posted : List Posted) (n : Node)
      → HasSent fabric c sent posted n
      → Ensures
          (λ s m. HasSent fabric c sent posted m)
          ((wait_comp fabric fuel tx none >>= λ p.
              wait_comp fabric fuel rx p.1 >>= λ q. expect_command bm_start q.0 q.1)
            n)
  waits_run c sent posted n h = bind (wait_comp-HasSent fuel tx none n h) λ p m k.
      bind (wait_comp-HasSent fuel rx p.1 m k)
        λ q m' k'. expect_command-HasSent bm_start q.0 q.1 m' k'

  pub connect_run :
      (n : Node)
      → let num = rounds n.config.num_ep in
        let t = traffic fabric n.log in
        Ensures
          (IfOk (HasSent fabric n.config (confirmed t) (received num t)))
          (connect_to_servers fabric fuel n)
  unfolding connect_to_servers
  connect_run n =
      let num = rounds n.config.num_ep in
      let t = traffic fabric n.log in
      let u = all_linked 0 num t in
      let v = record u { posted = record { at = cep; size = sizeof_int } ∷ u.posted } in
      let w = record v {
        sent = record { to = cep; size = sizeof_int; message = command bm_connected } ∷ v.sent;
      } in
      in_mode-IfOk bm_client (servers_body fabric fuel) n (
        chain-IfOk {P = Has fabric n.config u} (connect_all-Has doc fuel num 0 t n (start-Has n))
          λ m h.
            chain-IfOk {P = Has fabric n.config v}
              (weaken (ctrl_recv-Has cep sizeof_int m h) (λ ret m' p _. p))
              λ m' h'.
                chain-IfOk {P = Has fabric n.config w}
                  (weaken (send_command-Has cep bm_connected m' h') (λ ret m'' p _. p))
                  λ m'' h''.
                    weaken
                      (waits_run n.config (confirmed t) (received num t) m'' (record {
                        config = h''.config;
                        sent_eq =
                            ap (λ x. x.sent) h''.traffic_eq
                            ∙ ap
                                (λ l.
                                  record {
                                    to = cep;
                                    size = sizeof_int;
                                    message = command bm_connected;
                                  }
                                  ∷ l)
                                (all_linked-lem num 0 t).0;
                        posted_eq =
                            ap (λ x. x.posted) h''.traffic_eq
                            ∙ ap (λ l. record { at = cep; size = sizeof_int } ∷ l)
                                (all_linked-lem num 0 t).1;
                      }))
                      (λ s m₃ p _. p))

-- A successful connectToServers has posted one receive of a key pair at each server's endpoint,
-- in order, and one of a command at the controller's, and has sent one message: the command
-- connected, to the controller. libfabric's queues never report a status of 0.
pub traffic-connect_to_servers :
    (fabric : Fabric)
    → IsDocumented fabric
    → (fuel : ℕ) (n m : Node) → connect_to_servers fabric fuel n ≡ done (pos 0) m
    → let t = traffic fabric n.log in
      ((traffic fabric m.log).sent
        ≡ record { to = cep; size = sizeof_int; message = command bm_connected } ∷ t.sent)
      × ((traffic fabric m.log).posted
          ≡ record { at = cep; size = sizeof_int }
            ∷ posts 0 (rounds n.config.num_ep) sizeof_keys t.posted)
traffic-connect_to_servers fabric doc fuel n m e =
    let h = returned (connect_run doc fuel n) e refl in (h.sent_eq, h.posted_eq)
