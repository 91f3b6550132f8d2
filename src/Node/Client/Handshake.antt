-- ===== src/Node/Client/Handshake.antt =====
-- The traffic of `connectToController`.
use libfabric_benchmark.Base.{ℕ, List, ◌∷◌, none, ◌≡◌, refl, ap}
use libfabric_benchmark.Base.Int.{pos}
use libfabric_benchmark.Config.{bm_connect, sizeof_int, sizeof_keys}
use libfabric_benchmark.Fabric.{Fabric, rx, cep}
use libfabric_benchmark.Machine.{Node, done}
use libfabric_benchmark.Machine.Ensures.{Ensures, bind, weaken, returned, IfOk, chain-IfOk}
use libfabric_benchmark.Traffic.{Posted, traffic, Has, IsDocumented}
use libfabric_benchmark.Traffic.Steps.{ctrl_recv-Has}
use libfabric_benchmark.Traffic.Outbox.{HasSent, wait_comp-HasSent}
use libfabric_benchmark.Node.Client.{connect_to_controller}
use libfabric_benchmark.Node.Client.Protocol.{linked, connect-Has, expect_command-HasSent}
use libfabric_benchmark.Node.Controller.Protocol.{start-Has}

-- The receives of the handshake, the latest first: the controller's keys and its command.
abbrev pub handshake : List Posted → List Posted
handshake l = record { at = cep; size = sizeof_int } ∷ record { at = cep; size = sizeof_keys } ∷ l

module _ {fabric : Fabric} (doc : IsDocumented fabric) (fuel : ℕ) where
  pub handshake_run :
      (n : Node)
      → let t = traffic fabric n.log in
        Ensures
          (IfOk (HasSent fabric n.config t.sent (handshake t.posted)))
          (connect_to_controller fabric fuel n)
  unfolding connect_to_controller
  handshake_run n =
      let t = traffic fabric n.log in
      let u = linked cep t in
      chain-IfOk {P = Has fabric n.config u} (connect-Has doc fuel cep t n (start-Has n)) λ m h.
        weaken
          (bind (ctrl_recv-Has cep sizeof_int m h) λ ret m' k.
            bind
              (wait_comp-HasSent fuel rx none m' (record {
                config = k.config;
                sent_eq = ap (λ x. x.sent) k.traffic_eq;
                posted_eq = ap (λ x. x.posted) k.traffic_eq;
              }))
              λ p m'' k'. expect_command-HasSent bm_connect p.0 p.1 m'' k')
          (λ s m₃ p _. p)

-- A successful connectToController has posted two receives at the controller's endpoint, of a key
-- pair and then of a command, and has sent no message. libfabric's queues never report a status
-- of 0.
pub traffic-connect_to_controller :
    (fabric : Fabric)
    → IsDocumented fabric
    → (fuel : ℕ) (n m : Node) → connect_to_controller fabric fuel n ≡ done (pos 0) m
    → let t = traffic fabric n.log in
      ((traffic fabric m.log).sent ≡ t.sent)
      × ((traffic fabric m.log).posted
          ≡ record { at = cep; size = sizeof_int }
            ∷ record { at = cep; size = sizeof_keys }
            ∷ t.posted)
traffic-connect_to_controller fabric doc fuel n m e =
    let h = returned (handshake_run doc fuel n) e refl in (h.sent_eq, h.posted_eq)
