-- ===== src/Node/Listen/Silent.antt =====
-- Listening sends no command: of what is sent while connections are awaited, all are key pairs.
use libfabric_benchmark.Base.{ℕ, zero, suc, List, ◌≡◌, refl, ◌∙◌, Bool-cases, inl, inr}
use libfabric_benchmark.Base.Int.{ℤ, pos, ltb_ℤ, ◌+ℤ◌}
use libfabric_benchmark.Config.{Config, bm_controller}
use libfabric_benchmark.Fabric.{Fabric, Call}
use libfabric_benchmark.Machine.{Node, ◌>>=◌, or_return, eps, for_each, note, pure}
use libfabric_benchmark.Machine.Ensures.{
  Ensures, returns, spins, bind, weaken, or_return-rule, eps-rule, IfOk,
}
use libfabric_benchmark.Poll.{sort_cases, wait_cm_event}
use libfabric_benchmark.Endpoint.{listen}
use libfabric_benchmark.Traffic.{Sent, traffic}
use libfabric_benchmark.Traffic.Orders.{orders, HasOrders}
use libfabric_benchmark.Node.{rounds}
use libfabric_benchmark.Node.Controller.Protocol.{in_mode-IfOk}
use libfabric_benchmark.Node.Listen.{
  wait_conns, wait_all_conn, listen_body, listen_controller, count_event,
}
use libfabric_benchmark.Node.Listen.Kept.{
  SetUp, opens, binds, enables, accepts, sends_keys, IsKept, on_cm_event-keeps,
}

module _ (fabric : Fabric) (c : Config) (l : List Sent) where
  SetUp-orders :
      (k : Call) (n : Node)
      → SetUp k
      → orders (traffic fabric (note k n).log).sent ≡ orders (traffic fabric n.log).sent
  SetUp-orders k n (opens r) = refl
  SetUp-orders k n (binds r b) = refl
  SetUp-orders k n (enables r) = refl
  SetUp-orders k n (accepts r) = refl
  SetUp-orders k n (sends_keys r m size keys e) = rw e

  HasOrders-IsKept : IsKept (HasOrders fabric c l)
  HasOrders-IsKept = record {
    noted = λ k n q h. record { config = h.config; sent = SetUp-orders k n q ∙ h.sent };
    updated = λ j f n h. record { config = h.config; sent = h.sent };
  }

  same :
      {n m : Node}
      → HasOrders fabric c l n
      → m.config ≡ n.config
      → orders (traffic fabric m.log).sent ≡ orders (traffic fabric n.log).sent
      → HasOrders fabric c l m
  same h e f = record { config = e ∙ h.config; sent = f ∙ h.sent }

  wait_cm_event-HasOrders :
      (fuel : ℕ) (n : Node)
      → HasOrders fabric c l n
      → Ensures (λ p m. HasOrders fabric c l m) (wait_cm_event fabric fuel n)
  unfolding wait_cm_event
  wait_cm_event-HasOrders zero n h = spins
  wait_cm_event-HasOrders (suc fuel) n h = elim (sort_cases (fabric.poll_eq n.log).status) [
    | inl e ↦ rw (e, wait_cm_event) (returns (same h refl refl))
    | inr (inl e) ↦ rw (e, wait_cm_event) (wait_cm_event-HasOrders fuel _ (same h refl refl))
    | inr (inr e) ↦ rw (e, wait_cm_event) (returns (same h refl refl))
  ]

  wait_conns-HasOrders :
      (fuel turns : ℕ) (goal counter : ℤ) (n : Node)
      → HasOrders fabric c l n
      → Ensures (λ _ m. HasOrders fabric c l m) (wait_conns fabric fuel turns goal counter n)
  unfolding wait_conns
  wait_conns-HasOrders fuel zero goal counter n h = spins
  wait_conns-HasOrders fuel (suc turns) goal counter n h = elim (Bool-cases (ltb_ℤ counter goal)) [
    | inr enough ↦ rw enough (returns h)
    | inl more ↦ rw more (
        bind (wait_cm_event-HasOrders fuel n h) λ p m k.
          or_return-rule (HasOrders fabric c l) p.0 _ m k λ k.
            bind (on_cm_event-keeps fabric HasOrders-IsKept (rounds m.config.num_ep) p.0 p.1 m k)
              λ ret m' k'.
                or_return-rule (HasOrders fabric c l) ret
                  (wait_conns fabric fuel turns goal (count_event p.1.event counter)) m' k'
                  (wait_conns-HasOrders fuel turns goal (count_event p.1.event counter) m'))
  ]

  listen_all-HasOrders :
      (num i : ℕ) (n : Node)
      → HasOrders fabric c l n
      → Ensures (λ _ m. HasOrders fabric c l m) (for_each i num (λ i. eps i >>= listen fabric) n)
  unfolding for_each listen
  listen_all-HasOrders zero i n h = returns h
  listen_all-HasOrders (suc num) i n h =
      bind (eps-rule i n (listen fabric) (returns (same h refl refl))) λ ret m k.
        or_return-rule (HasOrders fabric c l) ret
          (for_each (suc i) num (λ i. eps i >>= listen fabric)) m k
          (listen_all-HasOrders num (suc i) m)

  -- A controller that listens with success has sent no command.
  pub listen_controller-HasOrders :
      (fuel turns : ℕ) (n : Node)
      → HasOrders fabric c l n
      → Ensures (IfOk (HasOrders fabric c l)) (listen_controller fabric fuel turns n)
  unfolding listen_controller wait_all_conn
  listen_controller-HasOrders fuel turns n h =
      let num_ep = n.config.num_pn +ℤ n.config.num_en in
      in_mode-IfOk bm_controller (listen_body fabric fuel turns) n (
        bind (listen_all-HasOrders (rounds num_ep) 0 n h) λ ret m k.
          weaken
            (or_return-rule (HasOrders fabric c l) ret
              (wait_all_conn fabric fuel turns num_ep >>= λ s. or_return s (pure (pos 0))) m k
              λ k.
                bind (wait_conns-HasOrders fuel turns num_ep (pos 0) m k)
                  λ s m' k'. or_return-rule (HasOrders fabric c l) s (pure (pos 0)) m' k' returns)
            (λ r m p _. p))
